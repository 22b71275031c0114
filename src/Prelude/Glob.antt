-- ===== src/Prelude/Glob.antt =====
-- path.Match of Go's standard library, as the program calls it: a pattern is read into tokens, and
-- is bad where it cannot be; `*` and `?` do not cross a slash. Texts are code points: that a star of path.Match can
-- end inside a rune of several bytes is not modelled.
use Prim.Native.Nat.{ℕ}
use mathlib.Core.Bool.{Bool, true, false, not, ◌&&◌, ◌||◌, xor}
use mathlib.Core.Option
use mathlib.Core.Option.{Option, none, some}
use mathlib.Core.List.{List, [], ◌∷◌, ◌++◌}
use jenkins_bench.Prelude.Tests.{leb, ◌==◌, if◌then◌else◌}
use jenkins_bench.Prelude.Text.{Text, is_empty}

pub data Token : Type 0 where
  star one : Token
  literal : ℕ → Token
  class : Bool → List (ℕ × ℕ) → Token

-- Where the reader stands: between tokens, behind a backslash, or in a bracket before a range,
-- behind its low end (which may be escaped) or behind the dash.
pub data Mode : Type 0 where
  plain escaped opened : Mode
  low low_escaped : Bool → List (ℕ × ℕ) → Mode
  after high high_escaped : Bool → List (ℕ × ℕ) → ℕ → Mode

-- One character: the tokens that it completes and the next mode, or a bad pattern. In a bracket a
-- dash or a closing bracket is no range end.
read_low : Bool → List (ℕ × ℕ) → ℕ → Option (List Token × Mode)
read_low neg rs c =
    if c == b']'
    then (elim rs [ [] ↦ none | r ∷ more ↦ some (class neg (r ∷ more) ∷ [], plain) ])
    else if c == b'-'
    then none
    else if c == b'\\'
    then some ([], low_escaped neg rs)
    else some ([], after neg rs c)

read : Mode → ℕ → Option (List Token × Mode)
unfolding read_low
read plain c =
    if c == b'*'
    then some (star ∷ [], plain)
    else if c == b'?'
    then some (one ∷ [], plain)
    else if c == b'['
    then some ([], opened)
    else if c == b'\\'
    then some ([], escaped)
    else some (literal c ∷ [], plain)
read escaped c = some (literal c ∷ [], plain)
read opened c = if c == b'^' then some ([], low true []) else read_low false [] c
read (low neg rs) c = read_low neg rs c
read (low_escaped neg rs) c = some ([], after neg rs c)
read (after neg rs l) c =
    if c == b'-' then some ([], high neg rs l) else read_low neg (rs ++ (l, l) ∷ []) c
read (high neg rs l) c =
    if c == b']' || c == b'-'
    then none
    else if c == b'\\'
    then some ([], high_escaped neg rs l)
    else some ([], low neg (rs ++ (l, c) ∷ []))
read (high_escaped neg rs l) c = some ([], low neg (rs ++ (l, c) ∷ []))

tokens_from : Mode → Text → Option (List Token)
tokens_from plain [] = some []
tokens_from mode [] = none
tokens_from mode (c ∷ s) = elim (read mode c) [
  | none ↦ none
  | some (ts, m) ↦ Option.map (λ more. ts ++ more) (tokens_from m s)
]

-- `none` is ErrBadPattern.
unfoldable pub tokens : Text → Option (List Token)
unfolding read tokens_from
tokens p = tokens_from plain p

abbrev pub in_ranges : ℕ → List (ℕ × ℕ) → Bool
in_ranges c [] = false
in_ranges c ((lo, hi) ∷ rs) = (leb lo c && leb c hi) || in_ranges c rs

-- What comes of matching a chunk, the tokens up to the next star: it does not match here, or it does and path.Match
-- stays with that, for good or ill.
pub data Chunk : Type 0 where
  missed : Chunk
  settled : Bool → Chunk

-- A star takes the shortest run without a slash behind which the next chunk matches.
abbrev pub star_match : (Text → Chunk) → Text → Bool
star_match chunk [] = elim (chunk []) [ missed ↦ false | settled b ↦ b ]
star_match chunk (c ∷ s) =
    let longer = star_match chunk s in
    elim (chunk (c ∷ s)) [ missed ↦ not (c == b'/') && longer | settled b ↦ b ]

abbrev pub head_match : (ℕ → Bool) → (Text → Chunk) → Text → Chunk
head_match takes follows [] = missed
head_match takes follows (c ∷ s) = let rest = follows s in if takes c then rest else missed

-- The last chunk has to use up the name.
unfoldable pub match_chunk : List Token → Text → Chunk
match_chunk [] s = if is_empty s then settled true else missed
match_chunk (star ∷ ts) s = settled (star_match (match_chunk ts) s)
match_chunk (one ∷ ts) s = head_match (λ c. not (c == b'/')) (match_chunk ts) s
match_chunk (literal x ∷ ts) s = head_match (λ c. c == x) (match_chunk ts) s
match_chunk (class neg rs ∷ ts) s = head_match (λ c. xor (in_ranges c rs) neg) (match_chunk ts) s

unfoldable pub match_tokens : List Token → Text → Bool
unfolding match_chunk
match_tokens ts s = elim (match_chunk ts s) [ missed ↦ false | settled b ↦ b ]

-- path.Match with its error ignored: a bad pattern matches nothing.
unfoldable pub glob_match : Text → Text → Bool
unfolding tokens match_tokens
glob_match pattern name = elim (tokens pattern) [ none ↦ false | some ts ↦ match_tokens ts name ]
