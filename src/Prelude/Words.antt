-- ===== src/Prelude/Words.antt =====
-- strings.Fields, strings.Join with a space, and strings.Repeat of Go's standard library.
use Prim.Native.Nat.{ℕ, zero, suc, ◌+◌, ◌/◌, ◌%◌}
use mathlib.Core.Path.{◌≡◌, refl, sym, ap, ◌∙◌}
use mathlib.Core.Bool.{Bool, false, ◌||◌}
use mathlib.Core.List.{List, [], ◌∷◌, ◌++◌, reverse}
use jenkins_bench.Prelude.Tests.{ltb, ◌==◌, if◌then◌else◌, Bool-cases}
use jenkins_bench.Prelude.Lists.{All}
use jenkins_bench.Prelude.Text.{Text, is_empty, is_space, join, trim_left, has_prefix}
use mathlib.Core.List.{append_assoc, append-nil}
use mathlib.Core.Logic.{inl, inr}

-- The words of a text behind the beginning of one.
unfoldable pub fields_from : Text → Text → List Text
fields_from word [] = if is_empty word then [] else word ∷ []
fields_from word (c ∷ s) =
    let parted = fields_from [] s in
    let joined = fields_from (word ++ c ∷ []) s in
    if is_space c then (if is_empty word then parted else word ∷ parted) else joined

-- strings.Fields
unfoldable pub fields : Text → List Text
fields s = fields_from [] s

-- strings.Join(words, " ")
abbrev pub join_words : List Text → Text
join_words = join b' '

-- strings.Join
abbrev pub join_with : Text → List Text → Text
join_with sep [] = []
join_with sep (s ∷ []) = s
join_with sep (s ∷ t ∷ ss) = s ++ sep ++ join_with sep (t ∷ ss)

-- strings.Repeat of one rune
abbrev pub repeat : ℕ → ℕ → Text
repeat c zero = []
repeat c (suc n) = c ∷ repeat c n

-- strings.TrimRight(s, " ")
abbrev pub trim_right_spaces : Text → Text
trim_right_spaces s = reverse (trim_left (λ c. c == b' ') (reverse s))

-- strings.Contains
abbrev pub contains : Text → Text → Bool
contains [] sub = is_empty sub
contains (c ∷ s) sub = has_prefix (c ∷ s) sub || contains s sub

-- len(s): the bytes of the text in UTF-8
abbrev pub byte_length : Text → ℕ
byte_length [] = 0
byte_length (c ∷ s) =
    (if ltb c 0x80 then 1 else if ltb c 0x800 then 2 else if ltb c 0x10000 then 3 else 4)
    + byte_length s

-- The decimal digits of a number that is less than 10 to the power of the fuel.
unfoldable pub digits : ℕ → ℕ → Text
digits zero n = []
digits (suc fuel) n =
    let rest = digits fuel (n / 10) in
    if ltb n 10 then (b'0' + n) ∷ [] else rest ++ (b'0' + n % 10) ∷ []

-- fmt's %d: a number has no more digits than its successor counts
abbrev pub decimal : ℕ → Text
decimal n = digits (suc n) n

-- Without white space.
abbrev pub IsSolid : Text → Type 0
IsSolid = All (λ c. is_space c ≡ false)

abbrev pub IsWord : Text → Type 0
IsWord w = (is_empty w ≡ false) × IsSolid w

IsSolid-snoc : (w : Text) (c : ℕ) → IsSolid w → is_space c ≡ false → IsSolid (w ++ c ∷ [])
IsSolid-snoc [] c h p = (p, tt)
IsSolid-snoc (x ∷ w) c h p = (h.0, IsSolid-snoc w c h.1 p)

fields_from-IsWord : (word s : Text) → IsSolid word → All IsWord (fields_from word s)
unfolding fields_from
fields_from-IsWord [] [] h = tt
fields_from-IsWord (x ∷ word) [] h = ((refl, h), tt)
fields_from-IsWord [] (c ∷ s) h = elim (Bool-cases (is_space c)) [
  | inl e ↦ rw e (fields_from-IsWord [] s tt)
  | inr e ↦ rw e (fields_from-IsWord (c ∷ []) s (e, tt))
]
fields_from-IsWord (x ∷ word) (c ∷ s) h = elim (Bool-cases (is_space c)) [
  | inl e ↦ rw e ((refl, h), fields_from-IsWord [] s tt)
  | inr e ↦ rw e (fields_from-IsWord (x ∷ (word ++ c ∷ [])) s (IsSolid-snoc (x ∷ word) c h e))
]

pub fields-IsWord : (s : Text) → All IsWord (fields s)
unfolding fields
fields-IsWord s = fields_from-IsWord [] s tt

-- A word at the front is read to its end.
fields_from-append :
    (word w s : Text) → IsSolid w → fields_from word (w ++ s) ≡ fields_from (word ++ w) s
unfolding fields_from
fields_from-append word [] s h = rw append-nil refl
fields_from-append word (c ∷ w) s h =
    rw h.0 (fields_from-append (word ++ c ∷ []) w s h.1 ∙ rw append_assoc refl)

fields_from-word : (w s : Text) → IsWord w → fields_from w (b' ' ∷ s) ≡ w ∷ fields_from [] s
unfolding fields_from is_space
fields_from-word w s h = rw h.0 refl

fields_from-nil : (w : Text) → IsWord w → fields_from w [] ≡ w ∷ []
unfolding fields_from
fields_from-nil w h = rw h.0 refl

fields_from-empty : fields_from [] [] ≡ []
unfolding fields_from
fields_from-empty = refl

-- Words joined by a space are read back.
pub fields-join_words : (ws : List Text) → All IsWord ws → fields (join_words ws) ≡ ws
unfolding fields
fields-join_words [] h = fields_from-empty
fields-join_words (w ∷ []) h =
    ap (fields_from []) (sym (append-nil w))
    ∙ fields_from-append [] w [] h.0.1
    ∙ fields_from-nil w h.0
fields-join_words (w ∷ v ∷ ws) h =
    fields_from-append [] w (b' ' ∷ join b' ' (v ∷ ws)) h.0.1
    ∙ fields_from-word w (join b' ' (v ∷ ws)) h.0
    ∙ ap (λ r. w ∷ r) (fields-join_words (v ∷ ws) h.1)
