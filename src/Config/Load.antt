-- ===== src/Config/Load.antt =====
-- internal/config/config.go: `LoadWithOverrides` and `applyOverride`; internal/config/discover.go: `Discover`. The YAML
-- decoder, the file system and the environment are parameters.
pub mod Laws
use jenkins_bench.Prelude.{
  ℕ, suc, ◌+◌, Bool, true, false, not, ◌&&◌, ◌||◌, Option, none, some, List, [], ◌∷◌, ◌++◌, leb,
  ◌==◌, if◌then◌else◌,
}
use jenkins_bench.Prelude.Text.{Text, codes, is_empty, has_rune, split}
use jenkins_bench.Prelude.Words.{repeat}
use jenkins_bench.Prelude.Result.{Result, ok, err, ◌>>=◌}
use jenkins_bench.Config.{Config, default, validate, ConfigError}

pub data LoadError : Type 0 where
  not_read not_parsed : Text → LoadError
  no_assignment many_lines bad_key not_decoded : Text → LoadError
  invalid : ConfigError → LoadError

abbrev pub is_letter : ℕ → Bool
is_letter c = (leb b'A' c && leb c b'Z') || (leb b'a' c && leb c b'z')

abbrev pub is_key_rune : ℕ → Bool
is_key_rune c = is_letter c || (leb b'0' c && leb c b'9')

abbrev pub all_runes : (ℕ → Bool) → Text → Bool
all_runes p [] = true
all_runes p (c ∷ s) = p c && all_runes p s

-- keySegment
unfoldable pub is_key_segment : Text → Bool
is_key_segment [] = false
is_key_segment (c ∷ s) = is_letter c && all_runes is_key_rune s

-- strings.Cut at a single rune
unfoldable pub cut : ℕ → Text → Option (Text × Text)
cut d [] = none
cut d (c ∷ s) =
    let rest : Option (Text × Text) = elim (cut d s) [
      | none ↦ none
      | some (a, b) ↦ some (c ∷ a, b)
    ] in
    if c == d then some ([], s) else rest

-- The loop of applyOverride over the segments, the `i`-th being the next; `none` is a bad key.
unfoldable pub document_from : ℕ → List Text → Text → Option Text
unfolding is_key_segment
document_from i [] value = some []
document_from i (seg ∷ []) value =
    if is_key_segment seg
    then some (repeat b' ' (i + i) ++ seg ++ codes ": " ++ value ++ b'\n' ∷ [])
    else none
document_from i (seg ∷ next ∷ segs) value =
    let rest : Option Text = elim (document_from (i + 1) (next ∷ segs) value) [
      | none ↦ none
      | some doc ↦ some (repeat b' ' (i + i) ++ seg ++ codes ":\n" ++ doc)
    ] in
    if is_key_segment seg then rest else none

-- The YAML document that an override is shorthand for.
unfoldable pub override_document : Text → Result LoadError Text
unfolding cut document_from
override_document set = elim (cut b'=' set) [
  | none ↦ err (no_assignment set)
  | some (key, value) ↦
      if has_rune b'\n' value || has_rune b'\r' value
      then err (many_lines set)
      else (elim (document_from 0 (split b'.' key) value) [
        | none ↦ err (bad_key set)
        | some doc ↦ ok doc
      ])
]

-- What the loader is given: reading a file, and the strict decoder over a configuration, for which an empty document
-- is no error.
pub record Outside : Type 0 where
  pub read : Text → Option Text
  pub decode : Text → Config → Option Config

abbrev pub decoded : Option Config → LoadError → Result LoadError Config
decoded none e = err e
decoded (some cfg) e = ok cfg

-- applyOverride
unfoldable pub apply_override : Outside → Config → Text → Result LoadError Config
unfolding override_document
apply_override out cfg set =
    override_document set >>= λ doc. decoded (out.decode doc cfg) (not_decoded set)

unfoldable pub apply_overrides : Outside → Config → List Text → Result LoadError Config
unfolding apply_override
apply_overrides out cfg [] = ok cfg
apply_overrides out cfg (set ∷ sets) =
    apply_override out cfg set >>= λ next. apply_overrides out next sets

unfoldable pub load_file : Outside → Text → Result LoadError Config
load_file out [] = ok default
load_file out (c ∷ path) = elim (out.read (c ∷ path)) [
  | none ↦ err (not_read (c ∷ path))
  | some raw ↦ decoded (out.decode raw default) (not_parsed (c ∷ path))
]

abbrev pub checked : Config → Option ConfigError → Result LoadError Config
checked cfg none = ok cfg
checked cfg (some e) = err (invalid e)

-- LoadWithOverrides
unfoldable pub load_with_overrides : Outside → Text → List Text → Result LoadError Config
unfolding load_file apply_overrides
load_with_overrides out path sets = load_file out path >>= λ cfg.
    apply_overrides out cfg sets >>= λ over. checked over (validate over)

-- discoverNames
abbrev pub discover_names : List Text
discover_names = codes "jenkins-bench.yaml" ∷ codes ".jenkins-bench.yaml" ∷ []

abbrev first_present : (Text → Bool) → List Text → Option Text
first_present exists [] = none
first_present exists (n ∷ names) = if exists n then some n else first_present exists names

-- userConfigDir, with the environment's directory and the platform's; `join_path` is filepath.Join
unfoldable pub user_config_dir : (Text → Text → Text) → Text → Option Text → Option Text
user_config_dir join_path own platform =
    if not (is_empty own)
    then some own
    else (elim platform [ none ↦ none | some dir ↦ some (join_path dir (codes "jenkins-bench")) ])

-- Discover
unfoldable pub discover : (Text → Bool) → (Text → Text → Text) → Option Text → Text
discover exists join_path dir = elim (first_present exists discover_names) [
  | some name ↦ name
  | none ↦ (elim dir [
    | none ↦ []
    | some d ↦ (let path = join_path d (codes "config.yaml") in if exists path then path else [])
  ])
]
