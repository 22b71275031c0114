-- ===== src/Config/Load/Laws.antt =====
-- internal/config/config.go: what a loaded configuration satisfies, and the document an override becomes.
use mathlib.Core.Path.{subst}
use jenkins_bench.Prelude.{
  ℕ, zero, suc, ◌+◌, true, false, ◌≡◌, refl, ap, sym, ◌∙◌, Option, none, some, List, [], ◌∷◌, ◌++◌,
  ◌||◌, ◌==◌, length, count_if, count_if-append, arith, Bool-cases, Option-cases, inl, inr,
}
use jenkins_bench.Prelude.Text.{Text, codes, has_rune, split}
use jenkins_bench.Prelude.Words.{repeat}
use jenkins_bench.Prelude.Result.{ok, >>=-eq-ok}
use jenkins_bench.Config.{Config, ConfigError, validate}
use jenkins_bench.Config.Validity.{IsGoodConfig, validate-IsGoodConfig}
use jenkins_bench.Config.Load.{
  Outside, is_key_rune, all_runes, is_key_segment, cut, document_from, override_document,
  apply_overrides, load_file, checked, load_with_overrides,
}

checked-eq-ok :
    (cfg : Config) (refused : Option ConfigError) {c : Config}
    → checked cfg refused ≡ ok c
    → (cfg ≡ c) × (refused ≡ none)
checked-eq-ok cfg none h = (cc, refl)
checked-eq-ok cfg (some e) h = cc

-- Whatever the file, the decoder and the overrides, a configuration that `LoadWithOverrides` returns without an error
-- satisfies everything that `Validate` is there to ensure: the overrides are checked as hard as the file.
pub load_with_overrides-IsGoodConfig :
    (out : Outside) (path : Text) (sets : List Text) (c : Config)
    → load_with_overrides out path sets ≡ ok c
    → IsGoodConfig c
unfolding load_with_overrides
load_with_overrides-IsGoodConfig out path sets c h =
    let (cfg, loaded, rest) = >>=-eq-ok (load_file out path) _ h in
    let (over, applied, last) = >>=-eq-ok (apply_overrides out cfg sets) _ rest in
    let (same, accepted) = checked-eq-ok over (validate over) last in
    subst IsGoodConfig same (validate-IsGoodConfig over accepted)

abbrev pub newlines : Text → ℕ
newlines = count_if (λ c. c == b'\n')

newlines-all_runes : (s : Text) → all_runes is_key_rune s ≡ true → newlines s ≡ 0
newlines-all_runes [] h = refl
newlines-all_runes (c ∷ s) h = ground (arith, newlines-all_runes s)

newlines-has_rune : (s : Text) → has_rune b'\n' s ≡ false → newlines s ≡ 0
newlines-has_rune [] h = refl
newlines-has_rune (c ∷ s) h = ground (arith, newlines-has_rune s)

newlines-repeat : (n : ℕ) → newlines (repeat b' ' n) ≡ 0
newlines-repeat zero = refl
newlines-repeat (suc n) = newlines-repeat n

newlines-key : (seg : Text) → is_key_segment seg ≡ true → newlines seg ≡ 0
unfolding is_key_segment
newlines-key [] h = refl
newlines-key (c ∷ s) h = ground (arith, newlines-all_runes s)

newlines-append : (s t : Text) → newlines (s ++ t) ≡ newlines s + newlines t
newlines-append = count_if-append (λ c. c == b'\n')

newlines-line :
    (n : ℕ) (seg sep rest : Text)
    → is_key_segment seg ≡ true
    → newlines (repeat b' ' n ++ seg ++ sep ++ rest) ≡ newlines sep + newlines rest
newlines-line n seg sep rest h = omega (
  arith,
  newlines-append (repeat b' ' n ++ seg ++ sep) rest,
  newlines-append (repeat b' ' n ++ seg) sep,
  newlines-append (repeat b' ' n) seg,
  newlines-repeat n,
  newlines-key seg h,
)

-- Condition: the key's segments and a value without a line break make a document. It has one line for each segment.
document_from-lines :
    (i : ℕ) (segs : List Text) (value doc : Text)
    → has_rune b'\n' value ≡ false
    → document_from i segs value ≡ some doc
    → newlines doc ≡ length segs
unfolding document_from
document_from-lines i [] value doc nb h = cc
document_from-lines i (seg ∷ []) value doc nb h = elim (Bool-cases (is_key_segment seg)) [
  | inl k ↦
      let line = repeat b' ' (i + i) ++ seg ++ codes ": " ++ value in
      let made : line ++ b'\n' ∷ [] ≡ doc = ground arith in
      ap newlines (sym made)
      ∙ omega (
        arith,
        newlines-append line (b'\n' ∷ []),
        newlines-line (i + i) seg (codes ": ") value k,
        newlines-has_rune value nb,
      )
  | inr k ↦ absurd (ground arith)
]
document_from-lines i (seg ∷ next ∷ segs) value doc nb h = elim (Bool-cases (is_key_segment seg)) [
  | inl k ↦ elim (Option-cases (document_from (i + 1) (next ∷ segs) value)) [
    | inl n ↦ absurd (ground arith)
    | inr (rest, e) ↦
        let made : repeat b' ' (i + i) ++ seg ++ codes ":\n" ++ rest ≡ doc = ground arith in
        ap newlines (sym made)
        ∙ omega (
          arith,
          newlines-line (i + i) seg (codes ":\n") rest k,
          document_from-lines (i + 1) (next ∷ segs) value rest nb e,
        )
  ]
  | inr k ↦ absurd (ground arith)
]

-- Condition: applyOverride makes a YAML document of a `key=value`. The value has no line feed and no carriage return,
-- and the document has one line for each segment of the key: a value brings no line of its own. (What YAML makes of a
-- value within its line, such as a flow mapping of several keys, is the decoder's.)
pub override_document-lines :
    (set doc : Text)
    → override_document set ≡ ok doc
    → (key : Text) × (value : Text) × (cut b'=' set ≡ some (key, value))
      × (has_rune b'\n' value ≡ false)
      × (has_rune b'\r' value ≡ false)
      × (newlines doc ≡ length (split b'.' key))
unfolding override_document
override_document-lines set doc h = elim (Option-cases (cut b'=' set)) [
  | inl n ↦ absurd (ground arith)
  | inr ((key, value), e) ↦ elim (Bool-cases (has_rune b'\n' value || has_rune b'\r' value)) [
    | inl k ↦ absurd (ground arith)
    | inr k ↦ elim (Option-cases (document_from 0 (split b'.' key) value)) [
      | inl n ↦ absurd (ground arith)
      | inr (made, m) ↦
          let nb : has_rune b'\n' value ≡ false = ground arith in
          let nr : has_rune b'\r' value ≡ false = ground arith in
          let same : made ≡ doc = ground arith in
          (
            key,
            value,
            e,
            nb,
            nr,
            ap newlines (sym same) ∙ document_from-lines 0 (split b'.' key) value made nb m,
          )
    ]
  ]
]
