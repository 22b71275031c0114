-- ===== src/Console/Wrap/Laws.antt =====
-- What `Wrap` of internal/console/console.go keeps of a text, and how wide its lines are.
use jenkins_bench.Prelude.{
  ℕ, ◌+◌, ◌≤◌, ◌<◌, ◌≡◌, ◌≢◌, ◌⊎◌, refl, ap, ◌∙◌, inl, inr, false, List, [], ◌∷◌, ◌++◌, All, length,
  length-append, ltb, ◌==◌, arith, Bool-cases,
}
use mathlib.Core.List.{append_assoc}
use jenkins_bench.Prelude.Text.{Text}
use jenkins_bench.Prelude.Words.{fields, join_words, IsWord, fields-IsWord, fields-join_words}
use jenkins_bench.Console.Wrap.{wrap_words, wrap_fields, wrap}

join_words-∷-append :
    (line word : Text) (words : List Text)
    → join_words ((line ++ b' ' ∷ word) ∷ words) ≡ join_words (line ∷ word ∷ words)
join_words-∷-append line word [] = refl
join_words-∷-append line word (w ∷ words) =
    append_assoc line (b' ' ∷ word) (b' ' ∷ join_words (w ∷ words))

wrap_words-ne-nil :
    (width : ℕ) (line : Text) (used : ℕ) (words : List Text) → wrap_words width line used words ≢ []
unfolding wrap_words
wrap_words-ne-nil width line used [] h = cc
wrap_words-ne-nil width line used (word ∷ words) h =
    elim (Bool-cases (ltb width (used + 1 + length word))) [
      | inl e ↦
          (let never : ◌≡◌ {A = List Text} (line ∷ wrap_words width word (length word) words) [] =
              rw e at h in
            cc)
      | inr e ↦
          wrap_words-ne-nil width (line ++ b' ' ∷ word) (used + (1 + length word)) words (rw e at h)
    ]

join_words-∷ :
    (line : Text) (lines : List Text)
    → lines ≢ []
    → join_words (line ∷ lines) ≡ line ++ b' ' ∷ join_words lines
join_words-∷ line [] h = absurd (h refl)
join_words-∷ line (l ∷ lines) h = refl

join_words-wrap_words :
    (width : ℕ) (line : Text) (used : ℕ) (words : List Text)
    → join_words (wrap_words width line used words) ≡ join_words (line ∷ words)
unfolding wrap_words
join_words-wrap_words width line used [] = refl
join_words-wrap_words width line used (word ∷ words) =
    elim (Bool-cases (ltb width (used + 1 + length word))) [
      | inl e ↦ rw e (
          join_words-∷ line (wrap_words width word (length word) words)
            (wrap_words-ne-nil width word (length word) words)
          ∙ ap (λ r. line ++ b' ' ∷ r) (join_words-wrap_words width word (length word) words))
      | inr e ↦ rw e (
          join_words-wrap_words width (line ++ b' ' ∷ word) (used + (1 + length word)) words
          ∙ join_words-∷-append line word words)
    ]

pub join_words-wrap_fields :
    (width : ℕ) (words : List Text) → join_words (wrap_fields width words) ≡ join_words words
unfolding wrap_fields
join_words-wrap_fields width [] = refl
join_words-wrap_fields width (word ∷ words) = elim (Bool-cases (width == 0)) [
  | inl e ↦ rw e refl
  | inr e ↦ rw e (join_words-wrap_words width word (length word) words)
]

-- Wrapping moves words to new lines and does nothing else: the lines, joined by a space, read as the
-- same words as the text.
pub fields-wrap : (s : Text) (width : ℕ) → fields (join_words (wrap s width)) ≡ fields s
unfolding wrap
fields-wrap s width =
    ap fields (join_words-wrap_fields width (fields s))
    ∙ fields-join_words (fields s) (fields-IsWord s)

-- A line within the width, or a word longer than it.
abbrev pub Fits : ℕ → Text → Type 0
Fits width line = (length line ≤ width) ⊎ IsWord line

wrap_words-Fits :
    (width : ℕ) (line : Text) (used : ℕ) (words : List Text)
    → used ≡ length line
    → Fits width line
    → All IsWord words
    → All (Fits width) (wrap_words width line used words)
unfolding wrap_words
wrap_words-Fits width line used [] u f h = (f, tt)
wrap_words-Fits width line used (word ∷ words) u f h =
    elim (Bool-cases (ltb width (used + 1 + length word))) [
      | inl e ↦ rw e (f, wrap_words-Fits width word (length word) words refl (inr h.0) h.1)
      | inr e ↦
          let l = length-append line (b' ' ∷ word) in
          rw e (
            wrap_words-Fits width (line ++ b' ' ∷ word) (used + (1 + length word)) words
              (omega (arith, l)) (inl (ground (arith, l, e))) h.1)
    ]

wrap_fields-Fits :
    (width : ℕ) (words : List Text)
    → 0 < width
    → All IsWord words
    → All (Fits width) (wrap_fields width words)
unfolding wrap_fields
wrap_fields-Fits width [] p h = (inl (omega arith), tt)
wrap_fields-Fits width (word ∷ words) p h =
    let e : (width == 0) ≡ false = ground (arith, p) in
    rw e (wrap_words-Fits width word (length word) words refl (inr h.0) h.1)

-- Condition: the width is positive. Every line is within the width, or is one word that is longer.
wrap-Fits : (s : Text) (width : ℕ) → 0 < width → All (Fits width) (wrap s width)
unfolding wrap
wrap-Fits s width h = wrap_fields-Fits width (fields s) h (fields-IsWord s)

wrap_fields-ne-nil : (width : ℕ) (words : List Text) → wrap_fields width words ≢ []
unfolding wrap_fields
wrap_fields-ne-nil width [] h = cc
wrap_fields-ne-nil width (word ∷ words) h = elim (Bool-cases (width == 0)) [
  | inl e ↦ (let never : ◌≡◌ {A = List Text} (join_words (word ∷ words) ∷ []) [] = rw e at h in cc)
  | inr e ↦ wrap_words-ne-nil width word (length word) words (rw e at h)
]

-- There is at least one line.
pub wrap-ne-nil : (s : Text) (width : ℕ) → wrap s width ≢ []
unfolding wrap
wrap-ne-nil s width = wrap_fields-ne-nil width (fields s)
