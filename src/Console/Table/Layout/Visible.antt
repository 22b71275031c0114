-- ===== src/Console/Table/Layout/Visible.antt =====
-- The visible runes of a cell's text, which `layout` of internal/console/table.go keeps in their order.
use jenkins_bench.Prelude.{
  ℕ, true, false, All, ◌||◌, not, ◌≡◌, refl, sym, ap, ◌∙◌, List, [], ◌∷◌, ◌++◌, reverse, keep, ◌==◌,
  Bool-cases, ==_iff, inl, inr, arith,
}
use mathlib.Core.List.{append_assoc, append-nil, reverse_aux, reverse_aux-reverse_aux-nil}
use mathlib.Core.Bool.{true≢false}
use jenkins_bench.Console.Shown.{esc, IsUnescaped}
use jenkins_bench.Prelude.Text.{
  Text, has_rune, split, push_head, is_empty, is_space, trim_left, trim_space,
}
use jenkins_bench.Prelude.Words.{fields, fields_from, join_words}
use jenkins_bench.Console.Wrap.{wrap, wrap_fields}
use jenkins_bench.Console.Wrap.Laws.{join_words-wrap_fields}
use jenkins_bench.Console.Table.Layout.{break_lines, break_long_word, layout_lines, layout}
use jenkins_bench.Console.Table.Layout.Laws.{concat, break_long_word_lem}

-- The runes that are no white space, in order.
abbrev pub visible : Text → Text
visible = keep (λ c. not (is_space c))

pub visible-append : (a b : Text) → visible (a ++ b) ≡ visible a ++ visible b
visible-append [] b = refl
visible-append (c ∷ a) b = ground (arith, visible-append a b)

pub concat-append : (a b : List Text) → concat (a ++ b) ≡ concat a ++ concat b
concat-append [] b = refl
concat-append (s ∷ a) b =
    ap (λ r. s ++ r) (concat-append a b) ∙ sym (append_assoc s (concat a) (concat b))

pub visible-join_words : (words : List Text) → visible (join_words words) ≡ visible (concat words)
unfolding is_space
visible-join_words [] = refl
visible-join_words (w ∷ []) = ap visible (sym (append-nil w))
visible-join_words (w ∷ v ∷ words) =
    visible-append w (b' ' ∷ join_words (v ∷ words))
    ∙ ap (λ r. visible w ++ r) (visible-join_words (v ∷ words))
    ∙ sym (visible-append w (concat (v ∷ words)))

spaced :
    (word : Text) (c : ℕ) (s : Text)
    → is_space c ≡ true
    → visible word ++ visible s ≡ visible (word ++ c ∷ s)
spaced word c s e =
    let skip : visible word ++ visible s ≡ visible word ++ visible (c ∷ s) = rw e refl in
    skip ∙ sym (visible-append word (c ∷ s))

visible-fields_from : (word s : Text) → visible (concat (fields_from word s)) ≡ visible (word ++ s)
unfolding fields_from
visible-fields_from [] [] = refl
visible-fields_from (x ∷ word) [] = refl
visible-fields_from [] (c ∷ s) = elim (Bool-cases (is_space c)) [
  | inl e ↦ rw e (visible-fields_from [] s)
  | inr e ↦ rw e (visible-fields_from (c ∷ []) s ∙ rw e refl)
]
visible-fields_from (x ∷ word) (c ∷ s) = elim (Bool-cases (is_space c)) [
  | inl e ↦ rw e (
      visible-append (x ∷ word) (concat (fields_from [] s))
      ∙ ap (λ r. visible (x ∷ word) ++ r) (visible-fields_from [] s)
      ∙ spaced (x ∷ word) c s e)
  | inr e ↦ rw e (
      visible-fields_from ((x ∷ word) ++ c ∷ []) s
      ∙ ap visible (append_assoc (x ∷ word) (c ∷ []) s))
]

pub visible-wrap : (s : Text) (width : ℕ) → visible (concat (wrap s width)) ≡ visible s
unfolding wrap fields
visible-wrap s width =
    sym (visible-join_words (wrap_fields width (fields s)))
    ∙ ap visible (join_words-wrap_fields width (fields s))
    ∙ visible-join_words (fields s)
    ∙ visible-fields_from [] s

visible-break_lines :
    (lines : List Text) (width : ℕ) → concat (break_lines lines width) ≡ concat lines
unfolding break_lines
visible-break_lines [] width = refl
visible-break_lines (soft ∷ more) width =
    concat-append (break_long_word soft width) (break_lines more width)
    ∙ rw ((break_long_word_lem soft width).0, visible-break_lines more width) refl

visible-trim_left : (s : Text) → visible (trim_left is_space s) ≡ visible s
visible-trim_left [] = refl
visible-trim_left (c ∷ s) = ground (arith, visible-trim_left s)

pub visible-reverse_aux :
    (s t : Text) → visible (reverse_aux s t) ≡ reverse_aux (visible s) (visible t)
visible-reverse_aux [] t = refl
visible-reverse_aux (c ∷ s) t = elim (Bool-cases (is_space c)) [
  | inl e ↦ visible-reverse_aux s (c ∷ t) ∙ rw e refl
  | inr e ↦ visible-reverse_aux s (c ∷ t) ∙ rw e refl
]

visible-trim_space : (s : Text) → visible (trim_space s) ≡ visible s
unfolding trim_space
visible-trim_space s =
    visible-reverse_aux (trim_left is_space (reverse (trim_left is_space s))) []
    ∙ ap reverse (
        visible-trim_left (reverse (trim_left is_space s))
        ∙ visible-reverse_aux (trim_left is_space s) []
        ∙ ap reverse (visible-trim_left s))
    ∙ reverse_aux-reverse_aux-nil (visible s) []

pub visible-empty : (s : Text) → is_empty s ≡ true → visible s ≡ []
visible-empty [] e = refl
visible-empty (c ∷ s) e = cc

blank : (s : Text) → is_empty (trim_space s) ≡ true → visible s ≡ []
blank s e = sym (visible-trim_space s) ∙ visible-empty (trim_space s) e

concat-push_head : (c : ℕ) (ss : List Text) → concat (push_head c ss) ≡ c ∷ concat ss
concat-push_head c [] = refl
concat-push_head c (s ∷ ss) = refl

newline : (c : ℕ) (s : Text) → c ≡ b'\n' → visible s ≡ visible (c ∷ s)
unfolding is_space
newline c s e = rw e refl

after : (c : ℕ) (s t : Text) → visible s ≡ visible t → visible (c ∷ s) ≡ visible (c ∷ t)
after c s t e = ground (arith, e)

visible-split : (s : Text) → visible (concat (split b'\n' s)) ≡ visible s
visible-split [] = refl
visible-split (c ∷ s) = elim (Bool-cases (c == b'\n')) [
  | inl e ↦ rw e (visible-split s ∙ newline c s ((==_iff c b'\n').0 e))
  | inr e ↦ rw e (
      ap visible (concat-push_head c (split b'\n' s))
      ∙ after c (concat (split b'\n' s)) s (visible-split s))
]

visible-layout_lines :
    (lines : List Text) (width : ℕ)
    → visible (concat (layout_lines lines width)) ≡ visible (concat lines)
unfolding layout_lines
visible-layout_lines [] width = refl
visible-layout_lines (hard ∷ more) width =
    let rest = visible-layout_lines more width in
    elim (Bool-cases (is_empty (trim_space hard))) [
      | inl e ↦ rw e (
          rest
          ∙ sym (
              visible-append hard (concat more)
              ∙ ap (λ r. r ++ visible (concat more)) (blank hard e)))
      | inr e ↦ rw e (
          ap visible (concat-append (break_lines (wrap hard width) width) (layout_lines more width))
          ∙ visible-append (concat (break_lines (wrap hard width) width))
              (concat (layout_lines more width))
          ∙ rw (visible-break_lines (wrap hard width) width, visible-wrap hard width, rest)
              (sym (visible-append hard (concat more))))
    ]

-- The visible runes of a cell's text are those of its lines, in the same order: wrapping and breaking
-- lose none.
pub visible-layout : (text : Text) (width : ℕ) → visible (concat (layout text width)) ≡ visible text
unfolding layout
visible-layout text width = visible-layout_lines (split b'\n' text) width ∙ visible-split text

has_rune-append : (d : ℕ) (s t : Text) → has_rune d (s ++ t) ≡ (has_rune d s || has_rune d t)
has_rune-append d [] t = refl
has_rune-append d (c ∷ s) t = ground (arith, has_rune-append d s t)

has_rune-visible : (d : ℕ) (s : Text) → is_space d ≡ false → has_rune d (visible s) ≡ has_rune d s
has_rune-visible d [] h = refl
has_rune-visible d (c ∷ s) h = elim (Bool-cases (is_space c)) [
  | inl e ↦ elim (Bool-cases (c == d)) [
    | inl k ↦ absurd (true≢false (sym e ∙ ap is_space ((==_iff c d).0 k) ∙ h))
    | inr k ↦ rw (e, k) (has_rune-visible d s h)
  ]
  | inr e ↦ rw e (ground (arith, has_rune-visible d s h))
]

concat-IsUnescaped : (ls : List Text) → IsUnescaped (concat ls) → All IsUnescaped ls
concat-IsUnescaped [] h = tt
concat-IsUnescaped (l ∷ ls) h =
    let parts = has_rune-append esc l (concat ls) in
    (ground (arith, h, parts), concat-IsUnescaped ls (ground (arith, h, parts)))

esc_visible : is_space esc ≡ false
unfolding is_space
esc_visible = refl

-- No line of a cell holds an escape that its text does not hold.
pub layout-IsUnescaped :
    (text : Text) (width : ℕ) → IsUnescaped text → All IsUnescaped (layout text width)
layout-IsUnescaped text width h = concat-IsUnescaped (layout text width) (
    sym (has_rune-visible esc (concat (layout text width)) esc_visible)
    ∙ ap (has_rune esc) (visible-layout text width)
    ∙ has_rune-visible esc text esc_visible
    ∙ h)
