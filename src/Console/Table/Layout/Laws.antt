-- ===== src/Console/Table/Layout/Laws.antt =====
-- The lines of a cell, `layout` of internal/console/table.go: none is wider than the column.
use jenkins_bench.Prelude.{
  ℕ, zero, suc, ◌+◌, ◌≤◌, ◌<◌, ◌≡◌, refl, ap, ◌∙◌, inl, inr, List, [], ◌∷◌, ◌++◌, All, All-append,
  length, take, drop, ltb, ◌==◌, Bool-cases, arith,
}
use mathlib.Core.List.{append-nil}
use jenkins_bench.Prelude.Text.{Text, split, is_empty, trim_space}
use jenkins_bench.Console.Wrap.{wrap}
use jenkins_bench.Console.Table.Layout.{
  break_loop, break_long_word, break_lines, layout_lines, layout,
}

abbrev pub concat : List Text → Text
concat [] = []
concat (s ∷ ss) = s ++ concat ss

length-take : (n : ℕ) (s : Text) → length (take n s) ≤ n
length-take zero s = omega arith
length-take (suc n) [] = omega arith
length-take (suc n) (c ∷ s) = omega (arith, length-take n s)

length-drop : (n : ℕ) (s : Text) → n ≤ length s → length (drop n s) + n ≡ length s
length-drop zero s h = omega arith
length-drop (suc n) [] h = omega (arith, h)
length-drop (suc n) (c ∷ s) h = omega (arith, length-drop n s (omega (arith, h)))

take-drop : (n : ℕ) (s : Text) → take n s ++ drop n s ≡ s
take-drop zero s = refl
take-drop (suc n) [] = refl
take-drop (suc n) (c ∷ s) = ap (λ r. c ∷ r) (take-drop n s)

break_loop-within :
    (fuel : ℕ) (s : Text) (width : ℕ)
    → 0 < width
    → length s ≤ fuel
    → All (λ line. length line ≤ width) (break_loop fuel s width)
unfolding break_loop
break_loop-within zero s width pos enough = (omega (arith, pos, enough), tt)
break_loop-within (suc fuel) s width pos enough = elim (Bool-cases (ltb width (length s))) [
  | inl e ↦ rw e (
    length-take width s,
    break_loop-within fuel (drop width s) width pos
        (ground (arith, length-drop width s, e, pos, enough)),
  )
  | inr e ↦ rw e (ground arith, tt)
]

concat-break_loop : (fuel : ℕ) (s : Text) (width : ℕ) → concat (break_loop fuel s width) ≡ s
unfolding break_loop
concat-break_loop zero s width = append-nil s
concat-break_loop (suc fuel) s width = elim (Bool-cases (ltb width (length s))) [
  | inl e ↦ rw e (
      ap (λ r. take width s ++ r) (concat-break_loop fuel (drop width s) width) ∙ take-drop width s)
  | inr e ↦ rw e (append-nil s)
]

-- The pieces of a word that is too long make up the word, and none is wider than the column.
pub break_long_word_lem :
    (s : Text) (width : ℕ)
    → (concat (break_long_word s width) ≡ s)
      × (0 < width → All (λ line. length line ≤ width) (break_long_word s width))
unfolding break_long_word
break_long_word_lem s width = elim (Bool-cases (width == 0)) [
  | inl e ↦ rw e (append-nil s, λ pos. absurd (ground (arith, e, pos)))
  | inr e ↦ rw e (
    concat-break_loop (length s) s width,
    λ pos. break_loop-within (length s) s width pos (omega arith),
  )
]

break_lines-within :
    (lines : List Text) (width : ℕ)
    → 0 < width
    → All (λ line. length line ≤ width) (break_lines lines width)
unfolding break_lines
break_lines-within [] width pos = tt
break_lines-within (soft ∷ more) width pos =
    All-append _ (break_long_word soft width) _ ((break_long_word_lem soft width).1 pos)
      (break_lines-within more width pos)

layout_lines-within :
    (lines : List Text) (width : ℕ)
    → 0 < width
    → All (λ line. length line ≤ width) (layout_lines lines width)
unfolding layout_lines
layout_lines-within [] width pos = tt
layout_lines-within (hard ∷ more) width pos =
    let rest = layout_lines-within more width pos in
    elim (Bool-cases (is_empty (trim_space hard))) [
      | inl e ↦ rw e (omega arith, rest)
      | inr e ↦ rw e (
          All-append _ (break_lines (wrap hard width) width) _
            (break_lines-within (wrap hard width) width pos) rest)
    ]

-- No line of a cell is wider than its column, where the column has a width.
pub layout-within :
    (text : Text) (width : ℕ) → 0 < width → All (λ line. length line ≤ width) (layout text width)
unfolding layout
layout-within text width pos = layout_lines-within (split b'\n' text) width pos
