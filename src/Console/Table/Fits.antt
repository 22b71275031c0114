-- ===== src/Console/Table/Fits.antt =====
-- Whole tables, `RenderTable` of internal/console/table.go: every border is straight, and the table is no
-- wider than the terminal.
use jenkins_bench.Prelude.{
  ℕ, suc, ◌+◌, ◌*◌, ◌≤◌, ◌<◌, ◌≡◌, refl, sym, ◌∙◌, List, [], ◌∷◌, All, map, length, length-map,
  count_if, arith,
}
use jenkins_bench.Prelude.Text.{Text}
use jenkins_bench.Console.Table.{Column, measure, slots_from, column_widths, render_table}
use jenkins_bench.Console.Table.Widths.{
  Slot, sum_selected, any_slot, fit_slots, widths_of, cell_padding,
}
use jenkins_bench.Console.Table.Widths.Laws.{
  fit_slots-Fits, fit_slots-IsSized, length-fit_slots, count-split,
}
use jenkins_bench.Console.Table.Widths.Shrink.{IsSized}
use jenkins_bench.Console.Table.Measure.{IsTitled, measured}
use jenkins_bench.Console.Table.Laws.{
  IsPainted, IsCleanRow, IsStraight, width_of, line_width, render-IsStraight,
}

abbrev slots : List Column → List (List Text) → List Slot
slots cols rows = slots_from 0 cols (measure (map (λ c. length c.header) cols) rows) rows

line_width-widths_of :
    (ss : List Slot)
    → line_width (widths_of ss)
      ≡ sum_selected any_slot ss + (length ss + 1 + length ss * cell_padding)
unfolding sum_selected
line_width-widths_of [] = omega arith
line_width-widths_of (s ∷ ss) = omega (arith, line_width-widths_of ss)

positive-widths_of : (ss : List Slot) → All IsSized ss → All (λ w. 0 < w) (widths_of ss)
positive-widths_of [] h = tt
positive-widths_of (s ∷ ss) h = (h.0.0, positive-widths_of ss h.1)

-- How many of the columns flex.
abbrev pub flexing : List Column → ℕ
flexing = count_if (λ c. c.flex)

-- The columns and their borders keep within the width, where it has room for the borders, 8 in every flexed
-- column and 1 in every other.
column_widths-Fits :
    (width : ℕ) (cols : List Column) (rows : List (List Text))
    → length cols * 4 + 1 + flexing cols * 7 ≤ width
    → line_width (column_widths width cols rows) ≤ width
unfolding column_widths
column_widths-Fits width cols rows room =
    let ss = slots cols rows in
    let facts = measured cols rows in
    let fits = fit_slots-Fits width ss (omega (arith, room, facts.0, facts.1, count-split ss)) in
    omega (arith, fits, line_width-widths_of (fit_slots width ss), length-fit_slots width ss)

widths_facts :
    (width : ℕ) (cols : List Column) (rows : List (List Text))
    → All IsTitled cols
    → (length cols ≡ length (column_widths width cols rows))
      × All (λ w. 0 < w) (column_widths width cols rows)
unfolding column_widths
widths_facts width cols rows titled =
    let ss = slots cols rows in
    let facts = measured cols rows in
    (
      sym (length-map (λ s. s.width) (fit_slots width ss) ∙ length-fit_slots width ss ∙ facts.0),
      positive-widths_of (fit_slots width ss) (fit_slots-IsSized width ss (facts.2 titled)),
    )

render_with-IsStraight :
    (width : ℕ) (c : Column) (cs : List Column) (rows : List (List Text))
    → All IsPainted (c ∷ cs)
    → (ws : List ℕ) → column_widths width (c ∷ cs) rows ≡ ws
    → (length (c ∷ cs) ≡ length (column_widths width (c ∷ cs) rows))
      × All (λ w. 0 < w) (column_widths width (c ∷ cs) rows)
    → IsCleanRow (map (λ d. d.header) (c ∷ cs))
    → All IsCleanRow rows
    → All (IsStraight (column_widths width (c ∷ cs) rows)) (render_table width (c ∷ cs) rows)
render_with-IsStraight width c cs rows plain [] e h titles clean =
    (let same : suc (length cs) ≡ 0 = rw e at h.0 in absurd (omega (arith, same)))
render_with-IsStraight width c cs rows plain (w ∷ ws) e h titles clean =
    let same : suc (length cs) ≡ suc (length ws) = rw e at h.0 in
    let pos : All (λ v. 0 < v) (w ∷ ws) = rw e at h.1 in
    rw e (render-IsStraight width c cs rows w ws e plain same pos titles clean)

-- Conditions: what the columns paint adds only escape sequences, every heading has a rune, and no heading or cell holds
-- an escape. Every line of the table is then shown as wide as its columns and borders together, so that the borders are
-- straight.
pub render_table-IsStraight :
    (width : ℕ) (cols : List Column) (rows : List (List Text))
    → All IsPainted cols
    → All IsTitled cols
    → IsCleanRow (map (λ d. d.header) cols)
    → All IsCleanRow rows
    → All (IsStraight (column_widths width cols rows)) (render_table width cols rows)
unfolding render_table
render_table-IsStraight width [] rows plain titled titles clean = tt
render_table-IsStraight width (c ∷ cs) rows plain titled titles clean =
    render_with-IsStraight width c cs rows plain (column_widths width (c ∷ cs) rows) refl
      (widths_facts width (c ∷ cs) rows titled) titles clean

lines_within :
    (width : ℕ) (ws : List ℕ) (lines : List Text)
    → line_width ws ≤ width
    → All (IsStraight ws) lines
    → All (λ line. width_of line ≤ width) lines
lines_within width ws [] fits h = tt
lines_within width ws (line ∷ lines) fits h =
    (omega (arith, h.0, fits), lines_within width ws lines fits h.1)

-- Such a table shows no line wider than the terminal, where that has room for the borders, 8 in every flexed
-- column and 1 in every other.
render_table-within :
    (width : ℕ) (cols : List Column) (rows : List (List Text))
    → All IsPainted cols
    → All IsTitled cols
    → IsCleanRow (map (λ d. d.header) cols)
    → All IsCleanRow rows
    → length cols * 4 + 1 + flexing cols * 7 ≤ width
    → All (λ line. width_of line ≤ width) (render_table width cols rows)
render_table-within width cols rows plain titled titles clean room =
    lines_within width (column_widths width cols rows) (render_table width cols rows)
      (column_widths-Fits width cols rows room)
      (render_table-IsStraight width cols rows plain titled titles clean)
