-- ===== src/Examples/Tables.antt =====
-- A small table and a wrapped text: instances of the theorems on the console.
use jenkins_bench.Prelude.{◌≤◌, ◌≡◌, ◌⊎◌, refl, true, false, List, [], ◌∷◌, map, All, arith}
use jenkins_bench.Prelude.Text.{Text, codes}
use jenkins_bench.Prelude.Words.{fields, join_words}
use jenkins_bench.Console.Wrap.{wrap}
use jenkins_bench.Console.Wrap.Laws.{fields-wrap}
use jenkins_bench.Console.Table.{render_table, column_widths}
use jenkins_bench.Console.Table.Widths.{Slot, is_fixed, sum_selected, widest, shrink_selected}
use jenkins_bench.Console.Table.Widths.Shrink.{IsShaved, shrink_selected_lem}
use jenkins_bench.Console.Table.Layout.{layout}
use jenkins_bench.Console.Table.Layout.Laws.{concat}
use jenkins_bench.Console.Table.Layout.Visible.{visible, visible-layout}
use jenkins_bench.Console.Table.Laws.{IsStraight, IsCleanRow}
use jenkins_bench.Console.Table.Measure.{IsTitled}
use jenkins_bench.Console.Paint.{Painter}
use jenkins_bench.Report.Sections.{section_columns}
use jenkins_bench.Report.Sections.Laws.{section_columns-IsPainted}
use jenkins_bench.Console.Table.Fits.{render_table-IsStraight}

abbrev advice : Text
advice = codes "grant the token Job/Read"

abbrev some_slots : List Slot
some_slots =
    record { flex = false; natural = 9; width = 9 }
    ∷ record { flex = true; natural = 30; width = 30 }
    ∷ record { flex = false; natural = 4; width = 4 }
    ∷ []

fields-wrap_example : fields (join_words (wrap advice 10)) ≡ fields advice
fields-wrap_example = fields-wrap advice 10

visible-layout_example : visible (concat (layout advice 5)) ≡ visible advice
visible-layout_example = visible-layout advice 5

is_fixed_by_flex : (s t : Slot) → s.flex ≡ t.flex → is_fixed s ≡ is_fixed t
is_fixed_by_flex s t e = rw e refl

shrink_selected_lem_example :
    IsShaved is_fixed 1 some_slots (shrink_selected is_fixed 8 1 some_slots)
    × ((sum_selected is_fixed (shrink_selected is_fixed 8 1 some_slots) ≤ 8)
        ⊎ (widest is_fixed (shrink_selected is_fixed 8 1 some_slots) ≤ 1))
    × (sum_selected is_fixed some_slots ≤ 8 → shrink_selected is_fixed 8 1 some_slots ≡ some_slots)
shrink_selected_lem_example = shrink_selected_lem is_fixed is_fixed_by_flex 8 1 some_slots

-- The columns of a report's section in colour, and a finding in them.
abbrev in_colour : Painter
in_colour = record { enabled = true }

abbrev finding_rows : List (List Text)
finding_rows =
    (codes "jb-csrf" ∷ codes "HIGH" ∷ codes "FAIL" ∷ codes "CSRF protection" ∷ advice ∷ []) ∷ []

section_columns-IsTitled :
    All IsTitled (section_columns in_colour)
    × IsCleanRow (map (λ c. c.header) (section_columns in_colour))
unfolding section_columns
section_columns-IsTitled = (
  (omega arith, (omega arith, (omega arith, (omega arith, (omega arith, tt))))),
  (refl, (refl, (refl, (refl, (refl, tt))))),
)

render_table-IsStraight_example :
    All
      (IsStraight (column_widths 80 (section_columns in_colour) finding_rows))
      (render_table 80 (section_columns in_colour) finding_rows)
render_table-IsStraight_example =
    render_table-IsStraight 80 (section_columns in_colour) finding_rows
      (section_columns-IsPainted in_colour) section_columns-IsTitled.0 section_columns-IsTitled.1
      ((refl, (refl, (refl, (refl, (refl, tt))))), tt)
