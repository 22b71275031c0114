-- ===== src/Report/Sections.antt =====
-- internal/report/table.go: the detail layout, a table for each resource.
pub mod Laws
use jenkins_bench.Prelude.{
  ℕ, ◌+◌, Bool, true, false, not, ◌&&◌, ◌||◌, none, some, List, [], ◌∷◌, ◌++◌, keep, length,
  count_if, ltb, leb, ◌==◌, if◌then◌else◌,
}
use jenkins_bench.Prelude.Text.{Text, codes, text_eq, equal_fold, to_upper}
use jenkins_bench.Prelude.Words.{decimal, join_with}
use jenkins_bench.Checks.{severity_low, severity_medium, severity_high}
use jenkins_bench.Engine.{Finding}
use jenkins_bench.Console.Paint.{Painter, paint, bold, dim, cyan, pluralize}
use jenkins_bench.Console.Table.{Column, left, render_table}
use jenkins_bench.Report.{
  Options, status_label, status_colour, severity_colour, finding_cell, select_for_section,
}
use jenkins_bench.Report.Tally.{Tally, tally_resources}
use jenkins_bench.Report.Prose.{prose}

abbrev count_part : List Finding → Text → Text
count_part fs severity =
    severity ++ codes ": " ++ decimal (count_if (λ f. equal_fold f.severity severity) fs)

unfoldable pub section_columns : Painter → List Column
section_columns p =
    record { header = codes "Control"; align = left; flex = false; colour = some (paint p cyan) }
    ∷ record {
      header = codes "Severity";
      align = left;
      flex = false;
      colour = some (severity_colour p);
    }
    ∷ record {
      header = codes "Status";
      align = left;
      flex = false;
      colour = some (status_colour p);
    }
    ∷ record { header = codes "Title"; align = left; flex = true; colour = none }
    ∷ record { header = codes "Finding"; align = left; flex = true; colour = none }
    ∷ []

unfoldable pub section_rows : List Finding → List (List Text)
section_rows [] = []
section_rows (f ∷ fs) =
    (f.check_id ∷ to_upper f.severity ∷ status_label f ∷ f.title ∷ finding_cell f ∷ [])
    ∷ section_rows fs

-- writeResourceSection
unfoldable pub resource_section : Painter → ℕ → Tally → List Finding → List Text
unfolding section_columns section_rows
resource_section p width t fs =
    let parts =
      count_part fs severity_low
      ∷ count_part fs severity_medium
      ∷ count_part fs severity_high
      ∷ [] in
    []
    ∷ (paint p bold t.name ++ b' ' ∷ paint p dim (b'(' ∷ t.kind ++ b')' ∷ []))
    ∷ []
    ∷ (codes "Total: "
        ++ decimal (length fs)
        ++ codes " ("
        ++ join_with (codes ", ") parts
        ++ codes ")")
    ∷ []
    ∷ render_table width (section_columns p) (section_rows fs)

-- What the loop over the resources has written.
pub record Drawn : Type 0 where
  pub lines : List Text
  pub shown : ℕ
  pub skipped : ℕ

-- The findings of a resource that its table lists; the map `byResource` keeps the report's order.
unfoldable pub selected_for : List Finding → Bool → Text → List Finding
selected_for fs show_passed name =
    select_for_section (keep (λ f. text_eq f.resource name) fs) show_passed

-- A round of the loop.
unfoldable pub draw_section : Painter → ℕ → Options → Tally → List Finding → Drawn → Drawn
draw_section p width opts t [] d = d
draw_section p width opts t (f ∷ fs) d =
    if ltb 0 opts.max_resources && leb opts.max_resources d.shown
    then record d { skipped = d.skipped + 1 }
    else record d { lines = d.lines ++ resource_section p width t (f ∷ fs); shown = d.shown + 1 }

unfoldable pub draw_sections : Painter → ℕ → Options → List Finding → List Tally → Drawn → Drawn
unfolding draw_section selected_for
draw_sections p width opts fs [] d = d
draw_sections p width opts fs (t ∷ ts) d =
    draw_sections p width opts fs ts
      (draw_section p width opts t (selected_for fs opts.show_passed t.name) d)

abbrev pub nothing_drawn : Drawn
nothing_drawn = record { lines = []; shown = 0; skipped = 0 }

abbrev skipped_note : ℕ → Options → Text
skipped_note skipped opts =
    pluralize skipped (codes "more resource")
    ++ codes " with findings not shown (--max-resources "
    ++ decimal opts.max_resources
    ++ codes "); use -o json for all of them."

-- writeResourceSections
unfoldable pub resource_sections : Painter → ℕ → Options → List Finding → List Text
unfolding draw_sections
resource_sections p width opts fs =
    let d = draw_sections p width opts fs (tally_resources fs) nothing_drawn in
    let note =
      if ltb 0 d.skipped then [] ∷ prose width [] 0 (skipped_note d.skipped opts) else [] in
    d.lines ++ note
