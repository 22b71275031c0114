-- ===== src/Report/Table.antt =====
-- internal/report/table.go: `writeTable` and its header; `writeHint` of lines.go.
use jenkins_bench.Prelude.{ℕ, Bool, not, List, [], ◌∷◌, ◌++◌, map, length, leb, if◌then◌else◌}
use jenkins_bench.Prelude.Text.{Text, codes}
use jenkins_bench.Prelude.Result.{Result, ok, ◌>>=◌}
use jenkins_bench.Engine.{Finding}
use jenkins_bench.Engine.Score.{Score}
use jenkins_bench.Engine.Evaluate.{Coverage}
use jenkins_bench.Console.Wrap.{wrap}
use jenkins_bench.Console.Paint.{Painter, paint, bold, dim}
use jenkins_bench.Report.{Options}
use jenkins_bench.Report.Details.{parse_detail_filters, filter_findings}
use jenkins_bench.Report.Lines.{finding_lines}
use jenkins_bench.Report.Prose.{notice_lines, warning_lines, exception_warning_lines}
use jenkins_bench.Report.Sections.{resource_sections}
use jenkins_bench.Report.Rules.{remediation_lines, rules_index}
use jenkins_bench.Report.Summary.{summary_lines}

-- What of the report the table prints, the errors and the warnings as the texts that they are, and the time of the
-- scan formatted.
pub record Page : Type 0 where
  pub tool_version : Text
  pub base_url : Text
  pub stamp : Text
  pub warnings : List Text
  pub errors : List Text
  pub exception_warnings : List Text
  pub findings : List Finding
  pub score : Score
  pub coverage : Coverage

abbrev dot : Text
dot = b' ' ∷ b' ' ∷ 0xb7 ∷ b' ' ∷ b' ' ∷ []

-- fits, of the uncoloured line
unfoldable pub fits : ℕ → Text → Bool
fits width s = leb (length s) width

-- writeHeader
unfoldable pub header_lines : Painter → ℕ → Page → List Text
unfolding fits
header_lines p width r =
    let plain = codes "jenkins-bench " in
    let name = paint p bold (codes "jenkins-bench") ++ b' ' ∷ [] in
    let where_ = r.tool_version ++ dot ++ r.base_url in
    let scanned = paint p dim (codes "scanned " ++ r.stamp) in
    if fits width (plain ++ where_ ++ dot ++ r.stamp)
    then (name ++ where_ ++ dot ++ r.stamp) ∷ []
    else if fits width (plain ++ where_)
    then (name ++ where_) ∷ scanned ∷ []
    else (name ++ r.tool_version) ∷ r.base_url ∷ scanned ∷ []

abbrev hint : Text
hint =
    codes "Details: rerun with --details for per-resource findings and full remediation steps, "
    ++ codes "or --details=<resource|control>[,...] to filter; -o json for the full report."

-- writeHint
unfoldable pub hint_lines : Painter → ℕ → List Text
hint_lines p width = [] ∷ map (λ l. paint p dim l) (wrap hint width)

module _ (stable : (Finding → Finding → Bool) → List Finding → List Finding) where
  -- The detail layout, over the findings that the filters keep.
  unfoldable pub detail_lines : Painter → ℕ → Text → Options → Page → List Finding → List Text
  detail_lines p width notice opts r filtered =
      header_lines p width r
      ++ notice_lines p width notice
      ++ warning_lines p width (not opts.no_remediations) r.warnings r.errors
      ++ exception_warning_lines p width r.exception_warnings
      ++ resource_sections p width opts filtered
      ++ (if opts.no_remediations then [] else remediation_lines p width filtered)
      ++ summary_lines p width r.score r.coverage r.findings

  -- The default layout.
  unfoldable pub overview_lines : Painter → ℕ → Text → Options → Page → List Text
  overview_lines p width notice opts r =
      header_lines p width r
      ++ notice_lines p width notice
      ++ finding_lines stable r.warnings r.findings p width opts
      ++ warning_lines p width (not opts.no_remediations) r.warnings r.errors
      ++ exception_warning_lines p width r.exception_warnings
      ++ (if opts.no_remediations then [] else rules_index p width r.findings)
      ++ hint_lines p width
      ++ summary_lines p width r.score r.coverage r.findings

  -- writeTable, its width known; `details` and `values` are Options.Details and DetailFilters
  unfoldable pub write_table :
      Bool → List Text → Painter → ℕ → Text → Options → Page → Result Text (List Text)
  unfolding detail_lines overview_lines
  write_table details values p width notice opts r =
      let detailed =
        (parse_detail_filters values r.findings >>= λ filter.
        ok (detail_lines p width notice opts r (filter_findings r.findings filter))) in
      if details then detailed else ok (overview_lines p width notice opts r)
