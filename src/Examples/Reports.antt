-- ===== src/Examples/Reports.antt =====
-- Reports on a few findings: instances of the theorems.
use jenkins_bench.Prelude.Assoc.{lookup, insert}
use jenkins_bench.Prelude.{
  ◌+◌, ◌≤◌, ◌<◌, ◌≡◌, ◌≢◌, ◌↔◌, refl, inr, Bool, true, false, not, ◌&&◌, ◌||◌, some, List, [], ◌∷◌,
  ◌++◌, any, count_if, sum_of, if◌then◌else◌, sort_by, count_if-sort_by,
}
use jenkins_bench.Prelude.Text.{trim_space, to_lower, equal_fold, Text, codes, text_eq}
use jenkins_bench.Prelude.Result.{ok}
use jenkins_bench.Engine.{fail, manual, pass, na, Finding}
use jenkins_bench.Engine.Evaluate.{instance_resource_name}
use jenkins_bench.Report.{Options, is_status, unread}
use jenkins_bench.Console.Paint.{Painter}
use jenkins_bench.Report.Tally.{tally_resources}
use jenkins_bench.Report.Tally.Laws.{names, of_name, tally_resources_lem}
use jenkins_bench.Report.Details.{
  parse_loop, find_control, canonical_ids, DetailFilter, parse_detail_filters, filter_findings,
}
use jenkins_bench.Report.Details.Laws.{filter_findings-ne-nil}
use jenkins_bench.Report.Remedies.{full_sweeps}
use jenkins_bench.Report.Remedies.Laws.{applies, full_sweeps_iff}
use jenkins_bench.Report.Groups.Laws.{listed, is_at}
use jenkins_bench.Report.Lines.{sections_of, finding_lines}
use jenkins_bench.Report.Lines.Shows.{ShowsSections, finding_lines_complete}
use jenkins_bench.Report.Lines.Laws.{is_hidden}
use jenkins_bench.Examples.{deploy_fails, some_findings}

abbrev deploy : Text
deploy = codes "platform/deploy"

abbrev sandbox : Text
sandbox = codes "jb-sandbox"

abbrev deploy_key : Text
deploy_key = sandbox ++ 0 ∷ deploy_fails.details

abbrev with_passes : Options
with_passes = record { show_passed = true; max_resources = 0; no_remediations = false }

tally_resources_lem_example :
    (count_if (names deploy) (tally_resources some_findings)
      ≡ (if any (λ f. text_eq f.resource deploy) some_findings then 1 else 0))
    × (sum_of (of_name (λ t. t.failed) deploy) (tally_resources some_findings)
        ≡ count_if (λ f. text_eq f.resource deploy && is_status f.status fail) some_findings)
    × (sum_of (of_name (λ t. t.unread) deploy) (tally_resources some_findings)
        ≡ count_if (λ f. text_eq f.resource deploy && unread f) some_findings)
    × (sum_of (of_name (λ t. t.manual) deploy) (tally_resources some_findings)
        ≡ count_if
            (λ f. text_eq f.resource deploy && (is_status f.status manual && not (unread f)))
            some_findings)
    × (sum_of (of_name (λ t. t.passed) deploy) (tally_resources some_findings)
        ≡ count_if (λ f. text_eq f.resource deploy && is_status f.status pass) some_findings)
    × (sum_of (of_name (λ t. t.na) deploy) (tally_resources some_findings)
        ≡ count_if (λ f. text_eq f.resource deploy && is_status f.status na) some_findings)
tally_resources_lem_example = tally_resources_lem some_findings deploy

full_sweeps_iff_example : (full_sweeps some_findings sandbox ≡ some 2) ↔ (
    (any (λ f. applies sandbox f && text_eq f.resource instance_resource_name) some_findings
      ≡ false)
    × (count_if (applies sandbox) some_findings ≡ 2)
    × (count_if (λ f. applies sandbox f && is_status f.status fail) some_findings ≡ 2)
    × (1 < 2))
full_sweeps_iff_example = full_sweeps_iff some_findings sandbox 2

abbrev stable : (Finding → Finding → Bool) → List Finding → List Finding
stable = sort_by

stable-keeps :
    (less : Finding → Finding → Bool) (fs : List Finding) (p : Finding → Bool)
    → count_if p (stable less fs) ≡ count_if p fs
stable-keeps less fs p = count_if-sort_by less p fs

abbrev in_colour : Painter
in_colour = record { enabled = true }

finding_lines_complete_example :
    (count_if (is_at deploy_key deploy) some_findings
      ≤ count_if (is_at deploy_key deploy) (sections_of stable some_findings with_passes).fails
        + count_if (is_at deploy_key deploy) (sections_of stable some_findings with_passes).passes
        + sum_of (listed deploy_key deploy) (sections_of stable some_findings with_passes).manuals
        + sum_of (listed deploy_key deploy) (sections_of stable some_findings with_passes).nas
        + count_if (is_at deploy_key deploy) (sections_of stable some_findings with_passes).accepted
        + count_if
            (λ f. (unread f || is_hidden with_passes f) && is_at deploy_key deploy f)
            some_findings)
    × ShowsSections in_colour 80 with_passes
        (finding_lines stable [] some_findings in_colour 80 with_passes)
        (sections_of stable some_findings with_passes)
finding_lines_complete_example =
    finding_lines_complete stable stable-keeps [] some_findings in_colour 80 with_passes deploy_key
      deploy

abbrev sandbox_only : DetailFilter
sandbox_only = record { controls = sandbox ∷ []; resources = [] }

reads_sandbox : parse_detail_filters (codes " JB-Sandbox" ∷ []) some_findings ≡ ok sandbox_only
unfolding parse_detail_filters parse_loop trim_space equal_fold find_control lookup canonical_ids
    insert to_lower
reads_sandbox = refl

some_findings-ne-nil : some_findings ≢ []
some_findings-ne-nil e = cc

filter_findings-ne-nil_example : filter_findings some_findings sandbox_only ≢ []
filter_findings-ne-nil_example =
    filter_findings-ne-nil (codes " JB-Sandbox" ∷ []) some_findings sandbox_only reads_sandbox
      (inr refl) some_findings-ne-nil

abbrev one_table : Options
one_table = record { show_passed = false; max_resources = 1; no_remediations = false }

abbrev plain : Painter
plain = record { enabled = false }
