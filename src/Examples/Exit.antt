-- ===== src/Examples/Exit.antt =====
-- Exit codes of a few reports: instances of the theorems.
use jenkins_bench.Prelude.{◌≡◌, ◌≢◌, ◌↔◌, ◌+◌, refl, true, false, [], ◌∷◌, inr, length, count_if}
use jenkins_bench.Prelude.Text.{Text, codes, to_upper, to_lower, upper_rune, lower_rune}
use jenkins_bench.Checks.{severity_low}
use jenkins_bench.Config.{default}
use jenkins_bench.Engine.Score.{compute, has_failure_at_or_above}
use jenkins_bench.Engine.Evaluate.{Report, PolicyError, no_jobs_audited}
use jenkins_bench.Report.Junit.{scan_cases, write_junit}
use jenkins_bench.Report.Junit.Laws.{is_open, is_set_aside, write_junit-clean, write_junit-totals}
use jenkins_bench.Cli.Exit.{
  exit_code, scan_error, exit_ok, exit_error, failure_summary, threshold_breached,
}
use jenkins_bench.Cli.Exit.Laws.{IsClean, HasLooked, exit_code_zero, exit_code_two}
use jenkins_bench.Cli.Exit.Failures.{IsLevel, failure_summary_iff}
use jenkins_bench.Examples.{deploy_fails, some_findings}

abbrev some_report : Report
some_report = record {
  findings = some_findings;
  score = compute some_findings;
  coverage = record {
    jobs = 2;
    skipped_disabled = 0;
    job_controls = 1;
    complete = true;
    unlisted = [];
  };
  errors = [];
  exception_warnings = [];
}

exit_code_zero_example :
    (exit_code (scan_error some_report default.scan) ≡ exit_ok) ↔ IsClean some_report default.scan
exit_code_zero_example = exit_code_zero some_report default.scan

exit_code_two_example :
    (exit_code (scan_error some_report default.scan) ≡ exit_error)
    ↔ (¬ HasLooked some_report default.scan)
exit_code_two_example = exit_code_two some_report default.scan

severity_low-IsLevel : IsLevel severity_low
unfolding to_upper to_lower upper_rune lower_rune
severity_low-IsLevel = inr (inr (refl, refl))

failure_summary_iff_example :
    (has_failure_at_or_above (deploy_fails ∷ []) severity_low ≡ true)
    ↔ (failure_summary (deploy_fails ∷ []) severity_low ≢ threshold_breached)
failure_summary_iff_example =
    failure_summary_iff (deploy_fails ∷ []) severity_low severity_low-IsLevel
      (severity_low-IsLevel, tt)

abbrev unworded : PolicyError → Text
unworded e = codes "a policy failed"

write_junit-clean_example :
    (write_junit unworded some_report).failures ≡ 0
    ↔ (count_if is_open some_findings ≡ 0)
      × (some_report.coverage.complete ≡ true)
      × (no_jobs_audited some_report.coverage ≡ false)
      × (length some_report.errors ≡ 0)
write_junit-clean_example = write_junit-clean unworded some_report

write_junit-totals_example :
    ((write_junit unworded some_report).tests
      ≡ length some_findings + length (scan_cases unworded some_report))
    × ((write_junit unworded some_report).failures
        ≡ count_if is_open some_findings + length (scan_cases unworded some_report))
    × ((write_junit unworded some_report).skipped_count ≡ count_if is_set_aside some_findings)
write_junit-totals_example = write_junit-totals unworded some_report
