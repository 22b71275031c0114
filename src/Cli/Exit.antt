-- ===== src/Cli/Exit.antt =====
-- internal/cli/scan.go: `exitStatus`, `failureSummary` and `severityAtOrAbove`; internal/cli/exit.go:
-- `ExitCode`. An error is its exit code and the reason; the wording of the reasons is not modelled.
pub mod Laws
pub mod Failures
pub mod Complete
use jenkins_bench.Prelude.{
  ℕ, zero, suc, ◌+◌, ◌*◌, Bool, true, false, not, ◌&&◌, Option, none, some, List, [], ◌∷◌, ltb, leb,
  any, count_if, length, if◌then◌else◌,
}
use jenkins_bench.Prelude.Text.{Text, codes, text_eq, to_lower, equal_fold}
use jenkins_bench.Prelude.Int.{ℤ, pos, negsuc, ltb_ℤ}
use jenkins_bench.Config.{Scan}
use jenkins_bench.Engine.{Status, pass, fail, manual, na, Finding}
use jenkins_bench.Engine.Score.{has_failure_at_or_above}
use jenkins_bench.Engine.Evaluate.{Report, no_jobs_audited, Coverage}

abbrev pub exit_ok : ℕ
exit_ok = 0

abbrev pub exit_findings : ℕ
exit_findings = 1

abbrev pub exit_error : ℕ
exit_error = 2

-- severityAtOrAbove's map; a missing key reads as 0
unfoldable pub severity_rank : Text → ℕ
severity_rank s =
    let l = to_lower s in
    if text_eq l (codes "low")
    then 1
    else if text_eq l (codes "medium")
    then 2
    else if text_eq l (codes "high")
    then 3
    else 0

-- severityAtOrAbove
unfoldable pub severity_at_or_above : Text → Text → Bool
unfolding severity_rank
severity_at_or_above severity threshold = leb (severity_rank threshold) (severity_rank severity)

abbrev pub is_unwaived : Finding → Bool
is_unwaived f = elim f.waiver [ none ↦ true | some w ↦ false ]

abbrev pub is_failure : Finding → Bool
is_failure f = elim f.status [ fail ↦ is_unwaived f | _ ↦ false ]

-- The test of the loop in `failureSummary`.
unfoldable pub explains : Text → Finding → Bool
unfolding severity_at_or_above
explains threshold f = is_failure f && severity_at_or_above f.severity threshold

-- m[key] = true, on a set that keeps the order of insertion
unfoldable pub add_key : Text → List Text → List Text
add_key k ks = if any (λ j. text_eq j k) ks then ks else k ∷ ks

-- The sets `controls` and `resources` of `failureSummary`.
unfoldable pub explained_keys : (Finding → Text) → Text → List Finding → List Text
unfolding add_key explains
explained_keys key threshold [] = []
explained_keys key threshold (f ∷ fs) =
    let ks = explained_keys key threshold fs in
    if explains threshold f then add_key (key f) ks else ks

-- The summary's numbers: how many controls failed, and on how many resources.
pub data Summary : Type 0 where
  threshold_breached : Summary
  controls_failed : ℕ → ℕ → Summary

-- failureSummary
unfoldable pub failure_summary : List Finding → Text → Summary
failure_summary fs threshold = elim (length (explained_keys (λ f. f.check_id) threshold fs)) [
  | zero ↦ threshold_breached
  | suc n ↦ controls_failed (suc n) (length (explained_keys (λ f. f.resource) threshold fs))
]

pub data Reason : Type 0 where
  not_evaluated : ℕ → Reason
  incomplete : List Text → Reason
  all_disabled : ℕ → Reason
  no_job_listed : Reason
  too_many_manual : ℕ → ℕ → ℕ → Reason
  score_below : ℕ → ℕ → Reason
  failures : Summary → Reason

-- exitCodeError
pub record ExitError : Type 0 where
  pub code : ℕ
  pub reason : Reason

-- The automated MANUAL findings that nobody has accepted.
abbrev pub is_unread : Finding → Bool
is_unread f = elim f.status [ manual ↦ f.automated && is_unwaived f | _ ↦ false ]

unfoldable pub unread : List Finding → ℕ
unread = count_if is_unread

-- The gate on scan.maxManual.
unfoldable pub manual_gate : Report → ℤ → Option ExitError
manual_gate rep (negsuc n) = none
manual_gate rep (pos m) =
    let u = unread rep.findings in
    let decidable = rep.score.passed + rep.score.failed + u in
    if ltb 0 decidable && ltb (m * decidable) (u * 100)
    then some (record { code = exit_findings; reason = too_many_manual u decidable m })
    else none

-- The gate on scan.failUnder.
unfoldable pub score_gate : Report → ℤ → Option ExitError
score_gate rep (negsuc n) = none
score_gate rep (pos m) =
    if ltb 0 m && ltb rep.score.value m
    then some (record { code = exit_findings; reason = score_below rep.score.value m })
    else none

-- The gate on scan.failOn.
unfoldable pub failure_gate : Report → Text → Option ExitError
failure_gate rep fail_on =
    if not (equal_fold fail_on (codes "none")) && has_failure_at_or_above rep.findings fail_on
    then some
        (record { code = exit_findings; reason = failures (failure_summary rep.findings fail_on) })
    else none

-- What stops a scan that did not look: broken policies, an incomplete job list, no job at all.
unfoldable pub looked : Report → Scan → Option ExitError
looked rep scan = elim rep.errors [
  | e ∷ es ↦ some (record { code = exit_error; reason = not_evaluated (length (e ∷ es)) })
  | [] ↦
      if not rep.coverage.complete && not scan.allow_incomplete
      then some (record { code = exit_error; reason = incomplete rep.coverage.unlisted })
      else if no_jobs_audited rep.coverage
      then (if ltb 0 rep.coverage.skipped_disabled
          then some
              (record { code = exit_error; reason = all_disabled rep.coverage.skipped_disabled })
          else some (record { code = exit_error; reason = no_job_listed }))
      else none
]

abbrev pub or_else : Option ExitError → Option ExitError → Option ExitError
or_else (some e) later = some e
or_else none later = later

-- exitStatus; `none` is the nil error
unfoldable pub exit_status : Report → Scan → Option ExitError
exit_status rep scan = or_else (looked rep scan) (
    or_else (manual_gate rep scan.max_manual)
      (or_else (score_gate rep scan.fail_under) (failure_gate rep scan.fail_on)))

-- An error of the command: an exitCodeError, or any other.
pub data RunError : Type 0 where
  coded : ExitError → RunError
  other : RunError

-- ExitCode
unfoldable pub exit_code : Option RunError → ℕ
exit_code none = exit_ok
exit_code (some (coded e)) = e.code
exit_code (some other) = exit_error

-- The error that `runScan` ends with when it got as far as a report.
abbrev pub scan_error : Report → Scan → Option RunError
scan_error rep scan = elim (exit_status rep scan) [ none ↦ none | some e ↦ some (coded e) ]
