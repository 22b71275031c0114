-- ===== src/Report/Junit.antt =====
-- internal/report/junit.go: the suites of test cases that a report becomes. A map from a control to its suite with the
-- slice of its keys is the list of the suites in order of appearance; the properties of the run and the XML encoding
-- are left out.
pub mod Laws
use jenkins_bench.Prelude.{
  ℕ, suc, ◌+◌, Bool, true, false, not, ◌&&◌, Option, none, some, List, [], ◌∷◌, ◌++◌, if◌then◌else◌,
  length, map, sum_of, sort_by,
}
use jenkins_bench.Prelude.Text.{Text, codes, is_empty, to_upper, text_eq, text_lt}
use jenkins_bench.Engine.{Status, pass, fail, manual, na, Finding}
use jenkins_bench.Engine.Evaluate.{Coverage, Report, PolicyError, no_jobs_audited}
use jenkins_bench.Report.{is_status, accepted_note}

-- junitFailure and junitSkipped, of which a case has at most one
pub data Outcome : Type 0 where
  failed : Text → Text → Text → Outcome
  skipped : Text → Outcome
  passed : Outcome

pub record TestCase : Type 0 where
  pub name : Text
  pub class_name : Text
  pub outcome : Outcome

pub record TestSuite : Type 0 where
  pub id : Text
  pub name : Text
  pub tests : ℕ
  pub failures : ℕ
  pub skipped_count : ℕ
  pub cases : List TestCase

pub record TestSuites : Type 0 where
  pub tests : ℕ
  pub failures : ℕ
  pub skipped_count : ℕ
  pub suites : List TestSuite

abbrev pub evidence_lines : List Text → Text
evidence_lines [] = []
evidence_lines (e ∷ es) = codes "\n  · " ++ e ++ evidence_lines es

-- failureText
unfoldable pub failure_text : Finding → Text
failure_text f =
    f.details
    ++ evidence_lines f.evidence
    ++ (if is_empty f.remediation then [] else codes "\n\nFix: " ++ f.remediation)

abbrev pub status_name : Status → Text
status_name pass = codes "PASS"
status_name fail = codes "FAIL"
status_name manual = codes "MANUAL"
status_name na = codes "NA"

-- The switch of the loop over the findings.
unfoldable pub outcome_of : Finding → Outcome
unfolding failure_text accepted_note
outcome_of f = elim f.waiver [
  | some w ↦ skipped (status_name f.status ++ codes ", " ++ accepted_note w)
  | none ↦ elim f.status [
    | fail ↦ failed f.details (to_upper f.severity) (failure_text f)
    | manual ↦ skipped (codes "MANUAL: " ++ f.details)
    | na ↦ skipped (codes "not applicable: " ++ f.details)
    | pass ↦ passed
  ]
]

abbrev pub one_failed : Outcome → ℕ
one_failed (failed m t x) = 1
one_failed (skipped m) = 0
one_failed passed = 0

abbrev pub one_skipped : Outcome → ℕ
one_skipped (failed m t x) = 0
one_skipped (skipped m) = 1
one_skipped passed = 0

abbrev pub new_suite : Finding → TestSuite
new_suite f = record {
  id = f.check_id;
  name = f.check_id ++ codes ": " ++ f.title;
  tests = 0;
  failures = 0;
  skipped_count = 0;
  cases = [];
}

-- One round of the loop, on the finding's suite.
unfoldable pub add_case : Finding → TestSuite → TestSuite
unfolding outcome_of
add_case f s =
    let made = outcome_of f in
    record s {
      tests = suc s.tests;
      failures = s.failures + one_failed made;
      skipped_count = s.skipped_count + one_skipped made;
      cases = s.cases ++ record { name = f.resource; class_name = f.check_id; outcome = made } ∷ [];
    }

unfoldable pub add_finding : Finding → List TestSuite → List TestSuite
unfolding add_case
add_finding f [] = add_case f (new_suite f) ∷ []
add_finding f (s ∷ ss) =
    let rest = add_finding f ss in if text_eq s.id f.check_id then add_case f s ∷ ss else s ∷ rest

unfoldable pub suites_from : List TestSuite → List Finding → List TestSuite
unfolding add_finding
suites_from ss [] = ss
suites_from ss (f ∷ fs) = suites_from (add_finding f ss) fs

abbrev pub error_case : Text → Text → Text → TestCase
error_case name class_name message = record {
  name = name;
  class_name = class_name;
  outcome = failed message (codes "ERROR") [];
}

unfoldable pub unlisted_cases : List Text → List TestCase
unlisted_cases [] =
    error_case (codes "job list") (codes "scan.coverage")
      (codes "the snapshot does not record its job list as complete")
    ∷ []
unlisted_cases (c ∷ cs) =
    map
      (λ name.
        error_case name (codes "scan.coverage")
          (codes "the jobs in this folder could not be listed"))
      (c ∷ cs)

-- scanCases, for a wording of the errors of policies
unfoldable pub scan_cases : (PolicyError → Text) → Report → List TestCase
unfolding unlisted_cases no_jobs_audited
scan_cases wording rep =
    (if rep.coverage.complete then [] else unlisted_cases rep.coverage.unlisted)
    ++ (if no_jobs_audited rep.coverage
        then error_case (codes "jobs") (codes "scan.coverage")
            (codes "no job was evaluated; a token without Job/Read is shown an empty job list")
          ∷ []
        else [])
    ++ map (λ e. error_case (codes "policy evaluation") (codes "scan.policy") (wording e))
        rep.errors

abbrev pub scan_suite : List TestCase → List TestSuite
scan_suite [] = []
scan_suite (c ∷ cs) =
    record {
      id = codes "scan";
      name = codes "scan";
      tests = length (c ∷ cs);
      failures = length (c ∷ cs);
      skipped_count = 0;
      cases = c ∷ cs;
    }
    ∷ []

abbrev pub before : TestSuite → TestSuite → Bool
before a b = text_lt a.id b.id

-- writeJUnit, up to the encoding
unfoldable pub write_junit : (PolicyError → Text) → Report → TestSuites
unfolding suites_from scan_cases sort_by
write_junit wording rep =
    let suites =
      sort_by before (suites_from [] rep.findings) ++ scan_suite (scan_cases wording rep) in
    record {
      tests = sum_of (λ s. s.tests) suites;
      failures = sum_of (λ s. s.failures) suites;
      skipped_count = sum_of (λ s. s.skipped_count) suites;
      suites = suites;
    }
