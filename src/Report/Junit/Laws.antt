-- ===== src/Report/Junit/Laws.antt =====
-- internal/report/junit.go: the totals of the test run, and when it has no failing case.
use jenkins_bench.Prelude.{
  ℕ, ◌+◌, Bool, true, false, not, ◌&&◌, ◌≡◌, ◌≢◌, refl, ◌∙◌, sym, ◌↔◌, List, [], ◌∷◌, ◌++◌,
  if◌then◌else◌, length, map, count_if, sum_of, sum_of-sort_by, length-append, length-map, sort_by,
  arith,
}
use jenkins_bench.Prelude.Text.{Text, codes}
use jenkins_bench.Engine.{pass, fail, Finding}
use jenkins_bench.Engine.Evaluate.{Report, PolicyError, no_jobs_audited}
use jenkins_bench.Report.{is_status, is_waived}
use jenkins_bench.Report.Junit.{
  TestSuite, TestCase, outcome_of, one_failed, one_skipped, add_case, add_finding, suites_from,
  unlisted_cases, error_case, scan_cases, scan_suite, before, new_suite, write_junit,
}

-- A failure that no exception accepts.
abbrev pub is_open : Finding → Bool
is_open f = is_status f.status fail && not (is_waived f)

-- A finding that its case skips: one that is accepted, or neither FAIL nor PASS.
abbrev pub is_set_aside : Finding → Bool
is_set_aside f =
    if is_waived f then true else not (is_status f.status fail) && not (is_status f.status pass)

one_failed-outcome_of : (f : Finding) → one_failed (outcome_of f) ≡ (if is_open f then 1 else 0)
unfolding outcome_of
one_failed-outcome_of f = ground arith

one_skipped-outcome_of :
    (f : Finding) → one_skipped (outcome_of f) ≡ (if is_set_aside f then 1 else 0)
unfolding outcome_of
one_skipped-outcome_of f = ground arith

sum_of-count_if {ℓ} :
    {A : Type ℓ} (gain : A → ℕ) (p : A → Bool)
    → ((a : A) → gain a ≡ (if p a then 1 else 0))
    → (xs : List A) → sum_of gain xs ≡ count_if p xs
sum_of-count_if gain p h [] = refl
sum_of-count_if gain p h (x ∷ xs) = ground (arith, h x, sum_of-count_if gain p h xs)

sum_of-append {ℓ} :
    {A : Type ℓ} (m : A → ℕ) (xs ys : List A) → sum_of m (xs ++ ys) ≡ sum_of m xs + sum_of m ys
sum_of-append m [] ys = omega arith
sum_of-append m (x ∷ xs) ys = omega (arith, sum_of-append m xs ys)

module _ (measure : TestSuite → ℕ) (gain : Finding → ℕ)
    (grows : (f : Finding) (s : TestSuite) → measure (add_case f s) ≡ measure s + gain f)
    (starts : (f : Finding) → measure (new_suite f) ≡ 0) where
  sum_of-add_finding :
      (f : Finding) (ss : List TestSuite)
      → sum_of measure (add_finding f ss) ≡ sum_of measure ss + gain f
  unfolding add_finding
  sum_of-add_finding f [] = omega (arith, starts f, grows f (new_suite f))
  sum_of-add_finding f (s ∷ ss) = ground (arith, grows f s, sum_of-add_finding f ss)

  sum_of-suites_from :
      (ss : List TestSuite) (fs : List Finding)
      → sum_of measure (suites_from ss fs) ≡ sum_of measure ss + sum_of gain fs
  unfolding suites_from
  sum_of-suites_from ss [] = omega arith
  sum_of-suites_from ss (f ∷ fs) =
      omega (arith, sum_of-suites_from (add_finding f ss) fs, sum_of-add_finding f ss)

sum_of-one {ℓ} : {A : Type ℓ} (xs : List A) → sum_of (λ x. 1) xs ≡ length xs
sum_of-one [] = refl
sum_of-one (x ∷ xs) = omega (arith, sum_of-one xs)

scan_suite-counts :
    (cs : List TestCase)
    → (sum_of (λ s. s.tests) (scan_suite cs) ≡ length cs)
      × (sum_of (λ s. s.failures) (scan_suite cs) ≡ length cs)
      × (sum_of (λ s. s.skipped_count) (scan_suite cs) ≡ 0)
scan_suite-counts [] = (refl, refl, refl)
scan_suite-counts (c ∷ cs) = (omega arith, omega arith, refl)

-- What a count of the run is, for a count of the suites that each finding adds to.
run_count :
    (measure : TestSuite → ℕ) (gain : Finding → ℕ)
    → ((f : Finding) (s : TestSuite) → measure (add_case f s) ≡ measure s + gain f)
    → ((f : Finding) → measure (new_suite f) ≡ 0)
    → (fs : List Finding) (cs : List TestCase)
    → sum_of measure (sort_by before (suites_from [] fs) ++ scan_suite cs)
      ≡ sum_of gain fs + sum_of measure (scan_suite cs)
run_count measure gain grows starts fs cs = omega (
  arith,
  sum_of-append measure (sort_by before (suites_from [] fs)) (scan_suite cs),
  sum_of-sort_by before measure (suites_from [] fs),
  sum_of-suites_from measure gain grows starts [] fs,
)

-- The totals of the run add up to every finding, each by its own rule, and to the cases of the scan: there is one test
-- for each finding, one failure for each FAIL that no exception accepts, and one skipped test for each finding that is
-- accepted, MANUAL or NA. Each case of the scan is a test that fails.
pub write_junit-totals :
    (wording : PolicyError → Text) (rep : Report)
    → ((write_junit wording rep).tests ≡ length rep.findings + length (scan_cases wording rep))
      × ((write_junit wording rep).failures
          ≡ count_if is_open rep.findings + length (scan_cases wording rep))
      × ((write_junit wording rep).skipped_count ≡ count_if is_set_aside rep.findings)
unfolding write_junit add_case
write_junit-totals wording rep =
    let fs = rep.findings in
    let cs = scan_cases wording rep in
    let (t, f, k) = scan_suite-counts cs in
    (
      run_count (λ s. s.tests) (λ f. 1) (λ f s. omega arith) (λ f. refl) fs cs
          ∙ omega (arith, t, sum_of-one fs),
      run_count (λ s. s.failures) (λ f. one_failed (outcome_of f)) (λ f s. refl) (λ f. refl) fs cs
          ∙ omega (arith, f, sum_of-count_if _ is_open one_failed-outcome_of fs),
      run_count (λ s. s.skipped_count) (λ f. one_skipped (outcome_of f)) (λ f s. refl) (λ f. refl)
            fs cs
          ∙ omega (arith, k, sum_of-count_if _ is_set_aside one_skipped-outcome_of fs),
    )

unlisted_cases-length : (cs : List Text) → length (unlisted_cases cs) ≢ 0
unfolding unlisted_cases
unlisted_cases-length [] h = omega arith
unlisted_cases-length (c ∷ cs) h = omega arith

parts_none :
    (complete idle : Bool) (missed : List TestCase) (none_judged : TestCase)
    (broken : List TestCase)
    → length missed ≢ 0
    → length
          ((if complete then [] else missed) ++ (if idle then none_judged ∷ [] else []) ++ broken)
        ≡ 0
      ↔ (complete ≡ true) × (idle ≡ false) × (length broken ≡ 0)
parts_none true true m j b h = (λ e. absurd (omega (arith, e)), λ (c, i, e). cc)
parts_none true false m j b h = (λ e. (refl, refl, e), λ (c, i, e). e)
parts_none false idle m j b h = (
  λ e. absurd (
      h (
        omega (
          arith,
          e,
          length-append (m ++ (if idle then j ∷ [] else [])) b,
          length-append m (if idle then j ∷ [] else []),
        ))),
  λ (c, i, e). cc,
)

scan_cases-none :
    (wording : PolicyError → Text) (rep : Report)
    → length (scan_cases wording rep) ≡ 0
      ↔ (rep.coverage.complete ≡ true)
        × (no_jobs_audited rep.coverage ≡ false)
        × (length rep.errors ≡ 0)
unfolding scan_cases
scan_cases-none wording rep =
    let broken =
      map (λ e. error_case (codes "policy evaluation") (codes "scan.policy") (wording e))
        rep.errors in
    let (there, back) =
      parts_none rep.coverage.complete (no_jobs_audited rep.coverage)
        (unlisted_cases rep.coverage.unlisted) _ broken
        (unlisted_cases-length rep.coverage.unlisted) in
    let same : length broken ≡ length rep.errors = length-map _ rep.errors in
    (λ h. let (c, i, e) = there h in (c, i, sym same ∙ e), λ (c, i, e). back (c, i, same ∙ e))

-- The run shows no failing test exactly where no FAIL is open and the scan could do all of its work: the job list is
-- complete, there was a job to judge where a control asks for one, and every policy was evaluated.
pub write_junit-clean :
    (wording : PolicyError → Text) (rep : Report)
    → (write_junit wording rep).failures ≡ 0
      ↔ (count_if is_open rep.findings ≡ 0)
        × (rep.coverage.complete ≡ true)
        × (no_jobs_audited rep.coverage ≡ false)
        × (length rep.errors ≡ 0)
write_junit-clean wording rep =
    let (t, f, k) = write_junit-totals wording rep in
    let (there, back) = scan_cases-none wording rep in
    (
      λ h. let (c, i, e) = there (omega (arith, f)) in (omega (arith, f), c, i, e),
      λ (o, c, i, e). f ∙ omega (arith, o, back (c, i, e)),
    )
