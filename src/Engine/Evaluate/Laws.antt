-- ===== src/Engine/Evaluate/Laws.antt =====
-- What a report of `Evaluate` in internal/engine/engine.go accounts for.
use mathlib.Core.Path.{ap₂}
use jenkins_bench.Prelude.{
  ℕ, suc, ◌+◌, ◌*◌, ◌≤◌, ◌≡◌, ◌≢◌, refl, sym, ap, ◌∙◌, Bool, Option, none, List, [], ◌∷◌, ◌++◌, map,
  length, length-append, count_if, count_if-sort_by, length-sort_by, sort_by, arith, Option-cases,
  inl, inr,
}
use jenkins_bench.Prelude.Result.{ok, ◌>>=◌, >>=-eq-ok}
use jenkins_bench.Checks.{Check, scope_controller, scope_job}
use jenkins_bench.Config.{Config}
use jenkins_bench.Ci.{Job, Snapshot}
use jenkins_bench.Engine.{manual, Finding, less_finding}
use jenkins_bench.Engine.Score.{Score, compute}
use jenkins_bench.Engine.Score.Totals.{is_manual, compute-IsTally}
use jenkins_bench.Engine.Exceptions.{apply_exceptions}
use jenkins_bench.Engine.Exceptions.Score.{compute-apply_exceptions}
use jenkins_bench.Engine.Evaluate.{
  PolicyError, Findings, no_findings, join_findings, option_list, evaluate_checks, evaluate_one,
  merge_results, all_results, Opa, evaluate_job, evaluate_jobs, is_skipped, audited, in_scope,
  coverage_of, controller_findings, finish_report, evaluate, Report, resource_job,
  instance_resource_name, resource_controller,
}
use jenkins_bench.Engine.Evaluate.Decode.{evaluate_one_error}

abbrev pub manuals : List Finding → ℕ
manuals = count_if (λ f. is_manual f.status)

count_if-append :
    {A : Type 0} (p : A → Bool) (xs ys : List A)
    → count_if p (xs ++ ys) ≡ count_if p xs + count_if p ys
count_if-append p [] ys = omega arith
count_if-append p (x ∷ xs) ys = ground (arith, count_if-append p xs ys)

-- Every policy error has a MANUAL finding that shows it.
abbrev IsExplained : Findings → Type 0
IsExplained r = length r.errors ≤ manuals r.findings

join-IsExplained :
    (a b : Findings) → IsExplained a → IsExplained b → IsExplained (join_findings a b)
join-IsExplained a b ha hb = omega (
  arith,
  length-append a.errors b.errors,
  count_if-append (λ (f : Finding). is_manual f.status) a.findings b.findings,
)

module _ (judge : Check → Finding × Option PolicyError) where
  length-evaluate_checks :
      (cs : List Check) → length (evaluate_checks judge cs).findings ≡ length cs
  unfolding evaluate_checks
  length-evaluate_checks [] = refl
  length-evaluate_checks (c ∷ cs) = ap suc (length-evaluate_checks cs)

  evaluate_checks-IsExplained :
      ((c : Check) → (judge c).1 ≢ none → (judge c).0.status ≡ manual)
      → (cs : List Check) → IsExplained (evaluate_checks judge cs)
  unfolding evaluate_checks
  evaluate_checks-IsExplained h [] = omega arith
  evaluate_checks-IsExplained h (c ∷ cs) =
      join-IsExplained (record { findings = (judge c).0 ∷ []; errors = option_list (judge c).1 })
        (evaluate_checks judge cs)
        (elim (Option-cases (judge c).1) [
          | inl n ↦ rw n (omega arith)
          | inr (e, q) ↦
              let m : (judge c).0.status ≡ manual = h c (λ n. cc (n, q)) in rw (q, m) (omega arith)
        ])
        (evaluate_checks-IsExplained h cs)

-- A list of results, each with as many findings as there are controls, and explained.
abbrev IsFull : ℕ → List Findings → Type 0
IsFull n [] = Unit
IsFull n (r ∷ rs) = (length r.findings ≡ n) × IsExplained r × IsFull n rs

merge-IsFull :
    (n : ℕ) (rs : List Findings)
    → IsFull n rs
    → (length (merge_results rs).findings ≡ length rs * n) × IsExplained (merge_results rs)
unfolding merge_results
merge-IsFull n [] h = (omega arith, omega arith)
merge-IsFull n (r ∷ rs) h =
    let (size, fine) = merge-IsFull n rs h.2 in
    (
      grind (arith, length-append r.findings (merge_results rs).findings, size, h.0),
      join-IsExplained r (merge_results rs) h.1 fine,
    )

module _ (opa : Opa) where
  evaluate_job-full :
      (cs : List Check) (job : Job) {r : Findings}
      → evaluate_job opa cs job ≡ ok r
      → (length r.findings ≡ length cs) × IsExplained r
  unfolding evaluate_job
  evaluate_job-full cs job {r} h =
      let judge = λ (c : Check).
        evaluate_one opa.show opa.describe c job.full_name resource_job (opa.eval_job job c) in
      let q : r ≡ evaluate_checks judge cs = ground arith in
      rw q (
        length-evaluate_checks judge cs,
        evaluate_checks-IsExplained judge
            (λ c.
              evaluate_one_error opa.show opa.describe c job.full_name resource_job
                (opa.eval_job job c))
            cs,
      )

  all_results-IsFull :
      (cs : List Check) (jobs : List Job) {rs : List Findings}
      → all_results (map (evaluate_job opa cs) jobs) ≡ ok rs
      → IsFull (length cs) rs × (length rs ≡ length jobs)
  unfolding all_results
  all_results-IsFull cs [] {rs} h = let q : rs ≡ [] = ground arith in rw q (tt, refl)
  all_results-IsFull cs (j ∷ jobs) {rs} h =
      let (r, first, more) =
        >>=-eq-ok (evaluate_job opa cs j)
          (λ f. all_results (map (evaluate_job opa cs) jobs) >>= λ fs. ok (f ∷ fs)) h in
      let (ts, rest, done) =
        >>=-eq-ok (all_results (map (evaluate_job opa cs) jobs)) (λ fs. ok (r ∷ fs)) more in
      let q : rs ≡ r ∷ ts = ground arith in
      let (size, fine) = evaluate_job-full cs j first in
      let (full, count) = all_results-IsFull cs jobs rest in rw q ((size, fine, full), ap suc count)

  blanks-IsFull :
      (jobs : List Job)
      → IsFull 0 (map (λ _. no_findings) jobs)
        × (length (map (λ (_ : Job). no_findings) jobs) ≡ length jobs)
  blanks-IsFull [] = (tt, refl)
  blanks-IsFull (j ∷ jobs) =
      let (full, count) = blanks-IsFull jobs in ((refl, omega arith, full), ap suc count)

  evaluate_jobs-IsFull :
      (cs : List Check) (jobs : List Job) {rs : List Findings}
      → evaluate_jobs opa cs jobs ≡ ok rs
      → IsFull (length cs) rs × (length rs ≡ length jobs)
  unfolding evaluate_jobs
  evaluate_jobs-IsFull [] jobs {rs} h =
      let q : rs ≡ map (λ _. no_findings) jobs = ground arith in rw q (blanks-IsFull jobs)
  evaluate_jobs-IsFull (c ∷ cs) jobs h = all_results-IsFull (c ∷ cs) jobs h

module _ (opa : Opa) (cfg : Config) (selected : List Check) (now : ℕ) where
  controller-full :
      (length (controller_findings opa cfg selected now).findings
        ≡ length (in_scope scope_controller selected))
      × IsExplained (controller_findings opa cfg selected now)
  unfolding controller_findings
  controller-full =
      let judge = λ (c : Check).
        evaluate_one opa.show opa.describe c instance_resource_name resource_controller
          (opa.eval_controller c) in
      let cs = in_scope scope_controller selected in
      (
        length-evaluate_checks judge cs,
        evaluate_checks-IsExplained judge
            (λ c.
              evaluate_one_error opa.show opa.describe c instance_resource_name resource_controller
                (opa.eval_controller c))
            cs,
      )

  -- What `evaluate` has when it returns a report: the findings before they are sorted.
  pub evaluate-eq-ok :
      (snapshot : Snapshot) {rep : Report}
      → evaluate opa cfg selected now snapshot ≡ ok rep
      → (rs : List Findings) × (evaluate_jobs opa
            (in_scope scope_job selected)
            (audited cfg snapshot.jobs)
          ≡ ok rs)
        × (rep
            ≡ finish_report opa cfg selected now snapshot
                (join_findings (controller_findings opa cfg selected now) (merge_results rs)))
  unfolding evaluate
  evaluate-eq-ok snapshot {rep} h =
      let jobs_done = evaluate_jobs opa (in_scope scope_job selected) (audited cfg snapshot.jobs) in
      let (rs, done, last) =
        >>=-eq-ok jobs_done
          (λ rs. ok (
            finish_report opa cfg selected now snapshot
              (join_findings (controller_findings opa cfg selected now) (merge_results rs))))
          {c = rep} (ground arith) in
      (rs, done, ground arith)

  -- Sorting and accepting findings neither adds nor drops any, and keeps every status.
  finish_report-counts :
      (snapshot : Snapshot) (r : Findings)
      → (length (finish_report opa cfg selected now snapshot r).findings ≡ length r.findings)
        × (manuals (finish_report opa cfg selected now snapshot r).findings ≡ manuals r.findings)
        × ((finish_report opa cfg selected now snapshot r).errors ≡ r.errors)
  unfolding finish_report
  finish_report-counts snapshot r =
      let sorted = sort_by less_finding r.findings in
      let marked = (apply_exceptions now cfg.exceptions sorted).0 in
      let same = compute-apply_exceptions now cfg.exceptions sorted in
      let before = compute-IsTally sorted in
      let after = compute-IsTally marked in
      (
        omega (
          arith,
          ap (λ (s : Score). s.total) same,
          before.size,
          after.size,
          length-sort_by less_finding r.findings,
        ),
        omega (
          arith,
          ap (λ (s : Score). s.manual) same,
          before.manuals,
          after.manuals,
          count_if-sort_by less_finding (λ f. is_manual f.status) r.findings,
        ),
        refl,
      )

  -- Condition: the evaluation returns a report. The report has as many findings as there are
  -- controller-scope controls and pairs of an audited job and a job-scope control, and at least as many MANUAL findings
  -- as policy errors.
  pub evaluate_counts :
      (snapshot : Snapshot) {rep : Report}
      → evaluate opa cfg selected now snapshot ≡ ok rep
      → (length rep.findings
          ≡ length (in_scope scope_controller selected)
            + length (audited cfg snapshot.jobs) * length (in_scope scope_job selected))
        × (length rep.errors ≤ manuals rep.findings)
  evaluate_counts snapshot {rep} h =
      let (rs, done, q) = evaluate-eq-ok snapshot h in
      let js = merge_results rs in
      let all = join_findings (controller_findings opa cfg selected now) js in
      let (full, count) =
        evaluate_jobs-IsFull opa (in_scope scope_job selected) (audited cfg snapshot.jobs) done in
      let (size, fine) = merge-IsFull (length (in_scope scope_job selected)) rs full in
      let (csize, cfine) = controller-full in
      let (n, m, e) = finish_report-counts snapshot all in
      rw q (
        n
            ∙ length-append (controller_findings opa cfg selected now).findings js.findings
            ∙ ap₂ ◌+◌ csize (size ∙ ap (λ k. k * length (in_scope scope_job selected)) count),
        omega (
          arith,
          ap length e,
          m,
          join-IsExplained (controller_findings opa cfg selected now) js cfine fine,
        ),
      )

  -- Condition: the evaluation returns a report. Its score is the score of the findings that it
  -- shows, accepted ones included.
  evaluate-score :
      (snapshot : Snapshot) {rep : Report}
      → evaluate opa cfg selected now snapshot ≡ ok rep
      → rep.score ≡ compute rep.findings
  unfolding finish_report
  evaluate-score snapshot h =
      let (rs, done, q) = evaluate-eq-ok snapshot h in
      let all = join_findings (controller_findings opa cfg selected now) (merge_results rs) in
      rw q (sym (compute-apply_exceptions now cfg.exceptions (sort_by less_finding all.findings)))

audited-skipped :
    (cfg : Config) (jobs : List Job)
    → length (audited cfg jobs) + count_if (is_skipped cfg) jobs ≡ length jobs
unfolding audited
audited-skipped cfg [] = omega arith
audited-skipped cfg (j ∷ jobs) = ground (arith, audited-skipped cfg jobs)

-- Condition: the evaluation returns a report. Its coverage accounts for every job of the snapshot,
-- as audited or as skipped, and takes over from the snapshot whether the listing is complete and
-- what is unlisted.
pub evaluate-coverage :
    (opa : Opa) (cfg : Config) (selected : List Check) (now : ℕ) (snapshot : Snapshot)
    {rep : Report}
    → evaluate opa cfg selected now snapshot ≡ ok rep
    → (rep.coverage.jobs + rep.coverage.skipped_disabled ≡ length snapshot.jobs)
      × (rep.coverage.complete ≡ snapshot.controller.jobs_available)
      × (rep.coverage.unlisted ≡ snapshot.controller.unlisted)
unfolding finish_report coverage_of
evaluate-coverage opa cfg selected now snapshot h =
    let (rs, done, q) = evaluate-eq-ok opa cfg selected now snapshot h in
    rw q (audited-skipped cfg snapshot.jobs, refl, refl)
