-- ===== src/Engine/Evaluate/Accounts.antt =====
-- Which findings a report of `Evaluate` in internal/engine/engine.go holds.
use mathlib.Core.Path.{ap₂}
use jenkins_bench.Prelude.{
  ℕ, ◌+◌, ◌≤◌, ◌≡◌, refl, sym, ap, ◌∙◌, Bool, Option, List, [], ◌∷◌, map, length, count_if,
  count_if-append, count_if-sort_by, sum_of, sort_by, arith,
}
use jenkins_bench.Prelude.Result.{ok, ◌>>=◌, >>=-eq-ok}
use jenkins_bench.Checks.{Check, scope_controller, scope_job}
use jenkins_bench.Config.{Config}
use jenkins_bench.Ci.{Job, Snapshot}
use jenkins_bench.Engine.{Finding, less_finding}
use jenkins_bench.Engine.Exceptions.{apply_exceptions}
use jenkins_bench.Engine.Exceptions.Score.{without_waiver, apply_exceptions-without_waiver}
use jenkins_bench.Engine.Evaluate.{
  PolicyError, Findings, no_findings, join_findings, evaluate_checks, evaluate_one, merge_results,
  all_results, Opa, evaluate_job, evaluate_jobs, audited, in_scope, controller_findings,
  finish_report, evaluate, Report, resource_job, instance_resource_name, resource_controller,
}
use jenkins_bench.Engine.Evaluate.Laws.{manuals, evaluate-eq-ok, evaluate_counts}

-- What a control finds on the controller, and on a job.
abbrev pub controller_finding : Opa → Check → Finding
controller_finding opa c =
    (evaluate_one opa.show opa.describe c instance_resource_name resource_controller
      (opa.eval_controller c)).0

abbrev pub job_finding : Opa → Job → Check → Finding
job_finding opa job c =
    (evaluate_one opa.show opa.describe c job.full_name resource_job (opa.eval_job job c)).0

count_if-map_without :
    (p : Finding → Bool) (fs : List Finding)
    → count_if p (map without_waiver fs) ≡ count_if (λ f. p (without_waiver f)) fs
count_if-map_without p [] = refl
count_if-map_without p (f ∷ fs) = ground (arith, count_if-map_without p fs)

count_if-evaluate_checks :
    (p : Finding → Bool) (judge : Check → Finding × Option PolicyError) (cs : List Check)
    → count_if p (evaluate_checks judge cs).findings ≡ count_if (λ c. p (judge c).0) cs
unfolding evaluate_checks
count_if-evaluate_checks p judge [] = refl
count_if-evaluate_checks p judge (c ∷ cs) = ground (arith, count_if-evaluate_checks p judge cs)

module _ (opa : Opa) (p : Finding → Bool) where
  count_if-evaluate_job :
      (cs : List Check) (job : Job) {r : Findings}
      → evaluate_job opa cs job ≡ ok r
      → count_if p r.findings ≡ count_if (λ c. p (job_finding opa job c)) cs
  unfolding evaluate_job
  count_if-evaluate_job cs job {r} h =
      let judge = λ (c : Check).
        evaluate_one opa.show opa.describe c job.full_name resource_job (opa.eval_job job c) in
      let q : r ≡ evaluate_checks judge cs = ground arith in
      rw q (count_if-evaluate_checks p judge cs)

  abbrev on_jobs : List Check → List Job → ℕ
  on_jobs cs = sum_of (λ j. count_if (λ c. p (job_finding opa j c)) cs)

  count_if-all_results :
      (cs : List Check) (jobs : List Job) {rs : List Findings}
      → all_results (map (evaluate_job opa cs) jobs) ≡ ok rs
      → count_if p (merge_results rs).findings ≡ on_jobs cs jobs
  unfolding all_results merge_results
  count_if-all_results cs [] {rs} h = let q : rs ≡ [] = ground arith in rw q refl
  count_if-all_results cs (j ∷ jobs) {rs} h =
      let (r, first, more) =
        >>=-eq-ok (evaluate_job opa cs j)
          (λ f. all_results (map (evaluate_job opa cs) jobs) >>= λ fs. ok (f ∷ fs)) h in
      let (ts, rest, done) =
        >>=-eq-ok (all_results (map (evaluate_job opa cs) jobs)) (λ fs. ok (r ∷ fs)) more in
      let q : rs ≡ r ∷ ts = ground arith in
      rw q (
        count_if-append p r.findings (merge_results ts).findings
        ∙ ap₂ ◌+◌ (count_if-evaluate_job cs j first) (count_if-all_results cs jobs rest))

  count_if-blanks :
      (jobs : List Job)
      → count_if p (merge_results (map (λ _. no_findings) jobs)).findings ≡ on_jobs [] jobs
  unfolding merge_results
  count_if-blanks [] = refl
  count_if-blanks (j ∷ jobs) = count_if-blanks jobs ∙ omega arith

  count_if-evaluate_jobs :
      (cs : List Check) (jobs : List Job) {rs : List Findings}
      → evaluate_jobs opa cs jobs ≡ ok rs
      → count_if p (merge_results rs).findings ≡ on_jobs cs jobs
  unfolding evaluate_jobs
  count_if-evaluate_jobs [] jobs {rs} h =
      let q : rs ≡ map (λ _. no_findings) jobs = ground arith in rw q (count_if-blanks jobs)
  count_if-evaluate_jobs (c ∷ cs) jobs h = count_if-all_results (c ∷ cs) jobs h

module _ (opa : Opa) (cfg : Config) (selected : List Check) (now : ℕ) (p : Finding → Bool) where
  abbrev bare : Finding → Bool
  bare f = p (without_waiver f)

  count_if-finish_report :
      (snapshot : Snapshot) (r : Findings)
      → count_if bare (finish_report opa cfg selected now snapshot r).findings
        ≡ count_if bare r.findings
  unfolding finish_report
  count_if-finish_report snapshot r =
      let sorted = sort_by less_finding r.findings in
      sym (count_if-map_without p (apply_exceptions now cfg.exceptions sorted).0)
      ∙ ap (count_if p) (apply_exceptions-without_waiver now cfg.exceptions sorted)
      ∙ count_if-map_without p sorted
      ∙ count_if-sort_by less_finding bare r.findings

  count_if-controller :
      count_if bare (controller_findings opa cfg selected now).findings
      ≡ count_if (λ c. bare (controller_finding opa c)) (in_scope scope_controller selected)
  unfolding controller_findings
  count_if-controller = count_if-evaluate_checks bare _ (in_scope scope_controller selected)

  -- Condition: the evaluation returns a report. Whatever is asked of a finding but for its waiver, the report holds as
  -- many findings of which it is true as the controls find: each controller-scope control once, on the controller, and
  -- each job-scope control once on each audited job, on that job's own outcome. There are at least as many MANUAL
  -- findings as policy errors.
  pub evaluate_findings :
      (snapshot : Snapshot) {rep : Report}
      → evaluate opa cfg selected now snapshot ≡ ok rep
      → (count_if (λ f. p (without_waiver f)) rep.findings
          ≡ count_if
              (λ c. p (without_waiver (controller_finding opa c)))
              (in_scope scope_controller selected)
            + sum_of
                (λ j.
                  count_if
                    (λ c. p (without_waiver (job_finding opa j c)))
                    (in_scope scope_job selected))
                (audited cfg snapshot.jobs))
        × (length rep.errors ≤ manuals rep.findings)
  evaluate_findings snapshot {rep} h =
      let (rs, done, q) = evaluate-eq-ok opa cfg selected now snapshot h in
      let ours = controller_findings opa cfg selected now in
      let js = merge_results rs in
      (
        rw q (
            count_if-finish_report snapshot (join_findings ours js)
            ∙ count_if-append bare ours.findings js.findings
            ∙ ap₂ ◌+◌ count_if-controller (
                count_if-evaluate_jobs opa bare (in_scope scope_job selected)
                  (audited cfg snapshot.jobs) done)),
        (evaluate_counts opa cfg selected now snapshot h).1,
      )
