-- ===== src/Examples/Evaluation.antt =====
-- A small evaluation: instances of the theorems on the engine.
use mathlib.Core.Path.{subst}
use mathlib.Core.Bool.{true≢false}
use jenkins_bench.Prelude.{
  ℕ, ◌+◌, ◌≤◌, ◌<◌, ◌≡◌, ◌≢◌, ◌⊎◌, refl, sym, ◌∙◌, true, false, none, some, List, [], ◌∷◌, map,
  length, inl, inr, sort_by, arith, Bool, count_if, sum_of,
}
use jenkins_bench.Prelude.Text.{Text, codes, text_eq, is_empty, trim_space, to_upper, upper_rune}
use jenkins_bench.Prelude.Result.{ok, err}
use jenkins_bench.Checks.{
  Check, scope_controller, scope_job, less_cisid, less_parts, less_component, atoi,
}
use jenkins_bench.Config.{Config, default}
use jenkins_bench.Ci.{Job, Snapshot, source_ui}
use jenkins_bench.Engine.{fail, manual, Finding, less_finding}
use jenkins_bench.Engine.Order.{IsId, IsNumbering, sort-IsInOrder, IsInOrder}
use jenkins_bench.Engine.Evaluate.{
  Json, string, value, no_result, Opa, DecodeError, PolicyResult, decode_result, get, read_status,
  decode_evidence, show_items, evaluate_one, evaluate, Report, audited, evaluate_checks,
  resource_job, finish_report, join_findings, controller_findings, merge_results, in_scope,
  evaluate_job, evaluate_jobs, all_results, Findings, EvaluateError, JobOutcome,
}
use jenkins_bench.Engine.Evaluate.Decode.{print_result, decode_result-print, evaluate_one_verdict}
use jenkins_bench.Engine.Evaluate.Laws.{manuals}
use jenkins_bench.Engine.Evaluate.Accounts.{controller_finding, job_finding, evaluate_findings}
use jenkins_bench.Engine.Exceptions.Score.{without_waiver}
use jenkins_bench.Engine.Evaluate.Workers.{
  Pool, Step, receive, finish, Reach, here, next, IsDone, start, settle, outcome_at, indices_from,
  workers-all_results,
}
use jenkins_bench.Engine.Evaluate.Workers.Progress.{work_left, pool_progress}
use jenkins_bench.Examples.{csrf_check, sandbox_check, some_findings}

abbrev pub shown : Json → Text
shown (string s) = s
shown _ = codes "?"

abbrev pub described : DecodeError → Text
described _ = codes "bad"

abbrev pub csrf_result : PolicyResult
csrf_result = record { status = fail; details = codes "off"; evidence = codes "crumb" ∷ [] }

abbrev pub some_opa : Opa
some_opa = record {
  encodes_config = true;
  encodes_metadata = true;
  encodes_controller = true;
  encodes_job = λ j. true;
  eval_controller = λ c. value (print_result csrf_result);
  eval_job = λ j c. no_result;
  show = shown;
  describe = described;
}

abbrev pub deploy : Job
deploy = record {
  full_name = codes "platform/deploy";
  name = codes "deploy";
  folder = codes "platform";
  url = codes "http://ci/";
  class = codes "hudson.model.FreeStyleProject";
  kind = codes "freestyle";
  disabled = false;
  buildable = true;
  definition = record {
    source = source_ui;
    class = [];
    script_path = [];
    scm_urls = [];
    sandbox = false;
    sandbox_known = false;
  };
  triggers = [];
  scripts = [];
  remote_trigger_token = false;
  remote_trigger_token_known = true;
  unauthenticated_triggers = [];
  unrecognized_triggers = [];
  triggers_known = true;
  runs_on_built_in_node = false;
  runs_on_built_in_node_known = true;
  api_available = true;
  config_available = true;
}

abbrev pub snapshot : Snapshot
snapshot = record {
  controller = record {
    security = record {
      enabled = true;
      enabled_known = true;
      csrf_protection = false;
      csrf_protection_known = true;
      anonymous_read = false;
      anonymous_read_known = true;
    };
    built_in_node = record {
      num_executors = 0;
      num_executors_known = true;
      labels = [];
      labels_known = true;
      mode = codes "NORMAL";
      mode_known = true;
    };
    credentials = [];
    credentials_available = true;
    jobs_available = true;
    unlisted = [];
  };
  jobs = deploy ∷ record deploy { full_name = codes "old"; disabled = true } ∷ [];
}

abbrev skipping : Config
skipping = record default { skip_disabled_jobs = true }

abbrev pub both_checks : List Check
both_checks = csrf_check ∷ sandbox_check ∷ []

csrf_result-details : is_empty (trim_space (codes "off")) ≡ false
unfolding trim_space
csrf_result-details = refl

decode_result-print_example : decode_result shown (print_result csrf_result) ≡ ok csrf_result
decode_result-print_example = decode_result-print shown (λ s. refl) csrf_result csrf_result-details

csrf_verdict :
    (evaluate_one shown described csrf_check [] [] (value (print_result csrf_result))).0.status
    ≢ manual
unfolding evaluate_one decode_result get read_status decode_evidence show_items trim_space to_upper
    upper_rune
csrf_verdict h = cc

evaluate_one_verdict_example :
    (v : Json) × (r : PolicyResult) × (value (print_result csrf_result) ≡ value v)
    × (decode_result shown v ≡ ok r)
    × ((evaluate_one shown described csrf_check [] [] (value (print_result csrf_result))).0.status
        ≡ r.status)
    × ((evaluate_one shown described csrf_check [] [] (value (print_result csrf_result))).1 ≡ none)
evaluate_one_verdict_example =
    evaluate_one_verdict shown described csrf_check [] [] (value (print_result csrf_result))
      csrf_verdict

-- The findings of the one job that is not disabled.
abbrev deploy_results : Findings
deploy_results =
    evaluate_checks
      (λ c. evaluate_one shown described c (codes "platform/deploy") resource_job no_result)
      (in_scope scope_job both_checks)

abbrev small_report : Report
small_report = finish_report some_opa skipping both_checks 0 snapshot (
    join_findings (controller_findings some_opa skipping both_checks 0)
      (merge_results (deploy_results ∷ [])))

small_evaluation : evaluate some_opa skipping both_checks 0 snapshot ≡ ok small_report
unfolding evaluate evaluate_jobs all_results evaluate_job audited
small_evaluation = refl

abbrev is_deploy_finding : Finding → Bool
is_deploy_finding f = text_eq f.resource (codes "platform/deploy")

evaluate_findings_example :
    (count_if (λ f. is_deploy_finding (without_waiver f)) small_report.findings
      ≡ count_if
          (λ c. is_deploy_finding (controller_finding some_opa c))
          (in_scope scope_controller both_checks)
        + sum_of
            (λ j.
              count_if
                (λ c. is_deploy_finding (job_finding some_opa j c))
                (in_scope scope_job both_checks))
            (audited skipping snapshot.jobs))
    × (length small_report.errors ≤ manuals small_report.findings)
evaluate_findings_example =
    evaluate_findings some_opa skipping both_checks 0 is_deploy_finding snapshot small_evaluation

abbrev one_outcome : List JobOutcome
one_outcome = ok deploy_results ∷ []

abbrev one_received : Pool
one_received = record (start 1 1) { queue = []; waiting = 0; running = 0 ∷ [] }

abbrev one_finished : Pool
one_finished = settle 0 (ok deploy_results) [] one_received

one_worker-Reach : Reach (outcome_at one_outcome) (start 1 1) one_finished
one_worker-Reach =
    let first : Step (outcome_at one_outcome) (start 1 1) one_received =
      receive 0 [] 0 refl refl refl in
    let second : Step (outcome_at one_outcome) one_received one_finished =
      finish [] 0 [] refl refl in
    next (next here first) second

one_worker-IsDone : IsDone (outcome_at one_outcome) one_finished
unfolding settle
one_worker-IsDone = (refl, refl)

workers-all_results_example :
    (one_finished.first_err ≡ none
      → all_results one_outcome
        ≡ ok (map one_finished.results (indices_from 0 (length one_outcome))))
    × ((e : EvaluateError)
        → one_finished.first_err ≡ some e
        → (j : ℕ) × (outcome_at one_outcome j ≡ err e))
workers-all_results_example = workers-all_results 1 one_outcome one_worker-Reach one_worker-IsDone

one_worker : 0 < 1
one_worker = omega arith

pool_progress_example :
    ((t : Pool)
      → Step (outcome_at one_outcome) one_finished t
      → work_left t < work_left one_finished)
    × (((one_finished.gone ≡ 1)
          × (one_finished.queue ≡ [])
          × (one_finished.running ≡ [])
          × (one_finished.first_err ≡ none
              → all_results one_outcome
                ≡ ok (map one_finished.results (indices_from 0 (length one_outcome)))))
        ⊎ ((t : Pool) × Step (outcome_at one_outcome) one_finished t))
pool_progress_example = pool_progress 1 one_outcome one_worker one_worker-Reach

-- The benchmark numbers of the two controls.
abbrev IsOwnNumber : Text → Type 0
IsOwnNumber t = (t ≡ csrf_check.cis_id) ⊎ (t ≡ sandbox_check.cis_id)

numbers-in_order :
    (less_cisid csrf_check.cis_id sandbox_check.cis_id ≡ true)
    × IsId csrf_check.cis_id
    × IsId sandbox_check.cis_id
unfolding less_cisid less_parts less_component atoi
numbers-in_order = (refl, inr ((1, refl), ((1, refl), tt)), inr ((2, refl), ((1, refl), tt)))

own_numbering : IsNumbering IsOwnNumber
own_numbering = record { ids = own_ids; apart = own_apart }
  where
    own_ids : (a : Text) → IsOwnNumber a → IsId a
    own_ids a (inl e) = subst IsId (sym e) numbers-in_order.1
    own_ids a (inr e) = subst IsId (sym e) numbers-in_order.2

    own_apart :
        (a b : Text)
        → IsOwnNumber a
        → IsOwnNumber b
        → less_cisid a b ≡ false
        → less_cisid b a ≡ false
        → a ≡ b
    own_apart a b (inl d) (inl e) p q = d ∙ sym e
    own_apart a b (inr d) (inr e) p q = d ∙ sym e
    own_apart a b (inl d) (inr e) p q =
        absurd (true≢false (sym numbers-in_order.0 ∙ (rw (d, e) at p)))
    own_apart a b (inr d) (inl e) p q =
        absurd (true≢false (sym numbers-in_order.0 ∙ (rw (e, d) at q)))

sort-IsInOrder_example : IsInOrder (sort_by less_finding some_findings)
sort-IsInOrder_example =
    sort-IsInOrder IsOwnNumber own_numbering some_findings (inl refl, (inr refl, (inr refl, tt)))
