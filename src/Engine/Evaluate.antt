-- ===== src/Engine/Evaluate.antt =====
-- internal/engine/engine.go: `decodeResult`, `evaluateOne` and `Evaluate`. What OPA does (running a
-- prepared query, encoding a job) and the printing of a JSON value are parameters; the workers of
-- `evaluateJobs` are in Workers.
pub mod Laws
pub mod Accounts
pub mod Workers
pub mod Decode
use jenkins_bench.Prelude.{
  ℕ, suc, ◌+◌, Bool, true, false, not, ◌&&◌, Option, none, some, List, [], ◌∷◌, ◌++◌, map, keep,
  length, sort_by, count_if, if◌then◌else◌,
}
use jenkins_bench.Prelude.Text.{Text, codes, text_eq, to_upper, trim_space, is_empty}
use jenkins_bench.Prelude.Result.{Result, ok, err, ◌>>=◌}
use jenkins_bench.Checks.{Check, scope_controller, scope_job}
use jenkins_bench.Config.{Config}
use jenkins_bench.Ci.{Job, Controller, Snapshot}
use jenkins_bench.Engine.{Status, pass, fail, manual, na, Finding, less_finding}
use jenkins_bench.Engine.Score.{Score, compute}
use jenkins_bench.Engine.Exceptions.{Warning, apply_exceptions}

-- A JSON value as a policy returns it; what is neither an object, an array nor a string is `scalar`.
mutual
  pub data Json : Type 0 where
    object : Fields → Json
    array : Items → Json
    string : Text → Json
    scalar : Text → Json

  pub data Items : Type 0 where
    nil : Items
    cons : Json → Items → Items

  pub data Fields : Type 0 where
    end : Fields
    field : Text → Json → Fields → Fields

unfoldable pub get : Text → Fields → Option Json
get k end = none
get k (field j v fs) = let rest = get k fs in if text_eq j k then some v else rest

-- s, _ := v.(string)
abbrev pub as_string : Option Json → Text
as_string (some (string s)) = s
as_string _ = []

pub data DecodeError : Type 0 where
  not_an_object missing_details evidence_not_an_array : DecodeError
  bad_status : Text → DecodeError

pub record PolicyResult : Type 0 where
  pub status : Status
  pub details : Text
  pub evidence : List Text

-- The switch on the status that a policy gave.
unfoldable pub read_status : Text → Option Status
read_status raw =
    let s = to_upper (trim_space raw) in
    if text_eq s (codes "PASS")
    then some pass
    else if text_eq s (codes "FAIL")
    then some fail
    else if text_eq s (codes "MANUAL")
    then some manual
    else if text_eq s (codes "NA")
    then some na
    else none

-- How an evaluation of a prepared query ends: with an error, with no expression, or with a value.
pub data Outcome : Type 0 where
  eval_error : Text → Outcome
  no_result : Outcome
  value : Json → Outcome

-- Why a control is missing from the judged ones.
pub data PolicyError : Type 0 where
  evaluation_failed : Text → Text → Text → PolicyError
  produced_nothing : Text → Text → PolicyError
  malformed : Text → Text → DecodeError → PolicyError

module _ (show : Json → Text) where
  unfoldable pub show_items : Items → List Text
  show_items nil = []
  show_items (cons v vs) = show v ∷ show_items vs

  unfoldable pub decode_evidence : Option Json → Result DecodeError (List Text)
  unfolding show_items
  decode_evidence none = ok []
  decode_evidence (some (array vs)) = ok (show_items vs)
  decode_evidence (some _) = err evidence_not_an_array

  -- decodeResult
  unfoldable pub decode_result : Json → Result DecodeError PolicyResult
  unfolding get read_status decode_evidence
  decode_result (object fs) =
      let raw = as_string (get (codes "status") fs) in
      let details = as_string (get (codes "details") fs) in
      elim (read_status raw) [
        | none ↦ err (bad_status raw)
        | some status ↦
            if is_empty (trim_space details)
            then err missing_details
            else (decode_evidence (get (codes "evidence") fs) >>= λ evidence.
                ok (record { status = status; details = details; evidence = evidence }))
      ]
  decode_result _ = err not_an_object

  -- The finding before a policy has spoken.
  abbrev pub blank_finding : Check → Text → Text → Finding
  blank_finding check resource resource_type = record {
    check_id = check.id;
    cis_id = check.cis_id;
    title = check.title;
    severity = to_upper check.severity;
    status = manual;
    resource = resource;
    resource_type = resource_type;
    description = check.description;
    details = [];
    evidence = [];
    remediation = check.remediation;
    fix_summary = check.fix_summary;
    references = check.references;
    automated = check.automated;
    waiver = none;
  }

  module _ (describe : DecodeError → Text) where
    -- evaluateOne, on the outcome of the query
    unfoldable pub evaluate_one : Check → Text → Text → Outcome → Finding × Option PolicyError
    evaluate_one check resource resource_type (eval_error e) = (
      record (blank_finding check resource resource_type) {
        details =
            codes "This control could not be evaluated because its policy failed to run: " ++ e;
      },
      some (evaluation_failed check.id resource e),
    )
    evaluate_one check resource resource_type no_result = (
      record (blank_finding check resource resource_type) {
        details =
            codes "This control could not be evaluated because its policy produced no result.";
      },
      some (produced_nothing check.id resource),
    )
    evaluate_one check resource resource_type (value v) = elim (decode_result v) [
      | err e ↦ (
        record (blank_finding check resource resource_type) {
          details = codes "This control returned a malformed result: " ++ describe e;
        },
        some (malformed check.id resource e),
      )
      | ok r ↦ (
        record (blank_finding check resource resource_type) {
          status = r.status;
          details = r.details;
          evidence = r.evidence;
        },
        none,
      )
    ]

abbrev pub option_list {ℓ} : {A : Type ℓ} → Option A → List A
option_list none = []
option_list (some a) = a ∷ []

-- Findings and the policy errors behind any of them: `jobResult`.
pub record Findings : Type 0 where
  pub findings : List Finding
  pub errors : List PolicyError

abbrev pub no_findings : Findings
no_findings = record { findings = []; errors = [] }

abbrev pub join_findings : Findings → Findings → Findings
join_findings a b = record { findings = a.findings ++ b.findings; errors = a.errors ++ b.errors }

-- The loop over the controls of one resource; `judge` is evaluateOne on the resource's input.
unfoldable pub evaluate_checks : (Check → Finding × Option PolicyError) → List Check → Findings
evaluate_checks judge [] = no_findings
evaluate_checks judge (c ∷ cs) =
    join_findings (record { findings = (judge c).0 ∷ []; errors = option_list (judge c).1 })
      (evaluate_checks judge cs)

pub record Coverage : Type 0 where
  pub jobs : ℕ
  pub skipped_disabled : ℕ
  pub job_controls : ℕ
  pub complete : Bool
  pub unlisted : List Text

-- Coverage.NoJobsAudited
unfoldable pub no_jobs_audited : Coverage → Bool
no_jobs_audited c = elim c.job_controls [
  | ℕ.zero ↦ false
  | ℕ.suc n ↦ elim c.jobs [ ℕ.zero ↦ true | ℕ.suc m ↦ false ]
]

pub record Report : Type 0 where
  pub findings : List Finding
  pub score : Score
  pub coverage : Coverage
  pub errors : List PolicyError
  pub exception_warnings : List Warning

-- The first loop of `Evaluate`: the jobs that are evaluated.
abbrev pub is_skipped : Config → Job → Bool
is_skipped cfg job = cfg.skip_disabled_jobs && job.disabled

unfoldable pub audited : Config → List Job → List Job
audited cfg = keep (λ job. not (is_skipped cfg job))

abbrev pub in_scope : Text → List Check → List Check
in_scope scope = keep (λ c. text_eq c.scope scope)

abbrev pub instance_resource_name : Text
instance_resource_name = codes "controller"

abbrev pub resource_controller : Text
resource_controller = codes "controller"

abbrev pub resource_job : Text
resource_job = codes "job"

-- The results of `evaluateJobs`, merged in job order.
unfoldable pub merge_results : List Findings → Findings
merge_results [] = no_findings
merge_results (r ∷ rs) = join_findings r (merge_results rs)

pub data EvaluateError : Type 0 where
  encode_config encode_metadata encode_controller : EvaluateError
  encode_job : Text → EvaluateError

-- The result that a worker writes at a job's index, or the error of encoding the job.
abbrev pub JobOutcome : Type 0
JobOutcome = Result EvaluateError Findings

-- The results in job order, or the error of a job; Workers has the schedules.
unfoldable pub all_results : List JobOutcome → Result EvaluateError (List Findings)
all_results [] = ok []
all_results (r ∷ rs) = r >>= λ f. (all_results rs >>= λ fs. ok (f ∷ fs))

-- What the engine is given: OPA's encoders and prepared queries, and the clock.
pub record Opa : Type 0 where
  pub encodes_config : Bool
  pub encodes_metadata : Bool
  pub encodes_controller : Bool
  pub encodes_job : Job → Bool
  pub eval_controller : Check → Outcome
  pub eval_job : Job → Check → Outcome
  pub show : Json → Text
  pub describe : DecodeError → Text

-- What a worker does with one job.
unfoldable pub evaluate_job : Opa → List Check → Job → JobOutcome
evaluate_job opa checks job =
    if opa.encodes_job job
    then ok (
        evaluate_checks
          (λ c.
            evaluate_one opa.show opa.describe c job.full_name resource_job (opa.eval_job job c))
          checks)
    else err (encode_job job.full_name)

-- evaluateJobs: with no control or no job nothing is encoded.
unfoldable pub evaluate_jobs : Opa → List Check → List Job → Result EvaluateError (List Findings)
evaluate_jobs opa [] jobs = ok (map (λ _. no_findings) jobs)
evaluate_jobs opa (c ∷ cs) jobs = all_results (map (evaluate_job opa (c ∷ cs)) jobs)

module _ (opa : Opa) (cfg : Config) (selected : List Check) (now : ℕ) where
  unfoldable pub coverage_of : Snapshot → Coverage
  coverage_of snapshot = record {
    jobs = length (audited cfg snapshot.jobs);
    skipped_disabled = count_if (is_skipped cfg) snapshot.jobs;
    job_controls = length (in_scope scope_job selected);
    complete = snapshot.controller.jobs_available;
    unlisted = snapshot.controller.unlisted;
  }

  -- The findings of the controller-scope controls.
  unfoldable pub controller_findings : Findings
  controller_findings =
      evaluate_checks
        (λ c.
          evaluate_one opa.show opa.describe c instance_resource_name resource_controller
            (opa.eval_controller c))
        (in_scope scope_controller selected)

  -- What follows the evaluation: sort, score, exceptions.
  unfoldable pub finish_report : Snapshot → Findings → Report
  finish_report snapshot r =
      let sorted = sort_by less_finding r.findings in
      let (findings, warnings) = apply_exceptions now cfg.exceptions sorted in
      record {
        findings = findings;
        score = compute sorted;
        coverage = coverage_of snapshot;
        errors = r.errors;
        exception_warnings = warnings;
      }

  -- Evaluate
  unfoldable pub evaluate : Snapshot → Result EvaluateError Report
  evaluate snapshot =
      if not opa.encodes_config
      then err encode_config
      else if not opa.encodes_metadata
      then err encode_metadata
      else if not opa.encodes_controller
      then err encode_controller
      else (evaluate_jobs opa (in_scope scope_job selected) (audited cfg snapshot.jobs)
          >>= λ results.
              ok (
                finish_report snapshot (join_findings controller_findings (merge_results results))))
