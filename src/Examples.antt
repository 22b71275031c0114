-- ===== src/Examples.antt =====
-- The data of the tests and of the instances of the theorems that its children hold.
pub mod Exit
pub mod Scores
pub mod Evaluation
pub mod Controls
pub mod Settings
pub mod Folders
pub mod Jobs
pub mod Requests
pub mod Tables
pub mod Reports
pub mod Scan
use jenkins_bench.Prelude.{ℕ, Bool, true, false, Option, none, some, List, [], ◌∷◌}
use jenkins_bench.Prelude.Text.{Text, codes}
use jenkins_bench.Prelude.Int.{pos, negsuc}
use jenkins_bench.Checks.{Metadata, Check, severity_high, severity_low, scope_controller, scope_job}
use jenkins_bench.Config.{Exception, Config, default}
use jenkins_bench.Ci.{Job, Controller, Snapshot}
use jenkins_bench.Engine.{Status, pass, fail, manual, Finding}
use jenkins_bench.Engine.Evaluate.{
  Json, string, Outcome, value, no_result, Opa, DecodeError, PolicyResult,
}
use jenkins_bench.Engine.Evaluate.Decode.{print_result}

abbrev pub csrf_check : Check
csrf_check = record {
  metadata = record {
    id = codes "jb-csrf";
    cis_id = codes "1.1";
    package_name = codes "jb.csrf";
    scope = scope_controller;
    severity = severity_high;
    platforms = codes "jenkins" ∷ [];
    automated = true;
    title = codes "CSRF";
    description = [];
    remediation = codes "Turn it on";
    fix_summary = codes "On";
    references = [];
  };
  dir = codes "csrf";
}

abbrev pub sandbox_check : Check
sandbox_check = record {
  metadata = record csrf_check.metadata {
    id = codes "jb-sandbox";
    cis_id = codes "2.1";
    package_name = codes "jb.sandbox";
    scope = scope_job;
    severity = severity_low;
  };
  dir = codes "sandbox";
}

-- A finding of a control, by its status and resource.
abbrev pub finding : Check → Status → Text → Finding
finding c status resource = record {
  check_id = c.id;
  cis_id = c.cis_id;
  title = c.title;
  severity = c.severity;
  status = status;
  resource = resource;
  resource_type = c.scope;
  description = [];
  details = codes "seen";
  evidence = [];
  remediation = c.remediation;
  fix_summary = c.fix_summary;
  references = [];
  automated = true;
  waiver = none;
}

abbrev pub csrf_passes : Finding
csrf_passes = finding csrf_check pass (codes "controller")

abbrev pub csrf_fails : Finding
csrf_fails = finding csrf_check fail (codes "controller")

abbrev pub deploy_fails : Finding
deploy_fails = finding sandbox_check fail (codes "platform/deploy")

abbrev pub build_unread : Finding
build_unread = finding sandbox_check manual (codes "platform/build")

abbrev pub some_findings : List Finding
some_findings = csrf_passes ∷ deploy_fails ∷ build_unread ∷ []

abbrev pub deploy_exception : Exception
deploy_exception = record {
  control = codes "JB-sandbox";
  resources = codes "platform/*" ∷ [];
  reason = codes "migrated in June";
  owner = codes "ops";
  expires = codes "2030-06-30";
}

abbrev pub excluding : Config
excluding = record default {
  exclude = codes " JB-sandbox" ∷ [];
  exceptions = deploy_exception ∷ [];
}
