-- ===== src/Examples/Jobs.antt =====
-- A job's configuration and a controller's credential stores: instances of the theorems.
use jenkins_bench.Prelude.{◌≡◌, ◌↔◌, ◌⊎◌, refl, true, false, none, some, [], ◌∷◌}
use jenkins_bench.Prelude.Text.{Text, codes, text_eq, is_empty, trim_space}
use jenkins_bench.Jenkins.JobConfig.{
  JobConfig, ConfigDefinition, JobDocument, class_cps_flow_definition, place_job, placed,
  built_in_node_labels,
}
use jenkins_bench.Jenkins.JobConfig.Placing.{TakesNoRoaming, IsBoundElsewhere, place_job_iff}
use jenkins_bench.Jenkins.Credentials.{CredentialStore}
use jenkins_bench.Examples.Evaluation.{snapshot}

abbrev same_url : Text → Text
same_url url = url

abbrev inline_definition : ConfigDefinition
inline_definition = record {
  class = class_cps_flow_definition;
  script_path = [];
  sandbox = some (codes "true");
  use_sandbox = none;
  remote_urls = [];
}

abbrev pipeline_config : JobConfig
pipeline_config = record {
  root = codes "flow-definition";
  definition = some inline_definition;
  disabled = codes "false";
  auth_token = none;
  assigned_node = codes "linux";
  can_roam = codes "false";
  triggers = [];
  pipeline_triggers = [];
  branch_remotes = [];
  factory = record { class = []; script_path = []; sandbox = none; use_sandbox = none };
}

abbrev pipeline_document : JobDocument
pipeline_document = record { ui = false; project = true }

tokens_present :
    (is_empty (trim_space (codes "s3cret")) ≡ false)
    × (is_empty (trim_space (codes "other")) ≡ false)
unfolding trim_space
tokens_present = (refl, refl)

place_job_iff_example :
    (place_job pipeline_config snapshot.controller.built_in_node
        (built_in_node_labels snapshot.controller.built_in_node)
      ≡ placed false)
    ↔ (((text_eq (trim_space (codes "false")) (codes "true") ≡ true)
          × TakesNoRoaming snapshot.controller.built_in_node)
        ⊎ ((text_eq (trim_space (codes "false")) (codes "false") ≡ true)
            × IsBoundElsewhere pipeline_config snapshot.controller.built_in_node
                (built_in_node_labels snapshot.controller.built_in_node)))
place_job_iff_example =
    place_job_iff pipeline_config snapshot.controller.built_in_node
      (built_in_node_labels snapshot.controller.built_in_node)

abbrev one_store : CredentialStore
one_store = record {
  name = codes "system";
  domains =
      (record {
        name = codes "_";
        listed =
            some
              ((record { id = codes "git"; type_name = codes "Password"; description = [] }) ∷ []);
      })
      ∷ [];
}
