-- ===== src/Jenkins/JobConfig.antt =====
-- internal/ci/jenkins/models.go and fetcher.go: a job's config.xml as it is decoded, and what
-- `applyConfig` writes of it into the snapshot. XML decoding is not modelled; `strip`, the removal of
-- credentials from a URL (urls.go, over net/url), is a parameter.
pub mod Placing
pub mod Laws
use jenkins_bench.Prelude.{
  ℕ, zero, suc, Bool, true, false, not, ◌&&◌, ◌||◌, Option, none, some, List, [], ◌∷◌, ◌++◌, map,
  any, reverse, sort_by, ◌==◌, if◌then◌else◌,
}
use jenkins_bench.Prelude.Text.{
  Text, codes, text_eq, text_lt, to_lower, equal_fold, trim_space, is_empty, has_rune,
}
use jenkins_bench.Ci.{
  BuiltInNode, Definition, source_scm, source_inline, source_ui, source_unknown, Trigger, Job,
}
use jenkins_bench.Jenkins.Walk.{class_multibranch}
use jenkins_bench.Jenkins.Triggers.{TriggerAssessment, assess_triggers}

abbrev pub class_cps_scm_flow_definition : Text
class_cps_scm_flow_definition = codes "org.jenkinsci.plugins.workflow.cps.CpsScmFlowDefinition"

abbrev pub class_cps_flow_definition : Text
class_cps_flow_definition = codes "org.jenkinsci.plugins.workflow.cps.CpsFlowDefinition"

abbrev pub class_scm_binder : Text
class_scm_binder = codes "org.jenkinsci.plugins.workflow.multibranch.SCMBinder"

abbrev pub class_inline_flow_definition : Text
class_inline_flow_definition = codes "org.jenkinsci.plugins.inlinepipeline.InlineFlowDefinition"

abbrev pub class_defaults_binder : Text
class_defaults_binder = codes "org.jenkinsci.plugins.pipeline.multibranch.defaults.DefaultsBinder"

abbrev pub class_workflow_branch_project_factory : Text
class_workflow_branch_project_factory =
    codes "org.jenkinsci.plugins.workflow.multibranch.WorkflowBranchProjectFactory"

abbrev pub class_inline_branch_project_factory : Text
class_inline_branch_project_factory =
    codes "org.jenkinsci.plugins.inlinepipeline.InlineDefinitionBranchProjectFactory"

abbrev pub class_defaults_branch_project_factory : Text
class_defaults_branch_project_factory =
    codes "org.jenkinsci.plugins.pipeline.multibranch.defaults.PipelineBranchDefaultsProjectFactory"

abbrev pub class_workflow_job : Text
class_workflow_job = codes "org.jenkinsci.plugins.workflow.job.WorkflowJob"

abbrev pub class_freestyle : Text
class_freestyle = codes "hudson.model.FreeStyleProject"

pub record ConfigFactory : Type 0 where
  pub class : Text
  pub script_path : Text
  pub sandbox : Option Text
  pub use_sandbox : Option Text

-- `remote_urls` are the URLs of the nested UserRemoteConfig elements.
pub record ConfigDefinition : Type 0 where
  pub class : Text
  pub script_path : Text
  pub sandbox : Option Text
  pub use_sandbox : Option Text
  pub remote_urls : List Text

pub record ConfigTrigger : Type 0 where
  pub name : Text
  pub spec : Text

-- `root` is the name of the root element, `branch_remotes` the remotes of the branch sources.
pub record JobConfig : Type 0 where
  pub root : Text
  pub definition : Option ConfigDefinition
  pub disabled : Text
  pub auth_token : Option Text
  pub assigned_node : Text
  pub can_roam : Text
  pub triggers : List ConfigTrigger
  pub pipeline_triggers : List ConfigTrigger
  pub branch_remotes : List Text
  pub factory : ConfigFactory

pub record JobDocument : Type 0 where
  pub ui : Bool
  pub project : Bool

-- jobDocuments; `none` for a root element that is no key of the map
unfoldable pub job_document : Text → Option JobDocument
job_document root =
    if text_eq root (codes "project")
      || (text_eq root (codes "matrix-project") || text_eq root (codes "maven2-moduleset"))
    then some (record { ui = true; project = true })
    else if text_eq root (codes "flow-definition")
    then some (record { ui = false; project = true })
    else if text_eq root class_multibranch
    then some (record { ui = false; project = false })
    else none

-- addLabel
unfoldable pub add_label : Text → BuiltInNode → BuiltInNode
add_label name n =
    if any (λ l. text_eq l name) n.labels then n else record n { labels = n.labels ++ name ∷ [] }

-- builtInNodeLabels
unfoldable pub built_in_node_labels : BuiltInNode → List Text
built_in_node_labels n = codes "built-in" ∷ codes "master" ∷ map to_lower n.labels

-- isLabelExpression
unfoldable pub is_label_expression : Text → Bool
is_label_expression s = any (λ c. has_rune c s) (codes "&|!()<>\"' \t")

-- The two results of `placeJob`.
pub record Placement : Type 0 where
  pub runs : Bool
  pub known : Bool

abbrev pub unplaced : Placement
unplaced = record { runs = false; known = false }

abbrev pub placed : Bool → Placement
placed runs = record { runs = runs; known = true }

-- The first case of placeJob's switch: a job that may roam.
unfoldable pub place_roaming : BuiltInNode → Placement
place_roaming node =
    if not node.num_executors_known
    then unplaced
    else if node.num_executors == 0
    then placed false
    else if not node.mode_known
    then unplaced
    else placed (not (equal_fold node.mode (codes "EXCLUSIVE")))

-- placeJob
unfoldable pub place_job : JobConfig → BuiltInNode → List Text → Placement
place_job cfg node built_in_labels =
    let assigned = trim_space cfg.assigned_node in
    let can_roam = trim_space cfg.can_roam in
    if text_eq can_roam (codes "true")
    then place_roaming node
    else if text_eq can_roam (codes "false") && is_empty assigned
    then placed true
    else if text_eq can_roam (codes "false") && is_label_expression assigned
    then unplaced
    else if text_eq can_roam (codes "false")
    then (if any (λ l. text_eq l (to_lower assigned)) built_in_labels
        then placed true
        else if not node.labels_known
        then unplaced
        else placed false)
    else unplaced

-- withSandbox
unfoldable pub with_sandbox : Definition → Option Text → Definition
with_sandbox def none = def
with_sandbox def (some flag) = record def {
  sandbox = text_eq (trim_space flag) (codes "true");
  sandbox_known = true;
}

abbrev pub defined_by : Text → Text → Text → Definition
defined_by source class script_path = record {
  source = source;
  class = class;
  script_path = script_path;
  scm_urls = [];
  sandbox = false;
  sandbox_known = false;
}

module _ (strip : Text → Text) where
  -- The loops over the remotes: a remote without a URL is passed over.
  unfoldable pub stripped_urls : List Text → List Text
  stripped_urls [] = []
  stripped_urls (url ∷ urls) =
      let rest = stripped_urls urls in if is_empty url then rest else strip url ∷ rest

  -- multibranchDefinition
  unfoldable pub multibranch_definition : JobConfig → Definition
  multibranch_definition cfg =
      let f = cfg.factory in
      let def : Definition =
        if text_eq f.class class_workflow_branch_project_factory
        then defined_by source_scm [] f.script_path
        else if text_eq f.class class_inline_branch_project_factory
        then with_sandbox (defined_by source_inline [] []) f.sandbox
        else if text_eq f.class class_defaults_branch_project_factory
        then with_sandbox (defined_by source_inline [] []) f.use_sandbox
        else defined_by source_unknown [] [] in
      record def { class = f.class; scm_urls = stripped_urls cfg.branch_remotes }

  -- The switch of `definitionFrom` on a pipeline's definition class.
  unfoldable pub pipeline_definition : ConfigDefinition → Definition
  pipeline_definition d =
      if text_eq d.class class_cps_scm_flow_definition
      then record (defined_by source_scm d.class d.script_path) {
        scm_urls = stripped_urls d.remote_urls;
      }
      else if text_eq d.class class_scm_binder
      then defined_by source_scm d.class d.script_path
      else if text_eq d.class class_cps_flow_definition
          || text_eq d.class class_inline_flow_definition
      then with_sandbox (defined_by source_inline d.class []) d.sandbox
      else if text_eq d.class class_defaults_binder
      then with_sandbox (defined_by source_inline d.class []) d.use_sandbox
      else defined_by source_unknown d.class []

  -- definitionFrom
  unfoldable pub definition_from : JobDocument → JobConfig → Definition
  definition_from doc cfg =
      if text_eq cfg.root class_multibranch
      then multibranch_definition cfg
      else if doc.ui
      then defined_by source_ui [] []
      else (elim cfg.definition [
        | none ↦ defined_by source_unknown [] []
        | some d ↦ pipeline_definition d
      ])

-- The part of a reversed name before its first dot.
abbrev before_dot : Text → Text
before_dot [] = []
before_dot (c ∷ s) = if c == b'.' then [] else c ∷ before_dot s

-- shortClassName
unfoldable pub short_class_name : Text → Text
short_class_name s = reverse (before_dot (reverse s))

abbrev pub trigger_of : ConfigTrigger → Trigger
trigger_of t = record { type_name = short_class_name t.name; spec = trim_space t.spec }

-- triggersFrom; sort.Slice leaves the order of equal types open, and here they keep theirs
unfoldable pub triggers_from : JobConfig → List Trigger
triggers_from cfg =
    sort_by (λ a b. text_lt a.type_name b.type_name)
      (map trigger_of (cfg.triggers ++ cfg.pipeline_triggers))

-- kindOf
unfoldable pub kind_of : Text → Text
kind_of class =
    if text_eq class class_multibranch
    then codes "multibranch"
    else if text_eq class class_workflow_job
    then codes "pipeline"
    else if text_eq class class_freestyle
    then codes "freestyle"
    else codes "other"

abbrev pub has_token : Option Text → Bool
has_token none = false
has_token (some token) = not (is_empty (trim_space token))

-- applyConfig
unfoldable pub apply_config :
    (Text → Text) → JobConfig → JobDocument → BuiltInNode → List Text → Job → Job
apply_config strip cfg doc node built_in_labels job =
    let token = has_token cfg.auth_token in
    let assessed =
      assess_triggers token (map (λ t. t.name) (cfg.triggers ++ cfg.pipeline_triggers)) in
    let place : Placement = if doc.ui then place_job cfg node built_in_labels else unplaced in
    record job {
      disabled = text_eq cfg.disabled (codes "true") || job.disabled;
      remote_trigger_token = token;
      remote_trigger_token_known = doc.project;
      definition = definition_from strip doc cfg;
      triggers = triggers_from cfg;
      unauthenticated_triggers = assessed.unauthenticated;
      unrecognized_triggers = assessed.unrecognized;
      triggers_known = doc.project;
      runs_on_built_in_node = if doc.ui then place.runs else job.runs_on_built_in_node;
      runs_on_built_in_node_known = place.known;
    }
