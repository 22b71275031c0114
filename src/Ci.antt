-- ===== src/Ci.antt =====
-- internal/ci/snapshot.go: the snapshot that the fetcher writes and the engine reads.
use jenkins_bench.Prelude.{ℕ, Bool, List}
use jenkins_bench.Prelude.Text.{Text, codes}

pub record Security : Type 0 where
  pub enabled : Bool
  pub enabled_known : Bool
  pub csrf_protection : Bool
  pub csrf_protection_known : Bool
  pub anonymous_read : Bool
  pub anonymous_read_known : Bool

pub record BuiltInNode : Type 0 where
  pub num_executors : ℕ
  pub num_executors_known : Bool
  pub labels : List Text
  pub labels_known : Bool
  pub mode : Text
  pub mode_known : Bool

pub record Credential : Type 0 where
  pub id : Text
  pub type_name : Text
  pub store : Text
  pub domain : Text
  pub description : Text

pub record Definition : Type 0 where
  pub source : Text
  pub class : Text
  pub script_path : Text
  pub scm_urls : List Text
  pub sandbox : Bool
  pub sandbox_known : Bool

abbrev pub source_scm : Text
source_scm = codes "scm"

abbrev pub source_inline : Text
source_inline = codes "inline"

abbrev pub source_ui : Text
source_ui = codes "ui"

abbrev pub source_unknown : Text
source_unknown = codes "unknown"

pub record Trigger : Type 0 where
  pub type_name : Text
  pub spec : Text

pub record Script : Type 0 where
  pub holder : Text
  pub sandbox : Bool

-- A job, with `available` as the two keys that the fetcher sets.
pub record Job : Type 0 where
  pub full_name : Text
  pub name : Text
  pub folder : Text
  pub url : Text
  pub class : Text
  pub kind : Text
  pub disabled : Bool
  pub buildable : Bool
  pub definition : Definition
  pub triggers : List Trigger
  pub scripts : List Script
  pub remote_trigger_token : Bool
  pub remote_trigger_token_known : Bool
  pub unauthenticated_triggers : List Text
  pub unrecognized_triggers : List Text
  pub triggers_known : Bool
  pub runs_on_built_in_node : Bool
  pub runs_on_built_in_node_known : Bool
  pub api_available : Bool
  pub config_available : Bool

-- The part of a controller that the modelled code reads; `jobs_available` is available["jobs"].
pub record Controller : Type 0 where
  pub security : Security
  pub built_in_node : BuiltInNode
  pub credentials : List Credential
  pub credentials_available : Bool
  pub jobs_available : Bool
  pub unlisted : List Text

pub record Snapshot : Type 0 where
  pub controller : Controller
  pub jobs : List Job
