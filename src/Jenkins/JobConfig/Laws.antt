-- ===== src/Jenkins/JobConfig/Laws.antt =====
-- What `applyConfig` of internal/ci/jenkins/fetcher.go lets into the snapshot, and what it takes as
-- known.
use jenkins_bench.Prelude.{
  ◌≡◌, refl, inl, inr, true, false, Option, none, some, List, [], arith, Option-cases,
}
use jenkins_bench.Prelude.Text.{Text, trim_space, is_empty}
use jenkins_bench.Ci.{BuiltInNode, Definition, source_inline, Job}
use jenkins_bench.Jenkins.JobConfig.{
  JobConfig, ConfigDefinition, JobDocument, with_sandbox, defined_by, multibranch_definition,
  pipeline_definition, definition_from, apply_config, place_job, triggers_from,
}

-- Condition: neither token is blank. The job that `applyConfig` writes is the same whichever of the
-- two tokens the configuration holds: the token's value does not reach the snapshot.
apply_config-auth_token :
    (strip : Text → Text) (cfg : JobConfig) (doc : JobDocument) (node : BuiltInNode)
    (labels : List Text) (job : Job) (t u : Text)
    → is_empty (trim_space t) ≡ false
    → is_empty (trim_space u) ≡ false
    → apply_config strip (record cfg { auth_token = some t }) doc node labels job
      ≡ apply_config strip (record cfg { auth_token = some u }) doc node labels job
unfolding apply_config definition_from multibranch_definition place_job triggers_from
apply_config-auth_token strip cfg doc node labels job t u ht hu = rw (ht, hu) refl

with_sandbox-source :
    (def : Definition) (flag : Option Text) → (with_sandbox def flag).source ≡ def.source
unfolding with_sandbox
with_sandbox-source def none = refl
with_sandbox-source def (some t) = refl

-- A definition that was not read as an inline script claims nothing of a sandbox.
abbrev IsModest : Definition → Type 0
IsModest d = d.sandbox_known ≡ true → d.source ≡ source_inline

multibranch_definition-IsModest :
    (strip : Text → Text) (cfg : JobConfig) → IsModest (multibranch_definition strip cfg)
unfolding multibranch_definition
multibranch_definition-IsModest strip cfg h = ground (
  arith,
  h,
  with_sandbox-source (defined_by source_inline [] []) cfg.factory.sandbox,
  with_sandbox-source (defined_by source_inline [] []) cfg.factory.use_sandbox,
)

pipeline_definition-IsModest :
    (strip : Text → Text) (d : ConfigDefinition) → IsModest (pipeline_definition strip d)
unfolding pipeline_definition
pipeline_definition-IsModest strip d h = ground (
  arith,
  h,
  with_sandbox-source (defined_by source_inline d.class []) d.sandbox,
  with_sandbox-source (defined_by source_inline d.class []) d.use_sandbox,
)

-- Condition: the definition says that the sandbox flag is known. It is then an inline script.
definition_from-sandbox_known :
    (strip : Text → Text) (doc : JobDocument) (cfg : JobConfig)
    → (definition_from strip doc cfg).sandbox_known ≡ true
    → (definition_from strip doc cfg).source ≡ source_inline
unfolding definition_from
definition_from-sandbox_known strip doc cfg h = elim (Option-cases cfg.definition) [
  | inl e ↦ ground (arith, h, e, multibranch_definition-IsModest strip cfg)
  | inr (d, e) ↦
      ground (
        arith,
        h,
        e,
        multibranch_definition-IsModest strip cfg,
        pipeline_definition-IsModest strip d,
      )
]
