-- ===== src/Jenkins/JobConfig/Placing.antt =====
-- What `placeJob` of internal/ci/jenkins/fetcher.go vouches for.
use jenkins_bench.Prelude.{◌≡◌, ◌↔◌, ◌⊎◌, refl, inl, inr, true, false, List, any, arith, Bool-cases}
use jenkins_bench.Prelude.Text.{
  Text, codes, text_eq, text_eq_iff, to_lower, equal_fold, trim_space, is_empty,
}
use jenkins_bench.Ci.{BuiltInNode}
use jenkins_bench.Jenkins.JobConfig.{
  JobConfig, placed, place_roaming, place_job, is_label_expression,
}

-- A job that may roam stays off the built-in node: the node has no executor, or takes only jobs that
-- name it, and each of the two was read.
abbrev pub TakesNoRoaming : BuiltInNode → Type 0
TakesNoRoaming node =
    (node.num_executors_known ≡ true)
    × ((node.num_executors ≡ 0)
        ⊎ ((node.mode_known ≡ true) × (equal_fold node.mode (codes "EXCLUSIVE") ≡ true)))

-- A job that is bound to one label that is none of the node's, of which all were read.
abbrev pub IsBoundElsewhere : JobConfig → BuiltInNode → List Text → Type 0
IsBoundElsewhere cfg node labels =
    (is_empty (trim_space cfg.assigned_node) ≡ false)
    × (is_label_expression (trim_space cfg.assigned_node) ≡ false)
    × (any (λ l. text_eq l (to_lower (trim_space cfg.assigned_node))) labels ≡ false)
    × (node.labels_known ≡ true)

place_roaming_iff : (node : BuiltInNode) → (place_roaming node ≡ placed false) ↔ TakesNoRoaming node
unfolding place_roaming
place_roaming_iff node = (λ h. ground (arith, h), λ h. ground (arith, h))

true_not_false : (r : Text) → text_eq r (codes "true") ≡ true → text_eq r (codes "false") ≡ false
true_not_false r h = rw ((text_eq_iff r (codes "true")).0 h) refl

-- `placeJob` says of a job that it is known not to run on the built-in node exactly if the job may
-- roam and the node is known to take no roaming job, or the job is bound to one bare label that is
-- none of the node's, all of which are known.
pub place_job_iff :
    (cfg : JobConfig) (node : BuiltInNode) (labels : List Text)
    → (place_job cfg node labels ≡ placed false) ↔ (
        ((text_eq (trim_space cfg.can_roam) (codes "true") ≡ true) × TakesNoRoaming node)
        ⊎ ((text_eq (trim_space cfg.can_roam) (codes "false") ≡ true)
            × IsBoundElsewhere cfg node labels))
unfolding place_job
place_job_iff cfg node labels =
    let roams = place_roaming_iff node in
    let apart = true_not_false (trim_space cfg.can_roam) in
    elim (Bool-cases (text_eq (trim_space cfg.can_roam) (codes "true"))) [
      | inl e ↦ rw (e, apart e) (λ h. inl (refl, roams.0 h), λ k. ground (arith, k, roams))
      | inr e ↦ rw e (λ h. inr (ground (arith, h)), λ k. ground (arith, k))
    ]
