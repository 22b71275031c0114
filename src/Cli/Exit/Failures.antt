-- ===== src/Cli/Exit/Failures.antt =====
-- The line that explains exit code 1: `failureSummary` of internal/cli/scan.go beside
-- `HasFailureAtOrAbove` of internal/engine/score.go, which reads severities another way.
use jenkins_bench.Prelude.{
  ◌≡◌, ◌≢◌, ◌↔◌, refl, sym, ◌∙◌, ◌⊎◌, inl, inr, true, false, List, [], ◌∷◌, arith, Bool-cases, All,
  any,
}
use jenkins_bench.Prelude.Text.{Text, codes, to_upper, to_lower}
use jenkins_bench.Checks.{weight, severity_high, severity_medium, severity_low}
use jenkins_bench.Engine.{Finding}
use jenkins_bench.Engine.Score.{has_failure_at_or_above}
use jenkins_bench.Cli.Exit.{
  severity_rank, explains, add_key, explained_keys, threshold_breached, failure_summary,
}

-- A severity that the program knows, in whatever mix of ASCII cases.
abbrev pub IsLevel : Text → Type 0
IsLevel s =
    ((to_upper s ≡ severity_high) × (to_lower s ≡ codes "high"))
    ⊎ ((to_upper s ≡ severity_medium) × (to_lower s ≡ codes "medium"))
    ⊎ ((to_upper s ≡ severity_low) × (to_lower s ≡ codes "low"))

severity_rank-eq-weight : (s : Text) → IsLevel s → severity_rank s ≡ weight s
unfolding severity_rank weight
severity_rank-eq-weight s (inl (u, l)) = rw (u, l)
severity_rank-eq-weight s (inr (inl (u, l))) = rw (u, l)
severity_rank-eq-weight s (inr (inr (u, l))) = rw (u, l)

has_failure-any :
    (fs : List Finding) (threshold : Text)
    → IsLevel threshold
    → All (λ f. IsLevel f.severity) fs
    → has_failure_at_or_above fs threshold ≡ any (explains threshold) fs
unfolding has_failure_at_or_above explains
has_failure-any [] threshold t h = refl
has_failure-any (f ∷ fs) threshold t h = ground (
  arith,
  has_failure-any fs threshold t h.1,
  severity_rank-eq-weight f.severity h.0,
  severity_rank-eq-weight threshold t,
)

add_key-ne-nil : (k : Text) (ks : List Text) → add_key k ks ≢ []
unfolding add_key
add_key-ne-nil k [] h = cc
add_key-ne-nil k (j ∷ ks) h = ground arith

explained_keys-nil :
    (key : Finding → Text) (threshold : Text) (fs : List Finding)
    → (any (explains threshold) fs ≡ false → explained_keys key threshold fs ≡ [])
      × (any (explains threshold) fs ≡ true → explained_keys key threshold fs ≢ [])
unfolding explained_keys
explained_keys-nil key threshold [] = (λ h. refl, λ h. cc)
explained_keys-nil key threshold (f ∷ fs) =
    let (none_here, some_here) = explained_keys-nil key threshold fs in
    elim (Bool-cases (explains threshold f)) [
      | inl e ↦
          (λ h. ground arith, rw e (λ h. add_key-ne-nil (key f) (explained_keys key threshold fs)))
      | inr e ↦ (λ h. rw e (none_here (ground arith)), λ h. rw e (some_here (ground arith)))
    ]

failure_summary-of_keys :
    (fs : List Finding) (threshold : Text)
    → explained_keys (λ f. f.check_id) threshold fs ≢ []
    → failure_summary fs threshold ≢ threshold_breached
unfolding failure_summary
failure_summary-of_keys fs threshold h e = ground arith

-- Condition: the threshold and the findings' severities are known levels. A failure at or above the
-- threshold that nobody accepted is found exactly when the summary names at least one control, so
-- the explanation does not contradict the exit code.
pub failure_summary_iff :
    (fs : List Finding) (threshold : Text)
    → IsLevel threshold
    → All (λ f. IsLevel f.severity) fs
    → (has_failure_at_or_above fs threshold ≡ true)
      ↔ (failure_summary fs threshold ≢ threshold_breached)
unfolding failure_summary
failure_summary_iff fs threshold t h =
    let same = has_failure-any fs threshold t h in
    let keys = explained_keys-nil (λ (f : Finding). f.check_id) threshold fs in
    (
      λ b. failure_summary-of_keys fs threshold (keys.1 (sym same ∙ b)),
      λ s. elim (Bool-cases (any (explains threshold) fs)) [
        | inl e ↦ same ∙ e
        | inr e ↦ absurd (s (rw (keys.0 e, failure_summary)))
      ],
    )
