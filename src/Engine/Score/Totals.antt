-- ===== src/Engine/Score/Totals.antt =====
-- The score of internal/engine/score.go against sums over the findings.
use jenkins_bench.Prelude.{
  ℕ, ◌+◌, ◌*◌, ◌/◌, ◌≡◌, Bool, true, false, List, [], ◌∷◌, ◌==◌, arith, length, count_if,
  if◌then◌else◌,
}
use jenkins_bench.Prelude.Text.{to_upper}
use jenkins_bench.Checks.{weight}
use jenkins_bench.Engine.{Status, pass, fail, manual, na, Finding}
use jenkins_bench.Engine.Score.{Score, score_finding, score_loop, zero_score, compute}

abbrev pub is_pass : Status → Bool
is_pass pass = true
is_pass _ = false

abbrev pub is_fail : Status → Bool
is_fail fail = true
is_fail _ = false

abbrev pub is_manual : Status → Bool
is_manual manual = true
is_manual _ = false

abbrev pub is_na : Status → Bool
is_na na = true
is_na _ = false

-- The weight of the findings that pass a test.
abbrev pub weight_if : (Status → Bool) → List Finding → ℕ
weight_if p [] = 0
weight_if p (f ∷ fs) = (if p f.status then weight (to_upper f.severity) else 0) + weight_if p fs

-- What the loop adds to each number of the score.
pub record Adds (fs : List Finding) (s t : Score) : Type 0 where
  pub earned : t.earned_weight ≡ s.earned_weight + weight_if is_pass fs
  pub weighed : t.total_weight ≡ s.total_weight + weight_if is_pass fs + weight_if is_fail fs
  pub passes : t.passed ≡ s.passed + count_if (λ f. is_pass f.status) fs
  pub fails : t.failed ≡ s.failed + count_if (λ f. is_fail f.status) fs
  pub manuals : t.manual ≡ s.manual + count_if (λ f. is_manual f.status) fs
  pub nas : t.not_applicable ≡ s.not_applicable + count_if (λ f. is_na f.status) fs
  pub size : t.total ≡ s.total

score_loop-Adds : (fs : List Finding) (s : Score) → Adds fs s (score_loop fs s)
unfolding score_loop score_finding
score_loop-Adds [] s = omega arith
score_loop-Adds (f ∷ fs) s = ground (arith, score_loop-Adds fs (score_finding f s))

-- The numbers of a score, as sums over the findings.
pub record IsTally (fs : List Finding) (s : Score) : Type 0 where
  pub earned : s.earned_weight ≡ weight_if is_pass fs
  pub weighed : s.total_weight ≡ weight_if is_pass fs + weight_if is_fail fs
  pub passes : s.passed ≡ count_if (λ f. is_pass f.status) fs
  pub fails : s.failed ≡ count_if (λ f. is_fail f.status) fs
  pub manuals : s.manual ≡ count_if (λ f. is_manual f.status) fs
  pub nas : s.not_applicable ≡ count_if (λ f. is_na f.status) fs
  pub size : s.total ≡ length fs

pub compute-IsTally : (fs : List Finding) → IsTally fs (compute fs)
unfolding compute
compute-IsTally fs = ground (arith, score_loop-Adds fs (zero_score (length fs)))

pub compute-value :
    (fs : List Finding)
    → (compute fs).value ≡ (
        if (compute fs).total_weight == 0
        then 0
        else (compute fs).earned_weight * 100 / (compute fs).total_weight)
unfolding compute
compute-value fs = ground arith
