-- ===== src/Engine/Score/Laws.antt =====
-- What the score of internal/engine/score.go says of a controller.
use mathlib.Core.List.{Perm, Permᴰ}
use mathlib.Core.Logic.{∥∥₁_elim}
use mathlib.Core.Path.{ap₂}
use native.Mathlib.Nat.{ℕ_set}
use jenkins_bench.Prelude.{
  ℕ, ◌+◌, ◌*◌, ◌/◌, ◌≤◌, ◌<◌, ◌≡◌, refl, sym, ◌∙◌, ◌↔◌, Bool, true, false, List, [], ◌∷◌, ◌++◌,
  ◌==◌, arith, length, count_if, keep, if◌then◌else◌,
}
use jenkins_bench.Prelude.Text.{to_upper}
use jenkins_bench.Checks.{weight}
use jenkins_bench.Checks.Severity.{weight_bounds}
use jenkins_bench.Engine.{Status, pass, fail, Finding}
use jenkins_bench.Engine.Score.{compute}
use jenkins_bench.Engine.Score.Totals.{
  is_pass, is_fail, is_manual, is_na, weight_if, compute-IsTally, compute-value,
}

counts_cover :
    (fs : List Finding)
    → count_if (λ f. is_pass f.status) fs
        + count_if (λ f. is_fail f.status) fs
        + count_if (λ f. is_manual f.status) fs
        + count_if (λ f. is_na f.status) fs
      ≡ length fs
counts_cover [] = omega arith
counts_cover (f ∷ fs) = ground (arith, counts_cover fs)

-- Every finding is counted once: the four counts add up to the number of findings.
compute_counts :
    (fs : List Finding)
    → ((compute fs).passed + (compute fs).failed + (compute fs).manual + (compute fs).not_applicable
        ≡ (compute fs).total)
      × ((compute fs).total ≡ length fs)
compute_counts fs = ground (arith, compute-IsTally fs, counts_cover fs)

weight_if-le : (p : Status → Bool) (fs : List Finding) → weight_if p fs ≤ 3 * length fs
weight_if-le p [] = omega arith
weight_if-le p (f ∷ fs) = ground (arith, weight_if-le p fs, weight_bounds (to_upper f.severity))

weights-le : (fs : List Finding) → weight_if is_pass fs + weight_if is_fail fs ≤ 3 * length fs
weights-le [] = omega arith
weights-le (f ∷ fs) = ground (arith, weights-le fs, weight_bounds (to_upper f.severity))

percent-le : (e f : ℕ) → e * 100 / (e + f) ≤ 100
percent-le e f = grind arith

percent-full : (e f : ℕ) → 0 < e + f → (e * 100 / (e + f) ≡ 100) ↔ (f ≡ 0)
percent-full e f h = (λ q. grind arith, λ q. grind arith)

-- The score is a percentage, and the products that `Compute` forms stay below 300 times the number
-- of findings, so Go's 64-bit int holds them.
pub compute_bounds :
    (fs : List Finding)
    → ((compute fs).value ≤ 100)
      × ((compute fs).earned_weight ≤ (compute fs).total_weight)
      × ((compute fs).total_weight ≤ 3 * length fs)
      × ((compute fs).earned_weight * 100 ≤ 300 * length fs)
compute_bounds fs = ground (
  arith,
  compute-IsTally fs,
  compute-value fs,
  weights-le fs,
  percent-le (weight_if is_pass fs) (weight_if is_fail fs),
)

fails-weight :
    (fs : List Finding) → (weight_if is_fail fs ≡ 0) ↔ (count_if (λ f. is_fail f.status) fs ≡ 0)
fails-weight [] = (λ _. refl, λ _. refl)
fails-weight (f ∷ fs) = ground (arith, fails-weight fs, weight_bounds (to_upper f.severity))

-- Condition: the findings carry some weight, so something was decidable. The value is then 100
-- exactly when no finding failed.
compute_full :
    (fs : List Finding)
    → 0 < (compute fs).total_weight
    → ((compute fs).value ≡ 100) ↔ ((compute fs).failed ≡ 0)
compute_full fs h =
    let t = compute-IsTally fs in
    let p = percent-full (weight_if is_pass fs) (weight_if is_fail fs) in
    (
      λ q. ground (arith, compute-IsTally fs, compute-value fs, fails-weight fs, p (omega arith)),
      λ q. ground (arith, compute-IsTally fs, compute-value fs, fails-weight fs, p (omega arith)),
    )

-- MANUAL and NA say nothing of the controller.
abbrev pub is_decided : Status → Bool
is_decided pass = true
is_decided fail = true
is_decided _ = false

weight_if-decided :
    (fs : List Finding)
    → (weight_if is_pass (keep (λ f. is_decided f.status) fs) ≡ weight_if is_pass fs)
      × (weight_if is_fail (keep (λ f. is_decided f.status) fs) ≡ weight_if is_fail fs)
weight_if-decided [] = (refl, refl)
weight_if-decided (f ∷ fs) = ground (arith, weight_if-decided fs)

-- MANUAL and NA findings are on neither side of the score: without them the value and both weights
-- are the same.
compute-keep_decided :
    (fs : List Finding)
    → ((compute (keep (λ f. is_decided f.status) fs)).value ≡ (compute fs).value)
      × ((compute (keep (λ f. is_decided f.status) fs)).earned_weight ≡ (compute fs).earned_weight)
      × ((compute (keep (λ f. is_decided f.status) fs)).total_weight ≡ (compute fs).total_weight)
compute-keep_decided fs =
    let gs = keep (λ (f : Finding). is_decided f.status) fs in
    ground (
      arith,
      compute-IsTally fs,
      compute-value fs,
      compute-IsTally gs,
      compute-value gs,
      weight_if-decided fs,
    )

weight_if-append :
    (p : Status → Bool) (fs gs : List Finding)
    → weight_if p (fs ++ gs) ≡ weight_if p fs + weight_if p gs
weight_if-append p [] gs = omega arith
weight_if-append p (f ∷ fs) gs = ground (arith, weight_if-append p fs gs)

-- The value, as a function of what passed and what failed.
abbrev pub percent : ℕ → ℕ → ℕ
percent e f = if e + f == 0 then 0 else e * 100 / (e + f)

compute-percent :
    (fs : List Finding) → (compute fs).value ≡ percent (weight_if is_pass fs) (weight_if is_fail fs)
compute-percent fs = ground (arith, compute-IsTally fs, compute-value fs)

quotient_mono : (e w f : ℕ) → 1 ≤ w → e * 100 / (e + (w + f)) ≤ (e + w) * 100 / (e + w + f)
quotient_mono e w f h = grind arith

percent_mono : (e w f : ℕ) → 1 ≤ w → percent e (w + f) ≤ percent (e + w) f
percent_mono e w f h = ground (arith, quotient_mono e w f h)

-- Condition: a finding failed. Turning it into a pass, and changing nothing else, never lowers the
-- score.
compute-fix_mono :
    (fs gs : List Finding) (f : Finding)
    → f.status ≡ fail
    → (compute (fs ++ f ∷ gs)).value ≤ (compute (fs ++ record f { status = pass } ∷ gs)).value
compute-fix_mono fs gs f h =
    let e = weight_if is_pass fs + weight_if is_pass gs in
    let x = weight_if is_fail fs + weight_if is_fail gs in
    let w = weight (to_upper f.severity) in
    let g : Finding = record f { status = pass } in
    let before =
      compute-percent (fs ++ f ∷ gs)
      ∙ ap₂ percent {y = e} {v = w + x} (ground (arith, weight_if-append is_pass fs (f ∷ gs)))
          (ground (arith, weight_if-append is_fail fs (f ∷ gs))) in
    let after =
      compute-percent (fs ++ g ∷ gs)
      ∙ ap₂ percent {y = e + w} {v = x} (ground (arith, weight_if-append is_pass fs (g ∷ gs)))
          (ground (arith, weight_if-append is_fail fs (g ∷ gs))) in
    omega (arith, before, after, percent_mono e w x (weight_bounds (to_upper f.severity)).0)

weight_if-permᴰ :
    (p : Status → Bool) {fs gs : List Finding} → Permᴰ fs gs → weight_if p fs ≡ weight_if p gs
weight_if-permᴰ p Permᴰ.nil = refl
weight_if-permᴰ p (Permᴰ.cons {a = a} {b = b} {l₁ = l} {l₂ = m} e h) =
    ap₂ (λ (f : Finding) n. (if p f.status then weight (to_upper f.severity) else 0) + n) e
      (weight_if-permᴰ p h)
weight_if-permᴰ p (Permᴰ.swap {a = a} {b = b} {l = l} e d) = rw (← e, ← d) (omega arith)
weight_if-permᴰ p (Permᴰ.trans h k) = weight_if-permᴰ p h ∙ weight_if-permᴰ p k

-- The order of the findings does not matter to the score's value.
compute-perm : {fs gs : List Finding} → Perm fs gs → (compute fs).value ≡ (compute gs).value
compute-perm {fs} {gs} h =
    compute-percent fs
    ∙ ∥∥₁_elim h (ℕ_set _ _)
        (λ k. ap₂ percent (weight_if-permᴰ is_pass k) (weight_if-permᴰ is_fail k))
    ∙ sym (compute-percent gs)
