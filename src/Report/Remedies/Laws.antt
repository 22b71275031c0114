-- ===== src/Report/Remedies/Laws.antt =====
-- Which controls `remediationOrder` and `fullSweeps` of internal/report/table.go list.
use jenkins_bench.Prelude.{
  ℕ, ◌+◌, ◌<◌, Bool, false, not, ◌&&◌, ◌||◌, ◌≡◌, ◌↔◌, some, List, [], ◌∷◌, any, count_if, ==_iff,
  if◌then◌else◌, Option-cases, arith,
}
use jenkins_bench.Prelude.Text.{Text, text_eq, text_eq_iff}
use jenkins_bench.Prelude.Assoc.{Assoc, lookup, insert, lookup-insert}
use jenkins_bench.Engine.{fail, manual, na, Finding}
use jenkins_bench.Engine.Evaluate.{instance_resource_name}
use jenkins_bench.Report.{is_status, unread}
use jenkins_bench.Report.Remedies.{
  is_in, order_loop, remediation_order, Sweep, count_sweep, sweep_of, sweep_loop, swept,
  full_sweeps,
}

-- A finding that asks for a changed setting, or for a judgement.
abbrev pub asks : Finding → Bool
asks f = is_status f.status fail || (is_status f.status manual && not (unread f))

abbrev pub of_control : Text → Finding → Bool
of_control id f = text_eq f.check_id id

count-order_loop :
    (id : Text) (seen : List Text) (fs : List Finding)
    → count_if (of_control id) (order_loop seen fs)
      ≡ (if is_in id seen then 0 else if any (λ f. of_control id f && asks f) fs then 1 else 0)
unfolding order_loop unread
count-order_loop id seen [] = ground arith
count-order_loop id seen (f ∷ fs) = ground (
  arith,
  count-order_loop id seen fs,
  count-order_loop id (f.check_id ∷ seen) fs,
  text_eq_iff f.check_id id,
)

-- The remediations list a control once where one of its findings failed or needs a person, and not otherwise:
-- a control that merely went unread is left out.
remediation_order_lem :
    (fs : List Finding) (id : Text)
    → count_if (of_control id) (remediation_order fs)
      ≡ (if any (λ f. of_control id f && asks f) fs then 1 else 0)
unfolding remediation_order
remediation_order_lem fs id = count-order_loop id [] fs

-- A finding that counts for a control.
abbrev pub applies : Text → Finding → Bool
applies id f = text_eq f.check_id id && not (is_status f.status na)

sweep_of-sweep_loop :
    (id : Text) (fs : List Finding) (m : Assoc Sweep)
    → let t = sweep_of id m in
      let after = sweep_of id (sweep_loop m fs) in
      (after.applicable ≡ t.applicable + count_if (applies id) fs)
      × (after.failed ≡ t.failed + count_if (λ f. applies id f && is_status f.status fail) fs)
      × (after.instance_wide ≡ (
          t.instance_wide
          || any (λ f. applies id f && text_eq f.resource instance_resource_name) fs))
unfolding sweep_loop count_sweep
sweep_of-sweep_loop id [] m = ground arith
sweep_of-sweep_loop id (f ∷ fs) m =
    let next = count_sweep f (sweep_of f.check_id m) in
    ground (
      arith,
      sweep_of-sweep_loop id fs m,
      sweep_of-sweep_loop id fs (insert f.check_id next m),
      lookup-insert f.check_id id next m,
      text_eq_iff f.check_id id,
    )

full_sweeps-swept :
    (fs : List Finding) (id : Text) → full_sweeps fs id ≡ swept (sweep_of id (sweep_loop [] fs))
unfolding full_sweeps swept
full_sweeps-swept fs id = ground (arith, Option-cases (lookup id (sweep_loop [] fs)))

swept_iff :
    (t : Sweep) (n : ℕ)
    → (swept t ≡ some n)
      ↔ ((t.instance_wide ≡ false) × (t.applicable ≡ n) × (t.failed ≡ n) × (1 < n))
unfolding swept
swept_iff t n = ground (arith, ==_iff t.failed t.applicable)

-- A control counts as failing everywhere, on `n` resources, exactly if it applies to `n` of them, more than
-- one, failed on every one, and none of these is named `controller`. That is the name of the instance, but a job at the
-- top may have it too: a control that fails on that job and everywhere else is then not counted.
pub full_sweeps_iff :
    (fs : List Finding) (id : Text) (n : ℕ)
    → (full_sweeps fs id ≡ some n) ↔ (
        (any (λ f. applies id f && text_eq f.resource instance_resource_name) fs ≡ false)
        × (count_if (applies id) fs ≡ n)
        × (count_if (λ f. applies id f && is_status f.status fail) fs ≡ n)
        × (1 < n))
unfolding lookup
full_sweeps_iff fs id n = ground (
  arith,
  full_sweeps-swept fs id,
  swept_iff (sweep_of id (sweep_loop [] fs)) n,
  sweep_of-sweep_loop id fs [],
)
