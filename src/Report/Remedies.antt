-- ===== src/Report/Remedies.antt =====
-- internal/report/table.go: which controls the remediation sections and the rules index list, and the
-- controls that fail on every job.
pub mod Laws
use jenkins_bench.Prelude.{
  ℕ, zero, suc, ◌+◌, Bool, true, false, not, ◌&&◌, ◌||◌, Option, none, some, List, [], ◌∷◌, any,
  keep, count_if, length, ltb, ◌==◌, if◌then◌else◌,
}
use jenkins_bench.Prelude.Text.{Text, text_eq}
use jenkins_bench.Prelude.Assoc.{Assoc, lookup, insert}
use jenkins_bench.Engine.{Status, pass, fail, manual, na, Finding}
use jenkins_bench.Engine.Evaluate.{instance_resource_name}
use jenkins_bench.Report.{is_status, unread}

abbrev pub is_in : Text → List Text → Bool
is_in key seen = any (λ k. text_eq k key) seen

-- The loop of remediationOrder, with the set `seen`.
unfoldable pub order_loop : List Text → List Finding → List Finding
order_loop seen [] = []
order_loop seen (f ∷ fs) =
    let skipped = order_loop seen fs in
    let listed = f ∷ order_loop (f.check_id ∷ seen) fs in
    if not (is_status f.status fail) && not (is_status f.status manual)
    then skipped
    else if unread f || is_in f.check_id seen
    then skipped
    else listed

-- remediationOrder
unfoldable pub remediation_order : List Finding → List Finding
remediation_order = order_loop []

-- splitRemediations
unfoldable pub split_remediations : List Finding → List Finding × List Finding
split_remediations fs =
    (keep (λ f. is_status f.status fail) fs, keep (λ f. not (is_status f.status fail)) fs)

-- failedControls: the set `seen`
unfoldable pub failed_controls : List Text → List Finding → List Text
failed_controls seen [] = seen
failed_controls seen (f ∷ fs) =
    let skipped = failed_controls seen fs in
    let added = failed_controls (f.check_id ∷ seen) fs in
    if is_status f.status fail && not (is_in f.check_id seen) then added else skipped

pub record Sweep : Type 0 where
  pub applicable : ℕ
  pub failed : ℕ
  pub instance_wide : Bool

abbrev pub no_sweep : Sweep
no_sweep = record { applicable = 0; failed = 0; instance_wide = false }

-- A finding in the tally of its control.
unfoldable pub count_sweep : Finding → Sweep → Sweep
count_sweep f t = record {
  applicable = t.applicable + 1;
  failed = if is_status f.status fail then t.failed + 1 else t.failed;
  instance_wide = if text_eq f.resource instance_resource_name then true else t.instance_wide;
}

abbrev pub sweep_of : Text → Assoc Sweep → Sweep
sweep_of id m = elim (lookup id m) [ none ↦ no_sweep | some t ↦ t ]

unfoldable pub sweep_loop : Assoc Sweep → List Finding → Assoc Sweep
sweep_loop m [] = m
sweep_loop m (f ∷ fs) =
    let skipped = sweep_loop m fs in
    let counted = sweep_loop (insert f.check_id (count_sweep f (sweep_of f.check_id m)) m) fs in
    if is_status f.status na then skipped else counted

-- The entry of `sweeps` for a control, from its tally: the second loop writes each key once.
unfoldable pub swept : Sweep → Option ℕ
swept t =
    if not t.instance_wide && ltb 1 t.applicable && t.failed == t.applicable
    then some t.applicable
    else none

-- fullSweeps: what the map holds for a control
unfoldable pub full_sweeps : List Finding → Text → Option ℕ
full_sweeps fs id = elim (lookup id (sweep_loop [] fs)) [ none ↦ none | some t ↦ swept t ]
