-- ===== src/Report/Tally.antt =====
-- internal/report/table.go: `tallyResources`, how the controls of each resource came out.
pub mod Laws
use jenkins_bench.Prelude.{ℕ, ◌+◌, Bool, List, [], ◌∷◌, ltb, ◌==◌, not, if◌then◌else◌, sort_by}
use jenkins_bench.Prelude.Text.{Text, text_eq, text_lt}
use jenkins_bench.Engine.{Finding}
use jenkins_bench.Report.{status_label, status_fail, status_unread, status_manual, status_pass}

-- resourceTally
pub record Tally : Type 0 where
  pub name : Text
  pub kind : Text
  pub failed : ℕ
  pub unread : ℕ
  pub manual : ℕ
  pub passed : ℕ
  pub na : ℕ

-- The switch of the loop.
unfoldable pub count_label : Text → Tally → Tally
count_label label t =
    if text_eq label status_fail
    then record t { failed = t.failed + 1 }
    else if text_eq label status_unread
    then record t { unread = t.unread + 1 }
    else if text_eq label status_manual
    then record t { manual = t.manual + 1 }
    else if text_eq label status_pass
    then record t { passed = t.passed + 1 }
    else record t { na = t.na + 1 }

abbrev pub new_tally : Finding → Tally
new_tally f = record {
  name = f.resource;
  kind = f.resource_type;
  failed = 0;
  unread = 0;
  manual = 0;
  passed = 0;
  na = 0;
}

-- A round of the loop; the map `index` gives the place of a name in `out`.
unfoldable pub tally_finding : Finding → List Tally → List Tally
tally_finding f [] = count_label (status_label f) (new_tally f) ∷ []
tally_finding f (t ∷ ts) =
    let rest = tally_finding f ts in
    if text_eq t.name f.resource then count_label (status_label f) t ∷ ts else t ∷ rest

unfoldable pub tally_loop : List Tally → List Finding → List Tally
tally_loop ts [] = ts
tally_loop ts (f ∷ fs) = tally_loop (tally_finding f ts) fs

-- lessTally
unfoldable pub less_tally : Tally → Tally → Bool
less_tally x y =
    if not (x.failed == y.failed)
    then ltb y.failed x.failed
    else if not (x.unread == y.unread)
    then ltb y.unread x.unread
    else if not (x.manual == y.manual)
    then ltb y.manual x.manual
    else text_lt x.name y.name

-- tallyResources
unfoldable pub tally_resources : List Finding → List Tally
tally_resources fs = sort_by less_tally (tally_loop [] fs)
