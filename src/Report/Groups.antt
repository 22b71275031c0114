-- ===== src/Report/Groups.antt =====
-- internal/report/lines.go: findings folded into one group for each control and reason.
pub mod Laws
use jenkins_bench.Prelude.{
  ℕ, ◌+◌, Bool, true, false, not, ◌&&◌, ◌||◌, List, [], ◌∷◌, ◌++◌, keep, length, ltb, ◌==◌,
  if◌then◌else◌, sort_by,
}
use jenkins_bench.Prelude.Text.{Text, codes, text_eq, text_lt, to_lower, is_empty}
use jenkins_bench.Checks.{weight, less_cisid}
use jenkins_bench.Engine.{Finding}
use jenkins_bench.Engine.Evaluate.{instance_resource_name}
use jenkins_bench.Console.Paint.{pluralize}
use jenkins_bench.Report.Remedies.{is_in}

-- findingGroup; the set `kinds` as the list of its members
pub record Group : Type 0 where
  pub rep : Finding
  pub details : Text
  pub resources : List Text
  pub instance_wide : Bool
  pub kinds : List Text

-- The key of the map `index`: the NUL keeps the two parts apart.
unfoldable pub group_key : Finding → Text
group_key f = f.check_id ++ 0 ∷ f.details

abbrev pub empty_group : Finding → Group
empty_group f = record {
  rep = f;
  details = f.details;
  resources = [];
  instance_wide = false;
  kinds = [];
}

-- The writes to out[i].
unfoldable pub join_group : Finding → Group → Group
join_group f g = record g {
  resources = g.resources ++ f.resource ∷ [];
  kinds = if is_in f.resource_type g.kinds then g.kinds else g.kinds ++ f.resource_type ∷ [];
  instance_wide = if text_eq f.resource instance_resource_name then true else g.instance_wide;
}

-- A round of the loop; the map `index` gives the place of a key in `out`.
unfoldable pub group_finding : Finding → List Group → List Group
group_finding f [] = join_group f (empty_group f) ∷ []
group_finding f (g ∷ gs) =
    let rest = group_finding f gs in
    if text_eq (group_key g.rep) (group_key f) then join_group f g ∷ gs else g ∷ rest

unfoldable pub group_loop : List Group → List Finding → List Group
group_loop gs [] = gs
group_loop gs (f ∷ fs) = group_loop (group_finding f gs) fs

-- lessGroup
unfoldable pub less_group : Group → Group → Bool
less_group x y =
    if not (weight x.rep.severity == weight y.rep.severity)
    then ltb (weight y.rep.severity) (weight x.rep.severity)
    else if not (text_eq x.rep.cis_id y.rep.cis_id)
    then less_cisid x.rep.cis_id y.rep.cis_id
    else if not (length x.resources == length y.resources)
    then ltb (length y.resources) (length x.resources)
    else text_lt x.details y.details

-- groupByControlDetails
unfoldable pub group_by_control_details : List Finding → (Finding → Bool) → List Group
group_by_control_details fs kept = sort_by less_group (group_loop [] (keep kept fs))

abbrev noun_of : List Text → Text
noun_of (k ∷ []) = if is_empty k then codes "resource" else to_lower k
noun_of _ = codes "resource"

-- findingGroup.countLabel
unfoldable pub count_label : Group → Text
count_label g =
    if g.instance_wide && length g.resources == 1
    then instance_resource_name
    else pluralize (length g.resources) (noun_of g.kinds)
