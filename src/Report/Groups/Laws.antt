-- ===== src/Report/Groups/Laws.antt =====
-- What `groupByControlDetails` of internal/report/lines.go makes of the findings it keeps.
use jenkins_bench.Prelude.{
  ℕ, ◌+◌, Bool, true, false, ◌&&◌, ◌≡◌, refl, inl, inr, List, [], ◌∷◌, keep, count_if,
  count_if-keep, count_if-append, sum_of, sum_of-sort_by, count_if-sort_by, ◌≤◌, if◌then◌else◌,
  Bool-cases, arith,
}
use jenkins_bench.Prelude.Text.{Text, text_eq, text_eq_iff, text_eq_refl}
use jenkins_bench.Engine.{Finding}
use jenkins_bench.Report.Groups.{
  Group, group_key, empty_group, join_group, group_finding, group_loop, less_group,
  group_by_control_details,
}

-- How often a resource stands in the groups of a key.
abbrev pub listed : Text → Text → Group → ℕ
listed key resource g =
    if text_eq (group_key g.rep) key then count_if (λ r. text_eq r resource) g.resources else 0

abbrev pub is_at : Text → Text → Finding → Bool
is_at key resource f = text_eq (group_key f) key && text_eq f.resource resource

-- The groups of a key: none, or one.
abbrev pub has_key : Text → Group → Bool
has_key key g = text_eq (group_key g.rep) key

listed-join_group :
    (key resource : Text) (f : Finding) (g : Group)
    → text_eq (group_key g.rep) (group_key f) ≡ true
    → listed key resource (join_group f g)
      ≡ listed key resource g + (if is_at key resource f then 1 else 0)
unfolding join_group
listed-join_group key resource f g same =
    let e = (text_eq_iff (group_key g.rep) (group_key f)).0 same in
    let longer = count_if-append (λ r. text_eq r resource) g.resources (f.resource ∷ []) in
    rw (e, longer) (ground arith)

listed_empty : (key resource : Text) (f : Finding) → listed key resource (empty_group f) ≡ 0
listed_empty key resource f = ground arith

sum-group_finding :
    (key resource : Text) (f : Finding) (gs : List Group)
    → sum_of (listed key resource) (group_finding f gs)
      ≡ sum_of (listed key resource) gs + (if is_at key resource f then 1 else 0)
unfolding group_finding
sum-group_finding key resource f [] = omega (
  arith,
  listed-join_group key resource f (empty_group f) (text_eq_refl (group_key f)),
  listed_empty key resource f,
)
sum-group_finding key resource f (g ∷ gs) =
    elim (Bool-cases (text_eq (group_key g.rep) (group_key f))) [
      | inl e ↦ rw e (omega (arith, listed-join_group key resource f g e))
      | inr e ↦ rw e (omega (arith, sum-group_finding key resource f gs))
    ]

sum-group_loop :
    (key resource : Text) (gs : List Group) (fs : List Finding)
    → sum_of (listed key resource) (group_loop gs fs)
      ≡ sum_of (listed key resource) gs + count_if (is_at key resource) fs
unfolding group_loop
sum-group_loop key resource gs [] = omega arith
sum-group_loop key resource gs (f ∷ fs) = ground (
  arith,
  sum-group_loop key resource (group_finding f gs) fs,
  sum-group_finding key resource f gs,
)

-- Every finding that is kept is listed, in a group of its control and reason, and nothing else is.
pub group_by_control_details_lem :
    (fs : List Finding) (kept : Finding → Bool) (key resource : Text)
    → sum_of (listed key resource) (group_by_control_details fs kept)
      ≡ count_if (λ f. kept f && is_at key resource f) fs
unfolding group_by_control_details
group_by_control_details_lem fs kept key resource = omega (
  arith,
  sum_of-sort_by less_group (listed key resource) (group_loop [] (keep kept fs)),
  sum-group_loop key resource [] (keep kept fs),
  count_if-keep (is_at key resource) kept fs,
)

count-group_finding :
    (key : Text) (f : Finding) (gs : List Group)
    → (text_eq (group_key f) key ≡ false
        → count_if (has_key key) (group_finding f gs) ≡ count_if (has_key key) gs)
      × (count_if (has_key key) gs ≤ 1 → count_if (has_key key) (group_finding f gs) ≤ 1)
unfolding group_finding join_group
count-group_finding key f [] = (λ other. ground (arith, other), λ one. ground arith)
count-group_finding key f (g ∷ gs) = elim (Bool-cases (text_eq (group_key g.rep) (group_key f))) [
  | inl e ↦ rw e (λ other. refl, λ one. one)
  | inr e ↦ rw e (
    λ other. ground (arith, (count-group_finding key f gs).0 other),
    λ one. elim (Bool-cases (text_eq (group_key f) key)) [
      | inl k ↦ ground (
        arith,
        (count-group_finding key f gs).1,
        text_eq_iff (group_key f) key,
        text_eq_iff (group_key g.rep) key,
        text_eq_iff (group_key g.rep) (group_key f),
      )
      | inr k ↦ ground (arith, (count-group_finding key f gs).0 k, one)
    ],
  )
]

count-group_loop :
    (key : Text) (gs : List Group) (fs : List Finding)
    → count_if (has_key key) gs ≤ 1
    → count_if (has_key key) (group_loop gs fs) ≤ 1
unfolding group_loop
count-group_loop key gs [] one = one
count-group_loop key gs (f ∷ fs) one =
    count-group_loop key (group_finding f gs) fs ((count-group_finding key f gs).1 one)

-- A control and a reason have one group at most.
group_by_control_details_once :
    (fs : List Finding) (kept : Finding → Bool) (key : Text)
    → count_if (has_key key) (group_by_control_details fs kept) ≤ 1
unfolding group_by_control_details
group_by_control_details_once fs kept key = omega (
  arith,
  count_if-sort_by less_group (has_key key) (group_loop [] (keep kept fs)),
  count-group_loop key [] (keep kept fs) (omega arith),
)
