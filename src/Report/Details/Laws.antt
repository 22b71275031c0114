-- ===== src/Report/Details/Laws.antt =====
-- What the filters of --details select: `parseDetailFilters` and `filterFindings` of internal/report/lines.go.
use jenkins_bench.Prelude.{
  ◌≡◌, ◌≢◌, ◌⊎◌, refl, inl, inr, Bool, true, ◌||◌, some, List, [], ◌∷◌, ◌++◌, any, All, keep,
  Bool-cases, Option-cases, arith, All-append,
}
use mathlib.Core.Path.{subst}
use jenkins_bench.Prelude.Text.{
  Text, codes, text_eq, text_eq_refl, is_empty, to_lower, equal_fold, trim_space,
}
use jenkins_bench.Prelude.Assoc.{Assoc, lookup, insert, lookup-insert}
use jenkins_bench.Prelude.Result.{Result, ok, err}
use jenkins_bench.Engine.{Finding}
use jenkins_bench.Report.Details.{
  DetailFilter, is_none, is_open, canonical_ids, find_control, names_resource, parse_loop,
  parse_detail_filters, passes_filter, filter_findings,
}

-- A control filter that a finding of the report carries, letter for letter.
abbrev pub HasControl : List Finding → Text → Type 0
HasControl fs id = any (λ f. text_eq id f.check_id) fs ≡ true

-- A resource filter that a finding's resource contains, whatever the case.
abbrev pub HasResource : List Finding → Text → Type 0
HasResource fs sub = any (names_resource sub) fs ≡ true

-- Every filter on its own selects a finding.
abbrev pub IsGrounded : List Finding → DetailFilter → Type 0
IsGrounded fs filter = All (HasControl fs) filter.controls × All (HasResource fs) filter.resources

-- Every entry of the map `ids` spells a control of the report.
lookup-canonical_ids :
    (ids : Assoc Text) (fs all : List Finding) (key id : Text)
    → ((k i : Text) → lookup k ids ≡ some i → HasControl all i)
    → All (λ f. HasControl all f.check_id) fs
    → lookup key (canonical_ids ids fs) ≡ some id
    → HasControl all id
unfolding canonical_ids
lookup-canonical_ids ids [] all key id good here e = good key id e
lookup-canonical_ids ids (f ∷ fs) all key id good here e =
    lookup-canonical_ids (insert (to_lower f.check_id) f.check_id ids) fs all key id
      (λ k i h.
        ground (arith, lookup-insert (to_lower f.check_id) k f.check_id ids, good k i, h, here.0))
      here.1 e

own_controls :
    (fs all : List Finding)
    → ((i : Text) → HasControl fs i → HasControl all i)
    → All (λ f. HasControl all f.check_id) fs
own_controls [] all sub = tt
own_controls (f ∷ fs) all sub = (
  sub f.check_id (ground (arith, text_eq_refl f.check_id)),
  own_controls fs all (λ i h. sub i (ground (arith, h))),
)

known :
    (fs : List Finding) (key id : Text)
    → lookup key (canonical_ids [] fs) ≡ some id
    → HasControl fs id
unfolding lookup
known fs key id e =
    lookup-canonical_ids [] fs fs key id (λ k i g. cc) (own_controls fs fs (λ i h. h)) e

find_control-HasControl :
    (fs : List Finding) (lower id : Text)
    → find_control (canonical_ids [] fs) lower ≡ some id
    → HasControl fs id
unfolding find_control
find_control-HasControl fs lower id e = ground (
  arith,
  known fs lower id,
  known fs (codes "cis-" ++ lower) id,
  Option-cases (lookup lower (canonical_ids [] fs)),
)

parse_loop-IsGrounded :
    (fs : List Finding) (values : List Text) (out filter : DetailFilter)
    → IsGrounded fs out
    → parse_loop (canonical_ids [] fs) fs out values ≡ ok filter
    → IsGrounded fs filter
unfolding parse_loop
parse_loop-IsGrounded fs [] out filter good e =
    (let same : out ≡ filter = cc in subst (IsGrounded fs) same good)
parse_loop-IsGrounded fs (raw ∷ values) out filter good e =
    let v = trim_space raw in
    let lower = to_lower v in
    elim (Bool-cases (is_empty v || equal_fold v (codes "all"))) [
      | inl s ↦ parse_loop-IsGrounded fs values out filter good (rw s at e)
      | inr s ↦ (elim (Option-cases (find_control (canonical_ids [] fs) lower)) [
        | inr (id, c) ↦
            parse_loop-IsGrounded fs values _ filter
              (
                All-append _ out.controls _ good.0 (find_control-HasControl fs lower id c, tt),
                good.1,
              )
              (rw (s, c) at e)
        | inl c ↦ (elim (Bool-cases (any (names_resource lower) fs)) [
          | inl r ↦
              parse_loop-IsGrounded fs values _ filter
                (good.0, All-append _ out.resources _ good.1 (r, tt)) (rw (s, c, r) at e)
          | inr r ↦
              (let never : ◌≡◌ {A = Result Text DetailFilter} (err v) (ok filter) =
                  rw (s, c, r) at e in
                cc)
        ])
      ])
    ]

-- What --details accepts selects something: every control named is one of the report's, and every resource
-- filter is part of the name of one of its resources.
parse_detail_filters-IsGrounded :
    (values : List Text) (fs : List Finding) (filter : DetailFilter)
    → parse_detail_filters values fs ≡ ok filter
    → IsGrounded fs filter
unfolding parse_detail_filters
parse_detail_filters-IsGrounded values fs filter e =
    parse_loop-IsGrounded fs values (record { controls = []; resources = [] }) filter (tt, tt) e

-- An element that passes a test is kept by a weaker one.
any-keep :
    (q r : Finding → Bool) (fs : List Finding)
    → ((f : Finding) → q f ≡ true → r f ≡ true)
    → any q fs ≡ true
    → keep r fs ≢ []
any-keep q r [] weaker e h = cc
any-keep q r (f ∷ fs) weaker e h = elim (Bool-cases (r f)) [
  | inl k ↦ (let never : ◌≡◌ {A = List Finding} (f ∷ keep r fs) [] = rw k at h in cc)
  | inr k ↦ any-keep q r fs weaker (ground (arith, weaker f, e, k)) (rw k at h)
]

grounded-ne-nil :
    (fs : List Finding) (controls resources : List Text)
    → IsGrounded fs (record { controls = controls; resources = resources })
    → (is_none controls ≡ true) ⊎ (is_none resources ≡ true)
    → fs ≢ []
    → filter_findings fs (record { controls = controls; resources = resources }) ≢ []
unfolding filter_findings is_open passes_filter
grounded-ne-nil fs [] [] good one full h = full h
grounded-ne-nil fs [] (sub ∷ subs) good one full h =
    any-keep (names_resource sub) _ fs (λ f e. rw e refl) good.1.0 h
grounded-ne-nil fs (id ∷ ids) [] good one full h =
    any-keep (λ f. text_eq id f.check_id) _ fs (λ f e. rw e refl) good.0.0 h
grounded-ne-nil fs (id ∷ ids) (sub ∷ subs) good (inl e) full h = cc
grounded-ne-nil fs (id ∷ ids) (sub ∷ subs) good (inr e) full h = cc

-- Conditions: the report has findings, and the values of --details name controls only or resources only. The filter
-- then keeps a finding at least.
pub filter_findings-ne-nil :
    (values : List Text) (fs : List Finding) (filter : DetailFilter)
    → parse_detail_filters values fs ≡ ok filter
    → (is_none filter.controls ≡ true) ⊎ (is_none filter.resources ≡ true)
    → fs ≢ []
    → filter_findings fs filter ≢ []
filter_findings-ne-nil values fs filter e one full =
    grounded-ne-nil fs filter.controls filter.resources
      (parse_detail_filters-IsGrounded values fs filter e) one full
