-- ===== src/Report/Details.antt =====
-- internal/report/lines.go: `parseDetailFilters` and `filterFindings`, the filters of --details.
pub mod Laws
use jenkins_bench.Prelude.{
  Bool, true, false, not, ◌&&◌, ◌||◌, Option, none, some, List, [], ◌∷◌, ◌++◌, any, keep,
  if◌then◌else◌,
}
use jenkins_bench.Prelude.Text.{Text, codes, text_eq, is_empty, to_lower, equal_fold, trim_space}
use jenkins_bench.Prelude.Words.{contains}
use jenkins_bench.Prelude.Assoc.{Assoc, lookup, insert}
use jenkins_bench.Prelude.Result.{Result, ok, err}
use jenkins_bench.Engine.{Finding}

-- detailFilter; the set `controls` as the list of its members
pub record DetailFilter : Type 0 where
  pub controls : List Text
  pub resources : List Text

abbrev pub is_none : List Text → Bool
is_none [] = true
is_none (t ∷ ts) = false

-- detailFilter.empty
unfoldable pub is_open : DetailFilter → Bool
is_open filter = is_none filter.controls && is_none filter.resources

-- The map `ids`: a later finding's spelling of a control takes an earlier one's place.
unfoldable pub canonical_ids : Assoc Text → List Finding → Assoc Text
canonical_ids ids [] = ids
canonical_ids ids (f ∷ fs) = canonical_ids (insert (to_lower f.check_id) f.check_id ids) fs

-- The two lookups of a value.
unfoldable pub find_control : Assoc Text → Text → Option Text
find_control ids lower = elim (lookup lower ids) [
  | some id ↦ some id
  | none ↦ lookup (codes "cis-" ++ lower) ids
]

abbrev pub names_resource : Text → Finding → Bool
names_resource lower f = contains (to_lower f.resource) lower

-- The loop of parseDetailFilters; the error is the value that matched nothing.
unfoldable pub parse_loop :
    Assoc Text → List Finding → DetailFilter → List Text → Result Text DetailFilter
parse_loop ids findings out [] = ok out
parse_loop ids findings out (raw ∷ values) =
    let v = trim_space raw in
    let lower = to_lower v in
    let skipped = parse_loop ids findings out values in
    let narrowed =
      parse_loop ids findings (record out { resources = out.resources ++ lower ∷ [] }) values in
    if is_empty v || equal_fold v (codes "all") then skipped else (elim (find_control ids lower) [
      | some id ↦ parse_loop ids findings (record out { controls = out.controls ++ id ∷ [] }) values
      | none ↦ if any (names_resource lower) findings then narrowed else err v
    ])

-- parseDetailFilters
unfoldable pub parse_detail_filters : List Text → List Finding → Result Text DetailFilter
parse_detail_filters values findings =
    parse_loop (canonical_ids [] findings) findings (record { controls = []; resources = [] })
      values

-- The tests of the loop of filterFindings.
unfoldable pub passes_filter : DetailFilter → Finding → Bool
passes_filter filter f =
    (is_none filter.controls || any (λ id. text_eq id f.check_id) filter.controls)
    && (is_none filter.resources
        || any (λ sub. contains (to_lower f.resource) sub) filter.resources)

-- filterFindings
unfoldable pub filter_findings : List Finding → DetailFilter → List Finding
filter_findings findings filter =
    if is_open filter then findings else keep (passes_filter filter) findings
