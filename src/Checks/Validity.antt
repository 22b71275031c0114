-- ===== src/Checks/Validity.antt =====
-- What `Check.validate` of internal/checks/registry.go promises, and what the loader passes on.
use jenkins_bench.Prelude.{
  ◌≤◌, ◌≡◌, ◌≢◌, ◌↔◌, ◌⊎◌, Option, none, List, [], ◌∷◌, All, IsSortedBy, sort_by,
  sort_by-IsSortedBy, arith,
}
use jenkins_bench.Prelude.Text.{Text, to_upper, text_eq_iff}
use jenkins_bench.Prelude.Result.{ok}
use jenkins_bench.Checks.{
  Metadata, Check, validate, less_check, severity_high, severity_medium, severity_low,
  scope_controller, scope_job,
}
use jenkins_bench.Checks.Order.{HasRank, less_check-IsWeakOrder}
use jenkins_bench.Checks.Load.{FileEntry, Bundle, load_from}
use jenkins_bench.Checks.Load.Laws.{id_count, load_from-IsSound}

-- What a control must have to be one.
pub record IsWellFormed (c : Check) : Type 0 where
  pub has_id : c.id ≢ []
  pub has_package : c.package_name ≢ []
  pub known_scope : (c.scope ≡ scope_controller) ⊎ (c.scope ≡ scope_job)
  pub known_severity :
      (to_upper c.severity ≡ severity_high)
      ⊎ (to_upper c.severity ≡ severity_medium)
      ⊎ (to_upper c.severity ≡ severity_low)
  pub has_title : c.title ≢ []
  pub has_remediation : c.remediation ≢ []
  pub has_fix : c.fix_summary ≢ []
  pub has_platform : c.platforms ≢ []

validate-IsWellFormed : (c : Check) → validate c ≡ none → IsWellFormed c
unfolding validate
validate-IsWellFormed c h = record {
  has_id = λ e. ground arith;
  has_package = λ e. ground arith;
  known_scope = ground (arith, text_eq_iff c.scope scope_controller, text_eq_iff c.scope scope_job);
  known_severity = ground (
    arith,
    text_eq_iff (to_upper c.severity) severity_high,
    text_eq_iff (to_upper c.severity) severity_medium,
    text_eq_iff (to_upper c.severity) severity_low,
  );
  has_title = λ e. ground arith;
  has_remediation = λ e. ground arith;
  has_fix = λ e. ground arith;
  has_platform = λ e. ground arith;
}

IsWellFormed-validate : (c : Check) → IsWellFormed c → validate c ≡ none
unfolding validate
IsWellFormed-validate c h = ground (
  arith,
  text_eq_iff c.scope scope_controller,
  text_eq_iff c.scope scope_job,
  text_eq_iff (to_upper c.severity) severity_high,
  text_eq_iff (to_upper c.severity) severity_medium,
  text_eq_iff (to_upper c.severity) severity_low,
)

-- `Check.validate` accepts exactly the checks that have an ID, a package, a scope and a severity
-- the program knows, a title, a remediation, a fix summary and a platform.
validate-iff_IsWellFormed : (c : Check) → (validate c ≡ none) ↔ IsWellFormed c
validate-iff_IsWellFormed c = (validate-IsWellFormed c, IsWellFormed-validate c)

All-IsWellFormed : (cs : List Check) → All (λ c. validate c ≡ none) cs → All IsWellFormed cs
All-IsWellFormed [] h = tt
All-IsWellFormed (c ∷ cs) h = (validate-IsWellFormed c h.0, All-IsWellFormed cs h.1)

module _ (decode : Text → Option Metadata) (entries : List FileEntry) {b : Bundle} where
  -- Condition: the bundle loads. It then holds only well-formed controls, and at most one of each
  -- ID, whatever the files.
  pub load_from-IsWellFormed :
      load_from decode entries ≡ ok b
      → All IsWellFormed b.checks × ((k : Text) → id_count k b.checks ≤ 1)
  load_from-IsWellFormed e =
      let (valid, unique) = load_from-IsSound decode entries e in
      (All-IsWellFormed b.checks valid, unique)

HasRank-of_sorted :
    (cs : List Check) → All HasRank cs → IsSortedBy less_check (sort_by less_check cs)
HasRank-of_sorted cs h = sort_by-IsSortedBy less_check HasRank less_check-IsWeakOrder cs h
