-- ===== src/Checks.antt =====
-- internal/checks/registry.go: the controls of the policy bundle, what makes one valid, and the
-- benchmark order in which every report presents them.
pub mod Order
pub mod Severity
pub mod Load
pub mod Validity
use jenkins_bench.Prelude.{
  ℕ, ◌+◌, ◌*◌, ◌-◌, ◌%◌, ◌^◌, Bool, true, false, ◌||◌, Option, none, some, List, [], ◌∷◌, ltb, ◌==◌,
  if◌then◌else◌, any,
}
use jenkins_bench.Prelude.Text.{
  Text, codes, text_eq, text_lt, to_upper, equal_fold, is_empty, split,
}

abbrev pub severity_high : Text
severity_high = codes "HIGH"

abbrev pub severity_medium : Text
severity_medium = codes "MEDIUM"

abbrev pub severity_low : Text
severity_low = codes "LOW"

abbrev pub scope_controller : Text
scope_controller = codes "controller"

abbrev pub scope_job : Text
scope_job = codes "job"

-- Weight
unfoldable pub weight : Text → ℕ
weight severity =
    let s = to_upper severity in
    if text_eq s severity_high
    then 3
    else if text_eq s severity_medium
    then 2
    else if text_eq s severity_low
    then 1
    else 1

pub record Metadata : Type 0 where
  pub id : Text
  pub cis_id : Text
  pub package_name : Text
  pub scope : Text
  pub severity : Text
  pub platforms : List Text
  pub automated : Bool
  pub title : Text
  pub description : Text
  pub remediation : Text
  pub fix_summary : Text
  pub references : List Text

pub record Check : Type 0 where
  pub metadata : Metadata
  pub open metadata use *
  pub dir : Text

-- The errors of `Check.validate`, in the order in which it looks for them.
pub data CheckError : Type 0 where
  id_required package_required title_required remediation_required : CheckError
  fix_summary_required platform_required : CheckError
  bad_scope bad_severity : Text → CheckError

-- Check.validate; `none` is the nil error
unfoldable pub validate : Check → Option CheckError
validate c =
    let u = to_upper c.severity in
    if is_empty c.id
    then some id_required
    else if is_empty c.package_name
    then some package_required
    else if (if text_eq c.scope scope_controller
        then false
        else if text_eq c.scope scope_job
        then false
        else true)
    then some (bad_scope c.scope)
    else if (if text_eq u severity_high
        then false
        else if text_eq u severity_medium
        then false
        else if text_eq u severity_low
        then false
        else true)
    then some (bad_severity c.severity)
    else if is_empty c.title
    then some title_required
    else if is_empty c.remediation
    then some remediation_required
    else if is_empty c.fix_summary
    then some fix_summary_required
    else if (elim c.platforms [ [] ↦ true | p ∷ ps ↦ false ])
    then some platform_required
    else none

-- Check.AppliesTo
unfoldable pub applies_to : Check → Text → Bool
applies_to c platform = any (λ p. equal_fold p platform) c.platforms

-- `atoi`, on Go's 64-bit int: the value is kept as its bit pattern.
abbrev pub int_mod : ℕ
int_mod = 2 ^ 64

unfoldable pub atoi_loop : ℕ → Text → Option ℕ
atoi_loop n [] = some n
atoi_loop n (r ∷ s) =
    let rest = atoi_loop ((n * 10 + (r - b'0')) % int_mod) s in
    if ltb r b'0' || ltb b'9' r then none else rest

unfoldable pub atoi : Text → Option ℕ
unfolding atoi_loop
atoi s = if is_empty s then none else atoi_loop 0 s

-- The signed order of two bit patterns.
unfoldable pub int_lt : ℕ → ℕ → Bool
int_lt x y = ltb ((x + 2 ^ 63) % int_mod) ((y + 2 ^ 63) % int_mod)

-- One round of the loop of `LessCISID` on components a and b; `rest` is the outcome of the later
-- rounds.
unfoldable pub less_component : Text → Text → Bool → Bool
unfolding int_lt
less_component a b rest =
    let by_text : Bool = if text_eq a b then rest else text_lt a b in
    elim (atoi a) [
      | none ↦ by_text
      | some x ↦ elim (atoi b) [ none ↦ by_text | some y ↦ if x == y then rest else int_lt x y ]
    ]

-- The loop of `LessCISID` and, when one list is used up, its comparison of the lengths.
unfoldable pub less_parts : List Text → List Text → Bool
less_parts [] [] = false
less_parts [] (b ∷ bs) = true
less_parts (a ∷ as') [] = false
less_parts (a ∷ as') (b ∷ bs) = less_component a b (less_parts as' bs)

-- LessCISID
unfoldable pub less_cisid : Text → Text → Bool
less_cisid a b = less_parts (split b'.' a) (split b'.' b)

-- lessCheck
unfoldable pub less_check : Check → Check → Bool
less_check a b =
    if is_empty a.cis_id
    then (if is_empty b.cis_id then text_lt a.id b.id else false)
    else if is_empty b.cis_id
    then true
    else less_cisid a.cis_id b.cis_id
