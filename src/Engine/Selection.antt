-- ===== src/Engine/Selection.antt =====
-- internal/engine/engine.go: `validateSelection`, and the selection of the controls that `New`
-- makes. Compiling and preparing the policies is OPA's, and enters as parameters.
pub mod Laws
use jenkins_bench.Prelude.{
  ℕ, suc, Bool, true, false, not, ◌&&◌, ◌||◌, Option, none, some, List, [], ◌∷◌, ◌++◌, any, length,
  sort_by, if◌then◌else◌,
}
use jenkins_bench.Prelude.Text.{Text, text_eq, text_lt, to_upper, trim_space, is_empty}
use jenkins_bench.Prelude.Result.{Result, ok, err, ◌>>=◌}
use jenkins_bench.Checks.{Check, applies_to}
use jenkins_bench.Checks.Load.{Bundle}
use jenkins_bench.Config.{Exception, Config, selects}

-- Where an unknown ID was written.
pub data Where : Type 0 where
  include_list exclude_list : Where
  exception_at : ℕ → Where

abbrev pub Unknown : Type 0
Unknown = Text × Where

-- known[strings.ToUpper(id)]
unfoldable pub is_known : List Check → Text → Bool
is_known cs id = any (λ c. text_eq (to_upper c.id) (to_upper id)) cs

-- The closure `note` of `validateSelection`: what it appends for one entry.
unfoldable pub note : List Check → Text → Where → List Unknown
note cs id place =
    let name = trim_space id in
    if not (is_empty name) && not (is_known cs name) then (name, place) ∷ [] else []

unfoldable pub note_all : List Check → Where → List Text → List Unknown
note_all cs place [] = []
note_all cs place (id ∷ ids) = note cs id place ++ note_all cs place ids

unfoldable pub note_exceptions : List Check → ℕ → List Exception → List Unknown
note_exceptions cs i [] = []
note_exceptions cs i (ex ∷ exs) =
    note cs ex.control (exception_at i) ++ note_exceptions cs (suc i) exs

unfoldable pub unknown_ids : Config → Bundle → List Unknown
unknown_ids cfg bundle =
    note_all bundle.checks include_list cfg.include
    ++ (note_all bundle.checks exclude_list cfg.exclude
        ++ note_exceptions bundle.checks 0 cfg.exceptions)

pub data NewError : Type 0 where
  unknown_checks : List Unknown → NewError
  compile_failed no_checks_selected : NewError
  prepare_failed : Text → NewError

-- validateSelection; the message lists the unknown IDs in order, which is left to its reader.
unfoldable pub validate_selection : Config → Bundle → Option NewError
validate_selection cfg bundle = elim (unknown_ids cfg bundle) [
  | [] ↦ none
  | u ∷ us ↦ some (unknown_checks (u ∷ us))
]

-- The last test of `New`.
unfoldable pub refuse_empty : List Check → Result NewError (List Check)
refuse_empty [] = err no_checks_selected
refuse_empty (c ∷ cs) = ok (c ∷ cs)

module _ (compiles : Bundle → Bool) (prepares : Check → Bool) where
  -- The loop of `New` over the bundle.
  unfoldable pub select : Config → Text → List Check → Result NewError (List Check)
  select cfg platform [] = ok []
  select cfg platform (c ∷ cs) =
      let rest = select cfg platform cs in
      if not (applies_to c platform) || not (selects cfg c.id)
      then rest
      else if prepares c
      then (rest >>= λ more. ok (c ∷ more))
      else err (prepare_failed c.id)

  -- `New`, on a bundle that loaded: the controls that the engine will evaluate.
  unfoldable pub new : Config → Bundle → Text → Result NewError (List Check)
  new cfg bundle platform = elim (validate_selection cfg bundle) [
    | some e ↦ err e
    | none ↦
        if compiles bundle
        then (select cfg platform bundle.checks >>= refuse_empty)
        else err compile_failed
  ]
