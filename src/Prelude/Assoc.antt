-- ===== src/Prelude/Assoc.antt =====
-- Go maps keyed by strings, as association lists; no loop of the modelled code ranges over one.
use mathlib.Core.Path.{◌≡◌, refl}
use mathlib.Core.Option.{Option, none, some}
use mathlib.Core.List.{List, [], ◌∷◌}
use native.Mathlib.Omega.{arith}
use jenkins_bench.Prelude.Tests.{if◌then◌else◌}
use jenkins_bench.Prelude.Text.{Text, text_eq, text_eq_iff}

abbrev pub Assoc {ℓ} : Type ℓ → Type ℓ
Assoc V = List (Text × V)

module _ {ℓ} {V : Type ℓ} where
  unfoldable pub lookup : Text → Assoc V → Option V
  lookup key [] = none
  lookup key ((name, value) ∷ entries) =
      let rest = lookup key entries in if text_eq name key then some value else rest

  -- m[key] = value, in the place of the key's entry where it has one
  unfoldable pub insert : Text → V → Assoc V → Assoc V
  insert key value [] = (key, value) ∷ []
  insert key value ((name, old) ∷ entries) =
      let rest = insert key value entries in
      if text_eq name key then (key, value) ∷ entries else (name, old) ∷ rest

  pub lookup-insert :
      (key wanted : Text) (value : V) (entries : Assoc V)
      → lookup wanted (insert key value entries)
        ≡ (if text_eq key wanted then some value else lookup wanted entries)
  unfolding lookup insert
  lookup-insert key wanted value [] = refl
  lookup-insert key wanted value ((name, old) ∷ entries) = ground (
    arith,
    lookup-insert key wanted value entries,
    text_eq_iff name wanted,
    text_eq_iff name key,
    text_eq_iff key wanted,
  )
