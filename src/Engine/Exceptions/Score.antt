-- ===== src/Engine/Exceptions/Score.antt =====
-- Accepting a finding does not change the controller: what `applyExceptions` of
-- internal/engine/engine.go leaves alone.
use mathlib.Core.Path.{ap₂, subst}
use jenkins_bench.Prelude.{
  ℕ, ◌≡◌, refl, sym, ap, ◌∙◌, ◌⊎◌, inl, inr, true, false, Option, none, some, List, [], ◌∷◌, map,
  All, arith, Bool-cases, Option-cases, length, length-map,
}
use jenkins_bench.Config.{Exception}
use jenkins_bench.Engine.{fail, manual, Finding}
use jenkins_bench.Engine.Score.{Score, score_finding, score_loop, compute, zero_score, with_value}
use jenkins_bench.Engine.Exceptions.{waiver_of, accepts, waive, has_lapsed, apply_exceptions}
use jenkins_bench.Engine.Exceptions.Laws.{
  first_accepting, accept_with, accept_first, apply_exceptions-eq-map,
}

abbrev pub IsOneOf : Exception → List Exception → Type 0
IsOneOf ex [] = ⊥
IsOneOf ex (e ∷ es) = (ex ≡ e) ⊎ IsOneOf ex es

-- A finding without its waiver: all that the score and the report read of it.
abbrev pub without_waiver : Finding → Finding
without_waiver f = record f { waiver = none }

without_waiver-accept_with :
    (o : Option Exception) (f : Finding) → without_waiver (accept_with o f) ≡ without_waiver f
unfolding waive
without_waiver-accept_with none f = refl
without_waiver-accept_with (some ex) f = ground arith

module _ (now : ℕ) (exs : List Exception) where
  map-without_waiver :
      (fs : List Finding)
      → map without_waiver (map (accept_first now exs) fs) ≡ map without_waiver fs
  map-without_waiver [] = refl
  map-without_waiver (f ∷ fs) =
      ap₂ ◌∷◌ (without_waiver-accept_with (first_accepting now exs f) f) (map-without_waiver fs)

  -- Exceptions change nothing of any finding but its waiver: not its status, not its place.
  pub apply_exceptions-without_waiver :
      (fs : List Finding)
      → map without_waiver (apply_exceptions now exs fs).0 ≡ map without_waiver fs
  apply_exceptions-without_waiver fs =
      ap (map without_waiver) (apply_exceptions-eq-map now exs fs) ∙ map-without_waiver fs

score_loop-without_waiver :
    (fs : List Finding) (s : Score) → score_loop (map without_waiver fs) s ≡ score_loop fs s
unfolding score_loop score_finding
score_loop-without_waiver [] s = refl
score_loop-without_waiver (f ∷ fs) s = score_loop-without_waiver fs (score_finding f s)

compute-without_waiver : (fs : List Finding) → compute (map without_waiver fs) ≡ compute fs
unfolding compute
compute-without_waiver fs = ap with_value (
    score_loop-without_waiver fs (zero_score (length (map without_waiver fs)))
    ∙ ap (λ n. score_loop fs (zero_score n)) (length-map without_waiver fs))

module _ (now : ℕ) (exs : List Exception) where
  -- An accepted failure still counts: the whole score is what it was without exceptions.
  pub compute-apply_exceptions :
      (fs : List Finding) → compute (apply_exceptions now exs fs).0 ≡ compute fs
  compute-apply_exceptions fs =
      sym (compute-without_waiver (apply_exceptions now exs fs).0)
      ∙ ap compute (apply_exceptions-without_waiver now exs fs)
      ∙ compute-without_waiver fs

  -- Why an exception may mark a finding.
  abbrev pub IsAccepted : Finding → Exception → Type 0
  IsAccepted f ex = (has_lapsed now ex ≡ false) × (accepts ex f ≡ true)

  first_accepting-IsAccepted :
      (es : List Exception) (f : Finding) (ex : Exception)
      → first_accepting now es f ≡ some ex
      → IsOneOf ex es × IsAccepted f ex
  first_accepting-IsAccepted [] f ex h = cc
  first_accepting-IsAccepted (e ∷ es) f ex h = elim (Bool-cases (has_lapsed now e)) [
    | inl l ↦ let (m, a) = first_accepting-IsAccepted es f ex (rw l at h) in (inr m, a)
    | inr l ↦ elim (Bool-cases (accepts e f)) [
      | inl a ↦ (inl (ground arith), (ground arith, ground arith))
      | inr a ↦ let (m, b) = first_accepting-IsAccepted es f ex (ground arith) in (inr m, b)
    ]
  ]

  first_accepting-none :
      (es : List Exception) (f : Finding)
      → first_accepting now es f ≡ none
      → All (λ ex. ¬ IsAccepted f ex) es
  first_accepting-none [] f h = tt
  first_accepting-none (e ∷ es) f h = elim (Bool-cases (has_lapsed now e)) [
    | inl l ↦ (λ a. ground arith, first_accepting-none es f (rw l at h))
    | inr l ↦ elim (Bool-cases (accepts e f)) [
      | inl a ↦ ground arith
      | inr a ↦ (λ b. ground arith, first_accepting-none es f (ground arith))
    ]
  ]

  accepts-status :
      (f : Finding) (ex : Exception) → accepts ex f ≡ true → (f.status ≡ fail) ⊎ (f.status ≡ manual)
  unfolding accepts
  accepts-status f ex h = ground arith

  -- What the exceptions make of a finding that carried no waiver.
  abbrev pub IsMarked : Finding → Finding → Type 0
  IsMarked f g =
      (without_waiver g ≡ without_waiver f)
      × (((g.waiver ≡ none) × All (λ ex. ¬ IsAccepted f ex) exs)
          ⊎ ((ex : Exception) × IsOneOf ex exs
              × IsAccepted f ex
              × ((f.status ≡ fail) ⊎ (f.status ≡ manual))
              × (g.waiver ≡ some (waiver_of ex))))

  abbrev pub AreMarked : List Finding → List Finding → Type 0
  AreMarked [] [] = Unit
  AreMarked (f ∷ fs) (g ∷ gs) = IsMarked f g × AreMarked fs gs
  AreMarked _ _ = ⊥

  accept_first-IsMarked : (f : Finding) → f.waiver ≡ none → IsMarked f (accept_first now exs f)
  unfolding waive
  accept_first-IsMarked f h = elim (Option-cases (first_accepting now exs f)) [
    | inl n ↦ (
      without_waiver-accept_with (first_accepting now exs f) f,
      inl (rw n h, first_accepting-none exs f n),
    )
    | inr (ex, e) ↦
        let (m, a) = first_accepting-IsAccepted exs f ex e in
        (
          without_waiver-accept_with (first_accepting now exs f) f,
          inr (ex, m, a, accepts-status f ex a.1, rw (e, h) refl),
        )
  ]

  map-AreMarked :
      (fs : List Finding)
      → All (λ f. f.waiver ≡ none) fs
      → AreMarked fs (map (accept_first now exs) fs)
  map-AreMarked [] h = tt
  map-AreMarked (f ∷ fs) h = (accept_first-IsMarked f h.0, map-AreMarked fs h.1)

  -- Condition: no finding carries a waiver. The exceptions keep the findings, their order and all of each but its
  -- waiver. A finding is left without one, and no exception that has not lapsed accepts it; or it is a FAIL or a
  -- MANUAL, and its waiver is that of one of the exceptions, which has not lapsed and accepts it.
  pub apply_exceptions-AreMarked :
      (fs : List Finding)
      → All (λ f. f.waiver ≡ none) fs
      → AreMarked fs (apply_exceptions now exs fs).0
  apply_exceptions-AreMarked fs h =
      subst (AreMarked fs) (sym (apply_exceptions-eq-map now exs fs)) (map-AreMarked fs h)
