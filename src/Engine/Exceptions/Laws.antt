-- ===== src/Engine/Exceptions/Laws.antt =====
-- What the configured exceptions do to a report: `applyExceptions` of internal/engine/engine.go.
use mathlib.Core.Path.{ap₂}
use jenkins_bench.Prelude.{
  ℕ, ◌≡◌, refl, ap, ◌∙◌, true, false, not, Option, none, some, List, [], ◌∷◌, map, any, inl, inr,
  ◌==◌, arith, Bool-cases, if◌then◌else◌,
}
use jenkins_bench.Config.{Exception}
use jenkins_bench.Engine.{Finding}
use jenkins_bench.Engine.Exceptions.{
  Warning, lapsed, accepts_nothing, accepts, waive, apply_exception, has_lapsed, apply_exceptions,
}

-- The first exception in the file that has not lapsed and that accepts the finding.
abbrev pub first_accepting : ℕ → List Exception → Finding → Option Exception
first_accepting now [] f = none
first_accepting now (ex ∷ exs) f =
    let later = first_accepting now exs f in
    if has_lapsed now ex then later else if accepts ex f then some ex else later

abbrev pub accept_with : Option Exception → Finding → Finding
accept_with none f = f
accept_with (some ex) f = waive ex f

abbrev pub warnings_of : ℕ → List Finding → List Exception → List Warning
warnings_of now fs [] = []
warnings_of now fs (ex ∷ exs) =
    let later = warnings_of now fs exs in
    if has_lapsed now ex
    then lapsed ex ∷ later
    else if any (accepts ex) fs
    then later
    else accepts_nothing ex ∷ later

-- One round of the inner loop, on one finding.
abbrev accept_one : Exception → Finding → Finding
accept_one ex f = if accepts ex f then waive ex f else f

apply_exception-map :
    (ex : Exception) (fs : List Finding) → (apply_exception ex fs).0 ≡ map (accept_one ex) fs
unfolding apply_exception
apply_exception-map ex [] = refl
apply_exception-map ex (f ∷ fs) = ground (arith, apply_exception-map ex fs)

apply_exception-matched :
    (ex : Exception) (fs : List Finding)
    → ((apply_exception ex fs).1 == 0) ≡ not (any (accepts ex) fs)
unfolding apply_exception
apply_exception-matched ex [] = refl
apply_exception-matched ex (f ∷ fs) = ground (arith, apply_exception-matched ex fs)

-- A waiver does not decide whether an exception accepts a finding.
accepts-waive : (ex e : Exception) (f : Finding) → accepts ex (waive e f) ≡ accepts ex f
unfolding accepts waive
accepts-waive ex e f = ground arith

accepts-accept_one : (ex e : Exception) (f : Finding) → accepts ex (accept_one e f) ≡ accepts ex f
accepts-accept_one ex e f = ground (arith, accepts-waive ex e f)

any-accept_one :
    (ex e : Exception) (fs : List Finding)
    → any (accepts ex) (map (accept_one e) fs) ≡ any (accepts ex) fs
any-accept_one ex e [] = refl
any-accept_one ex e (f ∷ fs) = ground (arith, accepts-accept_one ex e f, any-accept_one ex e fs)

first_accepting-accept_one :
    (now : ℕ) (exs : List Exception) (e : Exception) (f : Finding)
    → first_accepting now exs (accept_one e f) ≡ first_accepting now exs f
first_accepting-accept_one now [] e f = refl
first_accepting-accept_one now (ex ∷ exs) e f =
    ground (arith, accepts-accept_one ex e f, first_accepting-accept_one now exs e f)

waive-waive : (ex e : Exception) (f : Finding) → waive ex (waive e f) ≡ waive e f
unfolding waive
waive-waive ex e f = ground arith

abbrev pub accept_first : ℕ → List Exception → Finding → Finding
accept_first now exs f = accept_with (first_accepting now exs f) f

accept_with-waive :
    (o : Option Exception) (ex : Exception) (f : Finding) → accept_with o (waive ex f) ≡ waive ex f
accept_with-waive none ex f = refl
accept_with-waive (some e) ex f = waive-waive e ex f

accept_first-accept_one :
    (now : ℕ) (ex : Exception) (exs : List Exception) (f : Finding)
    → has_lapsed now ex ≡ false
    → accept_first now exs (accept_one ex f) ≡ accept_first now (ex ∷ exs) f
accept_first-accept_one now ex exs f h =
    rw (first_accepting-accept_one, h)
      (elim (Bool-cases (accepts ex f)) [
        | inl e ↦ rw e (accept_with-waive (first_accepting now exs f) ex f)
        | inr e ↦ rw e
      ])

map-accept_first :
    (now : ℕ) (ex : Exception) (exs : List Exception) (fs : List Finding)
    → has_lapsed now ex ≡ false
    → map (accept_first now exs) (map (accept_one ex) fs) ≡ map (accept_first now (ex ∷ exs)) fs
map-accept_first now ex exs [] h = refl
map-accept_first now ex exs (f ∷ fs) h =
    ap₂ ◌∷◌ (accept_first-accept_one now ex exs f h) (map-accept_first now ex exs fs h)

map_lapsed :
    (now : ℕ) (ex : Exception) (exs : List Exception) (fs : List Finding)
    → has_lapsed now ex ≡ true
    → map (accept_first now exs) fs ≡ map (accept_first now (ex ∷ exs)) fs
map_lapsed now ex exs [] h = refl
map_lapsed now ex exs (f ∷ fs) h = ap₂ ◌∷◌ (rw h) (map_lapsed now ex exs fs h)

warnings_of-accept_one :
    (now : ℕ) (e : Exception) (fs : List Finding) (exs : List Exception)
    → warnings_of now (map (accept_one e) fs) exs ≡ warnings_of now fs exs
warnings_of-accept_one now e fs [] = refl
warnings_of-accept_one now e fs (ex ∷ exs) =
    ground (arith, any-accept_one ex e fs, warnings_of-accept_one now e fs exs)

map_self : (fs : List Finding) → fs ≡ map (λ f. f) fs
map_self [] = refl
map_self (f ∷ fs) = ap (◌∷◌ f) (map_self fs)

-- The exceptions, applied one after the other, leave each finding as the first exception that has
-- not lapsed and accepts it would, if it carried no waiver, and leave its place in the list.
pub apply_exceptions-eq-map :
    (now : ℕ) (exs : List Exception) (fs : List Finding)
    → (apply_exceptions now exs fs).0 ≡ map (accept_first now exs) fs
unfolding apply_exceptions
apply_exceptions-eq-map now [] fs = map_self fs
apply_exceptions-eq-map now (ex ∷ exs) fs = elim (Bool-cases (has_lapsed now ex)) [
  | inl e ↦ rw e (apply_exceptions-eq-map now exs fs ∙ map_lapsed now ex exs fs e)
  | inr e ↦
      let gs = (apply_exception ex fs).0 in
      let rest =
        apply_exceptions-eq-map now exs gs
        ∙ ap (map (accept_first now exs)) (apply_exception-map ex fs)
        ∙ map-accept_first now ex exs fs e in
      rw e (elim (Bool-cases ((apply_exception ex fs).1 == 0)) [
        | inl z ↦ rw z rest
        | inr z ↦ rw z rest
      ])
]

-- There is one warning for each exception that has lapsed or that accepts no finding, in the order
-- of the file, and no other.
pub apply_exceptions-warnings :
    (now : ℕ) (exs : List Exception) (fs : List Finding)
    → (apply_exceptions now exs fs).1 ≡ warnings_of now fs exs
unfolding apply_exceptions
apply_exceptions-warnings now [] fs = refl
apply_exceptions-warnings now (ex ∷ exs) fs =
    let gs = (apply_exception ex fs).0 in
    let same =
      ap (λ l. warnings_of now l exs) (apply_exception-map ex fs)
      ∙ warnings_of-accept_one now ex fs exs in
    ground (
      arith,
      apply_exceptions-warnings now exs fs,
      apply_exceptions-warnings now exs gs,
      same,
      apply_exception-matched ex fs,
    )
