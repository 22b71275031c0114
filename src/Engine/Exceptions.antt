-- ===== src/Engine/Exceptions.antt =====
-- internal/engine/engine.go: `applyExceptions`, which marks the findings that configured exceptions
-- accept, and `resourceMatches`.
pub mod Laws
pub mod Score
use jenkins_bench.Prelude.{
  ℕ, suc, ◌+◌, Bool, true, false, not, ◌&&◌, ◌||◌, Option, none, some, List, [], ◌∷◌, ◌++◌, any,
  leb, ◌==◌, if◌then◌else◌,
}
use jenkins_bench.Prelude.Text.{Text, equal_fold, trim_space}
use jenkins_bench.Prelude.Glob.{glob_match}
use jenkins_bench.Config.{Exception, expires_at}
use jenkins_bench.Engine.{Status, pass, fail, manual, na, Waiver, Finding}

-- resourceMatches
unfoldable pub resource_matches : List Text → Text → Bool
resource_matches patterns resource = any (λ p. glob_match p resource) patterns

pub data Warning : Type 0 where
  lapsed accepts_nothing : Exception → Warning

abbrev pub can_be_accepted : Status → Bool
can_be_accepted fail = true
can_be_accepted manual = true
can_be_accepted _ = false

-- The two tests by which the inner loop passes a finding over.
unfoldable pub accepts : Exception → Finding → Bool
accepts ex f =
    if not (equal_fold f.check_id (trim_space ex.control))
      || not (resource_matches ex.resources f.resource)
    then false
    else can_be_accepted f.status

abbrev pub waiver_of : Exception → Waiver
waiver_of ex = record { reason = ex.reason; owner = ex.owner; expires = ex.expires }

-- A waiver is written only where there is none.
unfoldable pub waive : Exception → Finding → Finding
waive ex f = elim f.waiver [ none ↦ record f { waiver = some (waiver_of ex) } | some w ↦ f ]

-- The inner loop: the findings it leaves, and how many it matched.
unfoldable pub apply_exception : Exception → List Finding → List Finding × ℕ
unfolding accepts waive
apply_exception ex [] = ([], 0)
apply_exception ex (f ∷ fs) =
    let (gs, matched) = apply_exception ex fs in
    if accepts ex f then (waive ex f ∷ gs, suc matched) else (f ∷ gs, matched)

-- !now.Before(ex.ExpiresAt())
unfoldable pub has_lapsed : ℕ → Exception → Bool
has_lapsed now ex = leb (expires_at ex) now

-- applyExceptions: the findings as it leaves them, and its warnings in order
unfoldable pub apply_exceptions : ℕ → List Exception → List Finding → List Finding × List Warning
unfolding apply_exception
apply_exceptions now [] fs = (fs, [])
apply_exceptions now (ex ∷ exs) fs =
    let (gs, matched) = apply_exception ex fs in
    let rest = apply_exceptions now exs (if has_lapsed now ex then fs else gs) in
    if has_lapsed now ex
    then (rest.0, lapsed ex ∷ rest.1)
    else if matched == 0
    then (rest.0, accepts_nothing ex ∷ rest.1)
    else rest
