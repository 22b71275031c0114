-- ===== src/Engine/Score.antt =====
-- internal/engine/score.go: the score of a report. Its numbers are Go ints that stay far below
-- 2 ^ 63 (Bounds), so they are plain numbers here.
pub mod Totals
pub mod Laws
pub mod BySeverity
use jenkins_bench.Prelude.{
  ℕ, ◌+◌, ◌*◌, ◌/◌, Bool, true, false, ◌&&◌, Option, none, some, List, [], ◌∷◌, leb, ◌==◌, length,
  if◌then◌else◌,
}
use jenkins_bench.Prelude.Text.{Text, to_upper}
use jenkins_bench.Prelude.Assoc.{Assoc, lookup, insert}
use jenkins_bench.Checks.{weight}
use jenkins_bench.Engine.{Status, pass, fail, manual, na, Finding}

pub record SeverityCount : Type 0 where
  pub passed : ℕ
  pub failed : ℕ
  pub manual : ℕ

pub record Score : Type 0 where
  pub value : ℕ
  pub earned_weight : ℕ
  pub total_weight : ℕ
  pub passed : ℕ
  pub failed : ℕ
  pub manual : ℕ
  pub not_applicable : ℕ
  pub total : ℕ
  pub by_severity : Assoc SeverityCount

-- A missing key of the map reads as the zero value.
unfoldable pub counts_of : Text → Assoc SeverityCount → SeverityCount
counts_of k m = elim (lookup k m) [
  | none ↦ record { passed = 0; failed = 0; manual = 0 }
  | some c ↦ c
]

-- The switch of the loop, on the counts of the finding's severity.
unfoldable pub count_status : Status → SeverityCount → SeverityCount
count_status pass c = record c { passed = c.passed + 1 }
count_status fail c = record c { failed = c.failed + 1 }
count_status manual c = record c { manual = c.manual + 1 }
count_status na c = c

-- The switch of the loop, on the score; `w` is the weight of the finding's severity.
unfoldable pub score_status : Status → ℕ → Score → Score
score_status pass w s = record s {
  passed = s.passed + 1;
  earned_weight = s.earned_weight + w;
  total_weight = s.total_weight + w;
}
score_status fail w s = record s { failed = s.failed + 1; total_weight = s.total_weight + w }
score_status manual w s = record s { manual = s.manual + 1 }
score_status na w s = record s { not_applicable = s.not_applicable + 1 }

-- One round of the loop of `Compute`.
unfoldable pub score_finding : Finding → Score → Score
unfolding count_status score_status
score_finding f s =
    let severity = to_upper f.severity in
    let counts = count_status f.status (counts_of severity s.by_severity) in
    let s' = score_status f.status (weight severity) s in
    record s' { by_severity = insert severity counts s'.by_severity }

unfoldable pub score_loop : List Finding → Score → Score
score_loop [] s = s
score_loop (f ∷ fs) s = score_loop fs (score_finding f s)

abbrev pub zero_score : ℕ → Score
zero_score n = record {
  value = 0;
  earned_weight = 0;
  total_weight = 0;
  passed = 0;
  failed = 0;
  manual = 0;
  not_applicable = 0;
  total = n;
  by_severity = [];
}

-- What follows the loop: an empty denominator scores 0, any other the floored percentage.
unfoldable pub with_value : Score → Score
with_value s =
    if s.total_weight == 0
    then record s { value = 0 }
    else record s { value = s.earned_weight * 100 / s.total_weight }

-- Compute
unfoldable pub compute : List Finding → Score
unfolding score_loop with_value
compute findings = with_value (score_loop findings (zero_score (length findings)))

-- Report.HasFailureAtOrAbove, over the report's findings
unfoldable pub has_failure_at_or_above : List Finding → Text → Bool
has_failure_at_or_above [] severity = false
has_failure_at_or_above (f ∷ fs) severity =
    let rest = has_failure_at_or_above fs severity in
    elim f.status [
      | fail ↦ elim f.waiver [
        | none ↦ if leb (weight severity) (weight f.severity) then true else rest
        | some w ↦ rest
      ]
      | _ ↦ rest
    ]
