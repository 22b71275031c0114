-- ===== src/Engine.antt =====
-- internal/engine: findings, and what the report carries beside them.
pub mod Score
pub mod Selection
pub mod Exceptions
pub mod Evaluate
pub mod Order
use jenkins_bench.Prelude.{ℕ, ◌&&◌, Bool, List, Option, []}
use jenkins_bench.Prelude.{ltb, leb, ◌==◌, if◌then◌else◌}
use jenkins_bench.Prelude.Text.{Text, text_eq, text_lt}
use jenkins_bench.Checks.{weight, less_cisid}

pub data Status : Type 0 where
  pass fail manual na : Status

pub record Waiver : Type 0 where
  pub reason : Text
  pub owner : Text
  pub expires : Text

pub record Finding : Type 0 where
  pub check_id : Text
  pub cis_id : Text
  pub title : Text
  pub severity : Text
  pub status : Status
  pub resource : Text
  pub resource_type : Text
  pub description : Text
  pub details : Text
  pub evidence : List Text
  pub remediation : Text
  pub fix_summary : Text
  pub references : List Text
  pub automated : Bool
  pub waiver : Option Waiver

-- statusRank
unfoldable pub status_rank : Status → ℕ
status_rank fail = 0
status_rank manual = 1
status_rank pass = 2
status_rank na = 3

-- The `less` function of `sortFindings`.
unfoldable pub less_finding : Finding → Finding → Bool
unfolding status_rank
less_finding a b =
    if status_rank a.status == status_rank b.status
    then (if weight a.severity == weight b.severity
        then (if text_eq a.cis_id b.cis_id
            then text_lt a.resource b.resource
            else less_cisid a.cis_id b.cis_id)
        else ltb (weight b.severity) (weight a.severity))
    else ltb (status_rank a.status) (status_rank b.status)
