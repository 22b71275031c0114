-- ===== src/Checks/Severity.antt =====
-- Severity weights of internal/checks/registry.go.
use jenkins_bench.Prelude.{◌≤◌, arith}
use jenkins_bench.Prelude.Text.{Text}
use jenkins_bench.Checks.{weight}

-- Every severity has a weight from 1 to 3, one that is no known level included.
pub weight_bounds : (s : Text) → (1 ≤ weight s) × (weight s ≤ 3)
unfolding weight
weight_bounds s = ground arith
