-- ===== src/Examples/Scores.antt =====
-- Scores and exceptions of a few findings: tests, and instances of the theorems.

use jenkins_bench.Prelude.{◌*◌, ◌≤◌, ◌<◌, ◌≡◌, refl, [], ◌∷◌, map, length, arith}
use jenkins_bench.Prelude.Text.{to_upper}
use jenkins_bench.Checks.{weight}
use jenkins_bench.Engine.Score.{
  compute, counts_of, count_status, score_status, score_finding, score_loop, with_value,
}
use jenkins_bench.Engine.Score.Laws.{compute_bounds}
use jenkins_bench.Engine.Exceptions.{apply_exceptions}
use jenkins_bench.Engine.Exceptions.Laws.{
  accept_first, warnings_of, apply_exceptions-eq-map, apply_exceptions-warnings,
}
use jenkins_bench.Engine.Exceptions.Score.{
  compute-apply_exceptions, AreMarked, apply_exceptions-AreMarked,
}
use jenkins_bench.Examples.{deploy_fails, some_findings, deploy_exception}

some_findings-value : (compute some_findings).value ≡ 75
unfolding compute score_loop score_finding weight count_status score_status counts_of with_value
    to_upper
some_findings-value = refl

compute_bounds_example :
    ((compute some_findings).value ≤ 100)
    × ((compute some_findings).earned_weight ≤ (compute some_findings).total_weight)
    × ((compute some_findings).total_weight ≤ 3 * length some_findings)
    × ((compute some_findings).earned_weight * 100 ≤ 300 * length some_findings)
compute_bounds_example = compute_bounds some_findings

some_findings-weight : 0 < (compute some_findings).total_weight
unfolding compute score_loop score_finding weight count_status score_status counts_of with_value
    to_upper
some_findings-weight = omega arith

apply_exceptions-eq-map_example :
    (apply_exceptions 0 (deploy_exception ∷ []) some_findings).0
    ≡ map (accept_first 0 (deploy_exception ∷ [])) some_findings
apply_exceptions-eq-map_example = apply_exceptions-eq-map 0 (deploy_exception ∷ []) some_findings

apply_exceptions-warnings_example :
    (apply_exceptions 0 (deploy_exception ∷ []) some_findings).1
    ≡ warnings_of 0 some_findings (deploy_exception ∷ [])
apply_exceptions-warnings_example =
    apply_exceptions-warnings 0 (deploy_exception ∷ []) some_findings

compute-apply_exceptions_example :
    compute (apply_exceptions 0 (deploy_exception ∷ []) some_findings).0 ≡ compute some_findings
compute-apply_exceptions_example = compute-apply_exceptions 0 (deploy_exception ∷ []) some_findings

apply_exceptions-AreMarked_example :
    AreMarked 0
      (deploy_exception ∷ [])
      (deploy_fails ∷ [])
      (apply_exceptions 0 (deploy_exception ∷ []) (deploy_fails ∷ [])).0
apply_exceptions-AreMarked_example =
    apply_exceptions-AreMarked 0 (deploy_exception ∷ []) (deploy_fails ∷ []) (refl, tt)
