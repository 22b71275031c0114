-- ===== src/Examples/Scan.antt =====
-- A scan of a controller with one folder and one job: instances of the theorems on the fetch of the jobs.
use jenkins_bench.Prelude.{
  sort_by, ℕ, ◌≤◌, ◌≡◌, ◌≢◌, ◌==◌, refl, inl, inr, true, false, [], ◌∷◌, ◌++◌, All, any, count_if,
  if◌then◌else◌, arith,
}
use jenkins_bench.Prelude.Text.{Text, codes, text_eq, has_rune, trim_space, to_upper, upper_rune}
use jenkins_bench.Prelude.Result.{ok}
use jenkins_bench.Ci.{Snapshot}
use jenkins_bench.Config.{default}
use jenkins_bench.Engine.Evaluate.{
  evaluate_jobs, evaluate_job, audited, all_results, value, Opa, Report, evaluate, evaluate_checks,
  evaluate_one, resource_job, in_scope, finish_report, join_findings, controller_findings,
  merge_results, Findings, decode_result, get, read_status, decode_evidence, show_items,
  coverage_of,
}
use jenkins_bench.Checks.{scope_job}
use jenkins_bench.Cli.Exit.{exit_code, exit_error, scan_error}
use jenkins_bench.Cli.Exit.Laws.{HasLooked, exit_code_two}
use jenkins_bench.Cli.Exit.Complete.{exit_code_complete}
use jenkins_bench.Engine.Evaluate.Decode.{print_result}
use jenkins_bench.Jenkins.Walk.{list_all, child_of, Walked, is_container}
use jenkins_bench.Jenkins.Walk.Laws.{top, inside}
use jenkins_bench.Jenkins.Jobs.{
  Answer, found, missing, ConfigAnswer, unreadable, listed_job, enumerate, is_none, fetch_jobs,
}
use jenkins_bench.Jenkins.Jobs.Laws.{
  is_item, is_job, IsNamed, enumerate-scoped, fetch_jobs_complete,
}
use jenkins_bench.Jenkins.Urls.{cut_scheme, before, is_slash, strip_rest, strip_by_hand}
use jenkins_bench.Jenkins.Urls.Laws.{strip_by_hand_lem}
use jenkins_bench.Examples.Folders.{
  two_levels, platform_folder, deploy_job, platform_folder-is_container,
}
use jenkins_bench.Examples.Evaluation.{
  snapshot, some_opa, both_checks, csrf_result, shown, described,
}

abbrev remote : Text
remote = codes "ssh://git@host/team/repo.git?ref=main"

no_at : has_rune b'@' (cut_scheme remote).0 ≡ false
unfolding cut_scheme
no_at = refl

no_question : has_rune b'?' (cut_scheme remote).0 ≡ false
unfolding cut_scheme
no_question = refl

no_hash : has_rune b'#' (cut_scheme remote).0 ≡ false
unfolding cut_scheme
no_hash = refl

strip_by_hand_lem_example :
    (has_rune b'?' (strip_by_hand remote) ≡ false)
    × (has_rune b'#' (strip_by_hand remote) ≡ false)
    × ((rest : Text) × (strip_by_hand remote ≡ (cut_scheme remote).0 ++ rest)
        × (has_rune b'@' ((cut_scheme remote).0 ++ before is_slash rest) ≡ false))
strip_by_hand_lem_example = strip_by_hand_lem remote no_at no_question no_hash

abbrev shows : Text → Answer
shows name = if text_eq name (codes "platform/deploy") then found deploy_job else missing

abbrev unread_config : Text → ConfigAnswer
unread_config name = unreadable

abbrev same_url : Text → Text
same_url s = s

abbrev only_deploy : Walked
only_deploy = record { listed = []; unlisted = []; jobs = deploy_job ∷ [] }

scoped_walk :
    enumerate two_levels shows [] (codes " platform/deploy/" ∷ codes "platform/deploy" ∷ [])
    ≡ ok only_deploy
unfolding enumerate trim_space is_container
scoped_walk = refl

enumerate-scoped_example :
    ((name : Text) → count_if (is_item name) only_deploy.jobs ≤ 1)
    × All
        (IsNamed two_levels shows (λ name. count_if (is_item name) only_deploy.jobs == 1))
        (codes " platform/deploy/" ∷ codes "platform/deploy" ∷ [])
enumerate-scoped_example =
    enumerate-scoped two_levels shows [] (codes " platform/deploy/" ∷ codes "platform/deploy" ∷ [])
      only_deploy scoped_walk refl

abbrev fetched : Snapshot
fetched = record snapshot { jobs = listed_job same_url deploy_job ∷ [] }

fetches_all :
    fetch_jobs two_levels shows same_url unread_config [] [] snapshot.controller ≡ ok fetched
unfolding fetch_jobs list_all child_of is_container sort_by
fetches_all = refl

abbrev deciding_opa : Opa
deciding_opa = record some_opa { eval_job = λ j c. value (print_result csrf_result) }

abbrev job_results : Findings
job_results =
    evaluate_checks
      (λ c.
        evaluate_one shown described c (codes "platform/deploy") resource_job
          (value (print_result csrf_result)))
      (in_scope scope_job both_checks)

abbrev scan_report : Report
scan_report = finish_report deciding_opa default both_checks 0 fetched (
    join_findings (controller_findings deciding_opa default both_checks 0)
      (merge_results (job_results ∷ [])))

evaluates_all : evaluate deciding_opa default both_checks 0 fetched ≡ ok scan_report
unfolding evaluate evaluate_jobs all_results audited evaluate_job listed_job
evaluates_all = refl

scan_report-HasLooked : HasLooked scan_report default.scan
unfolding finish_report controller_findings evaluate_checks evaluate_one decode_result get
    read_status decode_evidence show_items trim_space to_upper upper_rune merge_results coverage_of
    audited
scan_report-HasLooked =
    (refl, inl refl, inr (λ h. (let one : ◌≡◌ {A = ℕ} 1 0 = h in absurd (omega (arith, one)))))

scan_ends : exit_code (scan_error scan_report default.scan) ≢ exit_error
scan_ends h = (exit_code_two scan_report default.scan).0 h scan_report-HasLooked

deploy_job-is_container : is_container deploy_job ≡ false
unfolding is_container
deploy_job-is_container = refl

exit_code_complete_example : any (is_job (codes "platform/deploy")) fetched.jobs ≡ true
exit_code_complete_example =
    exit_code_complete two_levels shows same_url unread_config snapshot.controller fetched
      deciding_opa default both_checks 0 scan_report default.scan fetches_all evaluates_all refl
      scan_ends (codes "platform") (deploy_job ∷ []) deploy_job
      (inside [] (platform_folder ∷ []) platform_folder top refl (inl refl)
        platform_folder-is_container)
      refl (inl refl) deploy_job-is_container

fetch_jobs_complete_example :
    (w : Walked) × (enumerate two_levels shows [] [] ≡ ok w)
    × ((name : Text) → count_if (is_job name) fetched.jobs ≡ count_if (is_item name) w.jobs)
    × (fetched.controller.unlisted ≡ w.unlisted)
    × (fetched.controller.jobs_available ≡ is_none w.unlisted)
fetch_jobs_complete_example =
    fetch_jobs_complete two_levels shows same_url unread_config [] [] snapshot.controller fetched
      fetches_all

-- The first "://" of this remote stands in its query: all that is before it, the password included, is taken for
-- the scheme and kept.
password_kept :
    strip_by_hand (codes "deploy:secret@host:path?u=http://x")
    ≡ codes "deploy:secret@host:path?u=http://x"
unfolding strip_by_hand cut_scheme strip_rest
password_kept = refl

-- The userinfo of this remote, which net/url refuses, has a slash in it: the at sign stands behind that slash, and all
-- is kept.
slash_kept :
    strip_by_hand (codes "https://deploy:s/ecret@host/x") ≡ codes "https://deploy:s/ecret@host/x"
unfolding strip_by_hand cut_scheme strip_rest
slash_kept = refl
