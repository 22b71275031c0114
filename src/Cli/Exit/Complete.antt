-- ===== src/Cli/Exit/Complete.antt =====
-- A scan from end to end: the fetch of the jobs (internal/ci/jenkins/fetcher.go), the evaluation
-- (internal/engine/engine.go) and the exit code (internal/cli/scan.go and exit.go).
use jenkins_bench.Prelude.{
  ℕ, ◌≡◌, ◌≢◌, ◌⊎◌, refl, sym, ap, ◌∙◌, inl, inr, true, false, List, [], ◌∷◌, any, count_if, arith,
}
use mathlib.Core.Path.{subst}
use jenkins_bench.Prelude.Text.{Text, text_eq_refl}
use jenkins_bench.Prelude.Result.{Result, ok, err}
use jenkins_bench.Checks.{Check}
use jenkins_bench.Config.{Config, Scan}
use jenkins_bench.Ci.{Job, Controller, Snapshot}
use jenkins_bench.Engine.Evaluate.{Opa, Report, evaluate}
use jenkins_bench.Engine.Evaluate.Laws.{evaluate-coverage}
use jenkins_bench.Cli.Exit.{exit_code, exit_error, scan_error}
use jenkins_bench.Cli.Exit.Laws.{exit_code-HasLooked}
use jenkins_bench.Jenkins.Walk.{Item, Listing, items, Walked, WalkError, is_container, list_all}
use jenkins_bench.Jenkins.Walk.Laws.{Among, Reachable, items-inj, All-Among, list_all-IsDone}
use jenkins_bench.Jenkins.Jobs.{Answer, ConfigAnswer, enumerate, is_none, walked_or, fetch_jobs}
use jenkins_bench.Jenkins.Jobs.Laws.{is_item, is_job, fetch_jobs_complete}

nothing_unlisted : (names : List Text) → is_none names ≡ true → names ≡ []
nothing_unlisted [] e = refl
nothing_unlisted (n ∷ names) e = cc

-- A scan of everything walks from the top level.
enumerate_all :
    (list : Text → Listing) (item : Text → Answer) (w : Walked)
    → enumerate list item [] [] ≡ ok w
    → list_all list ≡ ok w
unfolding enumerate
enumerate_all list item w e = walked (list_all list) e
  where
    walked : (r : Result WalkError Walked) → walked_or r ≡ ok w → r ≡ ok w
    walked (ok v) h = (let same : v ≡ w = cc in ap ok same)
    walked (err x) h = cc

any-Among : (it : Item) (its : List Item) → Among it its → any (is_item it.full_name) its ≡ true
any-Among it [] m = elim m [ ]
any-Among it (x ∷ its) (inl e) = rw (← e) (ground (arith, text_eq_refl it.full_name))
any-Among it (x ∷ its) (inr m) = ground (arith, any-Among it its m)

any-count :
    (name : Text) (its : List Item) (jobs : List Job)
    → count_if (is_job name) jobs ≡ count_if (is_item name) its
    → any (is_item name) its ≡ true
    → any (is_job name) jobs ≡ true
any-count name its jobs same h = ground (arith, some_job name jobs, some_item name its)
  where
    some_job :
        (n : Text) (js : List Job) → (any (is_job n) js ≡ true) ⊎ (count_if (is_job n) js ≡ 0)
    some_job n [] = inr refl
    some_job n (j ∷ js) = ground (arith, some_job n js)

    some_item :
        (n : Text) (xs : List Item) → any (is_item n) xs ≡ true → count_if (is_item n) xs ≢ 0
    some_item n [] e = cc
    some_item n (x ∷ xs) e = ground (arith, some_item n xs)

-- Conditions: a scan of the whole controller fetches its jobs and evaluates them, does not accept an incomplete
-- job list, and ends with another exit code than 2. Every job that a container reachable from the top level lists
-- is then in the snapshot that was evaluated: exit code 0 or 1 never speaks of a part of the controller only.
pub exit_code_complete :
    (list : Text → Listing) (item : Text → Answer) (strip : Text → Text)
    (config : Text → ConfigAnswer) (controller : Controller) (snapshot : Snapshot) (opa : Opa)
    (cfg : Config) (selected : List Check) (now : ℕ) (rep : Report) (scan : Scan)
    → fetch_jobs list item strip config [] [] controller ≡ ok snapshot
    → evaluate opa cfg selected now snapshot ≡ ok rep
    → scan.allow_incomplete ≡ false
    → exit_code (scan_error rep scan) ≢ exit_error
    → (c : Text) (its : List Item) (it : Item) → Reachable list c
    → list c ≡ items its
    → Among it its
    → is_container it ≡ false
    → any (is_job it.full_name) snapshot.jobs ≡ true
exit_code_complete list item strip config controller snapshot opa cfg selected now rep scan fetched
      evaluated strict ended c its it reach listed among plain =
    let (w, scope, counts, unlisted, available) =
      fetch_jobs_complete list item strip config [] [] controller snapshot fetched in
    let covered = evaluate-coverage opa cfg selected now snapshot evaluated in
    let looked = exit_code-HasLooked rep scan ended in
    let complete : is_none w.unlisted ≡ true =
      ground (arith, looked.1, strict, covered.1, available) in
    let (seen, same, inside, taken) =
      list_all-IsDone list w (enumerate_all list item w scope)
        (nothing_unlisted w.unlisted complete) c reach in
    let here : Among it seen = subst (Among it) (items-inj (sym listed ∙ same)) among in
    any-count it.full_name w.jobs snapshot.jobs (counts it.full_name)
      (any-Among it w.jobs (rw plain at (All-Among list w it seen taken here)))
