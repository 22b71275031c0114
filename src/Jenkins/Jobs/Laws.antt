-- ===== src/Jenkins/Jobs/Laws.antt =====
-- Which jobs `enumerate` and `fetchJobs` of internal/ci/jenkins/fetcher.go put into a snapshot.
use jenkins_bench.Prelude.{
  ◌≤◌, Bool, true, false, ◌&&◌, ◌≡◌, refl, sym, ap, ◌∙◌, inl, inr, Option, List, [], ◌∷◌, ◌++◌,
  ◌==◌, All, any, any-append, count_if, count_if-sort_by, if◌then◌else◌, Bool-cases, Option-cases,
  sort_by, arith,
}
use mathlib.Core.Path.{subst}
use jenkins_bench.Prelude.Text.{Text, text_eq, text_eq_iff, text_eq_refl}
use jenkins_bench.Prelude.Result.{Result, ok, err, >>=-eq-ok}
use jenkins_bench.Ci.{Job, Controller, Snapshot, Script}
use jenkins_bench.Jenkins.JobConfig.{JobConfig, apply_config, job_document}
use jenkins_bench.Jenkins.Walk.{Item, Listing, Walked, is_container}
use jenkins_bench.Jenkins.Jobs.{
  Answer, FetchError, lookup, named, unique_items, is_none, nothing_walked, walk_folders, add_jobs,
  enumerate, names_a_folder, ConfigAnswer, cancelled, unreadable, unparsable, document,
  context_done, is_html, listed_job, read_document, fetch_job, fetch_each, earlier, fetch_jobs,
}

abbrev pub is_item : Text → Item → Bool
is_item name it = text_eq it.full_name name

abbrev pub is_job : Text → Job → Bool
is_job name job = text_eq job.full_name name

count-unique_items :
    (name : Text) (seen : List Text) (its : List Item)
    → count_if (is_item name) (unique_items seen its)
      ≡ (if any (λ k. text_eq k name) seen then 0 else if any (is_item name) its then 1 else 0)
unfolding unique_items
count-unique_items name seen [] = ground arith
count-unique_items name seen (it ∷ its) = ground (
  arith,
  count-unique_items name seen its,
  count-unique_items name (it.full_name ∷ seen) its,
  text_eq_iff it.full_name name,
)

-- The name of a fetched job, and that of its item where there is none.
abbrev name_of : Result FetchError Job → Item → Text
name_of (ok job) it = job.full_name
name_of (err e) it = it.full_name

module _ (list : Text → Listing) (item : Text → Answer) where
  -- A value of --job has named an item that the controller showed, and that is a job.
  abbrev pub IsNamed : (Text → Bool) → Text → Type 0
  IsNamed holds raw =
      (it : Item) × (lookup item (named raw) ≡ ok it)
      × (is_container it ≡ false)
      × (holds it.full_name ≡ true)

  add_jobs-keeps :
      (name : Text) (raws : List Text) (v w : Walked)
      → add_jobs list item raws v ≡ ok w
      → any (is_item name) v.jobs ≡ true
      → any (is_item name) w.jobs ≡ true
  unfolding add_jobs
  add_jobs-keeps name [] v w e h =
      (let same : v ≡ w = cc in subst (λ x. any (is_item name) x.jobs ≡ true) same h)
  add_jobs-keeps name (raw ∷ raws) v w e h =
      let (it, found_it, e2) = >>=-eq-ok (lookup item (named raw)) _ e in
      elim (Bool-cases (is_container it)) [
        | inl k ↦
            (let never : ◌≡◌ {A = Result FetchError Walked} (err (names_a_folder (named raw)))
                  (ok w) =
                rw k at e2 in
              cc)
        | inr k ↦
            add_jobs-keeps name raws (record v { jobs = v.jobs ++ it ∷ [] }) w (rw k at e2)
              (ground (arith, any-append (is_item name) v.jobs (it ∷ []), h))
      ]

  add_jobs-IsNamed :
      (raws : List Text) (v w : Walked)
      → add_jobs list item raws v ≡ ok w
      → All (IsNamed (λ name. any (is_item name) w.jobs)) raws
  unfolding add_jobs
  add_jobs-IsNamed [] v w e = tt
  add_jobs-IsNamed (raw ∷ raws) v w e =
      let (it, found_it, e2) = >>=-eq-ok (lookup item (named raw)) _ e in
      elim (Bool-cases (is_container it)) [
        | inl k ↦
            (let never : ◌≡◌ {A = Result FetchError Walked} (err (names_a_folder (named raw)))
                  (ok w) =
                rw k at e2 in
              cc)
        | inr k ↦
            let next : Walked = record v { jobs = v.jobs ++ it ∷ [] } in
            let rest : add_jobs list item raws next ≡ ok w = rw k at e2 in
            (
              (
                it,
                found_it,
                k,
                add_jobs-keeps it.full_name raws next w rest (
                    ground (
                      arith,
                      any-append (is_item it.full_name) v.jobs (it ∷ []),
                      text_eq_refl it.full_name,
                    )),
              ),
              add_jobs-IsNamed raws next w rest,
            )
      ]

  All-IsNamed :
      (p q : Text → Bool)
      → ((name : Text) → p name ≡ true → q name ≡ true)
      → (raws : List Text) → All (IsNamed p) raws
      → All (IsNamed q) raws
  All-IsNamed p q f [] h = tt
  All-IsNamed p q f (raw ∷ raws) ((it, a, b, c), h) =
      ((it, a, b, f it.full_name c), All-IsNamed p q f raws h)

  -- Conditions: --folder or --job is given, and the jobs in scope are found. No name then stands twice among them, and
  -- every value of --job has named an item that the controller showed, which is a job and is among them.
  pub enumerate-scoped :
      (folders jobs : List Text) (w : Walked)
      → enumerate list item folders jobs ≡ ok w
      → (is_none folders && is_none jobs) ≡ false
      → ((name : Text) → count_if (is_item name) w.jobs ≤ 1)
        × All (IsNamed (λ name. count_if (is_item name) w.jobs == 1)) jobs
  unfolding enumerate
  enumerate-scoped folders jobs w e scoped =
      let (v, walked, e2) =
        >>=-eq-ok (walk_folders list item folders nothing_walked) _ (rw scoped at e) in
      let (u, added, e3) = >>=-eq-ok (add_jobs list item jobs v) _ e2 in
      let same : record u { jobs = unique_items [] u.jobs } ≡ w = cc in
      subst
        (λ x.
          ((name : Text) → count_if (is_item name) x.jobs ≤ 1)
          × All (IsNamed (λ name. count_if (is_item name) x.jobs == 1)) jobs)
        same
        (
          λ name. ground (arith, count-unique_items name [] u.jobs),
          All-IsNamed _ _ (λ name h. ground (arith, count-unique_items name [] u.jobs, h)) jobs
              (add_jobs-IsNamed jobs v u added),
        )

full_name-read_document :
    (strip : Text → Text) (controller : Controller) (job : Job) (cfg : JobConfig) (space : Text)
    (scripts : Option (List Script))
    → (read_document strip controller job cfg space scripts).full_name ≡ job.full_name
unfolding read_document apply_config
full_name-read_document strip controller job cfg space scripts =
    elim (Bool-cases (is_html cfg space)) [
      | inl h ↦ rw h refl
      | inr h ↦ (elim (Option-cases (job_document cfg.root)) [
        | inl d ↦ rw (h, d) refl
        | inr (doc, d) ↦ (elim (Option-cases scripts) [
          | inl s ↦ rw (h, d, s) refl
          | inr (found_scripts, s) ↦ rw (h, d, s) refl
        ])
      ])
    ]

module _ (strip : Text → Text) (config : Text → ConfigAnswer) (controller : Controller) where
  answered :
      (it : Item) (job : Job) (answer : ConfigAnswer)
      → config it.full_name ≡ answer
      → fetch_job strip config controller it ≡ ok job
      → job.full_name ≡ it.full_name
  unfolding fetch_job listed_job
  answered it job cancelled a e =
      (let never : ◌≡◌ {A = Result FetchError Job} (err context_done) (ok job) =
          rw (a, fetch_job) at e in
        cc)
  answered it job unreadable a e = ap (λ r. name_of r it) (sym (rw (a, fetch_job) at e))
  answered it job unparsable a e = ap (λ r. name_of r it) (sym (rw (a, fetch_job) at e))
  answered it job (document cfg space scripts) a e =
      ap (λ r. name_of r it) (sym (rw (a, fetch_job) at e))
      ∙ full_name-read_document strip controller (listed_job strip it) cfg space scripts

  count-fetch_each :
      (name : Text) (its : List Item) (jobs : List Job)
      → fetch_each strip config controller its ≡ ok jobs
      → count_if (is_job name) jobs ≡ count_if (is_item name) its
  unfolding fetch_each
  count-fetch_each name [] jobs e = (let same : [] ≡ jobs = cc in rw (← same) refl)
  count-fetch_each name (it ∷ its) jobs e =
      let (job, done, e2) = >>=-eq-ok (fetch_job strip config controller it) _ e in
      let (rest, all, e3) = >>=-eq-ok (fetch_each strip config controller its) _ e2 in
      let same : job ∷ rest ≡ jobs = cc in
      let called = answered it job (config it.full_name) refl done in
      rw (← same) (ground (arith, called, count-fetch_each name its rest all))

-- Condition: the jobs are fetched. They are those in scope, each once for every time that it was found there,
-- whether its configuration could be read or not; and the snapshot says that the list is complete exactly if
-- no container was given up.
pub fetch_jobs_complete :
    (list : Text → Listing) (item : Text → Answer) (strip : Text → Text)
    (config : Text → ConfigAnswer) (folders jobs : List Text) (controller : Controller)
    (snapshot : Snapshot)
    → fetch_jobs list item strip config folders jobs controller ≡ ok snapshot
    → (w : Walked) × (enumerate list item folders jobs ≡ ok w)
      × ((name : Text) → count_if (is_job name) snapshot.jobs ≡ count_if (is_item name) w.jobs)
      × (snapshot.controller.unlisted ≡ w.unlisted)
      × (snapshot.controller.jobs_available ≡ is_none w.unlisted)
unfolding fetch_jobs
fetch_jobs_complete list item strip config folders jobs controller snapshot e =
    let (w, scope, e2) = >>=-eq-ok (enumerate list item folders jobs) _ e in
    let walked : Controller = record controller {
      unlisted = w.unlisted;
      jobs_available = is_none w.unlisted;
    } in
    let (fetched, all, e3) = >>=-eq-ok (fetch_each strip config walked w.jobs) _ e2 in
    let same : record { controller = walked; jobs = sort_by earlier fetched } ≡ snapshot = cc in
    (
      w,
      scope,
      λ name.
          ap (λ r. count_if (is_job name) r.jobs) (sym same)
          ∙ count_if-sort_by earlier (is_job name) fetched
          ∙ count-fetch_each strip config walked name w.jobs fetched all,
      ap (λ r. r.controller.unlisted) (sym same),
      ap (λ r. r.controller.jobs_available) (sym same),
    )
