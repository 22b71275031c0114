-- ===== src/Jenkins/Jobs.antt =====
-- internal/ci/jenkins/fetcher.go: `enumerate`, `lookup`, `fetchJob` and `fetchJobs`. The controller's answers
-- are parameters. A job is fetched into its own place of the result, and the one error that a fetch can
-- have is the end of the context, so that the order of the fetches does not show and is left out.
pub mod Laws
use jenkins_bench.Prelude.{
  ℕ, suc, ◌+◌, ◌-◌, Bool, true, false, not, ◌&&◌, ◌||◌, Option, none, some, List, [], ◌∷◌, ◌++◌,
  any, count_if, ◌==◌, sort_by, if◌then◌else◌,
}
use jenkins_bench.Prelude.Text.{
  Text, codes, text_eq, text_lt, is_empty, equal_fold, split, join, trim_space, trim_both,
}
use jenkins_bench.Prelude.Result.{Result, ok, err, ◌>>=◌}
use jenkins_bench.Ci.{Job, Controller, Snapshot, Script, Definition, source_unknown}
use jenkins_bench.Jenkins.Walk.{
  Item, Listing, Walked, WalkError, is_container, list_jobs, list_all, max_folder_depth,
}
use jenkins_bench.Jenkins.JobConfig.{
  JobConfig, job_document, built_in_node_labels, apply_config, kind_of, defined_by,
}

abbrev path_segments : (Text → Text) → List Text → Text
path_segments escape [] = []
path_segments escape (seg ∷ segs) = codes "/job/" ++ escape seg ++ path_segments escape segs

-- jobPath; `escape` is url.PathEscape
unfoldable pub job_path : (Text → Text) → Text → Text
job_path escape full_name = path_segments escape (split b'/' full_name)

-- How a request for one item ends.
pub data Answer : Type 0 where
  found : Item → Answer
  cancelled missing unreadable : Answer

pub data FetchError : Type 0 where
  context_done : FetchError
  names_nothing no_such_item not_read names_a_job names_a_folder : Text → FetchError

-- lookup
unfoldable pub lookup : (Text → Answer) → Text → Result FetchError Item
lookup item name = if is_empty name then err (names_nothing name) else (elim (item name) [
  | found it ↦ ok (if is_empty it.full_name then record it { full_name = name } else it)
  | cancelled ↦ err context_done
  | missing ↦ err (no_such_item name)
  | unreadable ↦ err (not_read name)
])

-- strings.Trim(strings.TrimSpace(raw), "/")
abbrev pub named : Text → Text
named raw = trim_both (λ c. c == b'/') (trim_space raw)

abbrev pub walked_or : Result WalkError Walked → Result FetchError Walked
walked_or (ok w) = ok w
walked_or (err e) = err context_done

-- The loop that keeps the first item of a full name.
unfoldable pub unique_items : List Text → List Item → List Item
unique_items seen [] = []
unique_items seen (it ∷ its) =
    let skipped = unique_items seen its in
    let kept = it ∷ unique_items (it.full_name ∷ seen) its in
    if any (λ k. text_eq k it.full_name) seen then skipped else kept

abbrev pub is_none : List Text → Bool
is_none [] = true
is_none (t ∷ ts) = false

abbrev pub nothing_walked : Walked
nothing_walked = record { listed = []; unlisted = []; jobs = [] }

module _ (list : Text → Listing) (item : Text → Answer) where
  -- The loop over --folder; a folder's depth is one more than the slashes of its name.
  unfoldable pub walk_folders : List Text → Walked → Result FetchError Walked
  unfolding lookup
  walk_folders [] w = ok w
  walk_folders (raw ∷ raws) w =
      let name = named raw in
      let levels = max_folder_depth - (count_if (λ c. c == b'/') name + 1) in
      lookup item name >>= λ target.
      if is_container target
      then (walked_or (list_jobs list levels name w) >>= walk_folders raws)
      else err (names_a_job name)

  -- The loop over --job.
  unfoldable pub add_jobs : List Text → Walked → Result FetchError Walked
  unfolding lookup
  add_jobs [] w = ok w
  add_jobs (raw ∷ raws) w =
      let name = named raw in
      lookup item name >>= λ target.
      if is_container target
      then err (names_a_folder name)
      else add_jobs raws (record w { jobs = w.jobs ++ target ∷ [] })

  -- enumerate
  unfoldable pub enumerate : List Text → List Text → Result FetchError Walked
  unfolding walk_folders add_jobs unique_items
  enumerate folders jobs =
      let scoped =
        (walk_folders folders nothing_walked >>= λ w.
        add_jobs jobs w >>= λ v. ok (record v { jobs = unique_items [] v.jobs })) in
      if is_none folders && is_none jobs then walked_or (list_all list) else scoped

-- How a request for a job's config.xml ends; a document that decodes comes with its XML namespace and
-- with the result of findScripts.
pub data ConfigAnswer : Type 0 where
  cancelled unreadable unparsable : ConfigAnswer
  document : JobConfig → Text → Option (List Script) → ConfigAnswer

abbrev pub last_of : List Text → Text
last_of [] = []
last_of (s ∷ []) = s
last_of (s ∷ t ∷ ss) = last_of (t ∷ ss)

abbrev pub front_of : List Text → List Text
front_of [] = []
front_of (s ∷ []) = []
front_of (s ∷ t ∷ ss) = s ∷ front_of (t ∷ ss)

abbrev pub undefined_by : Text → Definition
undefined_by class = defined_by source_unknown class []

-- The job as the listing shows it.
unfoldable pub listed_job : (Text → Text) → Item → Job
listed_job strip it =
    let segs = split b'/' it.full_name in
    record {
      full_name = it.full_name;
      name = last_of segs;
      folder = join b'/' (front_of segs);
      url = strip it.url;
      class = it.class;
      kind = kind_of it.class;
      disabled = it.disabled;
      buildable = it.buildable;
      definition = defined_by [] [] [];
      triggers = [];
      scripts = [];
      remote_trigger_token = false;
      remote_trigger_token_known = false;
      unauthenticated_triggers = [];
      unrecognized_triggers = [];
      triggers_known = false;
      runs_on_built_in_node = false;
      runs_on_built_in_node_known = false;
      api_available = true;
      config_available = false;
    }

abbrev pub is_html : JobConfig → Text → Bool
is_html cfg space =
    equal_fold cfg.root (codes "html") || text_eq space (codes "http://www.w3.org/1999/xhtml")

-- What a decoded document adds to the job.
unfoldable pub read_document :
    (Text → Text) → Controller → Job → JobConfig → Text → Option (List Script) → Job
read_document strip controller job cfg space scripts =
    let available : Job = record job { config_available = true } in
    if is_html cfg space then job else (elim (job_document cfg.root) [
      | none ↦ record available {
        disabled = text_eq cfg.disabled (codes "true") || job.disabled;
        definition = undefined_by cfg.root;
      }
      | some doc ↦ (elim scripts [
        | none ↦ job
        | some found_scripts ↦
            apply_config strip cfg doc controller.built_in_node
              (built_in_node_labels controller.built_in_node)
              (record available { scripts = found_scripts })
      ])
    ])

module _ (strip : Text → Text) (config : Text → ConfigAnswer) (controller : Controller) where
  -- fetchJob
  unfoldable pub fetch_job : Item → Result FetchError Job
  unfolding listed_job read_document
  fetch_job it = elim (config it.full_name) [
    | cancelled ↦ err context_done
    | unreadable ↦ ok (listed_job strip it)
    | unparsable ↦ ok (listed_job strip it)
    | document cfg space scripts ↦
        ok (read_document strip controller (listed_job strip it) cfg space scripts)
  ]

  unfoldable pub fetch_each : List Item → Result FetchError (List Job)
  unfolding fetch_job
  fetch_each [] = ok []
  fetch_each (it ∷ its) = fetch_job it >>= λ job. fetch_each its >>= λ jobs. ok (job ∷ jobs)

abbrev pub earlier : Job → Job → Bool
earlier a b = text_lt a.full_name b.full_name

-- fetchJobs: the snapshot's controller and jobs
unfoldable pub fetch_jobs :
    (Text → Listing)
    → (Text → Answer)
    → (Text → Text)
    → (Text → ConfigAnswer)
    → List Text
    → List Text
    → Controller
    → Result FetchError Snapshot
unfolding enumerate fetch_each
fetch_jobs list item strip config folders jobs controller =
    enumerate list item folders jobs >>= λ w.
    let walked : Controller = record controller {
      unlisted = w.unlisted;
      jobs_available = is_none w.unlisted;
    } in
    fetch_each strip config walked w.jobs >>= λ fetched.
    ok (record { controller = walked; jobs = sort_by earlier fetched })
