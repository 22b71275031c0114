-- ===== src/Jenkins/Walk.antt =====
-- internal/ci/jenkins/fetcher.go: `listJobs`, the walk over the folders of a controller, and `childOf`;
-- `isContainer` of models.go. What the controller answers to a listing is a parameter.
pub mod Names
pub mod Laws
use jenkins_bench.Prelude.{
  ℕ, zero, suc, ◌+◌, ◌-◌, Bool, true, false, not, ◌&&◌, ◌||◌, Option, none, some, List, [], ◌∷◌,
  ◌++◌, any, if◌then◌else◌,
}
use jenkins_bench.Prelude.Text.{Text, codes, text_eq, is_empty, has_rune}
use jenkins_bench.Prelude.Result.{Result, ok, err, ◌>>=◌}

abbrev pub class_folder : Text
class_folder = codes "com.cloudbees.hudson.plugins.folder.Folder"

abbrev pub class_org_folder : Text
class_org_folder = codes "jenkins.branch.OrganizationFolder"

abbrev pub class_multibranch : Text
class_multibranch = codes "org.jenkinsci.plugins.workflow.multibranch.WorkflowMultiBranchProject"

pub record Item : Type 0 where
  pub class : Text
  pub name : Text
  pub full_name : Text
  pub url : Text
  pub disabled : Bool
  pub buildable : Bool
  -- Children != nil: the item exports a jobs array, an empty one included
  pub has_children : Bool

-- isContainer
unfoldable pub is_container : Item → Bool
is_container it =
    if text_eq it.class class_multibranch
    then false
    else it.has_children || (text_eq it.class class_folder || text_eq it.class class_org_folder)

-- strings.CutPrefix
unfoldable pub cut_prefix : Text → Text → Option Text
cut_prefix s [] = some s
cut_prefix [] (p ∷ ps) = none
cut_prefix (c ∷ s) (p ∷ ps) =
    let rest = cut_prefix s ps in if text_eq (c ∷ []) (p ∷ []) then rest else none

abbrev pub is_segment : Text → Bool
is_segment s = not (is_empty s) && not (has_rune b'/' s)

-- childOf
unfoldable pub child_of : Text → Text → Bool
unfolding cut_prefix
child_of container full_name =
    if is_empty full_name
    then false
    else if is_empty container
    then is_segment full_name
    else (elim (cut_prefix full_name (container ++ b'/' ∷ [])) [
      | none ↦ false
      | some rest ↦ is_segment rest
    ])

abbrev pub max_folder_depth : ℕ
max_folder_depth = 64

abbrev pub root_container : Text
root_container = codes "/"

-- How a request for a listing ends: with the context cancelled, with any other error, or with the
-- items.
pub data Listing : Type 0 where
  cancelled failed : Listing
  items : List Item → Listing

-- The fetcher's `listed` and `unlisted`, and the jobs found so far.
pub record Walked : Type 0 where
  pub listed : List Text
  pub unlisted : List Text
  pub jobs : List Item

abbrev pub is_listed : Text → Walked → Bool
is_listed c w = any (λ d. text_eq d c) w.listed

-- Fetcher.unlist
unfoldable pub unlist : Text → Walked → Walked
unlist container w = record w {
  unlisted = w.unlisted ++ (if is_empty container then root_container else container) ∷ [];
}

abbrev pub all_children : Text → List Item → Bool
all_children c [] = true
all_children c (it ∷ its) = child_of c it.full_name && all_children c its

pub data WalkError : Type 0 where
  context_done : WalkError

abbrev pub Walk : Type 0
Walk = Walked → Result WalkError Walked

-- The last loop of `listJobs`; `visit` lists a folder one level deeper.
unfoldable pub walk_items : (Text → Walk) → List Item → Walk
walk_items visit [] w = ok w
walk_items visit (it ∷ its) w =
    if is_container it
    then (visit it.full_name w >>= walk_items visit its)
    else walk_items visit its (record w { jobs = w.jobs ++ it ∷ [] })

module _ (list : Text → Listing) where
  -- The body of `listJobs`, where `visit` is its recursive call.
  unfoldable pub list_with : (Text → Walk) → Text → Walk
  unfolding walk_items
  list_with visit container w =
      let marked : Walked = record w { listed = container ∷ w.listed } in
      if is_listed container w then ok w else (elim (list container) [
        | cancelled ↦ err context_done
        | failed ↦ ok (unlist container marked)
        | items its ↦
            if all_children container its
            then walk_items visit its marked
            else ok (unlist container marked)
      ])

  -- listJobs, with the number of folder levels below this one that the walk may still enter.
  unfoldable pub list_jobs : ℕ → Text → Walk
  unfolding list_with
  list_jobs zero container w = list_with (λ name v. ok (unlist name v)) container w
  list_jobs (suc levels) container w = list_with (list_jobs levels) container w

  -- The whole controller: `listJobs(ctx, "", 0, &items)`.
  unfoldable pub list_all : Result WalkError Walked
  unfolding list_jobs
  list_all = list_jobs max_folder_depth [] (record { listed = []; unlisted = []; jobs = [] })
