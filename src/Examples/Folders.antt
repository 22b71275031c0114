-- ===== src/Examples/Folders.antt =====
-- A small controller's folders and triggers: instances of the theorems.
use jenkins_bench.Prelude.{
  ◌≡◌, refl, true, false, ◌&&◌, ◌||◌, List, [], ◌∷◌, any, inl, if◌then◌else◌,
}
use jenkins_bench.Prelude.Text.{Text, codes, text_eq}
use jenkins_bench.Prelude.Result.{ok}
use jenkins_bench.Jenkins.Walk.{
  Item, Listing, items, failed, class_folder, Walked, list_all, list_jobs, list_with, walk_items,
  is_container, child_of, cut_prefix,
}
use jenkins_bench.Jenkins.Walk.Laws.{list_all-IsDone, IsDone, top, inside}
use jenkins_bench.Jenkins.Triggers.{assess_triggers, mechanism_auth_token, unauthenticated_trigger}
use jenkins_bench.Jenkins.Triggers.Laws.{is_in, is_name, assess_triggers-unauthenticated}

abbrev item : Text → Text → Text → Item
item class name full_name = record {
  class = class;
  name = name;
  full_name = full_name;
  url = codes "http://ci/";
  disabled = false;
  buildable = true;
  has_children = false;
}

abbrev pub platform_folder : Item
platform_folder = item class_folder (codes "platform") (codes "platform")

abbrev pub deploy_job : Item
deploy_job = item (codes "hudson.model.FreeStyleProject") (codes "deploy") (codes "platform/deploy")

abbrev pub two_levels : Text → Listing
two_levels [] = items (platform_folder ∷ [])
two_levels (c ∷ cs) =
    if text_eq (c ∷ cs) (codes "platform") then items (deploy_job ∷ []) else failed

abbrev two_levels_walked : Walked
two_levels_walked = record {
  listed = codes "platform" ∷ [] ∷ [];
  unlisted = [];
  jobs = deploy_job ∷ [];
}

two_levels-list_all : list_all two_levels ≡ ok two_levels_walked
unfolding list_all list_jobs list_with walk_items is_container child_of cut_prefix
two_levels-list_all = refl

pub platform_folder-is_container : is_container platform_folder ≡ true
unfolding is_container
platform_folder-is_container = refl

list_all-IsDone_example : IsDone two_levels two_levels_walked (codes "platform")
list_all-IsDone_example =
    list_all-IsDone two_levels two_levels_walked two_levels-list_all refl (codes "platform") (
      inside [] (platform_folder ∷ []) platform_folder top refl (inl refl)
        platform_folder-is_container)

abbrev some_triggers : List Text
some_triggers =
    codes "hudson.triggers.SCMTrigger"
    ∷ codes "org.jenkinsci.plugins.gwt.GenericTrigger"
    ∷ codes "my.Trigger"
    ∷ []

assess_triggers-unauthenticated_example :
    is_in (codes "GenericTrigger") (assess_triggers true some_triggers).unauthenticated ≡ (
      (true && text_eq mechanism_auth_token (codes "GenericTrigger"))
      || any (λ c. is_name (codes "GenericTrigger") (unauthenticated_trigger c)) some_triggers)
assess_triggers-unauthenticated_example =
    assess_triggers-unauthenticated true some_triggers (codes "GenericTrigger") refl
