-- ===== src/Jenkins/Triggers.antt =====
-- internal/ci/jenkins/triggers.go: how a job's triggers are classified by who may start a build.
use jenkins_bench.Prelude.{
  Bool, true, false, ◌||◌, Option, none, some, List, [], ◌∷◌, ◌++◌, any, sort_by, if◌then◌else◌,
}
use jenkins_bench.Prelude.Text.{Text, codes, text_eq, text_lt}
pub mod Laws

abbrev pub mechanism_auth_token : Text
mechanism_auth_token = codes "authToken"

-- unauthenticatedTriggers, none for a class that is no key of the map
unfoldable pub unauthenticated_trigger : Text → Option Text
unauthenticated_trigger class =
    if text_eq class (codes "org.jenkinsci.plugins.gwt.GenericTrigger")
    then some (codes "GenericTrigger")
    else none

-- authorizedTriggers
unfoldable pub authorized_trigger : Text → Bool
authorized_trigger class =
    text_eq class (codes "hudson.triggers.TimerTrigger")
    || (text_eq class (codes "hudson.triggers.SCMTrigger")
        || (text_eq class (codes "jenkins.triggers.ReverseBuildTrigger")
            || (text_eq class
                  (codes "com.cloudbees.hudson.plugins.folder.computed.PeriodicFolderTrigger")
                || text_eq class (codes "com.cloudbees.jenkins.GitHubPushTrigger"))))

pub record TriggerAssessment : Type 0 where
  pub unauthenticated : List Text
  pub unrecognized : List Text

-- The assessment under construction, with the names that are in it.
pub record Assessing : Type 0 where
  pub unauthenticated : List Text
  pub unrecognized : List Text
  pub seen : List Text

abbrev pub is_seen : Text → Assessing → Bool
is_seen name a = any (λ s. text_eq s name) a.seen

-- add(&a.unauthenticated, name)
unfoldable pub add_unauthenticated : Text → Assessing → Assessing
add_unauthenticated name a =
    if is_seen name a
    then a
    else record a { unauthenticated = a.unauthenticated ++ name ∷ []; seen = name ∷ a.seen }

-- add(&a.unrecognized, name)
unfoldable pub add_unrecognized : Text → Assessing → Assessing
add_unrecognized name a =
    if is_seen name a
    then a
    else record a { unrecognized = a.unrecognized ++ name ∷ []; seen = name ∷ a.seen }

-- The switch of the loop over the classes.
unfoldable pub assess_class : Text → Assessing → Assessing
assess_class class a = elim (unauthenticated_trigger class) [
  | some name ↦ add_unauthenticated name a
  | none ↦ if authorized_trigger class then a else add_unrecognized class a
]

unfoldable pub assess_classes : List Text → Assessing → Assessing
assess_classes [] a = a
assess_classes (c ∷ cs) a = assess_classes cs (assess_class c a)

-- sort.Strings
abbrev sort_strings : List Text → List Text
sort_strings = sort_by text_lt

-- assessTriggers
unfoldable pub assess_triggers : Bool → List Text → TriggerAssessment
assess_triggers auth_token classes =
    let fresh : Assessing = record { unauthenticated = []; unrecognized = []; seen = [] } in
    let a =
      assess_classes classes
        (if auth_token then add_unauthenticated mechanism_auth_token fresh else fresh) in
    record {
      unauthenticated = sort_strings a.unauthenticated;
      unrecognized = sort_strings a.unrecognized;
    }
