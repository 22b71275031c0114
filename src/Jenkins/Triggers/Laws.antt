-- ===== src/Jenkins/Triggers/Laws.antt =====
-- What `assessTriggers` of internal/ci/jenkins/triggers.go reports of a job's triggers.
use jenkins_bench.Prelude.{
  ℕ, ◌+◌, ◌≡◌, refl, sym, ap, inl, inr, Bool, true, false, ◌&&◌, ◌||◌, Option, none, some, List, [],
  ◌∷◌, any, any-append, count_if, count_if-append, count_if-sort_by, any-sort_by, arith, Bool-cases,
  Option-cases, if◌then◌else◌,
}
use mathlib.Core.Path.{subst}
use jenkins_bench.Prelude.Text.{Text, codes, text_eq, text_eq_iff, text_lt}
use jenkins_bench.Jenkins.Triggers.{
  mechanism_auth_token, unauthenticated_trigger, authorized_trigger, Assessing, is_seen,
  add_unauthenticated, add_unrecognized, assess_class, assess_classes, assess_triggers,
}

-- The name under which a trigger class is reported, if it is.
abbrev pub reported_name : Text → Option Text
reported_name class = elim (unauthenticated_trigger class) [
  | some name ↦ some name
  | none ↦ if authorized_trigger class then none else some class
]

abbrev pub is_name : Text → Option Text → Bool
is_name x none = false
is_name x (some name) = text_eq name x

abbrev pub occurrences : Text → List Text → ℕ
occurrences x names = count_if (λ s. text_eq s x) names

abbrev pub is_in : Text → List Text → Bool
is_in x names = any (λ s. text_eq s x) names

or_false : (a b : Bool) → (a || b) ≡ false → (a ≡ false) × (b ≡ false)
or_false true b h = cc
or_false false b h = (refl, h)

-- What is seen is in one of the lists, once.
abbrev IsTallied : Assessing → Type 0
IsTallied a =
    (x : Text)
    → occurrences x a.unauthenticated + occurrences x a.unrecognized
      ≡ (if is_seen x a then 1 else 0)

same-is_seen : (n x : Text) (a : Assessing) → text_eq n x ≡ true → is_seen x a ≡ is_seen n a
same-is_seen n x a h = ap (λ y. is_seen y a) (sym ((text_eq_iff n x).0 h))

same-is_in : (n x : Text) (l : List Text) → text_eq n x ≡ true → is_in x l ≡ is_in n l
same-is_in n x l h = ap (λ y. is_in y l) (sym ((text_eq_iff n x).0 h))

add_unauthenticated-IsTallied :
    (n : Text) (a : Assessing) → IsTallied a → IsTallied (add_unauthenticated n a)
unfolding add_unauthenticated
add_unauthenticated-IsTallied n a h x =
    ground (
      arith,
      h x,
      count_if-append (λ s. text_eq s x) a.unauthenticated (n ∷ []),
      same-is_seen n x a,
    )

add_unrecognized-IsTallied :
    (n : Text) (a : Assessing) → IsTallied a → IsTallied (add_unrecognized n a)
unfolding add_unrecognized
add_unrecognized-IsTallied n a h x =
    ground
      (arith, h x, count_if-append (λ s. text_eq s x) a.unrecognized (n ∷ []), same-is_seen n x a)

assess_class-IsTallied : (c : Text) (a : Assessing) → IsTallied a → IsTallied (assess_class c a)
unfolding assess_class
assess_class-IsTallied c a h x = elim (Option-cases (unauthenticated_trigger c)) [
  | inr (n, e) ↦ rw (e, assess_class) (add_unauthenticated-IsTallied n a h x)
  | inl e ↦ (elim (Bool-cases (authorized_trigger c)) [
    | inl d ↦ rw (e, d, assess_class) (h x)
    | inr d ↦ rw (e, d, assess_class) (add_unrecognized-IsTallied c a h x)
  ])
]

assess_classes-IsTallied :
    (cs : List Text) (a : Assessing) → IsTallied a → IsTallied (assess_classes cs a)
unfolding assess_classes
assess_classes-IsTallied [] a h = h
assess_classes-IsTallied (c ∷ cs) a h =
    assess_classes-IsTallied cs (assess_class c a) (assess_class-IsTallied c a h)

is_seen-assess_class :
    (x c : Text) (a : Assessing)
    → is_seen x (assess_class c a) ≡ (is_seen x a || is_name x (reported_name c))
unfolding assess_class add_unauthenticated add_unrecognized
is_seen-assess_class x c a = elim (Option-cases (unauthenticated_trigger c)) [
  | inr (n, e) ↦ rw (e, assess_class) (ground (arith, same-is_seen n x a))
  | inl e ↦ (elim (Bool-cases (authorized_trigger c)) [
    | inl d ↦ rw (e, d, assess_class) (ground arith)
    | inr d ↦ rw (e, d, assess_class) (ground (arith, same-is_seen c x a))
  ])
]

is_seen-assess_classes :
    (x : Text) (cs : List Text) (a : Assessing)
    → is_seen x (assess_classes cs a) ≡ (is_seen x a || any (λ c. is_name x (reported_name c)) cs)
unfolding assess_classes
is_seen-assess_classes x [] a = ground arith
is_seen-assess_classes x (c ∷ cs) a =
    ground (arith, is_seen-assess_classes x cs (assess_class c a), is_seen-assess_class x c a)

-- The assessment before the loop over the classes.
abbrev first_assessing : Bool → Assessing
first_assessing auth_token =
    let fresh : Assessing = record { unauthenticated = []; unrecognized = []; seen = [] } in
    if auth_token then add_unauthenticated mechanism_auth_token fresh else fresh

first_assessing-IsTallied : (auth_token : Bool) → IsTallied (first_assessing auth_token)
first_assessing-IsTallied true = add_unauthenticated-IsTallied mechanism_auth_token _ (λ x. refl)
first_assessing-IsTallied false = λ x. refl

is_seen-first_assessing :
    (auth_token : Bool) (x : Text)
    → is_seen x (first_assessing auth_token) ≡ (auth_token && text_eq mechanism_auth_token x)
unfolding add_unauthenticated
is_seen-first_assessing true x = ground arith
is_seen-first_assessing false x = refl

-- The names that a job's configuration gives cause to report.
abbrev pub is_reported : Text → Bool → List Text → Bool
is_reported x auth_token classes =
    (auth_token && text_eq mechanism_auth_token x) || any (λ c. is_name x (reported_name c)) classes

-- Each name is reported exactly once, in one of the two lists, if the token or a class gives cause to
-- report it, and not at all otherwise.
assess_triggers-occurrences :
    (auth_token : Bool) (classes : List Text) (x : Text)
    → occurrences x (assess_triggers auth_token classes).unauthenticated
        + occurrences x (assess_triggers auth_token classes).unrecognized
      ≡ (if is_reported x auth_token classes then 1 else 0)
unfolding assess_triggers
assess_triggers-occurrences auth_token classes x =
    let a = first_assessing auth_token in
    let e = assess_classes classes a in
    ground (
      arith,
      count_if-sort_by text_lt (λ s. text_eq s x) e.unauthenticated,
      count_if-sort_by text_lt (λ s. text_eq s x) e.unrecognized,
      assess_classes-IsTallied classes a (first_assessing-IsTallied auth_token) x,
      is_seen-assess_classes x classes a,
      is_seen-first_assessing auth_token x,
    )

-- The name of the Generic Webhook Trigger in the snapshot.
abbrev generic_trigger : Text
generic_trigger = codes "GenericTrigger"

abbrev KeepsGeneric : Assessing → Type 0
KeepsGeneric a = is_seen generic_trigger a ≡ is_in generic_trigger a.unauthenticated

unauthenticated_trigger-name :
    (c n : Text) → unauthenticated_trigger c ≡ some n → n ≡ generic_trigger
unfolding unauthenticated_trigger
unauthenticated_trigger-name c n h = ground arith

-- What an update of the assessment puts among the unauthenticated mechanisms.
abbrev Adds : Assessing → Assessing → Option Text → Type 0
Adds a b name =
    KeepsGeneric b
    × ((x : Text) → is_in x b.unauthenticated ≡ (is_in x a.unauthenticated || is_name x name))

add_generic-Adds :
    (a : Assessing)
    → KeepsGeneric a
    → Adds a (add_unauthenticated generic_trigger a) (some generic_trigger)
unfolding add_unauthenticated
add_generic-Adds a k = (
  ground (
    arith,
    k,
    any-append (λ s. text_eq s generic_trigger) a.unauthenticated (generic_trigger ∷ []),
  ),
  λ x. ground (
    arith,
    k,
    any-append (λ s. text_eq s x) a.unauthenticated (generic_trigger ∷ []),
    same-is_in generic_trigger x a.unauthenticated,
  ),
)

add_unrecognized-Adds :
    (c : Text) (a : Assessing)
    → text_eq c generic_trigger ≡ false
    → KeepsGeneric a
    → Adds a (add_unrecognized c a) none
unfolding add_unrecognized
add_unrecognized-Adds c a h k = (ground (arith, h, k), λ x. ground arith)

assess_class-unauthenticated :
    (c : Text) (a : Assessing)
    → text_eq c generic_trigger ≡ false
    → KeepsGeneric a
    → Adds a (assess_class c a) (unauthenticated_trigger c)
unfolding assess_class
assess_class-unauthenticated c a h k = elim (Option-cases (unauthenticated_trigger c)) [
  | inr (n, e) ↦
      let name = unauthenticated_trigger-name c n e in
      rw (e, assess_class)
        (subst (λ m. Adds a (add_unauthenticated m a) (some m)) (sym name) (add_generic-Adds a k))
  | inl e ↦ (elim (Bool-cases (authorized_trigger c)) [
    | inl d ↦ rw (e, d, assess_class) (k, λ x. ground arith)
    | inr d ↦ rw (e, d, assess_class) (add_unrecognized-Adds c a h k)
  ])
]

assess_classes-unauthenticated :
    (x : Text) (cs : List Text) (a : Assessing)
    → is_in generic_trigger cs ≡ false
    → KeepsGeneric a
    → is_in x (assess_classes cs a).unauthenticated
      ≡ (is_in x a.unauthenticated || any (λ c. is_name x (unauthenticated_trigger c)) cs)
unfolding assess_classes
assess_classes-unauthenticated x [] a h k = ground arith
assess_classes-unauthenticated x (c ∷ cs) a h k =
    let (hc, hcs) = or_false (text_eq c generic_trigger) (is_in generic_trigger cs) h in
    let (k2, e) = assess_class-unauthenticated c a hc k in
    ground (arith, assess_classes-unauthenticated x cs (assess_class c a) hcs k2, e x)

first_assessing-KeepsGeneric : (auth_token : Bool) → KeepsGeneric (first_assessing auth_token)
unfolding add_unauthenticated
first_assessing-KeepsGeneric true = refl
first_assessing-KeepsGeneric false = refl

is_in-first_assessing :
    (auth_token : Bool) (x : Text)
    → is_in x (first_assessing auth_token).unauthenticated
      ≡ (auth_token && text_eq mechanism_auth_token x)
unfolding add_unauthenticated
is_in-first_assessing true x = ground arith
is_in-first_assessing false x = refl

-- Condition: no trigger class is itself spelled `GenericTrigger`. The unauthenticated mechanisms are
-- then exactly the remote token, if the job has one, and the names of the classes that are known to
-- start a build without a login.
pub assess_triggers-unauthenticated :
    (auth_token : Bool) (classes : List Text) (x : Text)
    → is_in generic_trigger classes ≡ false
    → is_in x (assess_triggers auth_token classes).unauthenticated ≡ (
        (auth_token && text_eq mechanism_auth_token x)
        || any (λ c. is_name x (unauthenticated_trigger c)) classes)
unfolding assess_triggers
assess_triggers-unauthenticated auth_token classes x h =
    let a = first_assessing auth_token in
    let e = assess_classes classes a in
    ground (
      arith,
      any-sort_by text_lt (λ s. text_eq s x) e.unauthenticated,
      assess_classes-unauthenticated x classes a h (first_assessing-KeepsGeneric auth_token),
      is_in-first_assessing auth_token x,
    )
