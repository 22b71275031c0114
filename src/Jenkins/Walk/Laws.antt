-- ===== src/Jenkins/Walk/Laws.antt =====
-- The walk of `listJobs` in internal/ci/jenkins/fetcher.go against the folders that hang together by
-- the listings of the controller.
use jenkins_bench.Prelude.{
  ℕ, zero, suc, ◌≡◌, ◌≢◌, refl, sym, ◌∙◌, ◌⊎◌, inl, inr, true, List, [], ◌∷◌, ◌++◌, All, arith,
  Bool-cases, if◌then◌else◌,
}
use mathlib.Core.Path.{subst}
use jenkins_bench.Prelude.Text.{Text, text_eq, text_eq_iff, text_eq_refl}
use jenkins_bench.Prelude.Result.{Result, ok, err, >>=-eq-ok}
use jenkins_bench.Jenkins.Walk.{
  Item, Listing, cancelled, failed, items, Walked, Walk, WalkError, context_done, is_container,
  is_listed, all_children, unlist, walk_items, list_with, list_jobs, list_all, max_folder_depth,
}

abbrev pub Among : Item → List Item → Type 0
Among it [] = ⊥
Among it (x ∷ xs) = (it ≡ x) ⊎ Among it xs

Among-append_left : (it : Item) (xs ys : List Item) → Among it xs → Among it (xs ++ ys)
Among-append_left it [] ys h = elim h [ ]
Among-append_left it (x ∷ xs) ys (inl e) = inl e
Among-append_left it (x ∷ xs) ys (inr h) = inr (Among-append_left it xs ys h)

Among-append_last : (it : Item) (xs : List Item) → Among it (xs ++ it ∷ [])
Among-append_last it [] = inl refl
Among-append_last it (x ∷ xs) = inr (Among-append_last it xs)

append-ne-nil : (xs : List Text) (x : Text) → xs ++ x ∷ [] ≢ []
append-ne-nil [] x h = cc
append-ne-nil (y ∷ xs) x h = cc

-- What a walk has dealt with an item of a listing by: a container has been listed, anything else is
-- one of the jobs.
abbrev pub IsTaken : Walked → Item → Type 0
IsTaken w it = if is_container it then is_listed it.full_name w ≡ true else Among it w.jobs

-- A walk only adds to what it has listed, found and given up.
record Grows (v w : Walked) : Type 0 where
  keeps_listed : (c : Text) → is_listed c v ≡ true → is_listed c w ≡ true
  keeps_jobs : (it : Item) → Among it v.jobs → Among it w.jobs
  keeps_unlisted : w.unlisted ≡ [] → v.unlisted ≡ []

Grows-refl : (w : Walked) → Grows w w
Grows-refl w = record { keeps_listed = λ c h. h; keeps_jobs = λ it h. h; keeps_unlisted = λ h. h }

Grows-trans : (u v w : Walked) → Grows u v → Grows v w → Grows u w
Grows-trans u v w g h = record {
  keeps_listed = λ c p. h.keeps_listed c (g.keeps_listed c p);
  keeps_jobs = λ it p. h.keeps_jobs it (g.keeps_jobs it p);
  keeps_unlisted = λ p. g.keeps_unlisted (h.keeps_unlisted p);
}

IsTaken-Grows : (v w : Walked) (it : Item) → Grows v w → IsTaken v it → IsTaken w it
IsTaken-Grows v w it g h = elim (Bool-cases (is_container it)) [
  | inl e ↦ rw e (g.keeps_listed it.full_name (rw e at h))
  | inr e ↦ rw e (g.keeps_jobs it (rw e at h))
]

-- The state after one more job.
abbrev found : Walked → Item → Walked
found v it = record v { jobs = v.jobs ++ it ∷ [] }

Grows-found : (v : Walked) (it : Item) → Grows v (found v it)
Grows-found v it = record {
  keeps_listed = λ c h. h;
  keeps_jobs = λ x h. Among-append_left x v.jobs (it ∷ []) h;
  keeps_unlisted = λ h. h;
}

All-IsTaken-Grows :
    (v w : Walked) (its : List Item) → Grows v w → All (IsTaken v) its → All (IsTaken w) its
All-IsTaken-Grows v w [] g h = h
All-IsTaken-Grows v w (it ∷ its) g h = (IsTaken-Grows v w it g h.0, All-IsTaken-Grows v w its g h.1)

Listing-cases :
    (l : Listing) → (l ≡ cancelled) ⊎ ((l ≡ failed) ⊎ ((its : List Item) × (l ≡ items its)))
Listing-cases cancelled = inl refl
Listing-cases failed = inr (inl refl)
Listing-cases (items its) = inr (inr (its, refl))

pub items-inj : {xs ys : List Item} → items xs ≡ items ys → xs ≡ ys
items-inj e = cc

module _ (list : Text → Listing) where
  -- A container was read, its items are inside it, and each of them is dealt with.
  abbrev pub IsDone : Walked → Text → Type 0
  IsDone w c =
      (its : List Item) × (list c ≡ items its) × (all_children c its ≡ true) × All (IsTaken w) its

  -- A step of the walk grows the state, and what it newly lists is done if nothing was given up.
  record Advances (v w : Walked) : Type 0 where
    grows : Grows v w
    does : w.unlisted ≡ [] → (c : Text) → is_listed c w ≡ true → (is_listed c v ≡ true) ⊎ IsDone w c

  abbrev IsVisit : (Text → Walk) → Type 0
  IsVisit visit =
      (name : Text) (v w : Walked)
      → visit name v ≡ ok w
      → Advances v w × (w.unlisted ≡ [] → is_listed name w ≡ true)

  IsDone-Grows : (v w : Walked) (c : Text) → Grows v w → IsDone v c → IsDone w c
  IsDone-Grows v w c g (its, e, a, t) = (its, e, a, All-IsTaken-Grows v w its g t)

  Advances-refl : (w : Walked) → Advances w w
  Advances-refl w = record { grows = Grows-refl w; does = λ u c l. inl l }

  Advances-trans : (u v w : Walked) → Advances u v → Advances v w → Advances u w
  Advances-trans u v w a b = record {
    grows = Grows-trans u v w a.grows b.grows;
    does = λ h c l. elim (b.does h c l) [
      | inr d ↦ inr d
      | inl k ↦ (elim (a.does (b.grows.keeps_unlisted h) c k) [
        | inl k2 ↦ inl k2
        | inr d ↦ inr (IsDone-Grows v w c b.grows d)
      ])
    ];
  }

  walk_items-Advances :
      (visit : Text → Walk) (its : List Item) (v w : Walked)
      → IsVisit visit
      → walk_items visit its v ≡ ok w
      → Advances v w × (w.unlisted ≡ [] → All (IsTaken w) its)
  unfolding walk_items
  walk_items-Advances visit [] v w ih h = (subst (Advances v) (cc) (Advances-refl v), λ _. tt)
  walk_items-Advances visit (it ∷ its) v w ih h = elim (Bool-cases (is_container it)) [
    | inl e ↦
        let (m, hm, hrest) = >>=-eq-ok (visit it.full_name v) (walk_items visit its) (rw e at h) in
        let first = ih it.full_name v m hm in
        let rest = walk_items-Advances visit its m w ih hrest in
        (
          Advances-trans v m w first.0 rest.0,
          λ u. (
            rw e (rest.0.grows.keeps_listed it.full_name (first.1 (rest.0.grows.keeps_unlisted u))),
            rest.1 u,
          ),
        )
    | inr e ↦
        let rest = walk_items-Advances visit its (found v it) w ih (rw e at h) in
        let more : Advances v (found v it) = record {
          grows = Grows-found v it;
          does = λ u c l. inl l;
        } in
        (
          Advances-trans v (found v it) w more rest.0,
          λ u. (rw e (rest.0.grows.keeps_jobs it (Among-append_last it v.jobs)), rest.1 u),
        )
  ]

  -- Giving a container up is recorded, so that nothing has to be shown of it.
  unlist-Advances :
      (name : Text) (v : Walked) → Grows v (unlist name v) × ((unlist name v).unlisted ≢ [])
  unfolding unlist
  unlist-Advances name v = (
    record {
      keeps_listed = λ c h. h;
      keeps_jobs = λ it h. h;
      keeps_unlisted = λ h. elim (append-ne-nil v.unlisted _ h) [ ];
    },
    append-ne-nil v.unlisted _,
  )

  IsVisit-unlist : IsVisit (λ name v. ok (unlist name v))
  IsVisit-unlist name v w h =
      let (g, n) = unlist-Advances name v in
      subst (λ x. Advances v x × (x.unlisted ≡ [] → is_listed name x ≡ true)) (cc)
        (record { grows = g; does = λ u. elim (n u) [ ] }, λ u. elim (n u) [ ])

  -- The state in which a listing has been asked for.
  abbrev marked : Text → Walked → Walked
  marked c w = record w { listed = c ∷ w.listed }

  Grows-marked : (c : Text) (w : Walked) → Grows w (marked c w)
  Grows-marked c w = record {
    keeps_listed = λ d h. ground (arith, h);
    keeps_jobs = λ it h. h;
    keeps_unlisted = λ h. h;
  }

  -- What the walk returns where the listing of a container is of no use.
  give_up :
      (name : Text) (v w : Walked)
      → ◌≡◌ {A = Result WalkError Walked} (ok (unlist name (marked name v))) (ok w)
      → Advances v w × (w.unlisted ≡ [] → is_listed name w ≡ true)
  give_up name v w h =
      let (g, n) = unlist-Advances name (marked name v) in
      subst (λ x. Advances v x × (x.unlisted ≡ [] → is_listed name x ≡ true)) (cc)
        (
          record {
            grows = Grows-trans v (marked name v) _ (Grows-marked name v) g;
            does = λ u. elim (n u) [ ];
          },
          λ u. elim (n u) [ ],
        )

  take_items :
      (visit : Text → Walk) (name : Text) (its : List Item) (v w : Walked)
      → IsVisit visit
      → list name ≡ items its
      → all_children name its ≡ true
      → walk_items visit its (marked name v) ≡ ok w
      → Advances v w × (w.unlisted ≡ [] → is_listed name w ≡ true)
  take_items visit name its v w ih e a h =
      let (adv, taken) = walk_items-Advances visit its (marked name v) w ih h in
      (
        record {
          grows = Grows-trans v (marked name v) w (Grows-marked name v) adv.grows;
          does = λ u c l. elim (adv.does u c l) [
            | inr d ↦ inr d
            | inl k ↦ (elim (Bool-cases (text_eq name c)) [
              | inl same ↦ inr (subst (IsDone w) ((text_eq_iff name c).0 same) (its, e, a, taken u))
              | inr other ↦ inl (ground (arith, k, other))
            ])
          ];
        },
        λ u. adv.grows.keeps_listed name (rw (text_eq_refl name) refl),
      )

  IsVisit-list_with : (visit : Text → Walk) → IsVisit visit → IsVisit (list_with list visit)
  unfolding list_with
  IsVisit-list_with visit ih name v w h = elim (Bool-cases (is_listed name v)) [
    | inl l ↦
        let e : v ≡ w = cc in
        subst (λ x. Advances v x × (x.unlisted ≡ [] → is_listed name x ≡ true)) e
          (Advances-refl v, λ _. l)
    | inr l ↦ (elim (Listing-cases (list name)) [
      | inl e ↦
          (let ended : ◌≡◌ {A = Result WalkError Walked} (err context_done) (ok w) =
              rw (l, e) at h in
            cc)
      | inr (inl e) ↦ give_up name v w (rw (l, e) at h)
      | inr (inr (its, e)) ↦ (elim (Bool-cases (all_children name its)) [
        | inl a ↦ take_items visit name its v w ih e a (rw (l, e, a) at h)
        | inr a ↦ give_up name v w (rw (l, e, a) at h)
      ])
    ])
  ]

  IsVisit-list_jobs : (levels : ℕ) → IsVisit (list_jobs list levels)
  unfolding list_jobs
  IsVisit-list_jobs zero = IsVisit-list_with _ IsVisit-unlist
  IsVisit-list_jobs (suc levels) = IsVisit-list_with _ (IsVisit-list_jobs levels)

  -- The containers that hang together from the top level by the listings.
  pub data Reachable : Text → Type 0 where
    top : Reachable []
    inside :
        (c : Text) (its : List Item) (it : Item)
        → Reachable c
        → list c ≡ items its
        → Among it its
        → is_container it ≡ true
        → Reachable it.full_name

  pub All-Among :
      (w : Walked) (it : Item) (its : List Item) → All (IsTaken w) its → Among it its → IsTaken w it
  All-Among w it [] a m = elim m [ ]
  All-Among w it (x ∷ its) a (inl e) = subst (IsTaken w) (sym e) a.0
  All-Among w it (x ∷ its) a (inr m) = All-Among w it its a.1 m

  abbrev nothing_walked : Walked
  nothing_walked = record { listed = []; unlisted = []; jobs = [] }

  -- What a complete walk has listed is done, and what it has not listed it cannot reach.
  is_listed-IsDone :
      (w : Walked)
      → Advances nothing_walked w
      → w.unlisted ≡ []
      → (c : Text) → is_listed c w ≡ true
      → IsDone w c
  is_listed-IsDone w adv u c l = elim (adv.does u c l) [
    | inl l0 ↦ (let never : ⊥ = cc in elim never [ ])
    | inr d ↦ d
  ]

  is_listed-Reachable :
      (w : Walked)
      → Advances nothing_walked w
      → w.unlisted ≡ []
      → is_listed [] w ≡ true
      → (c : Text) → Reachable c
      → is_listed c w ≡ true
  is_listed-Reachable w adv u root c top = root
  is_listed-Reachable w adv u root c (inside p its it r e m k) =
      let (seen, es, a, taken) =
        is_listed-IsDone w adv u p (is_listed-Reachable w adv u root p r) in
      let same : seen ≡ its = items-inj (sym es ∙ e) in
      rw k at (All-Among w it its (subst (All (IsTaken w)) same taken) m)

  -- Conditions: the walk returns, and no container was given up. Every container that hangs together
  -- with the top level by the listings was then read, all its items are inside it, and each item is a
  -- job of the result or a container that was listed.
  pub list_all-IsDone :
      (w : Walked) → list_all list ≡ ok w → w.unlisted ≡ [] → (c : Text) → Reachable c → IsDone w c
  unfolding list_all
  list_all-IsDone w h u c r =
      let (adv, root) = IsVisit-list_jobs max_folder_depth [] nothing_walked w h in
      is_listed-IsDone w adv u c (is_listed-Reachable w adv u (root u) c r)
