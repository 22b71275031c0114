-- ===== src/Engine/Evaluate/Workers.antt =====
-- The workers of `evaluateJobs` in internal/engine/engine.go as interleavings: each receives the
-- next index from the channel, evaluates that job, and writes the result at the index; an encoding
-- error is kept by sync.Once and the worker goes on; a worker returns when the channel is closed.
-- `outcome` is what a worker computes for the job of an index.
pub mod Progress
use jenkins_bench.Prelude.{
  ℕ, zero, suc, ◌+◌, ◌*◌, ◌≤◌, ◌<◌, ◌≡◌, ◌≢◌, refl, sym, ap, ◌∙◌, ◌⊎◌, inl, inr, Bool, true, false,
  ◌||◌, Option, none, some, List, [], ◌∷◌, ◌++◌, map, any, length, ◌==◌, ==_iff, arith, Bool-cases,
  Option-cases, if◌then◌else◌,
}
use jenkins_bench.Prelude.Result.{ok, err}
use jenkins_bench.Engine.Evaluate.{Findings, no_findings, EvaluateError, JobOutcome, all_results}

-- The indices that the sender has still to send, whether it has closed the channel, the workers that wait to receive,
-- the indices being evaluated, how many workers have returned, the results slice and firstErr. The channel has no
-- buffer: an index goes from the sender to a waiting worker, and while none waits the sender is blocked.
pub record Pool : Type 0 where
  pub queue : List ℕ
  pub closed : Bool
  pub waiting : ℕ
  pub running : List ℕ
  pub gone : ℕ
  pub results : ℕ → Findings
  pub first_err : Option EvaluateError

abbrev pub write : (ℕ → Findings) → ℕ → Findings → ℕ → Findings
write f i r j = if j == i then r else f j

-- errOnce.Do
abbrev pub keep_first : Option EvaluateError → EvaluateError → Option EvaluateError
keep_first none e = some e
keep_first (some d) e = some d

-- What a worker does with its index when it has the outcome; it goes back to the channel in either case.
unfoldable pub settle : ℕ → JobOutcome → List ℕ → Pool → Pool
settle i (ok r) others s = record s {
  waiting = suc s.waiting;
  running = others;
  results = write s.results i r;
}
settle i (err e) others s = record s {
  waiting = suc s.waiting;
  running = others;
  first_err = keep_first s.first_err e;
}

abbrev pub indices_from : ℕ → ℕ → List ℕ
indices_from i zero = []
indices_from i (suc n) = i ∷ indices_from (suc i) n

-- The state when all workers are started.
abbrev pub start : ℕ → ℕ → Pool
start workers n = record {
  queue = indices_from 0 n;
  closed = false;
  waiting = workers;
  running = [];
  gone = 0;
  results = λ _. no_findings;
  first_err = none;
}

keep_first-ne-none : (o : Option EvaluateError) (e : EvaluateError) → keep_first o e ≢ none
keep_first-ne-none none e h = cc
keep_first-ne-none (some d) e h = cc

module _ (outcome : ℕ → JobOutcome) where
  pub data Step (s t : Pool) : Type 0 where
    receive :
        (i : ℕ) (rest : List ℕ) (others : ℕ)
        → s.queue ≡ i ∷ rest
        → s.waiting ≡ suc others
        → t ≡ record s { queue = rest; waiting = others; running = i ∷ s.running }
        → Step s t
    finish :
        (before : List ℕ) (i : ℕ) (after : List ℕ)
        → s.running ≡ before ++ i ∷ after
        → t ≡ settle i (outcome i) (before ++ after) s
        → Step s t
    close : s.queue ≡ [] → s.closed ≡ false → t ≡ record s { closed = true } → Step s t
    leave :
        (others : ℕ)
        → s.closed ≡ true
        → s.waiting ≡ suc others
        → t ≡ record s { waiting = others; gone = suc s.gone }
        → Step s t

  pub data Reach (s : Pool) : Pool → Type 0 where
    here : Reach s s
    next : {t u : Pool} → Reach s t → Step t u → Reach s u

  abbrev pub IsDone : Pool → Type 0
  IsDone s = (s.queue ≡ []) × (s.running ≡ [])

  abbrev is_pending : Pool → ℕ → Bool
  is_pending s j = any (λ i. j == i) s.queue || any (λ i. j == i) s.running

  -- What an index that no worker has to deal with any more has led to.
  abbrev IsSettled : Pool → ℕ → Type 0
  IsSettled s j =
      (outcome j ≡ ok (s.results j))
      ⊎ ((e : EvaluateError) × (outcome j ≡ err e) × (s.first_err ≢ none))

  record IsConsistent (n : ℕ) (s : Pool) : Type 0 where
    settled : (j : ℕ) → j < n → is_pending s j ≡ false → IsSettled s j
    blamed : (e : EvaluateError) → s.first_err ≡ some e → (j : ℕ) × (outcome j ≡ err e)

  any-indices : (j i n : ℕ) → i ≤ j → j < i + n → any (λ k. j == k) (indices_from i n) ≡ true
  any-indices j i zero h k = absurd (omega arith)
  any-indices j i (suc n) h k = elim (Bool-cases (j == i)) [
    | inl e ↦ rw e
    | inr e ↦ rw (e, any-indices j (suc i) n (ground arith) (omega arith))
  ]

  start-IsConsistent : (workers n : ℕ) → IsConsistent n (start workers n)
  start-IsConsistent workers n = record {
    settled = λ j h p. absurd (ground (arith, any-indices j 0 n (omega arith) (omega arith)));
    blamed = λ e h. absurd (ground arith);
  }

  any-without :
      (before : List ℕ) (i : ℕ) (after : List ℕ) (j : ℕ)
      → (j == i) ≡ false
      → any (λ k. j == k) (before ++ i ∷ after) ≡ any (λ k. j == k) (before ++ after)
  any-without [] i after j e = rw e
  any-without (k ∷ before) i after j e = ground (arith, any-without before i after j e)

  settle-IsSettled :
      (s : Pool) (before : List ℕ) (i : ℕ) (after : List ℕ) (j : ℕ)
      → s.running ≡ before ++ i ∷ after
      → (o : JobOutcome) → outcome i ≡ o
      → (is_pending s j ≡ false → IsSettled s j)
      → (any (λ k. j == k) s.queue || any (λ k. j == k) (before ++ after)) ≡ false
      → IsSettled (settle i o (before ++ after) s) j
  unfolding settle
  settle-IsSettled s before i after j r (ok f) q old p = elim (Bool-cases (j == i)) [
    | inl e ↦ inl (ap outcome ((==_iff j i).0 e) ∙ q ∙ rw e)
    | inr e ↦ elim (old (rw (r, any-without before i after j e) p)) [
      | inl fine ↦ inl (rw e fine)
      | inr (d, bad, kept) ↦ inr (d, bad, kept)
    ]
  ]
  settle-IsSettled s before i after j r (err d) q old p = elim (Bool-cases (j == i)) [
    | inl e ↦ inr (d, ap outcome ((==_iff j i).0 e) ∙ q, keep_first-ne-none s.first_err d)
    | inr e ↦ elim (old (rw (r, any-without before i after j e) p)) [
      | inl fine ↦ inl fine
      | inr (d', bad, kept) ↦ inr (d', bad, keep_first-ne-none s.first_err d)
    ]
  ]

  settle-blamed :
      (n : ℕ) (s : Pool) (others : List ℕ) (i : ℕ) (o : JobOutcome)
      → outcome i ≡ o
      → IsConsistent n s
      → (e : EvaluateError) → (settle i o others s).first_err ≡ some e
      → (j : ℕ) × (outcome j ≡ err e)
  unfolding settle
  settle-blamed n s others i (ok f) q c e h = c.blamed e h
  settle-blamed n s others i (err d) q c e h = elim (Option-cases s.first_err) [
    | inl none_yet ↦ (i, ground arith)
    | inr (d', kept) ↦ c.blamed e (ground arith)
  ]

  pub settle-queue :
      (i : ℕ) (o : JobOutcome) (others : List ℕ) (s : Pool)
      → ((settle i o others s).queue ≡ s.queue)
        × ((settle i o others s).running ≡ others)
        × ((settle i o others s).waiting ≡ suc s.waiting)
        × ((settle i o others s).gone ≡ s.gone)
        × ((settle i o others s).closed ≡ s.closed)
  unfolding settle
  settle-queue i (ok f) others s = (refl, refl, refl, refl, refl)
  settle-queue i (err e) others s = (refl, refl, refl, refl, refl)

  Step-IsConsistent : (n : ℕ) {s t : Pool} → Step s t → IsConsistent n s → IsConsistent n t
  Step-IsConsistent n {s} {t} (receive i rest others e room q) c = record {
    settled = λ j h p.
        let old : is_pending s j ≡ false = rw e (ground (arith, ap (λ u. is_pending u j) q)) in
        rw q (c.settled j h old);
    blamed = λ d h. c.blamed d (sym (ap (λ (u : Pool). u.first_err) q) ∙ h);
  }
  Step-IsConsistent n {s} {t} (finish before i after r q) c = rw q (record {
    settled = λ j h p.
        let sq = settle-queue i (outcome i) (before ++ after) s in
        settle-IsSettled s before i after j r (outcome i) refl (c.settled j h)
          (rw (sq.0, sq.1) at p);
    blamed = settle-blamed n s (before ++ after) i (outcome i) refl c;
  })
  Step-IsConsistent n {s} {t} (close e o q) c =
      rw q (record { settled = λ j h p. c.settled j h p; blamed = c.blamed })
  Step-IsConsistent n {s} {t} (leave others e w q) c =
      rw q (record { settled = λ j h p. c.settled j h p; blamed = c.blamed })

  Reach-IsConsistent : (n : ℕ) {s t : Pool} → Reach s t → IsConsistent n s → IsConsistent n t
  Reach-IsConsistent n here c = c
  Reach-IsConsistent n (next r st) c = Step-IsConsistent n st (Reach-IsConsistent n r c)

-- The outcome at an index.
abbrev pub outcome_at : List JobOutcome → ℕ → JobOutcome
outcome_at [] i = ok no_findings
outcome_at (o ∷ os) zero = o
outcome_at (o ∷ os) (suc i) = outcome_at os i

all_results-of :
    (f : ℕ → Findings) (i : ℕ) (os : List JobOutcome)
    → ((j : ℕ) → j < length os → outcome_at os j ≡ ok (f (i + j)))
    → all_results os ≡ ok (map f (indices_from i (length os)))
unfolding all_results
all_results-of f i [] h = refl
all_results-of f i (o ∷ os) h =
    let first : o ≡ ok (f i) = h 0 (omega arith) ∙ ap (λ k. ok (f k)) (omega arith) in
    let later =
      all_results-of f (suc i) os
        (λ j lt. h (suc j) (omega arith) ∙ ap (λ k. ok (f k)) (omega arith)) in
    rw (first, later)

-- Condition: the workers, on whatever schedule, have come to a state with nothing left to do. If no
-- error was kept, the results slice holds what evaluating the jobs one after the other gives; an
-- error that was kept is one of a job's.
pub workers-all_results :
    (workers : ℕ) (os : List JobOutcome) {s : Pool}
    → Reach (outcome_at os) (start workers (length os)) s
    → IsDone (outcome_at os) s
    → ((s.first_err ≡ none → all_results os ≡ ok (map s.results (indices_from 0 (length os))))
        × ((e : EvaluateError) → s.first_err ≡ some e → (j : ℕ) × (outcome_at os j ≡ err e)))
workers-all_results workers os {s} r d =
    let c =
      Reach-IsConsistent (outcome_at os) (length os) r
        (start-IsConsistent (outcome_at os) workers (length os)) in
    (
      λ fine. all_results-of s.results 0 os (λ j lt. elim (c.settled j lt (rw (d.0, d.1))) [
        | inl done ↦ done ∙ ap (λ k. ok (s.results k)) (omega arith)
        | inr (e, bad, kept) ↦ absurd (kept fine)
      ]),
      c.blamed,
    )
