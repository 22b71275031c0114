-- ===== src/Engine/Evaluate/Workers/Progress.antt =====
-- The workers of `evaluateJobs` in internal/engine/engine.go never wait for each other for ever.
use jenkins_bench.Prelude.{
  ℕ, zero, suc, ◌+◌, ◌*◌, ◌<◌, ◌≡◌, refl, sym, ap, ◌∙◌, ◌⊎◌, inl, inr, Bool, true, false, none,
  List, [], ◌∷◌, ◌++◌, map, length, arith, if◌then◌else◌,
}
use jenkins_bench.Prelude.Result.{ok}
use jenkins_bench.Engine.Evaluate.{JobOutcome, all_results}
use jenkins_bench.Engine.Evaluate.Workers.{
  Pool, settle, start, indices_from, Step, receive, finish, close, leave, Reach, here, next, IsDone,
  settle-queue, outcome_at, workers-all_results,
}

length-without :
    (before : List ℕ) (i : ℕ) (after : List ℕ)
    → length (before ++ i ∷ after) ≡ suc (length (before ++ after))
length-without [] i after = refl
length-without (k ∷ before) i after = ap suc (length-without before i after)

-- Every worker waits, evaluates or has returned; none returns before the channel is closed, nor is the channel closed
-- with an index left to send.
record IsStaffed (workers : ℕ) (s : Pool) : Type 0 where
  all_there : s.waiting + length s.running + s.gone ≡ workers
  early : s.closed ≡ false → s.gone ≡ 0
  sent : s.closed ≡ true → s.queue ≡ []

-- How much is left to do.
abbrev pub work_left : Pool → ℕ
work_left s = 3 * length s.queue + 2 * length s.running + s.waiting + (if s.closed then 0 else 1)

module _ (outcome : ℕ → JobOutcome) where
  Step-work_left : {s t : Pool} → Step outcome s t → work_left t < work_left s
  Step-work_left {s} {t} (receive i rest others e w q) = rw (q, e, w) (omega arith)
  Step-work_left {s} {t} (finish before i after r q) =
      let sq = settle-queue outcome i (outcome i) (before ++ after) s in
      rw (q, sq.0, sq.1, sq.2, sq.4, r, length-without before i after) (omega arith)
  Step-work_left {s} {t} (close e o q) = rw (q, o) (omega arith)
  Step-work_left {s} {t} (leave others e w q) = rw (q, w) (omega arith)

  Step-IsStaffed :
      (workers : ℕ) {s t : Pool} → Step outcome s t → IsStaffed workers s → IsStaffed workers t
  Step-IsStaffed workers {s} {t} (receive i rest others e w q) h = rw q (record {
    all_there = omega (arith, h.all_there, w);
    early = h.early;
    sent = λ c. absurd (cc (h.sent c, e));
  })
  Step-IsStaffed workers {s} {t} (finish before i after r q) h =
      let sq = settle-queue outcome i (outcome i) (before ++ after) s in
      rw q (record {
        all_there = omega (
          arith,
          h.all_there,
          ap length r,
          length-without before i after,
          ap length sq.1,
          sq.2,
          sq.3,
        );
        early = λ c. sq.3 ∙ h.early (sym sq.4 ∙ c);
        sent = λ c. sq.0 ∙ h.sent (sym sq.4 ∙ c);
      })
  Step-IsStaffed workers {s} {t} (close e o q) h =
      rw q (record { all_there = h.all_there; early = λ c. absurd (cc c); sent = λ c. e })
  Step-IsStaffed workers {s} {t} (leave others e w q) h = rw q (record {
    all_there = omega (arith, h.all_there, w);
    early = λ c. absurd (cc (c, e));
    sent = h.sent;
  })

  Reach-IsStaffed :
      (workers n : ℕ) {s : Pool} → Reach outcome (start workers n) s → IsStaffed workers s
  Reach-IsStaffed workers n here = record {
    all_there = omega arith;
    early = λ c. refl;
    sent = λ c. absurd (cc c);
  }
  Reach-IsStaffed workers n (next r st) = Step-IsStaffed workers st (Reach-IsStaffed workers n r)

  step_or_over :
      (workers : ℕ) (s : Pool)
      → 0 < workers
      → IsStaffed workers s
      → (queue running : List ℕ) (waiting : ℕ) (closed : Bool) → s.queue ≡ queue
      → s.running ≡ running
      → s.waiting ≡ waiting
      → s.closed ≡ closed
      → (IsDone outcome s × (s.gone ≡ workers)) ⊎ ((t : Pool) × Step outcome s t)
  step_or_over workers s some h queue (i ∷ rs) waiting closed eq er ew ec =
      inr (settle i (outcome i) rs s, finish [] i rs er refl)
  step_or_over workers s some h (i ∷ rest) [] (suc others) closed eq er ew ec =
      inr (_, receive i rest others eq ew refl)
  step_or_over workers s some h (i ∷ rest) [] zero true eq er ew ec = absurd (cc (h.sent ec, eq))
  step_or_over workers s some h (i ∷ rest) [] zero false eq er ew ec =
      absurd (omega (arith, some, h.all_there, ap length er, ew, h.early ec))
  step_or_over workers s some h [] [] waiting false eq er ew ec = inr (_, close eq ec refl)
  step_or_over workers s some h [] [] (suc others) true eq er ew ec =
      inr (_, leave others ec ew refl)
  step_or_over workers s some h [] [] zero true eq er ew ec =
      inl ((eq, er), omega (arith, h.all_there, ap length er, ew))

-- Condition: there is a worker, and the state is one that some schedule of the workers and the sender comes to. Every
-- step from it leaves less to do. There is a step, or all is over: every worker has returned, no index is left, and
-- unless an error was kept the results slice holds what evaluating the jobs one after the other gives.
pub pool_progress :
    (workers : ℕ) (os : List JobOutcome) {s : Pool}
    → 0 < workers
    → Reach (outcome_at os) (start workers (length os)) s
    → ((t : Pool) → Step (outcome_at os) s t → work_left t < work_left s)
      × (((s.gone ≡ workers)
            × (s.queue ≡ [])
            × (s.running ≡ [])
            × (s.first_err ≡ none
                → all_results os ≡ ok (map s.results (indices_from 0 (length os)))))
          ⊎ ((t : Pool) × Step (outcome_at os) s t))
pool_progress workers os {s} some r = (
  λ t st. Step-work_left (outcome_at os) st,
  elim (step_or_over (outcome_at os) workers s some
      (Reach-IsStaffed (outcome_at os) workers (length os) r) s.queue s.running s.waiting s.closed
      refl refl refl refl) [
        | inl (done, gone) ↦ inl (gone, done.0, done.1, (workers-all_results workers os r done).0)
        | inr t ↦ inr t
      ],
)
