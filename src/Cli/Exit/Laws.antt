-- ===== src/Cli/Exit/Laws.antt =====
-- What the exit code of a scan says: `exitStatus` of internal/cli/scan.go.
use jenkins_bench.Prelude.{
  ℕ, ◌+◌, ◌*◌, ◌≤◌, ◌≡◌, ◌≢◌, ◌↔◌, refl, ap, ◌⊎◌, inl, inr, true, false, none, some, List, [], ◌∷◌,
  arith, Bool-cases, Option-cases, All,
}
use jenkins_bench.Prelude.Text.{Text, codes, equal_fold}
use jenkins_bench.Prelude.Int.{ℤ, pos, negsuc, pos_part}
use jenkins_bench.Checks.{weight}
use jenkins_bench.Config.{Scan}
use jenkins_bench.Engine.{fail, Finding}
use jenkins_bench.Engine.Score.{has_failure_at_or_above}
use jenkins_bench.Engine.Evaluate.{Report, no_jobs_audited}
use jenkins_bench.Cli.Exit.{
  exit_ok, exit_findings, exit_error, ExitError, unread, manual_gate, score_gate, failure_gate,
  looked, exit_status, exit_code, scan_error,
}

-- A failure that nobody has accepted, at or above a threshold.
abbrev pub IsBreach : Text → Finding → Type 0
IsBreach threshold f =
    (f.status ≡ fail) × (f.waiver ≡ none) × (weight threshold ≤ weight f.severity)

has_failure-none :
    (fs : List Finding) (threshold : Text)
    → has_failure_at_or_above fs threshold ≡ false
    → All (λ f. ¬ IsBreach threshold f) fs
unfolding has_failure_at_or_above
has_failure-none [] threshold h = tt
has_failure-none (f ∷ fs) threshold h =
    (λ b. ground arith, has_failure-none fs threshold (ground arith))

none-has_failure :
    (fs : List Finding) (threshold : Text)
    → All (λ f. ¬ IsBreach threshold f) fs
    → has_failure_at_or_above fs threshold ≡ false
unfolding has_failure_at_or_above
none-has_failure [] threshold h = refl
none-has_failure (f ∷ fs) threshold h =
    let breach : IsBreach threshold f → ⊥ = h.0 in
    ground (arith, none-has_failure fs threshold h.1, breach)

-- All that exit code 0 vouches for.
pub record IsClean (rep : Report) (scan : Scan) : Type 0 where
  pub evaluated : rep.errors ≡ []
  pub listed : (rep.coverage.complete ≡ true) ⊎ (scan.allow_incomplete ≡ true)
  pub audited : (rep.coverage.job_controls ≡ 0) ⊎ (rep.coverage.jobs ≢ 0)
  pub seen :
      (m : ℕ)
      → scan.max_manual ≡ pos m
      → unread rep.findings * 100 ≤ m * (rep.score.passed + rep.score.failed + unread rep.findings)
  pub scored : (m : ℕ) → scan.fail_under ≡ pos m → m ≤ rep.score.value
  pub sound :
      (equal_fold scan.fail_on (codes "none") ≡ true)
      ⊎ All (λ f. ¬ IsBreach scan.fail_on f) rep.findings

-- The scan looked: every policy ran, the job list is whole or accepted as it is, and if the run
-- asked about jobs there was one to ask about.
abbrev pub HasLooked : Report → Scan → Type 0
HasLooked rep scan =
    (rep.errors ≡ [])
    × ((rep.coverage.complete ≡ true) ⊎ (scan.allow_incomplete ≡ true))
    × ((rep.coverage.job_controls ≡ 0) ⊎ (rep.coverage.jobs ≢ 0))

looked_iff : (rep : Report) (scan : Scan) → (looked rep scan ≡ none) ↔ HasLooked rep scan
unfolding looked no_jobs_audited
looked_iff rep scan = (λ h. (ground arith, ground arith, ground arith), λ h. ground arith)

manual_gate-seen :
    (rep : Report) (z : ℤ) (m : ℕ)
    → manual_gate rep z ≡ none
    → z ≡ pos m
    → unread rep.findings * 100 ≤ m * (rep.score.passed + rep.score.failed + unread rep.findings)
unfolding manual_gate
manual_gate-seen rep (negsuc n) m h e = cc
manual_gate-seen rep (pos k) m h e = rw (← ap pos_part e) (ground arith)

score_gate-scored :
    (rep : Report) (z : ℤ) (m : ℕ) → score_gate rep z ≡ none → z ≡ pos m → m ≤ rep.score.value
unfolding score_gate
score_gate-scored rep (negsuc n) m h e = cc
score_gate-scored rep (pos k) m h e = ground arith

failure_gate_sound :
    (rep : Report) (fail_on : Text)
    → failure_gate rep fail_on ≡ none
    → (equal_fold fail_on (codes "none") ≡ true) ⊎ All (λ f. ¬ IsBreach fail_on f) rep.findings
unfolding failure_gate
failure_gate_sound rep fail_on h = elim (Bool-cases (equal_fold fail_on (codes "none"))) [
  | inl off ↦ inl off
  | inr on ↦ inr (has_failure-none rep.findings fail_on (ground arith))
]

exit_status-IsClean : (rep : Report) (scan : Scan) → exit_status rep scan ≡ none → IsClean rep scan
unfolding exit_status
exit_status-IsClean rep scan h =
    let l = (looked_iff rep scan).0 (ground arith) in
    record {
      evaluated = l.0;
      listed = l.1;
      audited = l.2;
      seen = λ m e. manual_gate-seen rep scan.max_manual m (ground arith) e;
      scored = λ m e. score_gate-scored rep scan.fail_under m (ground arith) e;
      sound = failure_gate_sound rep scan.fail_on (ground arith);
    }

seen-manual_gate :
    (rep : Report) (z : ℤ)
    → ((m : ℕ)
        → z ≡ pos m
        → unread rep.findings * 100
          ≤ m * (rep.score.passed + rep.score.failed + unread rep.findings))
    → manual_gate rep z ≡ none
unfolding manual_gate
seen-manual_gate rep (negsuc n) h = refl
seen-manual_gate rep (pos m) h = let b = h m refl in ground arith

scored-score_gate :
    (rep : Report) (z : ℤ) → ((m : ℕ) → z ≡ pos m → m ≤ rep.score.value) → score_gate rep z ≡ none
unfolding score_gate
scored-score_gate rep (negsuc n) h = refl
scored-score_gate rep (pos m) h = let b = h m refl in ground arith

sound-failure_gate :
    (rep : Report) (fail_on : Text)
    → (equal_fold fail_on (codes "none") ≡ true) ⊎ All (λ f. ¬ IsBreach fail_on f) rep.findings
    → failure_gate rep fail_on ≡ none
unfolding failure_gate
sound-failure_gate rep fail_on (inl off) = rw off
sound-failure_gate rep fail_on (inr all) =
    let b = none-has_failure rep.findings fail_on all in ground arith

IsClean-exit_status : (rep : Report) (scan : Scan) → IsClean rep scan → exit_status rep scan ≡ none
unfolding exit_status
IsClean-exit_status rep scan c = rw (
  (looked_iff rep scan).1 (c.evaluated, c.listed, c.audited),
  seen-manual_gate rep scan.max_manual c.seen,
  scored-score_gate rep scan.fail_under c.scored,
  sound-failure_gate rep scan.fail_on c.sound,
)

looked-code :
    (rep : Report) (scan : Scan) {e : ExitError} → looked rep scan ≡ some e → e.code ≡ exit_error
unfolding looked
looked-code rep scan h = ground arith

manual_gate-code :
    (rep : Report) (z : ℤ) {e : ExitError} → manual_gate rep z ≡ some e → e.code ≡ exit_findings
unfolding manual_gate
manual_gate-code rep (negsuc n) h = cc
manual_gate-code rep (pos m) h = ground arith

score_gate-code :
    (rep : Report) (z : ℤ) {e : ExitError} → score_gate rep z ≡ some e → e.code ≡ exit_findings
unfolding score_gate
score_gate-code rep (negsuc n) h = cc
score_gate-code rep (pos m) h = ground arith

failure_gate-code :
    (rep : Report) (fail_on : Text) {e : ExitError}
    → failure_gate rep fail_on ≡ some e
    → e.code ≡ exit_findings
unfolding failure_gate
failure_gate-code rep fail_on h = ground arith

exit_status-looked :
    (rep : Report) (scan : Scan) {e : ExitError}
    → looked rep scan ≡ some e
    → exit_status rep scan ≡ some e
unfolding exit_status
exit_status-looked rep scan l = rw l

-- A breached threshold: the scan looked, and what it saw is not clean.
gates-code :
    (rep : Report) (scan : Scan) {e : ExitError}
    → looked rep scan ≡ none
    → exit_status rep scan ≡ some e
    → e.code ≡ exit_findings
unfolding exit_status
gates-code rep scan {e} l h = elim (Option-cases (manual_gate rep scan.max_manual)) [
  | inr (d, q) ↦ ground (arith, manual_gate-code rep scan.max_manual q)
  | inl m ↦ elim (Option-cases (score_gate rep scan.fail_under)) [
    | inr (d, q) ↦ ground (arith, score_gate-code rep scan.fail_under q)
    | inl s ↦ failure_gate-code rep scan.fail_on {e = e} (ground arith)
  ]
]

-- Exit code 0 says exactly that the report is clean: every policy ran, the jobs were all listed
-- (or an incomplete list is accepted), jobs were audited if any were asked about, enough could be
-- read, the score is not below its threshold, and no unaccepted failure is at or above failOn.
pub exit_code_zero :
    (rep : Report) (scan : Scan) → (exit_code (scan_error rep scan) ≡ exit_ok) ↔ IsClean rep scan
unfolding exit_code
exit_code_zero rep scan = elim (Option-cases (exit_status rep scan)) [
  | inl n ↦ (λ h. exit_status-IsClean rep scan n, λ c. ground arith)
  | inr (e, q) ↦ (
    λ h. absurd (not_zero e q (ground arith)),
    λ c. absurd (ground (arith, IsClean-exit_status rep scan c)),
  )
]
  where
    not_zero : (e : ExitError) → exit_status rep scan ≡ some e → e.code ≡ 0 → ⊥
    not_zero e q z = elim (Option-cases (looked rep scan)) [
      | inl n ↦ ground (arith, gates-code rep scan n q)
      | inr (d, l) ↦ ground (arith, looked-code rep scan l, exit_status-looked rep scan l)
    ]

-- Exit code 2 says exactly that the scan failed to look: a policy did not run, part of the job tree
-- was not listed and that is not accepted, or jobs were asked about and there was none.
pub exit_code_two :
    (rep : Report) (scan : Scan)
    → (exit_code (scan_error rep scan) ≡ exit_error) ↔ (¬ HasLooked rep scan)
unfolding exit_code
exit_code_two rep scan = elim (Option-cases (looked rep scan)) [
  | inl n ↦ (
    λ h. elim (Option-cases (exit_status rep scan)) [
      | inl q ↦ absurd (ground arith)
      | inr (e, q) ↦ absurd (ground (arith, gates-code rep scan n q))
    ],
    λ h. absurd (h ((looked_iff rep scan).0 n)),
  )
  | inr (e, l) ↦ (
    λ h k. ground (arith, (looked_iff rep scan).1 k),
    λ h. ground (arith, exit_status-looked rep scan l, looked-code rep scan l),
  )
]

-- A scan that does not end with 2 has looked.
pub exit_code-HasLooked :
    (rep : Report) (scan : Scan) → exit_code (scan_error rep scan) ≢ exit_error → HasLooked rep scan
exit_code-HasLooked rep scan h = elim (Option-cases (looked rep scan)) [
  | inl n ↦ (looked_iff rep scan).0 n
  | inr (e, l) ↦
      absurd (h ((exit_code_two rep scan).1 (λ k. ground (arith, (looked_iff rep scan).1 k, l))))
]
