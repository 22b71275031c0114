-- ===== src/Engine/Score/BySeverity.antt =====
-- The breakdown by severity of internal/engine/score.go.
use jenkins_bench.Prelude.{
  ℕ, ◌+◌, ◌≡◌, ◌∙◌, Bool, ◌&&◌, List, [], ◌∷◌, arith, count_if, length, if◌then◌else◌,
}
use jenkins_bench.Prelude.Text.{Text, text_eq, text_eq_iff, to_upper}
use jenkins_bench.Prelude.Assoc.{Assoc, lookup, insert, lookup-insert}
use jenkins_bench.Engine.{Status, Finding}
use jenkins_bench.Engine.Score.{
  SeverityCount, Score, counts_of, count_status, score_finding, score_loop, compute, zero_score,
}
use jenkins_bench.Engine.Score.Totals.{is_pass, is_fail, is_manual}

-- How many findings of severity `k`, in whatever case it is written, have a status.
abbrev pub count_at : Text → (Status → Bool) → List Finding → ℕ
count_at k p = count_if (λ f. text_eq (to_upper f.severity) k && p f.status)

counts_of-insert :
    (k j : Text) (c : SeverityCount) (m : Assoc SeverityCount)
    → counts_of j (insert k c m) ≡ (if text_eq k j then c else counts_of j m)
unfolding counts_of
counts_of-insert k j c m = ground (arith, lookup-insert k j c m)

score_finding-counts :
    (k : Text) (f : Finding) (s : Score)
    → counts_of k (score_finding f s).by_severity ≡ (
        if text_eq (to_upper f.severity) k
        then count_status f.status (counts_of (to_upper f.severity) s.by_severity)
        else counts_of k s.by_severity)
unfolding score_finding
score_finding-counts k f s = ground (
  arith,
  counts_of-insert (to_upper f.severity) k
      (count_status f.status (counts_of (to_upper f.severity) s.by_severity)) s.by_severity,
)

pub record AddsAt (k : Text) (fs : List Finding) (m n : Assoc SeverityCount) : Type 0 where
  pub passes : (counts_of k n).passed ≡ (counts_of k m).passed + count_at k is_pass fs
  pub fails : (counts_of k n).failed ≡ (counts_of k m).failed + count_at k is_fail fs
  pub manuals : (counts_of k n).manual ≡ (counts_of k m).manual + count_at k is_manual fs

score_loop-AddsAt :
    (k : Text) (fs : List Finding) (s : Score)
    → AddsAt k fs s.by_severity (score_loop fs s).by_severity
unfolding score_loop count_status
score_loop-AddsAt k [] s = omega arith
score_loop-AddsAt k (f ∷ fs) s = ground (
  arith,
  score_loop-AddsAt k fs (score_finding f s),
  score_finding-counts k f s,
  text_eq_iff (to_upper f.severity) k,
)

compute-AddsAt : (k : Text) (fs : List Finding) → AddsAt k fs [] (compute fs).by_severity
unfolding compute
compute-AddsAt k fs = ground (arith, score_loop-AddsAt k fs (zero_score (length fs)))

-- For every severity the breakdown holds how many of its findings passed, failed and are MANUAL.
compute-by_severity :
    (k : Text) (fs : List Finding)
    → ((counts_of k (compute fs).by_severity).passed ≡ count_at k is_pass fs)
      × ((counts_of k (compute fs).by_severity).failed ≡ count_at k is_fail fs)
      × ((counts_of k (compute fs).by_severity).manual ≡ count_at k is_manual fs)
compute-by_severity k fs =
    unfold counts_of lookup in
    (
      (compute-AddsAt k fs).passes ∙ omega arith,
      (compute-AddsAt k fs).fails ∙ omega arith,
      (compute-AddsAt k fs).manuals ∙ omega arith,
    )
