-- ===== src/Report/Lines/Laws.antt =====
-- The sections of the default report body, `writeFindingLines` of internal/report/lines.go: which findings they
-- show.
use jenkins_bench.Prelude.{
  ◌+◌, ◌≤◌, Bool, true, false, not, ◌&&◌, ◌||◌, ◌≡◌, refl, ◌∙◌, inl, inr, List, [], ◌∷◌, any,
  any-append, keep, count_if, count_if-keep, sum_of, length, ◌==◌, if◌then◌else◌, Bool-cases, arith,
}
use jenkins_bench.Prelude.Text.{Text, text_eq, text_eq_iff}
use jenkins_bench.Engine.{pass, na, Finding}
use jenkins_bench.Report.{Options, is_status, is_waived, unread}
use jenkins_bench.Report.Remedies.{is_in}
use jenkins_bench.Report.Groups.Laws.{listed, is_at, group_by_control_details_lem}
use jenkins_bench.Report.Lines.{
  is_failing, is_passing, is_to_review, is_not_applicable, Unread, add_last, note_unread,
  collect_unread, unread_summary, less_controller, controller_first, sections_of,
}

is_in-add_last :
    (id key : Text) (keys : List Text)
    → is_in id (add_last key keys) ≡ (text_eq key id || is_in id keys)
is_in-add_last id key keys =
    ground (arith, any-append (λ k. text_eq k id) keys (key ∷ []), text_eq_iff key id)

ids-note_unread :
    (id : Text) (f : Finding) (u : Unread)
    → is_in id (note_unread f u).ids ≡ (is_in id u.ids || (unread f && text_eq f.check_id id))
unfolding note_unread
ids-note_unread id f u = elim (Bool-cases (unread f)) [
  | inl e ↦ rw e (is_in-add_last id f.check_id u.ids ∙ ground arith)
  | inr e ↦ rw e (ground arith)
]

collect_unread-ids :
    (id : Text) (u : Unread) (fs : List Finding)
    → is_in id (collect_unread u fs).ids
      ≡ (is_in id u.ids || any (λ f. unread f && text_eq f.check_id id) fs)
unfolding collect_unread
collect_unread-ids id u [] = ground arith
collect_unread-ids id u (f ∷ fs) =
    ground (arith, collect_unread-ids id (note_unread f u) fs, ids-note_unread id f u)

-- The list of the summary holds every control that went unread on some resource, and no other.
unread_summary_lem :
    (fs : List Finding) (id : Text)
    → is_in id (unread_summary fs).1 ≡ any (λ f. unread f && text_eq f.check_id id) fs
unfolding unread_summary
unread_summary_lem fs id = ground (
  arith,
  collect_unread-ids id (record { ids = []; resources = []; last = [] }) fs,
  nothing_in id (collect_unread (record { ids = []; resources = []; last = [] }) fs).ids,
)
  where
    nothing_in : (k : Text) (ks : List Text) → (length ks == 0) ≡ true → is_in k ks ≡ false
    nothing_in k [] e = refl
    nothing_in k (j ∷ ks) e = ground (arith, e)

-- A finding that the body leaves out unless passed controls are asked for.
abbrev pub is_hidden : Options → Finding → Bool
is_hidden opts f = not opts.show_passed && (is_status f.status pass || is_status f.status na)

covers :
    (opts : Options) (p : Finding → Bool) (fs : List Finding)
    → count_if p fs
      ≤ count_if (λ f. is_failing f && p f) fs
        + count_if (λ f. is_passing opts f && p f) fs
        + count_if (λ f. is_to_review f && p f) fs
        + (if opts.show_passed then count_if (λ f. is_not_applicable f && p f) fs else 0)
        + count_if (λ f. is_waived f && p f) fs
        + count_if (λ f. (unread f || is_hidden opts f) && p f) fs
unfolding unread
covers opts p [] = omega arith
covers opts p (f ∷ fs) = ground (arith, covers opts p fs)

module _ (stable : (Finding → Finding → Bool) → List Finding → List Finding)
    (keeps : (less : Finding → Finding → Bool) (fs : List Finding) (p : Finding → Bool)
      → count_if p (stable less fs) ≡ count_if p fs) where
  count-first :
      (q p : Finding → Bool) (fs : List Finding)
      → count_if p (controller_first stable (keep q fs)) ≡ count_if (λ f. q f && p f) fs
  unfolding controller_first
  count-first q p fs = keeps less_controller (keep q fs) p ∙ count_if-keep p q fs

  -- The sections that are printed leave no finding out, whatever its control, its reason and its resource: it stands among the
  -- failures, the passes, the accepted ones or in a group, or it went unread or is a pass or not applicable where
  -- passed controls are not asked for. The list of unread controls, of which the output names six at most, holds a
  -- control exactly if it went unread on a resource.
  pub sections_of_lem :
      (fs : List Finding) (opts : Options) (key resource : Text)
      → let s = sections_of stable fs opts in
        let at = is_at key resource in
        (count_if at fs
          ≤ count_if at s.fails
            + count_if at s.passes
            + sum_of (listed key resource) s.manuals
            + sum_of (listed key resource) s.nas
            + count_if at s.accepted
            + count_if (λ f. (unread f || is_hidden opts f) && at f) fs)
        × ((id : Text) → is_in id s.unread_ids ≡ any (λ f. unread f && text_eq f.check_id id) fs)
  unfolding sections_of
  sections_of_lem fs opts key resource =
      let at = is_at key resource in
      (
        ground (
          arith,
          covers opts at fs,
          count-first is_failing at fs,
          count-first (is_passing opts) at fs,
          count-first is_waived at fs,
          group_by_control_details_lem fs is_to_review key resource,
          group_by_control_details_lem fs is_not_applicable key resource,
        ),
        unread_summary_lem fs,
      )
