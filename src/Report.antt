-- ===== src/Report.antt =====
-- internal/report: how the findings of a report are shown, of table.go, lines.go and junit.go. Output is the
-- list of the lines written, and for JUnit the tree that is encoded.
pub mod Tally
pub mod Details
pub mod Remedies
pub mod Groups
pub mod Lines
pub mod Prose
pub mod Sections
pub mod Summary
pub mod Rules
pub mod Table
pub mod Junit
use jenkins_bench.Prelude.{
  ℕ, suc, ◌+◌, Bool, true, false, not, ◌&&◌, ◌||◌, Option, none, some, List, [], ◌∷◌, ◌++◌, ◌==◌,
  if◌then◌else◌, count_if, keep,
}
use jenkins_bench.Prelude.Text.{Text, codes, is_empty, join, to_upper, text_eq, has_prefix}
use jenkins_bench.Prelude.Words.{contains}
use jenkins_bench.Checks.{severity_high, severity_medium}
use jenkins_bench.Engine.{Status, pass, fail, manual, na, Waiver, Finding}
use jenkins_bench.Console.Paint.{Painter, paint, red, green, yellow, dim}

-- The fields of Options that the table reads. A cap of 0 stands for those below 0 too.
pub record Options : Type 0 where
  pub show_passed : Bool
  pub max_resources : ℕ
  pub no_remediations : Bool

abbrev pub is_status : Status → Status → Bool
is_status pass pass = true
is_status fail fail = true
is_status manual manual = true
is_status na na = true
is_status _ _ = false

abbrev pub is_waived : Finding → Bool
is_waived f = elim f.waiver [ none ↦ false | some w ↦ true ]

-- unread
unfoldable pub unread : Finding → Bool
unread f = is_status f.status manual && f.automated

abbrev pub status_fail : Text
status_fail = codes "FAIL"

abbrev pub status_unread : Text
status_unread = codes "UNREAD"

abbrev pub status_manual : Text
status_manual = codes "MANUAL"

abbrev pub status_pass : Text
status_pass = codes "PASS"

abbrev pub status_na : Text
status_na = codes "N/A"

-- statusLabel
unfoldable pub status_label : Finding → Text
unfolding unread
status_label f =
    if is_status f.status fail
    then status_fail
    else if unread f
    then status_unread
    else if is_status f.status manual
    then status_manual
    else if is_status f.status pass
    then status_pass
    else status_na

-- statusColour
unfoldable pub status_colour : Painter → Text → Text
status_colour p s =
    if text_eq s status_fail
    then paint p red s
    else if text_eq s status_unread || text_eq s status_manual
    then paint p yellow s
    else if text_eq s status_pass
    then paint p green s
    else paint p dim s

-- severityColour
unfoldable pub severity_colour : Painter → Text → Text
severity_colour p s =
    if text_eq (to_upper s) severity_high
    then paint p red s
    else if text_eq (to_upper s) severity_medium
    then paint p yellow s
    else paint p dim s

-- acceptedNote
unfoldable pub accepted_note : Waiver → Text
accepted_note w =
    let note = codes "accepted until " ++ w.expires ++ codes ": " ++ w.reason in
    if is_empty w.owner then note else note ++ codes " (" ++ w.owner ++ codes ")"

-- The front of strings.Cut at ". ", if it is there.
unfoldable pub first_sentence : Text → Option Text
first_sentence [] = none
first_sentence (c ∷ s) =
    let rest : Option Text = elim (first_sentence s) [ none ↦ none | some t ↦ some (c ∷ t) ] in
    if has_prefix (c ∷ s) (codes ". ") then some [] else rest

-- fixLine
unfoldable pub fix_line : Finding → Text
fix_line f =
    if is_empty f.fix_summary
    then (elim (first_sentence f.remediation) [
      | none ↦ f.remediation
      | some sentence ↦ sentence ++ b'.' ∷ []
    ])
    else f.fix_summary

-- referenceLine
unfoldable pub reference_line : List Text → Text
reference_line [] = []
reference_line (r ∷ refs) =
    let rest = reference_line refs in if contains r (codes "cisecurity.org") then rest else r

-- acceptedFailures
unfoldable pub accepted_failures : List Finding → ℕ
accepted_failures = count_if (λ f. is_status f.status fail && is_waived f)

abbrev bullets : List Text → List Text
bullets [] = []
bullets (e ∷ evidence) = (0xb7 ∷ b' ' ∷ e) ∷ bullets evidence

-- findingCell
unfoldable pub finding_cell : Finding → Text
unfolding accepted_note
finding_cell f =
    let accepted : List Text = elim f.waiver [ none ↦ [] | some w ↦ accepted_note w ∷ [] ] in
    let wanted = is_status f.status fail || (is_status f.status manual && not f.automated) in
    let fix =
      if not (is_empty f.fix_summary) && wanted
      then (codes "fix: " ++ f.fix_summary) ∷ []
      else [] in
    join b'\n' ((f.details ∷ bullets f.evidence) ++ accepted ++ fix)

-- selectForSection
unfoldable pub select_for_section : List Finding → Bool → List Finding
select_for_section fs show_passed =
    keep (λ f. is_status f.status fail || is_status f.status manual || show_passed) fs
