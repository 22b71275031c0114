-- ===== src/Report/Lines.antt =====
-- internal/report/lines.go: the default report body, a record for each finding. sort.SliceStable is a
-- parameter of `controller_first`, whose order is none that a sort is specified for: records of two
-- controls do not compare.
pub mod Flow
pub mod Laws
pub mod Shows
use jenkins_bench.Prelude.{
  ℕ, suc, ◌+◌, ◌-◌, Bool, true, false, not, ◌&&◌, ◌||◌, Option, none, some, List, [], ◌∷◌, ◌++◌,
  map, keep, length, take, ltb, ◌==◌, if◌then◌else◌,
}
use jenkins_bench.Prelude.Text.{Text, codes, text_eq, to_upper, is_empty}
use jenkins_bench.Prelude.Words.{byte_length, decimal, join_with}
use jenkins_bench.Engine.{Status, pass, fail, manual, na, Waiver, Finding}
use jenkins_bench.Engine.Evaluate.{instance_resource_name}
use jenkins_bench.Console.Wrap.{wrap}
use jenkins_bench.Console.Paint.{Painter, paint, bold, dim, cyan, green, yellow, pluralize}
use jenkins_bench.Report.{
  Options, is_status, is_waived, unread, status_colour, severity_colour, status_pass, status_manual,
  status_na, fix_line, accepted_note,
}
use jenkins_bench.Report.Remedies.{is_in}
use jenkins_bench.Report.Groups.{Group, count_label, group_by_control_details}
use jenkins_bench.Report.Lines.Flow.{cont_indent, flow_line}

abbrev pub status_text : Status → Text
status_text pass = codes "PASS"
status_text fail = codes "FAIL"
status_text manual = codes "MANUAL"
status_text na = codes "NA"

unfoldable pub evidence_more : Painter → List Text → List Text
evidence_more p [] = []
evidence_more p (l ∷ ls) = (cont_indent ++ codes "  " ++ paint p dim l) ∷ evidence_more p ls

unfoldable pub evidence_lines : Painter → ℕ → List Text → List Text
evidence_lines p width [] = []
evidence_lines p width (e ∷ es) =
    let rest = evidence_lines p width es in
    let lines : List Text = elim (wrap e (width - 6)) [
      | [] ↦ []
      | l ∷ ls ↦ (cont_indent ++ paint p dim (0xb7 ∷ b' ' ∷ l)) ∷ evidence_more p ls
    ] in
    lines ++ rest

-- The line of a fix.
unfoldable pub fix_lines : Painter → ℕ → Finding → List Text
fix_lines p width f =
    flow_line width (cont_indent ++ paint p bold (codes "fix:") ++ b' ' ∷ []) 9 (fix_line f)

-- writeFindingLine
unfoldable pub finding_line : Painter → ℕ → Finding → Options → List Text
finding_line p width f opts =
    let passed = is_status f.status pass in
    let label = if passed then status_pass else to_upper f.severity in
    let painted = if passed then status_colour p label else severity_colour p label in
    let head =
      paint p bold f.resource
      ++ codes "  "
      ++ paint p cyan f.check_id
      ++ b' ' ∷ painted
      ++ codes ": " in
    let head_width =
      byte_length f.resource + 2 + byte_length f.check_id + 1 + byte_length label + 2 in
    let record_lines = flow_line width head head_width f.details in
    let fixes = if opts.no_remediations then [] else fix_lines p width f in
    if is_status f.status fail
    then record_lines ++ fixes ++ evidence_lines p width f.evidence
    else record_lines

unfoldable pub finding_records : Painter → ℕ → Options → List Finding → List Text
finding_records p width opts [] = []
finding_records p width opts (f ∷ fs) =
    finding_line p width f opts ++ finding_records p width opts fs

-- writeGroupLines
unfoldable pub group_lines : Painter → ℕ → Text → List Group → Options → List Text
group_lines p width status [] opts = []
group_lines p width status (g ∷ gs) opts =
    let count = count_label g in
    let head =
      paint p cyan g.rep.check_id
      ++ b' ' ∷ status_colour p status
      ++ codes " ("
      ++ count
      ++ codes "): " in
    let head_width =
      byte_length g.rep.check_id + 1 + byte_length status + 2 + byte_length count + 3 in
    let fixes =
      if text_eq status status_manual && not opts.no_remediations
      then fix_lines p width g.rep
      else [] in
    flow_line width head head_width g.details ++ fixes ++ group_lines p width status gs opts

-- The `less` function of controllerFirst.
unfoldable pub less_controller : Finding → Finding → Bool
less_controller x y =
    text_eq x.check_id y.check_id
    && text_eq x.resource instance_resource_name
    && not (text_eq y.resource instance_resource_name)

-- What unreadSummary collects: the controls in the order of their first finding, the resources, and the
-- last one.
pub record Unread : Type 0 where
  pub ids : List Text
  pub resources : List Text
  pub last : Text

-- m[key] = true, on a set that keeps the order of insertion
abbrev pub add_last : Text → List Text → List Text
add_last k ks = if is_in k ks then ks else ks ++ k ∷ []

unfoldable pub note_unread : Finding → Unread → Unread
note_unread f u =
    if unread f
    then record {
      ids = add_last f.check_id u.ids;
      resources = add_last f.resource u.resources;
      last = f.resource;
    }
    else u

unfoldable pub collect_unread : Unread → List Finding → Unread
unfolding note_unread
collect_unread u [] = u
collect_unread u (f ∷ fs) = collect_unread (note_unread f u) fs

abbrev pub max_named_unread : ℕ
max_named_unread = 6

-- unreadSummary: the sentence, empty where nothing went unread, and the controls
unfoldable pub unread_summary : List Finding → Text × List Text
unread_summary fs =
    let u = collect_unread (record { ids = []; resources = []; last = [] }) fs in
    let where_ =
      if ltb 1 (length u.resources)
      then codes "across " ++ pluralize (length u.resources) (codes "resource")
      else codes "on " ++ u.last in
    let many = ltb max_named_unread (length u.ids) in
    let more =
      if many
      then codes " and " ++ decimal (length u.ids - max_named_unread) ++ codes " more"
      else [] in
    let named = if many then take max_named_unread u.ids else u.ids in
    let sentence =
      pluralize (length u.ids) (codes "control")
      ++ codes " could not be read (Unread) "
      ++ where_
      ++ codes ": "
      ++ join_with (codes ", ") named
      ++ more in
    if length u.ids == 0 then ([], []) else (sentence, u.ids)

-- The switch at the top of writeFindingLines.
abbrev pub is_failing : Finding → Bool
is_failing f = not (is_waived f) && is_status f.status fail

abbrev pub is_passing : Options → Finding → Bool
is_passing opts f = not (is_waived f) && is_status f.status pass && opts.show_passed

abbrev pub is_to_review : Finding → Bool
is_to_review f = is_status f.status manual && not (unread f) && not (is_waived f)

abbrev pub is_not_applicable : Finding → Bool
is_not_applicable f = is_status f.status na

unfoldable pub accepted_line : Painter → ℕ → Finding → List Text
accepted_line p width f =
    let status = status_text f.status in
    let head =
      paint p bold f.resource
      ++ codes "  "
      ++ paint p cyan f.check_id
      ++ b' ' ∷ paint p dim status
      ++ codes ": " in
    let head_width =
      byte_length f.resource + 2 + byte_length f.check_id + 1 + byte_length status + 2 in
    elim f.waiver [ none ↦ [] | some w ↦ flow_line width head head_width (accepted_note w) ]

unfoldable pub accepted_lines : Painter → ℕ → List Finding → List Text
accepted_lines p width [] = []
accepted_lines p width (f ∷ fs) = accepted_line p width f ++ accepted_lines p width fs

-- A block behind a blank line, where there is one.
abbrev pub block : List Text → List Text
block [] = []
block (l ∷ ls) = [] ∷ l ∷ ls

-- The sentence on the unread controls, with where to look.
unfoldable pub unread_sentence : List Text → List Text → Text → Text
unread_sentence warnings ids [] = []
unread_sentence [] ids (c ∷ s) =
    (c ∷ s) ++ codes "; rerun with --details=" ++ join_with (codes ",") ids ++ codes " for why."
unread_sentence (w ∷ warnings) ids (c ∷ s) = (c ∷ s) ++ codes "; see Scan warnings below."

unfoldable pub unread_block : Painter → ℕ → Text → List Text
unread_block p width [] = []
unread_block p width (c ∷ s) = [] ∷ map (λ l. paint p yellow l) (wrap (c ∷ s) width)

-- What writeFindingLines shows, section by section.
pub record Sections : Type 0 where
  pub fails : List Finding
  pub passes : List Finding
  pub manuals : List Group
  pub nas : List Group
  pub accepted : List Finding
  pub unread_ids : List Text

module _ (stable : (Finding → Finding → Bool) → List Finding → List Finding) where
  -- controllerFirst
  unfoldable pub controller_first : List Finding → List Finding
  controller_first fs = stable less_controller fs

  unfoldable pub sections_of : List Finding → Options → Sections
  sections_of fs opts = record {
    fails = controller_first (keep is_failing fs);
    passes = controller_first (keep (is_passing opts) fs);
    manuals = group_by_control_details fs is_to_review;
    nas = if opts.show_passed then group_by_control_details fs is_not_applicable else [];
    accepted = controller_first (keep is_waived fs);
    unread_ids = (unread_summary fs).1;
  }

  abbrev accepted_block : Painter → ℕ → List Finding → List Text
  accepted_block p width [] = []
  accepted_block p width (f ∷ fs) =
      []
      ∷ paint p bold (codes "Accepted by exceptions (" ++ decimal (length (f ∷ fs)) ++ codes ")")
      ∷ accepted_lines p width (f ∷ fs)

  -- writeFindingLines; `warnings` are the scan's
  unfoldable pub finding_lines : List Text → List Finding → Painter → ℕ → Options → List Text
  finding_lines warnings fs p width opts =
      let s = sections_of fs opts in
      let (sentence, ids) = unread_summary fs in
      let body =
        block (finding_records p width opts s.fails)
        ++ block (finding_records p width opts s.passes)
        ++ block (group_lines p width status_manual s.manuals opts)
        ++ block (group_lines p width status_na s.nas opts)
        ++ accepted_block p width s.accepted in
      let quiet =
        length s.fails == 0
        && length s.passes == 0
        && length s.manuals == 0
        && length s.nas == 0
        && length s.accepted == 0
        && is_empty sentence in
      if quiet
      then [] ∷ paint p green (codes "No failed or manual-review controls.") ∷ []
      else body ++ unread_block p width (unread_sentence warnings ids sentence)
