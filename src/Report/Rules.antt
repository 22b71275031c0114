-- ===== src/Report/Rules.antt =====
-- internal/report/table.go: the remediation sections and the rules index.
use jenkins_bench.Prelude.{
  ℕ, ◌+◌, ◌-◌, not, ◌&&◌, none, some, List, [], ◌∷◌, ◌++◌, length, ltb, if◌then◌else◌,
}
use jenkins_bench.Prelude.Text.{Text, codes, is_empty}
use jenkins_bench.Prelude.Words.{byte_length, contains, decimal, repeat}
use jenkins_bench.Engine.{Finding}
use jenkins_bench.Console.Paint.{Painter, paint, bold, dim, cyan}
use jenkins_bench.Report.{reference_line}
use jenkins_bench.Report.Remedies.{remediation_order, split_remediations, full_sweeps}
use jenkins_bench.Report.Prose.{prose}

-- remediationIDWidth, from a width
unfoldable pub id_width_from : ℕ → List Finding → ℕ
id_width_from n [] = n
id_width_from n (f ∷ fs) =
    id_width_from (if ltb n (byte_length f.check_id) then byte_length f.check_id else n) fs

-- The closure `full` of writeRemediations.
unfoldable pub full_entry : Painter → ℕ → ℕ → Finding → List Text
full_entry p width id_width f =
    let id = f.check_id ++ repeat b' ' (id_width - byte_length f.check_id) in
    prose width (codes "  " ++ paint p (cyan ++ bold) id ++ codes "  ") (id_width + 4) f.remediation

unfoldable pub full_entries : Painter → ℕ → ℕ → List Finding → List Text
unfolding full_entry
full_entries p width id_width [] = []
full_entries p width id_width (f ∷ fs) =
    full_entry p width id_width f ++ full_entries p width id_width fs

-- writeRemediationSection
unfoldable pub remediation_section : Painter → ℕ → ℕ → Text → List Finding → List Text
unfolding full_entries
remediation_section p width id_width heading [] = []
remediation_section p width id_width heading (f ∷ fs) =
    []
    ∷ paint p bold (heading ++ codes " (" ++ decimal (length (f ∷ fs)) ++ codes ")")
    ∷ []
    ∷ full_entries p width id_width (f ∷ fs)

-- writeRemediations
unfoldable pub remediation_lines : Painter → ℕ → List Finding → List Text
unfolding remediation_section id_width_from
remediation_lines p width fs =
    let ordered = remediation_order fs in
    let (fails, manuals) = split_remediations ordered in
    let id_width = id_width_from 0 ordered in
    remediation_section p width id_width (codes "Remediations") fails
    ++ remediation_section p width id_width (codes "Manual review") manuals

-- The local type `entry` of writeRulesIndex.
pub record Entry : Type 0 where
  pub id : Text
  pub ref : Text
  pub sweep : Text

abbrev sweep_text : ℕ → Text
sweep_text n =
    codes "failing on all "
    ++ decimal n
    ++ codes " jobs — setting it once at the folder level covers them together."

-- The entry of a control; the sweeps are those of the whole report.
unfoldable pub entry_of : List Finding → Finding → Entry
entry_of all f = record {
  id = f.check_id;
  ref = reference_line f.references;
  sweep = elim (full_sweeps all f.check_id) [
    | none ↦ []
    | some n ↦
        if ltb 1 n && contains f.remediation (codes "Folder settings") then sweep_text n else []
  ];
}

unfoldable pub entries_of : List Finding → List Finding → List Entry
unfolding entry_of
entries_of all [] = []
entries_of all (f ∷ fs) =
    let e = entry_of all f in
    let rest = entries_of all fs in if is_empty e.ref && is_empty e.sweep then rest else e ∷ rest

unfoldable pub entry_width_from : ℕ → List Entry → ℕ
entry_width_from n [] = n
entry_width_from n (e ∷ es) =
    entry_width_from (if ltb n (byte_length e.id) then byte_length e.id else n) es

unfoldable pub entry_lines : Painter → ℕ → ℕ → Entry → List Text
entry_lines p width id_width e =
    let pad = repeat b' ' (id_width - byte_length e.id) in
    let id = paint p (cyan ++ bold) e.id in
    let link = codes "  " ++ id ++ pad ++ codes "  " ++ paint p dim e.ref in
    let swept =
      if is_empty e.sweep
      then []
      else prose width (repeat b' ' (id_width + 4)) (id_width + 4) e.sweep in
    if not (is_empty e.ref)
    then link ∷ swept
    else prose width (codes "  " ++ id ++ pad ++ codes "  ") (id_width + 4) e.sweep

unfoldable pub index_lines : Painter → ℕ → ℕ → List Entry → List Text
unfolding entry_lines
index_lines p width id_width [] = []
index_lines p width id_width (e ∷ es) =
    entry_lines p width id_width e ++ index_lines p width id_width es

abbrev pub index_block : Painter → ℕ → ℕ → List Entry → List Text
index_block p width id_width [] = []
index_block p width id_width (e ∷ es) =
    [] ∷ paint p bold (codes "Rules") ∷ [] ∷ index_lines p width id_width (e ∷ es)

-- writeRulesIndex
unfoldable pub rules_index : Painter → ℕ → List Finding → List Text
unfolding entries_of entry_width_from index_lines
rules_index p width fs =
    let entries = entries_of fs (remediation_order fs) in
    index_block p width (entry_width_from 0 entries) entries
