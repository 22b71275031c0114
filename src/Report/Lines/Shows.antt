-- ===== src/Report/Lines/Shows.antt =====
-- What the default report body, `writeFindingLines` of internal/report/lines.go, prints of the findings.
use jenkins_bench.Prelude.{
  ℕ, ◌+◌, ◌≤◌, Bool, true, not, ◌&&◌, ◌||◌, ◌≡◌, sym, ap, ◌∙◌, inl, inr, some, List, [], ◌∷◌, ◌++◌,
  All, count_if, sum_of, length, ◌==◌, if◌then◌else◌, Bool-cases, arith,
}
use mathlib.Core.List.{append_assoc, append-nil}
use jenkins_bench.Prelude.Text.{Text, codes, text_eq, to_upper, is_empty}
use jenkins_bench.Prelude.Words.{byte_length, decimal}
use jenkins_bench.Engine.{pass, fail, Finding, Waiver}
use jenkins_bench.Console.Table.Layout.Laws.{concat}
use jenkins_bench.Console.Table.Layout.Visible.{visible, visible-append, concat-append}
use jenkins_bench.Console.Paint.{Painter, paint, bold, dim, cyan}
use jenkins_bench.Report.{
  Options, is_status, unread, severity_colour, status_colour, status_pass, status_manual, status_na,
  accepted_note,
}
use jenkins_bench.Report.Groups.{Group, count_label}
use jenkins_bench.Report.Groups.Laws.{listed, is_at}
use jenkins_bench.Report.Lines.Flow.{flow_line}
use jenkins_bench.Report.Lines.Flow.Laws.{visible-flow_line}
use jenkins_bench.Report.Lines.{
  status_text, fix_lines, evidence_lines, finding_line, finding_records, group_lines, accepted_line,
  accepted_lines, block, Sections, unread_summary, unread_block, unread_sentence, sections_of,
  accepted_block, finding_lines,
}
use jenkins_bench.Report.Lines.Laws.{is_hidden, sections_of_lem}

-- The visible runes of the text stand together in what the lines show.
abbrev pub Shows : List Text → Text → Type 0
Shows out t =
    (before : Text) × (after : Text) × (visible (concat out) ≡ before ++ visible t ++ after)

visible-concat-append :
    (xs ys : List Text) → visible (concat (xs ++ ys)) ≡ visible (concat xs) ++ visible (concat ys)
visible-concat-append xs ys =
    ap visible (concat-append xs ys) ∙ visible-append (concat xs) (concat ys)

Shows-front : (xs ys : List Text) (t : Text) → Shows xs t → Shows (xs ++ ys) t
Shows-front xs ys t (b, a, e) = (
  b,
  a ++ visible (concat ys),
  visible-concat-append xs ys ∙ rw e (append_assoc (b ++ visible t) a (visible (concat ys))),
)

Shows-back : (xs ys : List Text) (t : Text) → Shows ys t → Shows (xs ++ ys) t
Shows-back xs ys t (b, a, e) = (
  visible (concat xs) ++ b,
  a,
  visible-concat-append xs ys
      ∙ rw e (
          sym (append_assoc (visible (concat xs)) (b ++ visible t) a)
          ∙ ap (λ r. r ++ a) (sym (append_assoc (visible (concat xs)) b (visible t)))),
)

Shows-block : (xs : List Text) (t : Text) → Shows xs t → Shows (block xs) t
Shows-block [] t h = h
Shows-block (x ∷ xs) t h = h

Shows-flow_line :
    (width : ℕ) (head : Text) (head_width : ℕ) (text : Text)
    → Shows (flow_line width head head_width text) (head ++ text)
Shows-flow_line width head head_width text = (
  [],
  [],
  visible-flow_line width head head_width text
      ∙ sym (visible-append head text)
      ∙ sym (append-nil (visible (head ++ text))),
)

-- What is printed in front of a finding's details: its resource, its control, and its severity or PASS.
abbrev pub record_head : Painter → Finding → Text
record_head p f =
    let passed = is_status f.status pass in
    let label = if passed then status_pass else to_upper f.severity in
    let painted = if passed then status_colour p label else severity_colour p label in
    paint p bold f.resource ++ codes "  " ++ paint p cyan f.check_id ++ b' ' ∷ painted ++ codes ": "

-- And in front of the details that the findings of a group share: their control, their status and their number.
abbrev pub group_head : Painter → Text → Group → Text
group_head p status g =
    paint p cyan g.rep.check_id
    ++ b' ' ∷ status_colour p status
    ++ codes " ("
    ++ count_label g
    ++ codes "): "

abbrev pub accepted_head : Painter → Finding → Text
accepted_head p f =
    paint p bold f.resource
    ++ codes "  "
    ++ paint p cyan f.check_id
    ++ b' ' ∷ paint p dim (status_text f.status)
    ++ codes ": "

abbrev pub ShowsRecord : Painter → List Text → Finding → Type 0
ShowsRecord p out f = Shows out (record_head p f ++ f.details)

abbrev pub ShowsGroup : Painter → Text → List Text → Group → Type 0
ShowsGroup p status out g = Shows out (group_head p status g ++ g.details)

abbrev pub ShowsAccepted : Painter → List Text → Finding → Type 0
ShowsAccepted p out f =
    (w : Waiver) → f.waiver ≡ some w → Shows out (accepted_head p f ++ accepted_note w)

All-map {ℓ κ} :
    {A : Type 0} {P : A → Type ℓ} {Q : A → Type κ}
    → ((a : A) → P a → Q a)
    → (xs : List A) → All P xs
    → All Q xs
All-map h [] k = tt
All-map h (x ∷ xs) k = (h x k.0, All-map h xs k.1)

All-none {ℓ} : {A : Type 0} (P : A → Type ℓ) (xs : List A) → (length xs == 0) ≡ true → All P xs
All-none P [] h = tt
All-none P (x ∷ xs) h = absurd (ground (arith, h))

module _ (p : Painter) (width : ℕ) (opts : Options) where
  finding_line-ShowsRecord : (f : Finding) → ShowsRecord p (finding_line p width f opts) f
  unfolding finding_line
  finding_line-ShowsRecord f =
      let label = if is_status f.status pass then status_pass else to_upper f.severity in
      let head_width =
        byte_length f.resource + 2 + byte_length f.check_id + 1 + byte_length label + 2 in
      let record_lines = flow_line width (record_head p f) head_width f.details in
      let fixes = if opts.no_remediations then [] else fix_lines p width f in
      let base : Shows record_lines (record_head p f ++ f.details) =
        Shows-flow_line width (record_head p f) head_width f.details in
      elim (Bool-cases (is_status f.status fail)) [
        | inl e ↦ rw e (
            Shows-front (record_lines ++ fixes) (evidence_lines p width f.evidence)
              (record_head p f ++ f.details)
              (Shows-front record_lines fixes (record_head p f ++ f.details) base))
        | inr e ↦ rw e base
      ]

  finding_records-All :
      (fs : List Finding) → All (ShowsRecord p (finding_records p width opts fs)) fs
  unfolding finding_records
  finding_records-All [] = tt
  finding_records-All (f ∷ fs) =
      let rest = finding_records p width opts fs in
      (
        Shows-front (finding_line p width f opts) rest (record_head p f ++ f.details)
            (finding_line-ShowsRecord f),
        All-map
            (λ g h. Shows-back (finding_line p width f opts) rest (record_head p g ++ g.details) h)
            fs (finding_records-All fs),
      )

  group_lines-All :
      (status : Text) (gs : List Group)
      → All (ShowsGroup p status (group_lines p width status gs opts)) gs
  unfolding group_lines
  group_lines-All status [] = tt
  group_lines-All status (g ∷ gs) =
      let rest = group_lines p width status gs opts in
      let count = count_label g in
      let head_width =
        byte_length g.rep.check_id + 1 + byte_length status + 2 + byte_length count + 3 in
      let front = flow_line width (group_head p status g) head_width g.details in
      let fixes =
        if text_eq status status_manual && not opts.no_remediations
        then fix_lines p width g.rep
        else [] in
      (
        Shows-front (front ++ fixes) rest (group_head p status g ++ g.details) (
            Shows-front front fixes (group_head p status g ++ g.details)
              (Shows-flow_line width (group_head p status g) head_width g.details)),
        All-map (λ k h. Shows-back (front ++ fixes) rest (group_head p status k ++ k.details) h) gs
            (group_lines-All status gs),
      )

  accepted_line-ShowsAccepted : (f : Finding) → ShowsAccepted p (accepted_line p width f) f
  unfolding accepted_line
  accepted_line-ShowsAccepted f w e =
      let head_width =
        byte_length f.resource
        + 2
        + byte_length f.check_id
        + 1
        + byte_length (status_text f.status)
        + 2 in
      rw e (Shows-flow_line width (accepted_head p f) head_width (accepted_note w))

  accepted_lines-All : (fs : List Finding) → All (ShowsAccepted p (accepted_lines p width fs)) fs
  unfolding accepted_lines
  accepted_lines-All [] = tt
  accepted_lines-All (f ∷ fs) =
      let rest = accepted_lines p width fs in
      (
        λ w e.
            Shows-front (accepted_line p width f) rest (accepted_head p f ++ accepted_note w)
              (accepted_line-ShowsAccepted f w e),
        All-map
            (λ g h w e.
              Shows-back (accepted_line p width f) rest (accepted_head p g ++ accepted_note w)
                (h w e))
            fs (accepted_lines-All fs),
      )

  -- The five blocks, one behind the other.
  abbrev body_of : Sections → List Text → List Text
  body_of s accepted =
      block (finding_records p width opts s.fails)
      ++ block (finding_records p width opts s.passes)
      ++ block (group_lines p width status_manual s.manuals opts)
      ++ block (group_lines p width status_na s.nas opts)
      ++ accepted

  -- All of the sections stands in the lines.
  abbrev pub ShowsSections : List Text → Sections → Type 0
  ShowsSections out s =
      All (ShowsRecord p out) s.fails
      × All (ShowsRecord p out) s.passes
      × All (ShowsGroup p status_manual out) s.manuals
      × All (ShowsGroup p status_na out) s.nas
      × All (ShowsAccepted p out) s.accepted

  body_of-ShowsSections :
      (s : Sections) (accepted more : List Text)
      → All (ShowsAccepted p accepted) s.accepted
      → ShowsSections (body_of s accepted ++ more) s
  body_of-ShowsSections s accepted more kept =
      let a = block (finding_records p width opts s.fails) in
      let b = block (finding_records p width opts s.passes) in
      let c = block (group_lines p width status_manual s.manuals opts) in
      let d = block (group_lines p width status_na s.nas opts) in
      let behind = λ (t : Text) (h : Shows (a ++ b ++ c ++ d) t).
        Shows-front (a ++ b ++ c ++ d ++ accepted) more t
          (Shows-front (a ++ b ++ c ++ d) accepted t h) in
      (
        All-map
            (λ f h. behind _ (
              Shows-front (a ++ b ++ c) d _ (
                Shows-front (a ++ b) c _
                  (Shows-front a b _ (Shows-block (finding_records p width opts s.fails) _ h)))))
            s.fails (finding_records-All s.fails),
        All-map
            (λ f h. behind _ (
              Shows-front (a ++ b ++ c) d _ (
                Shows-front (a ++ b) c _
                  (Shows-back a b _ (Shows-block (finding_records p width opts s.passes) _ h)))))
            s.passes (finding_records-All s.passes),
        All-map
            (λ g h. behind _ (
              Shows-front (a ++ b ++ c) d _ (
                Shows-back (a ++ b) c _
                  (Shows-block (group_lines p width status_manual s.manuals opts) _ h))))
            s.manuals (group_lines-All status_manual s.manuals),
        All-map
            (λ g h. behind _ (
              Shows-back (a ++ b ++ c) d _
                (Shows-block (group_lines p width status_na s.nas opts) _ h)))
            s.nas (group_lines-All status_na s.nas),
        All-map
            (λ f h w e.
              Shows-front (a ++ b ++ c ++ d ++ accepted) more _
                (Shows-back (a ++ b ++ c ++ d) accepted _ (h w e)))
            s.accepted kept,
      )

  accepted_block-All :
      (stable : (Finding → Finding → Bool) → List Finding → List Finding) (fs : List Finding)
      → All (ShowsAccepted p (accepted_block stable p width fs)) fs
  accepted_block-All stable [] = tt
  accepted_block-All stable (f ∷ fs) =
      All-map
        (λ g h w e.
          Shows-back
            ([]
              ∷ paint p bold
                  (codes "Accepted by exceptions (" ++ decimal (length (f ∷ fs)) ++ codes ")")
              ∷ [])
            (accepted_lines p width (f ∷ fs)) (accepted_head p g ++ accepted_note w) (h w e))
        (f ∷ fs) (accepted_lines-All (f ∷ fs))

module _ (stable : (Finding → Finding → Bool) → List Finding → List Finding) where
  finding_lines-ShowsSections :
      (warnings : List Text) (fs : List Finding) (p : Painter) (width : ℕ) (opts : Options)
      → ShowsSections p width opts
          (finding_lines stable warnings fs p width opts)
          (sections_of stable fs opts)
  unfolding finding_lines
  finding_lines-ShowsSections warnings fs p width opts =
      let s = sections_of stable fs opts in
      let sentence = (unread_summary fs).0 in
      let quiet =
        length s.fails == 0
        && length s.passes == 0
        && length s.manuals == 0
        && length s.nas == 0
        && length s.accepted == 0
        && is_empty sentence in
      elim (Bool-cases quiet) [
        | inl e ↦ (
          All-none _ s.fails (ground (arith, e)),
          All-none _ s.passes (ground (arith, e)),
          All-none _ s.manuals (ground (arith, e)),
          All-none _ s.nas (ground (arith, e)),
          All-none _ s.accepted (ground (arith, e)),
        )
        | inr e ↦ rw e (
            body_of-ShowsSections p width opts s (accepted_block stable p width s.accepted)
              (unread_block p width (unread_sentence warnings (unread_summary fs).1 sentence))
              (accepted_block-All p width opts stable s.accepted))
      ]

module _ (stable : (Finding → Finding → Bool) → List Finding → List Finding)
    (keeps : (less : Finding → Finding → Bool) (fs : List Finding) (p : Finding → Bool)
      → count_if p (stable less fs) ≡ count_if p fs) where
  -- Condition: sort.SliceStable neither adds nor drops an element. No finding is left out of the report, whatever its
  -- control, its reason and its resource: it is among the failures, the passes, the accepted ones or in a group, or it
  -- went unread, or it is a pass or not applicable where passed controls are not asked for. All that the sections
  -- hold is printed: the visible runes of each finding's resource, control, label and details, of each group's control, number
  -- and details, and of each accepted finding with its note stand together in the lines.
  pub finding_lines_complete :
      (warnings : List Text) (fs : List Finding) (p : Painter) (width : ℕ) (opts : Options)
      (key resource : Text)
      → let s = sections_of stable fs opts in
        let at = is_at key resource in
        (count_if at fs
          ≤ count_if at s.fails
            + count_if at s.passes
            + sum_of (listed key resource) s.manuals
            + sum_of (listed key resource) s.nas
            + count_if at s.accepted
            + count_if (λ f. (unread f || is_hidden opts f) && at f) fs)
        × ShowsSections p width opts (finding_lines stable warnings fs p width opts) s
  finding_lines_complete warnings fs p width opts key resource = (
    (sections_of_lem stable keeps fs opts key resource).0,
    finding_lines-ShowsSections stable warnings fs p width opts,
  )
