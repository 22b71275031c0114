-- ===== src/Report/Sections/Laws.antt =====
-- The tables of `writeResourceSections` of internal/report/table.go: how many there are, and how they are painted.
use jenkins_bench.Prelude.{
  ℕ, ◌+◌, ◌≤◌, Bool, true, false, not, ◌&&◌, ◌||◌, All, some, ◌≡◌, ◌≢◌, refl, inl, inr, List, [],
  ◌∷◌, count_if, ltb, leb, if◌then◌else◌, Bool-cases, arith,
}
use jenkins_bench.Engine.{Finding}
use jenkins_bench.Console.Paint.{Painter, dim, red, green, yellow, cyan}
use jenkins_bench.Console.Shown.{shown, shown_from, IsTransparent, IsCode, paint-IsTransparent}
use jenkins_bench.Console.Table.Laws.{IsPainted}
use jenkins_bench.Checks.{severity_high, severity_medium}
use jenkins_bench.Prelude.Text.{text_eq, to_upper}
use jenkins_bench.Report.{
  Options, severity_colour, status_colour, status_fail, status_unread, status_manual, status_pass,
}
use jenkins_bench.Report.Tally.{Tally, tally_resources}
use jenkins_bench.Report.Sections.{
  section_columns, Drawn, selected_for, draw_section, draw_sections, nothing_drawn,
}

abbrev pub is_none : List Finding → Bool
is_none [] = true
is_none (f ∷ fs) = false

-- A resource with something to show.
abbrev pub has_section : List Finding → Options → Tally → Bool
has_section fs opts t = not (is_none (selected_for fs opts.show_passed t.name))

-- The shown are as many as the cap allows; there is no cap where it is 0.
abbrev pub IsCapped : Options → Drawn → Type 0
IsCapped opts d =
    (opts.max_resources ≡ 0 → d.skipped ≡ 0)
    × (opts.max_resources ≢ 0 → d.shown ≤ opts.max_resources)
    × (d.skipped ≢ 0 → d.shown ≡ opts.max_resources)

draw_section_lem :
    (p : Painter) (width : ℕ) (opts : Options) (t : Tally) (fs : List Finding) (d : Drawn)
    → let after = draw_section p width opts t fs d in
      (after.shown + after.skipped ≡ d.shown + d.skipped + (if is_none fs then 0 else 1))
      × (IsCapped opts d → IsCapped opts after)
unfolding draw_section
draw_section_lem p width opts t [] d = (omega arith, λ h. h)
draw_section_lem p width opts t (f ∷ fs) d =
    elim (Bool-cases (ltb 0 opts.max_resources && leb opts.max_resources d.shown)) [
      | inl e ↦ rw e (
        omega arith,
        λ (a, b, c). (λ z. absurd (ground (arith, e, z)), b, λ z. ground (arith, e, b)),
      )
      | inr e ↦ rw e (
        omega arith,
        λ (a, b, c). (a, λ z. ground (arith, e, z), λ z. absurd (ground (arith, a, b, c z, e, z))),
      )
    ]

draw_sections_lem :
    (p : Painter) (width : ℕ) (opts : Options) (fs : List Finding) (ts : List Tally) (d : Drawn)
    → IsCapped opts d
    → let after = draw_sections p width opts fs ts d in
      (after.shown + after.skipped ≡ d.shown + d.skipped + count_if (has_section fs opts) ts)
      × IsCapped opts after
unfolding draw_sections
draw_sections_lem p width opts fs [] d h = (omega arith, h)
draw_sections_lem p width opts fs (t ∷ ts) d h =
    let one = draw_section_lem p width opts t (selected_for fs opts.show_passed t.name) d in
    let rest = draw_sections_lem p width opts fs ts _ (one.1 h) in
    (ground (arith, one.0, rest.0), rest.1)

-- Every resource with something to show gets a table or is counted in the note at the end. Without a cap all of them
-- get one; with a cap no more than it, and a resource is left to the note only where the cap is reached.
resource_sections_lem :
    (p : Painter) (width : ℕ) (opts : Options) (fs : List Finding)
    → let d = draw_sections p width opts fs (tally_resources fs) nothing_drawn in
      (d.shown + d.skipped ≡ count_if (has_section fs opts) (tally_resources fs)) × IsCapped opts d
resource_sections_lem p width opts fs =
    let drawn =
      draw_sections_lem p width opts fs (tally_resources fs) nothing_drawn
        (λ z. refl, λ z. omega arith, λ z. absurd (z refl)) in
    (omega (arith, drawn.0), drawn.1)

dim-IsCode : IsCode dim
unfolding shown shown_from
dim-IsCode rest = refl

red-IsCode : IsCode red
unfolding shown shown_from
red-IsCode rest = refl

green-IsCode : IsCode green
unfolding shown shown_from
green-IsCode rest = refl

yellow-IsCode : IsCode yellow
unfolding shown shown_from
yellow-IsCode rest = refl

cyan-IsCode : IsCode cyan
unfolding shown shown_from
cyan-IsCode rest = refl

severity_colour-IsTransparent : (p : Painter) → IsTransparent (some (severity_colour p))
unfolding severity_colour
severity_colour-IsTransparent p text rest clean =
    elim (Bool-cases (text_eq (to_upper text) severity_high)) [
      | inl e ↦ rw e (paint-IsTransparent p red red-IsCode text rest clean)
      | inr e ↦ elim (Bool-cases (text_eq (to_upper text) severity_medium)) [
        | inl k ↦ rw (e, k) (paint-IsTransparent p yellow yellow-IsCode text rest clean)
        | inr k ↦ rw (e, k) (paint-IsTransparent p dim dim-IsCode text rest clean)
      ]
    ]

status_colour-IsTransparent : (p : Painter) → IsTransparent (some (status_colour p))
unfolding status_colour
status_colour-IsTransparent p text rest clean = elim (Bool-cases (text_eq text status_fail)) [
  | inl a ↦ rw a (paint-IsTransparent p red red-IsCode text rest clean)
  | inr a ↦ elim (Bool-cases (text_eq text status_unread || text_eq text status_manual)) [
    | inl b ↦ rw (a, b) (paint-IsTransparent p yellow yellow-IsCode text rest clean)
    | inr b ↦ elim (Bool-cases (text_eq text status_pass)) [
      | inl c ↦ rw (a, b, c) (paint-IsTransparent p green green-IsCode text rest clean)
      | inr c ↦ rw (a, b, c) (paint-IsTransparent p dim dim-IsCode text rest clean)
    ]
  ]
]

-- The columns of a section's table paint by escape sequences only, whether colour is on or off.
pub section_columns-IsPainted : (p : Painter) → All IsPainted (section_columns p)
unfolding section_columns
section_columns-IsPainted p = (
  paint-IsTransparent p cyan cyan-IsCode,
  (severity_colour-IsTransparent p, (status_colour-IsTransparent p, (tt, (tt, tt)))),
)
