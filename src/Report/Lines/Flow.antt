-- ===== src/Report/Lines/Flow.antt =====
-- internal/report/lines.go: `flowLine`, a text behind a head, its lines indented.
pub mod Laws
use jenkins_bench.Prelude.{
  ℕ, ◌+◌, ◌-◌, Bool, true, false, ◌≡◌, refl, sym, ap, ◌∙◌, inl, inr, List, [], ◌∷◌, ◌++◌, map, ltb,
  if◌then◌else◌, Bool-cases, arith,
}
use jenkins_bench.Prelude.Text.{Text, codes, join, is_empty}
use jenkins_bench.Prelude.Words.{join_words, trim_right_spaces}
use jenkins_bench.Console.Wrap.{wrap}

abbrev pub cont_indent : Text
cont_indent = codes "    "

abbrev pub min_flow_width : ℕ
min_flow_width = 20

abbrev pub indented : List Text → List Text
indented = map (λ l. cont_indent ++ l)

-- The lines behind the first, which go almost from margin to margin.
unfoldable pub flow_rest : ℕ → Text → List Text
flow_rest width rest = if is_empty rest then [] else indented (wrap rest (width - 4))

-- flowLine; Wrap gives at least one line (wrap-ne-nil)
unfoldable pub flow_line : ℕ → Text → ℕ → Text → List Text
unfolding flow_rest
flow_line width head head_width text =
    let below = trim_right_spaces head ∷ indented (wrap text (width - 4)) in
    let beside : List Text = elim (wrap text (width - head_width)) [
      | [] ↦ []
      | first ∷ more ↦ (head ++ first) ∷ flow_rest width (join_words more)
    ] in
    if ltb (width - head_width) min_flow_width then below else beside
