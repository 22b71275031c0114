-- ===== src/Report/Prose.antt =====
-- internal/report/table.go: the parts of the report that are paragraphs: notices, warnings and the lines of
-- the summary. `warnings` are the scan's, `errors` the texts of the policy errors.
pub mod Laws
use jenkins_bench.Prelude.{
  ℕ, ◌+◌, ◌-◌, Bool, true, false, ◌&&◌, ◌||◌, List, [], ◌∷◌, ◌++◌, map, any, ltb, ◌==◌,
  if◌then◌else◌,
}
use jenkins_bench.Prelude.Text.{Text, codes, is_empty}
use jenkins_bench.Prelude.Words.{repeat, contains}
use jenkins_bench.Console.Wrap.{wrap}
use jenkins_bench.Console.Paint.{Painter, paint, bold, dim, red, yellow}

-- A first line behind a prefix, and the others behind their own.
abbrev pub hanging : Text → Text → List Text → List Text
hanging prefix pad [] = []
hanging prefix pad (l ∷ ls) = (prefix ++ l) ∷ map (λ m. pad ++ m) ls

-- prose
unfoldable pub prose : ℕ → Text → ℕ → Text → List Text
prose width prefix prefix_width text =
    hanging prefix (repeat b' ' prefix_width) (wrap text (width - prefix_width))

-- summaryLine
unfoldable pub summary_line : Painter → ℕ → Text → Text → List Text
summary_line p width colour text =
    map (λ l. repeat b' ' 6 ++ paint p colour l) (wrap text (width - 6))

-- writeNotice
unfoldable pub notice_lines : Painter → ℕ → Text → List Text
notice_lines p width [] = []
notice_lines p width (c ∷ s) = [] ∷ map (λ l. paint p (bold ++ yellow) l) (wrap (c ∷ s) width)

abbrev pub bulleted : ℕ → List Text → List Text
bulleted width [] = []
bulleted width (w ∷ warnings) =
    hanging (codes "  - ") (codes "    ") (wrap w (width - 4)) ++ bulleted width warnings

-- writeExceptionWarnings
unfoldable pub exception_warning_lines : Painter → ℕ → List Text → List Text
exception_warning_lines p width [] = []
exception_warning_lines p width (w ∷ warnings) =
    [] ∷ paint p (bold ++ yellow) (codes "Exceptions") ∷ [] ∷ bulleted width (w ∷ warnings)

-- The closure `flush` of dimParens.
unfoldable pub flush : Painter → Bool → Text → Text → Text
flush p dimmed out seg =
    if is_empty seg then out else out ++ (if dimmed then paint p dim seg else seg)

-- The loop of dimParens, with what is written and the segment under way.
unfoldable pub dim_loop : Painter → Text → Text → ℕ → Text → Text × ℕ
unfolding flush
dim_loop p out seg depth [] = (flush p (ltb 0 depth) out seg, depth)
dim_loop p out seg depth (c ∷ s) =
    let opened =
      if depth == 0
      then dim_loop p (flush p false out seg) (c ∷ []) (depth + 1) s
      else dim_loop p out (seg ++ c ∷ []) (depth + 1) s in
    let closed =
      if depth - 1 == 0
      then dim_loop p (flush p true out (seg ++ c ∷ [])) [] (depth - 1) s
      else dim_loop p out (seg ++ c ∷ []) (depth - 1) s in
    let plain = dim_loop p out (seg ++ c ∷ []) depth s in
    if c == b'(' then opened else if c == b')' && ltb 0 depth then closed else plain

-- dimParens
unfoldable pub dim_parens : Painter → Text → ℕ → Text × ℕ
unfolding dim_loop
dim_parens p s depth = dim_loop p [] [] depth s

-- The lines of one warning, the depth carried from line to line.
unfoldable pub dimmed_lines : Painter → Text → ℕ → List Text → List Text
unfolding dim_parens
dimmed_lines p prefix depth [] = []
dimmed_lines p prefix depth (l ∷ ls) =
    let (painted, inside) = dim_parens p l depth in
    (prefix ++ painted) ∷ dimmed_lines p (codes "    ") inside ls

unfoldable pub warning_bullets : Painter → ℕ → List Text → List Text
unfolding dimmed_lines
warning_bullets p width [] = []
warning_bullets p width (w ∷ warnings) =
    dimmed_lines p (codes "  - ") 0 (wrap w (width - 4)) ++ warning_bullets p width warnings

-- The phrasings of an access refusal.
unfoldable pub is_refusal : Text → Bool
is_refusal w =
    contains w (codes "could not be read")
    || contains w (codes "cannot read")
    || contains w (codes "not visible")
    || contains w (codes "not readable")

abbrev access_fix : Text
access_fix =
    codes
      "rerun with a token that has administrator read access, so the scan can evaluate what it could not see."

abbrev prose_each : ℕ → List Text → List Text
prose_each width [] = []
prose_each width (e ∷ errors) = prose width (codes "  ") 2 e ++ prose_each width errors

unfoldable pub scan_warning_lines : Painter → ℕ → Bool → List Text → List Text
unfolding warning_bullets is_refusal prose
scan_warning_lines p width with_fix [] = []
scan_warning_lines p width with_fix (w ∷ warnings) =
    let fix =
      if any is_refusal (w ∷ warnings) && with_fix
      then [] ∷ prose width (codes "  fix: ") 7 access_fix
      else [] in
    ([]
      ∷ paint p (bold ++ yellow) (codes "Scan warnings")
      ∷ []
      ∷ warning_bullets p width (w ∷ warnings))
    ++ fix

unfoldable pub policy_error_lines : Painter → ℕ → List Text → List Text
unfolding prose
policy_error_lines p width [] = []
policy_error_lines p width (e ∷ errors) =
    [] ∷ paint p (bold ++ red) (codes "Policy errors") ∷ [] ∷ prose_each width (e ∷ errors)

-- writeWarnings
unfoldable pub warning_lines : Painter → ℕ → Bool → List Text → List Text → List Text
unfolding scan_warning_lines policy_error_lines
warning_lines p width with_fix warnings errors =
    scan_warning_lines p width with_fix warnings ++ policy_error_lines p width errors
