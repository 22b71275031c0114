-- ===== src/Report/Summary.antt =====
-- internal/report/table.go: `writeSummary`, the block that ends the report.
use jenkins_bench.Prelude.{ℕ, ◌+◌, ◌*◌, ◌/◌, List, [], ◌∷◌, ◌++◌, length, ltb, leb, if◌then◌else◌}
use jenkins_bench.Prelude.Text.{Text, codes}
use jenkins_bench.Prelude.Words.{decimal}
use jenkins_bench.Engine.Score.{Score}
use jenkins_bench.Engine.Evaluate.{Coverage, no_jobs_audited}
use jenkins_bench.Engine.{Finding}
use jenkins_bench.Console.Paint.{Painter, paint, bold, dim, red, green, yellow, pluralize}
use jenkins_bench.Report.{accepted_failures}
use jenkins_bench.Report.Remedies.{failed_controls}
use jenkins_bench.Report.Prose.{summary_line}

unfoldable pub score_colour : ℕ → Text
score_colour value = if ltb value 50 then red else if ltb value 80 then yellow else green

abbrev pub spaced : List Text → Text
spaced [] = []
spaced (t ∷ []) = t
spaced (t ∷ u ∷ ts) = t ++ codes "  " ++ spaced (u ∷ ts)

abbrev counts_of : Score → List Text
counts_of s =
    (decimal s.passed ++ codes " passed")
    ∷ (decimal s.failed ++ codes " failed")
    ∷ (decimal s.manual ++ codes " manual")
    ∷ (decimal s.not_applicable ++ codes " n/a")
    ∷ []

abbrev painted_counts : Painter → Score → List Text
painted_counts p s =
    paint p green (decimal s.passed ++ codes " passed")
    ∷ paint p red (decimal s.failed ++ codes " failed")
    ∷ paint p yellow (decimal s.manual ++ codes " manual")
    ∷ paint p dim (decimal s.not_applicable ++ codes " n/a")
    ∷ []

-- The score with its counts, on one line where they fit.
unfoldable pub score_lines : Painter → ℕ → Score → List Text
unfolding score_colour
score_lines p width s =
    let score = codes "SCORE " ++ decimal s.value ++ codes "/100" in
    let head =
      paint p bold (codes "SCORE")
      ++ b' ' ∷ paint p (score_colour s.value ++ bold) (decimal s.value ++ codes "/100") in
    let painted = spaced (painted_counts p s) in
    if leb (length score + 3 + length (spaced (counts_of s))) width
    then (head ++ codes "   " ++ painted) ∷ []
    else head ∷ (codes "      " ++ painted) ∷ []

unfoldable pub failed_controls_lines : Painter → ℕ → Score → List Finding → List Text
failed_controls_lines p width s fs =
    let controls = length (failed_controls [] fs) in
    let text = pluralize controls (codes "control") ++ codes " failed" in
    let across =
      if ltb controls s.failed
      then text ++ codes " across " ++ pluralize s.failed (codes "finding")
      else text in
    if ltb 0 controls then summary_line p width dim across else []

unfoldable pub accepted_failures_lines : Painter → ℕ → List Finding → List Text
accepted_failures_lines p width fs =
    let accepted = accepted_failures fs in
    if ltb 0 accepted
    then summary_line p width dim (
        pluralize accepted (codes "failed finding")
        ++ codes " accepted by exceptions, counted here and in the score, not failing the run")
    else []

unfoldable pub weight_lines : Painter → ℕ → Score → List Text
weight_lines p width s = summary_line p width dim (
    codes "weighted "
    ++ decimal s.earned_weight
    ++ b'/' ∷ decimal s.total_weight
    ++ codes " (HIGH=3, MEDIUM=2, LOW=1; manual and n/a excluded)")

-- How much of the instance the score is based on.
unfoldable pub sample_lines : Painter → ℕ → Score → List Text
sample_lines p width s =
    let scored = s.passed + s.failed in
    let decidable = scored + s.manual in
    let coverage = scored * 100 / decidable in
    let colour = if ltb coverage 50 then yellow else dim in
    if ltb 0 s.manual
    then summary_line p width colour (
        codes "scored "
        ++ decimal scored
        ++ codes " of "
        ++ decimal decidable
        ++ codes " findings ("
        ++ decimal coverage
        ++ codes "%); "
        ++ decimal s.manual
        ++ codes " could not be evaluated")
    else []

unfoldable pub coverage_lines : Painter → ℕ → Coverage → List Text
coverage_lines p width c =
    let n = length c.unlisted in
    let unaudited =
      if no_jobs_audited c
      then summary_line p width yellow (codes "no job was evaluated: nothing job-scope was audited")
      else [] in
    let text =
      if ltb 0 n
      then codes "the job list is incomplete: "
        ++ pluralize n (codes "container")
        ++ codes " could not be listed, and the jobs in them are missing, not judged"
      else codes
          "the job list is incomplete: the jobs in a folder that could not be listed are missing, not judged" in
    unaudited ++ (if c.complete then [] else summary_line p width yellow text)

-- writeSummary
unfoldable pub summary_lines : Painter → ℕ → Score → Coverage → List Finding → List Text
unfolding score_lines failed_controls_lines accepted_failures_lines weight_lines sample_lines
    coverage_lines
summary_lines p width s c fs =
    ([] ∷ score_lines p width s)
    ++ failed_controls_lines p width s fs
    ++ accepted_failures_lines p width fs
    ++ weight_lines p width s
    ++ sample_lines p width s
    ++ coverage_lines p width c
