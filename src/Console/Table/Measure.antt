-- ===== src/Console/Table/Measure.antt =====
-- The measuring of a table, in internal/console/table.go: the first loop of `columnWidths`, row by row, and
-- the loop of `naturalWidth`, column by column.
use jenkins_bench.Prelude.{
  ℕ, suc, ◌+◌, ◌≤◌, ◌<◌, ◌≡◌, refl, sym, ap, ◌∙◌, List, [], ◌∷◌, Option, none, some, All, map,
  length, get_elem?, count_if, Option-cases, inl, inr, length-map, arith,
}
use jenkins_bench.Prelude.Text.{Text, split}
use jenkins_bench.Console.Table.{
  Column, widest_line, measure_row, measure, natural_from, natural_width, slots_from,
}
use jenkins_bench.Console.Table.Widths.Laws.{is_flex}
use jenkins_bench.Console.Table.Widths.Shrink.{IsSized}

-- The widths of the columns from index `i` on, each measured by naturalWidth's loop from a width.
abbrev pub naturals : ℕ → List ℕ → List (List Text) → List ℕ
naturals i [] rows = []
naturals i (n ∷ ns) rows = natural_from i n rows ∷ naturals (i + 1) ns rows

naturals_nil : (i : ℕ) (ns : List ℕ) → naturals i ns [] ≡ ns
unfolding natural_from
naturals_nil i [] = refl
naturals_nil i (n ∷ ns) = ap (λ r. n ∷ r) (naturals_nil (i + 1) ns)

-- A cell that a row has or does not have.
abbrev with_cell : (i n : ℕ) (rows : List (List Text)) → Option Text → ℕ
with_cell i n rows none = natural_from i n rows
with_cell i n rows (some text) = natural_from i (widest_line n (split b'\n' text)) rows

natural_from_cell :
    (i n : ℕ) (row : List Text) (rows : List (List Text)) (o : Option Text)
    → get_elem? row i ≡ o
    → natural_from i n (row ∷ rows) ≡ with_cell i n rows o
unfolding natural_from
natural_from_cell i n row rows none e = rw (e, natural_from) refl
natural_from_cell i n row rows (some text) e = rw (e, natural_from) refl

measure_row_nil : (ns : List ℕ) → measure_row ns [] ≡ ns
unfolding measure_row
measure_row_nil [] = refl
measure_row_nil (n ∷ ns) = refl

naturals-measure_row :
    (i : ℕ) (ns : List ℕ) (rest row : List Text) (rows : List (List Text))
    → ((k : ℕ) → get_elem? row (i + k) ≡ get_elem? rest k)
    → naturals i (measure_row ns rest) rows ≡ naturals i ns (row ∷ rows)
unfolding measure_row
naturals-measure_row i [] rest row rows at = refl
naturals-measure_row i (n ∷ ns) [] row rows at =
    let here =
      natural_from_cell i n row rows none (ap (λ j. get_elem? row j) (omega arith) ∙ at 0) in
    let later =
      naturals-measure_row (i + 1) ns [] row rows
        (λ k. ap (λ j. get_elem? row j) (omega arith) ∙ at (suc k)) in
    rw (here, sym later, measure_row_nil ns) refl
naturals-measure_row i (n ∷ ns) (text ∷ rest) row rows at =
    let here =
      natural_from_cell i n row rows (some text) (ap (λ j. get_elem? row j) (omega arith) ∙ at 0) in
    let later =
      naturals-measure_row (i + 1) ns rest row rows
        (λ k. ap (λ j. get_elem? row j) (omega arith) ∙ at (suc k)) in
    rw (here, later) refl

-- The first loop of columnWidths, which goes through the cells row by row, and naturalWidth, which goes
-- through those of one column, measure the same widths.
measure-naturals : (ns : List ℕ) (rows : List (List Text)) → measure ns rows ≡ naturals 0 ns rows
unfolding measure
measure-naturals ns [] = sym (naturals_nil 0 ns)
measure-naturals ns (row ∷ rows) =
    measure-naturals (measure_row ns row) rows
    ∙ naturals-measure_row 0 ns row row rows (λ k. ap (λ j. get_elem? row j) (omega arith))

widest_line-le : (n : ℕ) (lines : List Text) → n ≤ widest_line n lines
unfolding widest_line
widest_line-le n [] = omega arith
widest_line-le n (line ∷ lines) =
    ground (arith, widest_line-le n lines, widest_line-le (length line) lines)

natural_from-le : (i n : ℕ) (rows : List (List Text)) → n ≤ natural_from i n rows
unfolding natural_from
natural_from-le i n [] = omega arith
natural_from-le i n (row ∷ rows) = elim (Option-cases (get_elem? row i)) [
  | inl e ↦ rw (natural_from_cell i n row rows none e) (natural_from-le i n rows)
  | inr (text, e) ↦ rw (natural_from_cell i n row rows (some text) e) (
      omega (
        arith,
        widest_line-le n (split b'\n' text),
        natural_from-le i (widest_line n (split b'\n' text)) rows,
      ))
]

-- A heading that is not empty.
abbrev pub IsTitled : Column → Type 0
IsTitled c = 0 < length c.header

abbrev heads : List Column → List ℕ
heads = map (λ c. length c.header)

slots_from-IsSized :
    (i : ℕ) (cols : List Column) (rows : List (List Text))
    → All IsTitled cols
    → All IsSized (slots_from i cols (naturals i (heads cols) rows) rows)
unfolding slots_from natural_width
slots_from-IsSized i [] rows titled = tt
slots_from-IsSized i (c ∷ cols) rows titled = (
  (omega (arith, titled.0, natural_from-le i (length c.header) rows), omega arith),
  slots_from-IsSized (i + 1) cols rows titled.1,
)

length-slots_from :
    (i : ℕ) (cols : List Column) (ns : List ℕ) (rows : List (List Text))
    → length cols ≡ length ns
    → (length (slots_from i cols ns rows) ≡ length cols)
      × (count_if is_flex (slots_from i cols ns rows) ≡ count_if (λ c. c.flex) cols)
unfolding slots_from
length-slots_from i [] [] rows same = (refl, refl)
length-slots_from i [] (n ∷ ns) rows same = absurd (omega (arith, same))
length-slots_from i (c ∷ cols) [] rows same = absurd (omega (arith, same))
length-slots_from i (c ∷ cols) (n ∷ ns) rows same =
    ground (arith, length-slots_from (i + 1) cols ns rows (omega (arith, same)))

length-naturals :
    (i : ℕ) (ns : List ℕ) (rows : List (List Text)) → length (naturals i ns rows) ≡ length ns
length-naturals i [] rows = refl
length-naturals i (n ∷ ns) rows = omega (arith, length-naturals (i + 1) ns rows)

-- The columns as columnWidths has measured them: as many as the table's, with as many flexed ones, and none
-- is empty or wider than its content.
pub measured :
    (cols : List Column) (rows : List (List Text))
    → let ss = slots_from 0 cols (measure (map (λ c. length c.header) cols) rows) rows in
      (length ss ≡ length cols)
      × (count_if is_flex ss ≡ count_if (λ c. c.flex) cols)
      × (All IsTitled cols → All IsSized ss)
measured cols rows =
    let same =
      length-slots_from 0 cols (naturals 0 (heads cols) rows) rows
        (sym (length-naturals 0 (heads cols) rows ∙ length-map (λ c. length c.header) cols)) in
    rw (measure-naturals (heads cols) rows) (same.0, same.1, slots_from-IsSized 0 cols rows)
