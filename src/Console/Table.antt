-- ===== src/Console/Table.antt =====
-- internal/console/table.go: the tables of the report. A width below zero is taken as the source takes
-- 0: where it subtracts, it compares with a number that is not negative, or stops at the floor.
pub mod Widths
pub mod Layout
pub mod Measure
pub mod Laws
pub mod Fits
use jenkins_bench.Prelude.{
  ℕ, zero, suc, ◌+◌, ◌-◌, ◌*◌, ◌/◌, Bool, true, false, not, ◌&&◌, Option, none, some, List, [], ◌∷◌,
  ◌++◌, map, length, get_elem?, ltb, ◌==◌, if◌then◌else◌,
}
use jenkins_bench.Prelude.Text.{Text, split, is_empty}
use jenkins_bench.Prelude.Words.{repeat}
use jenkins_bench.Console.Table.Widths.{Slot, fit_slots, widths_of, cell_padding}
use jenkins_bench.Console.Table.Layout.{layout}

pub data Align : Type 0 where
  left centre right : Align

pub record Column : Type 0 where
  pub header : Text
  pub align : Align
  pub flex : Bool
  -- the painting of a cell's text; `none` is the nil function
  pub colour : Option (Text → Text)

-- The loop over the hard lines of a cell, from the width `n`.
unfoldable pub widest_line : ℕ → List Text → ℕ
widest_line n [] = n
widest_line n (line ∷ lines) = widest_line (if ltb n (length line) then length line else n) lines

-- A row of the first loop of columnWidths; a cell that the row does not have is skipped.
unfoldable pub measure_row : List ℕ → List Text → List ℕ
measure_row [] row = []
measure_row (n ∷ ns) [] = n ∷ ns
measure_row (n ∷ ns) (text ∷ row) = widest_line n (split b'\n' text) ∷ measure_row ns row

unfoldable pub measure : List ℕ → List (List Text) → List ℕ
measure ns [] = ns
measure ns (row ∷ rows) = measure (measure_row ns row) rows

-- The loop of naturalWidth over the rows.
unfoldable pub natural_from : ℕ → ℕ → List (List Text) → ℕ
natural_from col n [] = n
natural_from col n (row ∷ rows) = elim (get_elem? row col) [
  | none ↦ natural_from col n rows
  | some text ↦ natural_from col (widest_line n (split b'\n' text)) rows
]

-- naturalWidth
unfoldable pub natural_width : Column → List (List Text) → ℕ → ℕ
natural_width c rows col = natural_from col (length c.header) rows

-- The columns from index `i` on, with the widths measured.
unfoldable pub slots_from : ℕ → List Column → List ℕ → List (List Text) → List Slot
slots_from i [] ns rows = []
slots_from i (c ∷ cs) [] rows = []
slots_from i (c ∷ cs) (n ∷ ns) rows =
    record { flex = c.flex; natural = natural_width c rows i; width = n }
    ∷ slots_from (i + 1) cs ns rows

-- columnWidths
unfoldable pub column_widths : ℕ → List Column → List (List Text) → List ℕ
column_widths width cols rows =
    let ns = measure (map (λ c. length c.header) cols) rows in
    widths_of (fit_slots width (slots_from 0 cols ns rows))

abbrev pub border_h : ℕ
border_h = 0x2500

abbrev pub border_v : ℕ
border_v = 0x2502

-- The columns of a rule behind the first.
unfoldable pub rule_rest : ℕ → ℕ → List ℕ → Text
rule_rest mid end [] = end ∷ []
rule_rest mid end (w ∷ ws) = mid ∷ repeat border_h (w + cell_padding) ++ rule_rest mid end ws

-- rule
unfoldable pub rule : ℕ → ℕ → ℕ → List ℕ → Text
rule start mid end [] = start ∷ end ∷ []
rule start mid end (w ∷ ws) = start ∷ repeat border_h (w + cell_padding) ++ rule_rest mid end ws

-- padded
unfoldable pub padded : Text → ℕ → Align → Option (Text → Text) → Text
padded text width align colour =
    let gap = width - length text in
    let painted : Text = elim colour [
      | none ↦ text
      | some paint ↦ if is_empty text then text else paint text
    ] in
    elim align [
      | right ↦ repeat b' ' gap ++ painted
      | centre ↦ repeat b' ' (gap / 2) ++ painted ++ repeat b' ' (gap - gap / 2)
      | left ↦ painted ++ repeat b' ' gap
    ]

-- colourOf
unfoldable pub colour_of : Column → Bool → Option (Text → Text)
colour_of c header = if header then none else c.colour

-- The cells of a row, laid out: a missing one is empty.
unfoldable pub cells_of : List Column → List ℕ → List Text → List (List Text)
cells_of [] widths row = []
cells_of (c ∷ cs) [] row = []
cells_of (c ∷ cs) (w ∷ widths) [] = layout [] w ∷ cells_of cs widths []
cells_of (c ∷ cs) (w ∷ widths) (text ∷ row) = layout text w ∷ cells_of cs widths row

unfoldable pub tallest : ℕ → List (List Text) → ℕ
tallest height [] = height
tallest height (cell ∷ cells) =
    tallest (if ltb height (length cell) then length cell else height) cells

-- The cells of one terminal line of a row.
unfoldable pub line_from : ℕ → Bool → List Column → List ℕ → List (List Text) → Text
line_from line header (c ∷ cs) (w ∷ widths) (cell ∷ cells) =
    let text : Text = elim (get_elem? cell line) [ none ↦ [] | some t ↦ t ] in
    let align = if header then centre else c.align in
    b' ' ∷ padded text w align (colour_of c header)
    ++ b' ' ∷ border_v ∷ line_from line header cs widths cells
line_from line header _ _ _ = []

-- The loop over the lines of a row, `n` of them from `line` on.
unfoldable pub row_lines : ℕ → ℕ → Bool → List Column → List ℕ → List (List Text) → List Text
row_lines zero line header cols widths cells = []
row_lines (suc n) line header cols widths cells =
    (border_v ∷ line_from line header cols widths cells)
    ∷ row_lines n (line + 1) header cols widths cells

-- writeRow
unfoldable pub write_row : List ℕ → List Column → List Text → Bool → List Text
write_row widths cols row header =
    let cells = cells_of cols widths row in row_lines (tallest 1 cells) 0 header cols widths cells

-- The rows behind the first, each behind a rule.
unfoldable pub more_rows : List ℕ → List Column → List (List Text) → List Text
more_rows widths cols [] = []
more_rows widths cols (row ∷ rows) =
    rule 0x251c 0x253c 0x2524 widths ∷ write_row widths cols row false ++ more_rows widths cols rows

unfoldable pub body_rows : List ℕ → List Column → List (List Text) → List Text
body_rows widths cols [] = []
body_rows widths cols (row ∷ rows) = write_row widths cols row false ++ more_rows widths cols rows

-- RenderTable: the lines printed
unfoldable pub render_table : ℕ → List Column → List (List Text) → List Text
render_table width [] rows = []
render_table width (c ∷ cs) rows =
    let cols = c ∷ cs in
    let widths = column_widths width cols rows in
    rule 0x250c 0x252c 0x2510 widths ∷ write_row widths cols (map (λ c. c.header) cols) true
    ++ rule 0x251c 0x253c 0x2524 widths ∷ body_rows widths cols rows
    ++ rule 0x2514 0x2534 0x2518 widths ∷ []
