-- ===== src/Console/Table/Laws.antt =====
-- The lines that `RenderTable` of internal/console/table.go prints: how wide they are.
use jenkins_bench.Prelude.{
  ℕ, zero, suc, ◌+◌, ◌-◌, ◌/◌, ap, ◌==◌, Option, ◌≤◌, ◌<◌, Bool, true, false, ◌≡◌, refl, ◌∙◌, List,
  [], ◌∷◌, ◌++◌, none, some, All, All-append, map, length, length-append, get_elem?, if◌then◌else◌,
  arith,
}
use jenkins_bench.Prelude.Text.{Text, is_empty}
use jenkins_bench.Prelude.Words.{repeat}
use jenkins_bench.Console.Table.{
  Align, Column, left, centre, right, padded, rule, rule_rest, line_from, cells_of, row_lines,
  write_row, more_rows, body_rows, render_table, column_widths, colour_of, border_v,
}
use jenkins_bench.Console.Table.Widths.{cell_padding}
use jenkins_bench.Console.Table.Layout.Laws.{layout-within}
use jenkins_bench.Console.Table.Layout.Visible.{layout-IsUnescaped}
use jenkins_bench.Console.Table.Layout.{layout}
use jenkins_bench.Console.Shown.{
  esc, shown, shown_from, IsUnescaped, IsTransparent, shown-append, shown-repeat,
}
use mathlib.Core.List.{append_assoc}

-- What the columns and their borders take.
abbrev pub line_width : List ℕ → ℕ
line_width [] = 1
line_width (w ∷ ws) = w + 3 + line_width ws

-- A column whose painting adds only what the terminal does not show.
abbrev pub IsPainted : Column → Type 0
IsPainted c = IsTransparent c.colour

abbrev pub width_of : Text → ℕ
width_of line = length (shown line)

width_of-rule_rest :
    (mid end : ℕ) (ws : List ℕ)
    → (mid == esc) ≡ false
    → (end == esc) ≡ false
    → width_of (rule_rest mid end ws) ≡ line_width ws
unfolding rule_rest shown shown_from
width_of-rule_rest mid end [] hm he = rw he refl
width_of-rule_rest mid end (w ∷ ws) hm he = rw hm (
    omega (
      arith,
      shown-repeat 0x2500 (w + cell_padding) (rule_rest mid end ws) refl,
      width_of-rule_rest mid end ws hm he,
    ))

width_of-rule :
    (start mid end w : ℕ) (ws : List ℕ)
    → (start == esc) ≡ false
    → (mid == esc) ≡ false
    → (end == esc) ≡ false
    → width_of (rule start mid end (w ∷ ws)) ≡ line_width (w ∷ ws)
unfolding rule rule_rest shown shown_from
width_of-rule start mid end w ws hs hm he = rw hs (
    omega (
      arith,
      shown-repeat 0x2500 (w + cell_padding) (rule_rest mid end ws) refl,
      width_of-rule_rest mid end ws hm he,
    ))

-- The text of a cell, painted, in front of the rest of its line.
shown-painted :
    (colour : Option (Text → Text)) (text rest : Text)
    → IsTransparent colour
    → IsUnescaped text
    → length (
        shown (
          (elim colour as (λ o. Text) [
            | none ↦ text
            | some paint ↦ if is_empty text then text else paint text
          ])
          ++ rest))
      ≡ length text + length (shown rest)
shown-painted none text rest h clean =
    ap length (shown-append text rest clean) ∙ length-append text (shown rest)
shown-painted (some paint) [] rest h clean = omega arith
shown-painted (some paint) (c ∷ text) rest h clean =
    ap length (h (c ∷ text) rest clean) ∙ length-append (c ∷ text) (shown rest)

width_of-padded :
    (text : Text) (width : ℕ) (align : Align) (colour : Option (Text → Text)) (rest : Text)
    → IsTransparent colour
    → IsUnescaped text
    → length text ≤ width
    → width_of (padded text width align colour ++ rest) ≡ width + width_of rest
unfolding padded
width_of-padded text width left colour rest h clean fits =
    let gap = width - length text in
    ap width_of (append_assoc _ (repeat b' ' gap) rest)
    ∙ omega (
      arith,
      fits,
      shown-painted colour text (repeat b' ' gap ++ rest) h clean,
      shown-repeat b' ' gap rest refl,
    )
width_of-padded text width centre colour rest h clean fits =
    let gap = width - length text in
    let right_gap = repeat b' ' (gap - gap / 2) in
    ap width_of (append_assoc _ right_gap rest)
    ∙ ap width_of (append_assoc (repeat b' ' (gap / 2)) _ (right_gap ++ rest))
    ∙ omega (
      arith,
      fits,
      shown-repeat b' ' (gap / 2) _ refl,
      shown-painted colour text (right_gap ++ rest) h clean,
      shown-repeat b' ' (gap - gap / 2) rest refl,
    )
width_of-padded text width right colour rest h clean fits =
    let gap = width - length text in
    ap width_of (append_assoc (repeat b' ' gap) _ rest)
    ∙ omega (arith, fits, shown-repeat b' ' gap _ refl, shown-painted colour text rest h clean)

-- A line of a cell that keeps to its column and holds no escape.
abbrev IsCellLine : ℕ → Text → Type 0
IsCellLine w t = (length t ≤ w) × IsUnescaped t

-- The text of a cell on one of the lines of its row.
text_at :
    (cell : List Text) (line w : ℕ)
    → All (IsCellLine w) cell
    → IsCellLine w (elim (get_elem? cell line) as (λ o. Text) [ none ↦ [] | some t ↦ t ])
text_at [] line w h = (omega arith, refl)
text_at (t ∷ cell) zero w h = h.0
text_at (t ∷ cell) (suc line) w h = text_at cell line w h.1

abbrev pub IsPaintedAs : Bool → Column → Type 0
IsPaintedAs header c = IsTransparent (colour_of c header)

-- Every cell within its column.
abbrev IsLaidOut : List ℕ → List (List Text) → Type 0
IsLaidOut [] cells = Unit
IsLaidOut (w ∷ ws) [] = ⊥
IsLaidOut (w ∷ ws) (cell ∷ cells) = All (IsCellLine w) cell × IsLaidOut ws cells

width_of-line_from :
    (line : ℕ) (header : Bool) (cols : List Column) (ws : List ℕ) (cells : List (List Text))
    → All (IsPaintedAs header) cols
    → length cols ≡ length ws
    → IsLaidOut ws cells
    → suc (width_of (line_from line header cols ws cells)) ≡ line_width ws
unfolding line_from shown shown_from
width_of-line_from line header [] [] cells plain same laid = refl
width_of-line_from line header [] (w ∷ ws) cells plain same laid = absurd (omega (arith, same))
width_of-line_from line header (c ∷ cols) [] cells plain same laid = absurd (omega (arith, same))
width_of-line_from line header (c ∷ cols) (w ∷ ws) [] plain same laid = elim laid [ ]
width_of-line_from line header (c ∷ cols) (w ∷ ws) (cell ∷ cells) plain same laid =
    let text : Text = elim (get_elem? cell line) [ none ↦ [] | some t ↦ t ] in
    let align = if header then centre else c.align in
    let (fits, clean) = text_at cell line w laid.0 in
    let more = line_from line header cols ws cells in
    omega (
      arith,
      width_of-padded text w align (colour_of c header) (b' ' ∷ border_v ∷ more) plain.0 clean fits,
      width_of-line_from line header cols ws cells plain.1 (omega (arith, same)) laid.1,
    )

-- A text that the terminal shows whole, and rows of such cells.
abbrev pub IsCleanRow : List Text → Type 0
IsCleanRow = All IsUnescaped

All-both {ℓ κ} :
    {A : Type 0} (P : A → Type ℓ) (Q : A → Type κ) (xs : List A)
    → All P xs
    → All Q xs
    → All (λ x. P x × Q x) xs
All-both P Q [] h k = tt
All-both P Q (x ∷ xs) h k = ((h.0, k.0), All-both P Q xs h.1 k.1)

layout-IsCellLine :
    (text : Text) (w : ℕ) → 0 < w → IsUnescaped text → All (IsCellLine w) (layout text w)
layout-IsCellLine text w pos clean =
    All-both _ IsUnescaped (layout text w) (layout-within text w pos)
      (layout-IsUnescaped text w clean)

cells_of-IsLaidOut :
    (cols : List Column) (ws : List ℕ) (row : List Text)
    → length cols ≡ length ws
    → All (λ w. 0 < w) ws
    → IsCleanRow row
    → IsLaidOut ws (cells_of cols ws row)
unfolding cells_of
cells_of-IsLaidOut [] [] row same pos clean = tt
cells_of-IsLaidOut [] (w ∷ ws) row same pos clean = absurd (omega (arith, same))
cells_of-IsLaidOut (c ∷ cols) [] row same pos clean = absurd (omega (arith, same))
cells_of-IsLaidOut (c ∷ cols) (w ∷ ws) [] same pos clean = (
  layout-IsCellLine [] w pos.0 refl,
  cells_of-IsLaidOut cols ws [] (omega (arith, same)) pos.1 tt,
)
cells_of-IsLaidOut (c ∷ cols) (w ∷ ws) (text ∷ row) same pos clean = (
  layout-IsCellLine text w pos.0 clean.0,
  cells_of-IsLaidOut cols ws row (omega (arith, same)) pos.1 clean.1,
)

-- A line that is shown as wide as the columns and their borders.
abbrev pub IsStraight : List ℕ → Text → Type 0
IsStraight ws line = width_of line ≡ line_width ws

row_lines-IsStraight :
    (n line : ℕ) (header : Bool) (cols : List Column) (ws : List ℕ) (cells : List (List Text))
    → All (IsPaintedAs header) cols
    → length cols ≡ length ws
    → IsLaidOut ws cells
    → All (IsStraight ws) (row_lines n line header cols ws cells)
unfolding row_lines shown shown_from
row_lines-IsStraight zero line header cols ws cells plain same laid = tt
row_lines-IsStraight (suc n) line header cols ws cells plain same laid = (
  width_of-line_from line header cols ws cells plain same laid,
  row_lines-IsStraight n (line + 1) header cols ws cells plain same laid,
)

write_row-IsStraight :
    (ws : List ℕ) (cols : List Column) (row : List Text) (header : Bool)
    → All (IsPaintedAs header) cols
    → length cols ≡ length ws
    → All (λ w. 0 < w) ws
    → IsCleanRow row
    → All (IsStraight ws) (write_row ws cols row header)
unfolding write_row
write_row-IsStraight ws cols row header plain same pos clean =
    row_lines-IsStraight _ 0 header cols ws (cells_of cols ws row) plain same
      (cells_of-IsLaidOut cols ws row same pos clean)

more_rows-IsStraight :
    (w : ℕ) (ws : List ℕ) (cols : List Column) (rows : List (List Text))
    → All (IsPaintedAs false) cols
    → length cols ≡ length (w ∷ ws)
    → All (λ v. 0 < v) (w ∷ ws)
    → All IsCleanRow rows
    → All (IsStraight (w ∷ ws)) (more_rows (w ∷ ws) cols rows)
unfolding more_rows
more_rows-IsStraight w ws cols [] plain same pos clean = tt
more_rows-IsStraight w ws cols (row ∷ rows) plain same pos clean = (
  width_of-rule 0x251c 0x253c 0x2524 w ws refl refl refl,
  All-append _ (write_row (w ∷ ws) cols row false) _
      (write_row-IsStraight (w ∷ ws) cols row false plain same pos clean.0)
      (more_rows-IsStraight w ws cols rows plain same pos clean.1),
)

body_rows-IsStraight :
    (w : ℕ) (ws : List ℕ) (cols : List Column) (rows : List (List Text))
    → All (IsPaintedAs false) cols
    → length cols ≡ length (w ∷ ws)
    → All (λ v. 0 < v) (w ∷ ws)
    → All IsCleanRow rows
    → All (IsStraight (w ∷ ws)) (body_rows (w ∷ ws) cols rows)
unfolding body_rows
body_rows-IsStraight w ws cols [] plain same pos clean = tt
body_rows-IsStraight w ws cols (row ∷ rows) plain same pos clean =
    All-append _ (write_row (w ∷ ws) cols row false) _
      (write_row-IsStraight (w ∷ ws) cols row false plain same pos clean.0)
      (more_rows-IsStraight w ws cols rows plain same pos clean.1)

header-IsPaintedAs : (cols : List Column) → All (IsPaintedAs true) cols
unfolding colour_of
header-IsPaintedAs [] = tt
header-IsPaintedAs (c ∷ cols) = (tt, header-IsPaintedAs cols)

body-IsPaintedAs : (cols : List Column) → All IsPainted cols → All (IsPaintedAs false) cols
unfolding colour_of
body-IsPaintedAs [] h = tt
body-IsPaintedAs (c ∷ cols) h = (h.0, body-IsPaintedAs cols h.1)

pub render-IsStraight :
    (width : ℕ) (c : Column) (cs : List Column) (rows : List (List Text)) (w : ℕ) (ws : List ℕ)
    → column_widths width (c ∷ cs) rows ≡ w ∷ ws
    → All IsPainted (c ∷ cs)
    → length (c ∷ cs) ≡ length (w ∷ ws)
    → All (λ v. 0 < v) (w ∷ ws)
    → IsCleanRow (map (λ d. d.header) (c ∷ cs))
    → All IsCleanRow rows
    → All (IsStraight (w ∷ ws)) (render_table width (c ∷ cs) rows)
unfolding render_table
render-IsStraight width c cs rows w ws e plain same pos titles clean =
    let cols = c ∷ cs in
    let all = w ∷ ws in
    let heads = map (λ d. d.header) cols in
    rw e (
      width_of-rule 0x250c 0x252c 0x2510 w ws refl refl refl,
      All-append _
          (write_row all cols heads true ++ rule 0x251c 0x253c 0x2524 all ∷ body_rows all cols rows)
          _
          (All-append _ (write_row all cols heads true) _
            (write_row-IsStraight all cols heads true (header-IsPaintedAs cols) same pos titles)
            (
              width_of-rule 0x251c 0x253c 0x2524 w ws refl refl refl,
              body_rows-IsStraight w ws cols rows (body-IsPaintedAs cols plain) same pos clean,
            ))
          (width_of-rule 0x2514 0x2534 0x2518 w ws refl refl refl, tt),
    )
