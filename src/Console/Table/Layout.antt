-- ===== src/Console/Table/Layout.antt =====
-- internal/console/table.go: `layout` and `breakLongWord`, the lines that a cell's text occupies.
pub mod Laws
pub mod Visible
use jenkins_bench.Prelude.{
  ℕ, zero, suc, List, [], ◌∷◌, ◌++◌, length, take, drop, ltb, ◌==◌, if◌then◌else◌,
}
use jenkins_bench.Prelude.Text.{Text, split, is_empty, trim_space}
use jenkins_bench.Console.Wrap.{wrap}

-- The loop of breakLongWord, with fuel.
unfoldable pub break_loop : ℕ → Text → ℕ → List Text
break_loop zero s width = s ∷ []
break_loop (suc fuel) s width =
    let rest = take width s ∷ break_loop fuel (drop width s) width in
    if ltb width (length s) then rest else s ∷ []

-- breakLongWord; a round takes `width` runes, so the length is fuel enough
unfoldable pub break_long_word : Text → ℕ → List Text
break_long_word s width = if width == 0 then s ∷ [] else break_loop (length s) s width

unfoldable pub break_lines : List Text → ℕ → List Text
break_lines [] width = []
break_lines (soft ∷ more) width = break_long_word soft width ++ break_lines more width

-- The loop of layout over the hard lines.
unfoldable pub layout_lines : List Text → ℕ → List Text
layout_lines [] width = []
layout_lines (hard ∷ more) width =
    if is_empty (trim_space hard)
    then [] ∷ layout_lines more width
    else break_lines (wrap hard width) width ++ layout_lines more width

-- layout
unfoldable pub layout : Text → ℕ → List Text
layout text width = layout_lines (split b'\n' text) width
