-- ===== src/Console/Table/Widths.antt =====
-- internal/console/table.go: how `columnWidths` shares the width of a table out, once it knows what
-- the content of each column needs, and `shrinkSelected`. The list of the selected columns' indices
-- is a flag on each column.
pub mod Shrink
pub mod Laws
use jenkins_bench.Prelude.{
  ℕ, zero, suc, ◌+◌, ◌-◌, ◌*◌, ◌/◌, ◌%◌, Bool, true, false, not, ◌&&◌, ◌||◌, List, [], ◌∷◌, map,
  length, count_if, ltb, leb, ◌==◌, if◌then◌else◌,
}

-- A column's width under way, and its natural width.
pub record Slot : Type 0 where
  pub flex : Bool
  pub natural : ℕ
  pub width : ℕ

abbrev pub cell_padding : ℕ
cell_padding = 2

abbrev pub min_flex_width : ℕ
min_flex_width = 8

abbrev pub is_fixed : Slot → Bool
is_fixed s = not s.flex

abbrev pub any_slot : Slot → Bool
any_slot s = true

module _ (selected : Slot → Bool) where
  -- The sum over the selected columns.
  unfoldable pub sum_selected : List Slot → ℕ
  sum_selected [] = 0
  sum_selected (s ∷ ss) = if selected s then s.width + sum_selected ss else sum_selected ss

  -- The widest of the selected columns, from the right: the greatest width, 0 where there is none.
  unfoldable pub widest : List Slot → ℕ
  widest [] = 0
  widest (s ∷ ss) = let rest = widest ss in if selected s && ltb rest s.width then s.width else rest

  -- widths[at]--, at the first selected column of that width
  unfoldable pub shave : ℕ → List Slot → List Slot
  shave w [] = []
  shave w (s ∷ ss) =
      let later = s ∷ shave w ss in
      if selected s && s.width == w then record s { width = s.width - 1 } ∷ ss else later

  -- The loop of shrinkSelected, with fuel; each round takes one off the sum.
  unfoldable pub shrink_loop : ℕ → ℕ → ℕ → ℕ → List Slot → List Slot
  shrink_loop zero total floor sum ss = ss
  shrink_loop (suc fuel) total floor sum ss =
      let w = widest ss in
      let again = shrink_loop fuel total floor (sum - 1) (shave w ss) in
      if ltb total sum then (if w == 0 || leb w floor then ss else again) else ss

  -- shrinkSelected
  unfoldable pub shrink_selected : ℕ → ℕ → List Slot → List Slot
  shrink_selected total floor ss = let sum = sum_selected ss in shrink_loop sum total floor sum ss

-- The loop over the flexed columns, the `n`-th being the next.
unfoldable pub give_flex : ℕ → ℕ → ℕ → List Slot → List Slot
give_flex share extra n [] = []
give_flex share extra n (s ∷ ss) =
    let w = if ltb n extra then share + 1 else share in
    let fitted = if ltb s.natural w && ltb 0 s.natural then s.natural else w in
    if s.flex
    then record s { width = fitted } ∷ give_flex share extra (n + 1) ss
    else s ∷ give_flex share extra n ss

-- The fixed columns, shaved where the flexed ones cannot otherwise have their minimum.
unfoldable pub fit_fixed : ℕ → List Slot → List Slot
fit_fixed budget ss =
    let need = count_if (λ s. s.flex) ss * min_flex_width in
    if ltb (budget - sum_selected is_fixed ss) need
    then shrink_selected is_fixed (budget - need) 1 ss
    else ss

-- What is left for the flexed columns: at least one terminal column each.
unfoldable pub remaining : ℕ → List Slot → ℕ
remaining budget ss =
    let left = budget - sum_selected is_fixed ss in
    let flexed = count_if (λ s. s.flex) ss in if ltb left flexed then flexed else left

-- columnWidths, from its `overhead` on
unfoldable pub fit_slots : ℕ → List Slot → List Slot
fit_slots width ss =
    let overhead = length ss + 1 + length ss * cell_padding in
    let budget = width - overhead in
    let flexed = count_if (λ s. s.flex) ss in
    let fixed = fit_fixed budget ss in
    let left = remaining budget fixed in
    if flexed == 0
    then shrink_selected any_slot budget 1 ss
    else give_flex (left / flexed) (left % flexed) 0 fixed

abbrev pub widths_of : List Slot → List ℕ
widths_of = map (λ s. s.width)
