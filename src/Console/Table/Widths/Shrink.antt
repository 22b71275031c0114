-- ===== src/Console/Table/Widths/Shrink.antt =====
-- The shaving of the columns, `shrinkSelected` of internal/console/table.go.
use jenkins_bench.Prelude.{
  ℕ, zero, suc, ◌-◌, ◌≤◌, ◌<◌, Bool, true, false, ◌≡◌, refl, ◌⊎◌, inl, inr, List, [], ◌∷◌, ◌&&◌,
  ◌||◌, All, length, count_if, ltb, leb, ◌==◌, Bool-cases, arith,
}
use jenkins_bench.Console.Table.Widths.{
  Slot, sum_selected, widest, shave, shrink_loop, shrink_selected,
}

-- What a shaving may do to a column: its width goes down to the floor at most, if it is selected.
abbrev pub IsGiven : (Slot → Bool) → ℕ → Slot → Slot → Type 0
IsGiven selected floor b a =
    (a.flex ≡ b.flex)
    × (a.natural ≡ b.natural)
    × (a.width ≤ b.width)
    × ((a.width ≡ b.width) ⊎ ((selected b ≡ true) × (floor ≤ a.width)))

-- A column that has a width, and not more than its content needs.
abbrev pub IsSized : Slot → Type 0
IsSized s = (0 < s.width) × (s.width ≤ s.natural)

-- The columns of two lists, one by one.
abbrev pub IsShaved : (Slot → Bool) → ℕ → List Slot → List Slot → Type 0
IsShaved selected floor [] [] = Unit
IsShaved selected floor [] (a ∷ later) = ⊥
IsShaved selected floor (b ∷ before) [] = ⊥
IsShaved selected floor (b ∷ before) (a ∷ later) =
    IsGiven selected floor b a × IsShaved selected floor before later

module _ (selected : Slot → Bool)
    (by_flex : (s t : Slot) → s.flex ≡ t.flex → selected s ≡ selected t) where
  sum-shave :
      (w : ℕ) (ss : List Slot)
      → widest selected ss ≡ w
      → 0 < w
      → suc (sum_selected selected (shave selected w ss)) ≡ sum_selected selected ss
  unfolding sum_selected widest shave
  sum-shave w [] e pos = ground arith
  sum-shave w (s ∷ ss) e pos =
      ground (arith, sum-shave w ss, by_flex (record s { width = s.width - 1 }) s refl)

  pub IsShaved-refl : (floor : ℕ) (ss : List Slot) → IsShaved selected floor ss ss
  IsShaved-refl floor [] = tt
  IsShaved-refl floor (s ∷ ss) = ((refl, refl, omega arith, inl refl), IsShaved-refl floor ss)

  IsShaved-trans :
      (floor : ℕ) (xs ys zs : List Slot)
      → IsShaved selected floor xs ys
      → IsShaved selected floor ys zs
      → IsShaved selected floor xs zs
  IsShaved-trans floor [] [] [] f g = tt
  IsShaved-trans floor [] [] (z ∷ zs) f g = g
  IsShaved-trans floor [] (y ∷ ys) zs f g = elim f [ ]
  IsShaved-trans floor (x ∷ xs) [] zs f g = elim f [ ]
  IsShaved-trans floor (x ∷ xs) (y ∷ ys) [] f g = g
  IsShaved-trans floor (x ∷ xs) (y ∷ ys) (z ∷ zs) f g =
      (ground (arith, by_flex y x f.0.0, f.0, g.0), IsShaved-trans floor xs ys zs f.1 g.1)

  shave-IsShaved :
      (floor w : ℕ) (ss : List Slot) → floor < w → IsShaved selected floor ss (shave selected w ss)
  unfolding shave
  shave-IsShaved floor w [] above = tt
  shave-IsShaved floor w (s ∷ ss) above =
      let hit = by_flex (record s { width = s.width - 1 }) s refl in
      let given : selected s ≡ true
          → s.width ≡ w
          → IsGiven selected floor s (record s { width = s.width - 1 }) =
        λ h e. (refl, refl, omega arith, inr (h, omega (arith, e, above))) in
      elim (Bool-cases (selected s && s.width == w)) [
        | inl e ↦ rw e (ground (arith, given), IsShaved-refl floor ss)
        | inr e ↦ rw e ((refl, refl, omega arith, inl refl), shave-IsShaved floor w ss above)
      ]

  shrink_loop-IsShaved :
      (fuel total floor sum : ℕ) (ss : List Slot)
      → IsShaved selected floor ss (shrink_loop selected fuel total floor sum ss)
  unfolding shrink_loop
  shrink_loop-IsShaved zero total floor sum ss = IsShaved-refl floor ss
  shrink_loop-IsShaved (suc fuel) total floor sum ss =
      let w = widest selected ss in
      let next = shave selected w ss in
      elim (Bool-cases (ltb total sum)) [
        | inr e ↦ rw e (IsShaved-refl floor ss)
        | inl e ↦ rw e (elim (Bool-cases (w == 0 || leb w floor)) [
          | inl stop ↦ rw stop (IsShaved-refl floor ss)
          | inr go ↦ rw go (
              IsShaved-trans floor ss next _ (shave-IsShaved floor w ss (ground arith))
                (shrink_loop-IsShaved fuel total floor (sum - 1) next))
        ])
      ]

  shrink_loop-stops :
      (fuel total floor sum : ℕ) (ss : List Slot)
      → sum ≡ sum_selected selected ss
      → sum ≤ fuel
      → let after = shrink_loop selected fuel total floor sum ss in
        (sum_selected selected after ≤ total) ⊎ (widest selected after ≤ floor)
  unfolding shrink_loop
  shrink_loop-stops zero total floor sum ss e enough = inl (omega (arith, e, enough))
  shrink_loop-stops (suc fuel) total floor sum ss e enough =
      let w = widest selected ss in
      let again = shrink_loop-stops fuel total floor (sum - 1) (shave selected w ss) in
      ground (arith, sum-shave w ss refl, again)

  shrink_loop_within :
      (fuel total floor : ℕ) (ss : List Slot)
      → sum_selected selected ss ≤ total
      → shrink_loop selected fuel total floor (sum_selected selected ss) ss ≡ ss
  unfolding shrink_loop
  shrink_loop_within zero total floor ss within = refl
  shrink_loop_within (suc fuel) total floor ss within =
      let e : ltb total (sum_selected selected ss) ≡ false = ground (arith, within) in rw e refl

  -- Shaving ends with the selected columns within the total or none of them above the floor, takes
  -- nothing where they are within it, and changes no other column and none to below the floor.
  pub shrink_selected_lem :
      (total floor : ℕ) (ss : List Slot)
      → let after = shrink_selected selected total floor ss in
        IsShaved selected floor ss after
        × ((sum_selected selected after ≤ total) ⊎ (widest selected after ≤ floor))
        × (sum_selected selected ss ≤ total → after ≡ ss)
  unfolding shrink_selected shrink_loop
  shrink_selected_lem total floor ss = (
    shrink_loop-IsShaved _ total floor _ ss,
    shrink_loop-stops _ total floor _ ss refl (omega arith),
    λ within. shrink_loop_within (sum_selected selected ss) total floor ss within,
  )

  pub count-IsShaved :
      (p : Slot → Bool)
      → ((s t : Slot) → s.flex ≡ t.flex → p s ≡ p t)
      → (floor : ℕ) (before later : List Slot) → IsShaved selected floor before later
      → (count_if p later ≡ count_if p before) × (length later ≡ length before)
  count-IsShaved p same floor [] [] f = (refl, refl)
  count-IsShaved p same floor [] (a ∷ later) f = elim f [ ]
  count-IsShaved p same floor (b ∷ before) [] f = elim f [ ]
  count-IsShaved p same floor (b ∷ before) (a ∷ later) f =
      ground (arith, count-IsShaved p same floor before later f.1, same a b f.0.0)

  sum_floor :
      (ss : List Slot) → widest selected ss ≤ 1 → sum_selected selected ss ≤ count_if selected ss
  unfolding widest sum_selected
  sum_floor [] low = omega arith
  sum_floor (s ∷ ss) low = ground (arith, sum_floor ss)

  -- With the floor 1, the columns come within any total that leaves each of them one.
  pub sum-shrink_selected :
      (total : ℕ) (ss : List Slot)
      → count_if selected ss ≤ total
      → sum_selected selected (shrink_selected selected total 1 ss) ≤ total
  sum-shrink_selected total ss room =
      let after = shrink_selected selected total 1 ss in
      let shaved = shrink_selected_lem total 1 ss in
      let same = count-IsShaved selected by_flex 1 ss after shaved.0 in
      elim shaved.1 [
        | inl within ↦ within
        | inr low ↦ omega (arith, sum_floor after low, same.0, room)
      ]

  -- Columns that are neither empty nor wider than their content stay so.
  pub IsShaved-IsSized :
      (before later : List Slot)
      → IsShaved selected 1 before later
      → All IsSized before
      → All IsSized later
  IsShaved-IsSized [] [] f h = tt
  IsShaved-IsSized [] (a ∷ later) f h = elim f [ ]
  IsShaved-IsSized (b ∷ before) [] f h = elim f [ ]
  IsShaved-IsSized (b ∷ before) (a ∷ later) f h = (
    (ground (arith, f.0, h.0), omega (arith, f.0.1, f.0.2, h.0)),
    IsShaved-IsSized before later f.1 h.1,
  )
