-- ===== src/Console/Table/Widths/Laws.antt =====
-- How the columns of a table fit its width: `columnWidths` of internal/console/table.go.
use jenkins_bench.Prelude.{
  ℕ, suc, ◌+◌, ◌-◌, ◌*◌, ◌/◌, ◌%◌, ◌≤◌, ◌<◌, Bool, ◌≡◌, refl, ap, ◌∙◌, inl, inr, List, [], ◌∷◌, All,
  length, count_if, ltb, ◌==◌, Bool-cases, arith,
}
use jenkins_bench.Console.Table.Widths.{
  Slot, sum_selected, give_flex, fit_fixed, remaining, fit_slots, is_fixed, any_slot, cell_padding,
  min_flex_width,
}
use jenkins_bench.Console.Table.Widths.Shrink.{
  shrink_selected_lem, sum-shrink_selected, IsShaved-IsSized, IsSized, count-IsShaved, IsShaved,
  IsShaved-refl,
}

abbrev pub is_flex : Slot → Bool
is_flex s = s.flex

fixed_by_flex : (s t : Slot) → s.flex ≡ t.flex → is_fixed s ≡ is_fixed t
fixed_by_flex s t e = rw e refl

pub count-split : (ss : List Slot) → count_if is_fixed ss + count_if is_flex ss ≡ length ss
count-split [] = refl
count-split (s ∷ ss) = ground (arith, count-split ss)

count-any : (ss : List Slot) → count_if any_slot ss ≡ length ss
count-any [] = refl
count-any (s ∷ ss) = ground (arith, count-any ss)

mul_suc : (a b : ℕ) → a * suc b ≡ a + a * b
mul_suc a b = grind arith

-- What the flexed columns are given comes to their shares and the extras at most.
sum-give_flex :
    (share extra n : ℕ) (ss : List Slot)
    → sum_selected any_slot (give_flex share extra n ss)
      ≤ sum_selected is_fixed ss + share * count_if is_flex ss + (extra - n)
unfolding sum_selected give_flex
sum-give_flex share extra n [] = omega arith
sum-give_flex share extra n (s ∷ ss) = ground (
  arith,
  mul_suc share (count_if is_flex ss),
  sum-give_flex share extra (n + 1) ss,
  sum-give_flex share extra n ss,
)

give_flex-IsSized :
    (share extra n : ℕ) (ss : List Slot)
    → 0 < share
    → All IsSized ss
    → All IsSized (give_flex share extra n ss)
unfolding give_flex
give_flex-IsSized share extra n [] pos h = tt
give_flex-IsSized share extra n (s ∷ ss) pos h = ground (
  arith,
  h,
  give_flex-IsSized share extra (n + 1) ss pos h.1,
  give_flex-IsSized share extra n ss pos h.1,
)

div_mod : (n d : ℕ) → 0 < d → n / d * d + n % d ≡ n
div_mod n d pos = grind arith

div_pos : (n d : ℕ) → 0 < d → d ≤ n → 0 < n / d
div_pos n d pos le = grind arith

-- The fixed columns come to what the minimum of the flexed ones leaves.
sum-fit_fixed :
    (budget : ℕ) (ss : List Slot)
    → 0 < count_if is_flex ss
    → count_if is_fixed ss + count_if is_flex ss * min_flex_width ≤ budget
    → sum_selected is_fixed (fit_fixed budget ss) + count_if is_flex ss * min_flex_width ≤ budget
unfolding fit_fixed
sum-fit_fixed budget ss some room =
    let need = count_if is_flex ss * min_flex_width in
    ground (arith, sum-shrink_selected is_fixed fixed_by_flex (budget - need) ss (omega arith))

fit_fixed-IsShaved : (budget : ℕ) (ss : List Slot) → IsShaved is_fixed 1 ss (fit_fixed budget ss)
unfolding fit_fixed
fit_fixed-IsShaved budget ss =
    let need = count_if is_flex ss * min_flex_width in
    elim (Bool-cases (ltb (budget - sum_selected is_fixed ss) need)) [
      | inl e ↦ rw e ((shrink_selected_lem is_fixed fixed_by_flex (budget - need) 1 ss).0)
      | inr e ↦ rw e (IsShaved-refl is_fixed fixed_by_flex 1 ss)
    ]

-- A table that has room for 8 in every flexed column and 1 in every fixed one fits its width.
pub fit_slots-Fits :
    (width : ℕ) (ss : List Slot)
    → length ss
        + 1
        + length ss * cell_padding
        + count_if is_flex ss * min_flex_width
        + count_if is_fixed ss
      ≤ width
    → sum_selected any_slot (fit_slots width ss) + (length ss + 1 + length ss * cell_padding)
      ≤ width
unfolding fit_slots remaining
fit_slots-Fits width ss room =
    let overhead = length ss + 1 + length ss * cell_padding in
    let budget = width - overhead in
    let flexed = count_if is_flex ss in
    let fixed = fit_fixed budget ss in
    let left = remaining budget fixed in
    let all = count-split ss in
    let same =
      count-IsShaved is_fixed fixed_by_flex is_flex (λ s t e. e) 1 ss fixed
        (fit_fixed-IsShaved budget ss) in
    elim (Bool-cases (flexed == 0)) [
      | inl e ↦ rw e (
          let fits =
            sum-shrink_selected any_slot (λ s t h. refl) budget ss
              (omega (arith, room, all, count-any ss)) in
          omega (arith, fits, room))
      | inr e ↦ rw e (
          let some : 0 < flexed = ground (arith, e) in
          let fits = sum-fit_fixed budget ss some (omega (arith, room)) in
          let is_left : left ≡ budget - sum_selected is_fixed fixed =
            ground (arith, fits, some, same.0) in
          let given = sum-give_flex (left / flexed) (left % flexed) 0 fixed in
          let whole = div_mod left flexed some in
          let back : left / flexed * count_if is_flex fixed ≡ left / flexed * flexed =
            ap (λ k. left / flexed * k) same.0 in
          omega (arith, given, whole, back, is_left, fits, room))
    ]

fit_fixed-length :
    (budget : ℕ) (ss : List Slot)
    → (count_if is_flex (fit_fixed budget ss) ≡ count_if is_flex ss)
      × (length (fit_fixed budget ss) ≡ length ss)
fit_fixed-length budget ss =
    count-IsShaved is_fixed fixed_by_flex is_flex (λ s t e. e) 1 ss (fit_fixed budget ss)
      (fit_fixed-IsShaved budget ss)

length-give_flex :
    (share extra n : ℕ) (ss : List Slot) → length (give_flex share extra n ss) ≡ length ss
unfolding give_flex
length-give_flex share extra n [] = refl
length-give_flex share extra n (s ∷ ss) =
    ground (arith, length-give_flex share extra (n + 1) ss, length-give_flex share extra n ss)

pub length-fit_slots : (width : ℕ) (ss : List Slot) → length (fit_slots width ss) ≡ length ss
unfolding fit_slots
length-fit_slots width ss =
    let overhead = length ss + 1 + length ss * cell_padding in
    let budget = width - overhead in
    let flexed = count_if is_flex ss in
    let fixed = fit_fixed budget ss in
    let left = remaining budget fixed in
    elim (Bool-cases (flexed == 0)) [
      | inl e ↦ rw e (
          (count-IsShaved any_slot (λ s t h. refl) is_flex (λ s t h. h) 1 ss _
            ((shrink_selected_lem any_slot (λ s t h. refl) budget 1 ss).0)).1)
      | inr e ↦ rw e (
          length-give_flex (left / flexed) (left % flexed) 0 fixed ∙ (fit_fixed-length budget ss).1)
    ]

-- Where no column was empty or wider than its content, none is.
pub fit_slots-IsSized :
    (width : ℕ) (ss : List Slot) → All IsSized ss → All IsSized (fit_slots width ss)
unfolding fit_slots remaining
fit_slots-IsSized width ss sized =
    let overhead = length ss + 1 + length ss * cell_padding in
    let budget = width - overhead in
    let flexed = count_if is_flex ss in
    let fixed = fit_fixed budget ss in
    let left = remaining budget fixed in
    let same = (fit_fixed-length budget ss).0 in
    let still =
      IsShaved-IsSized is_fixed fixed_by_flex ss fixed (fit_fixed-IsShaved budget ss) sized in
    elim (Bool-cases (flexed == 0)) [
      | inl e ↦ rw e (
          IsShaved-IsSized any_slot (λ s t h. refl) ss _
            ((shrink_selected_lem any_slot (λ s t h. refl) budget 1 ss).0) sized)
      | inr e ↦ rw e (
          let enough : flexed ≤ left = ground (arith, same) in
          give_flex-IsSized (left / flexed) (left % flexed) 0 fixed
            (div_pos left flexed (ground (arith, e)) enough) still)
    ]
