-- ===== src/Prelude/Sort.antt =====
-- Go's `sort.Slice` and `sort.SliceStable` over a `less` function, as a stable insertion sort: for
-- a `less` that is a strict weak order the stable result is unique, and is this one.
use Prim.Native.Nat.{ℕ, suc}
use mathlib.Core.Path.{◌≡◌, refl}
use mathlib.Core.Bool.{Bool, true, false, ◌||◌}
use mathlib.Core.Logic.{inl, inr}
use mathlib.Core.List.{List, [], ◌∷◌, Perm}
use mathlib.Core.List.Perm
use native.Mathlib.Omega.{arith}
use jenkins_bench.Prelude.Tests.{if◌then◌else◌, Bool-cases}
use jenkins_bench.Prelude.Lists.{All, any, keep, count_if, length, sum_of}

module _ {ℓ} {A : Type ℓ} (less : A → A → Bool) where
  unfoldable pub sort_insert : A → List A → List A
  sort_insert x [] = x ∷ []
  sort_insert x (y ∷ ys) = if less y x then y ∷ sort_insert x ys else x ∷ y ∷ ys

  unfoldable pub sort_by : List A → List A
  unfolding sort_insert
  sort_by [] = []
  sort_by (x ∷ xs) = sort_insert x (sort_by xs)

  -- No element is less than one before it.
  abbrev pub IsSortedBy : List A → Type ℓ
  IsSortedBy [] = Unit
  IsSortedBy (x ∷ xs) = All (λ y. less y x ≡ false) xs × IsSortedBy xs

  sort_insert-perm : (x : A) (xs : List A) → Perm (sort_insert x xs) (x ∷ xs)
  unfolding sort_insert
  sort_insert-perm x [] = Perm.rfl
  sort_insert-perm x (y ∷ ys) = elim (Bool-cases (less y x)) [
    | inl e ↦ rw e (Perm.trans (Perm.cons y (sort_insert-perm x ys)) (Perm.swap x y ys))
    | inr e ↦ rw e Perm.rfl
  ]

  sort_by-perm : (xs : List A) → Perm (sort_by xs) xs
  unfolding sort_by
  sort_by-perm [] = Perm.rfl
  sort_by-perm (x ∷ xs) =
      Perm.trans (sort_insert-perm x (sort_by xs)) (Perm.cons x (sort_by-perm xs))

  All-sort_insert {κ} :
      (P : A → Type κ) (x : A) (xs : List A) → P x → All P xs → All P (sort_insert x xs)
  unfolding sort_insert
  All-sort_insert P x [] hx h = (hx, tt)
  All-sort_insert P x (y ∷ ys) hx h = elim (Bool-cases (less y x)) [
    | inl e ↦ rw e (h.0, All-sort_insert P x ys hx h.1)
    | inr e ↦ rw e (hx, h)
  ]

  pub All-sort_by {κ} : (P : A → Type κ) (xs : List A) → All P xs → All P (sort_by xs)
  unfolding sort_by
  All-sort_by P [] h = tt
  All-sort_by P (x ∷ xs) h = All-sort_insert P x (sort_by xs) h.0 (All-sort_by P xs h.1)

  count_if-sort_insert :
      (p : A → Bool) (x : A) (xs : List A) → count_if p (sort_insert x xs) ≡ count_if p (x ∷ xs)
  unfolding sort_insert
  count_if-sort_insert p x [] = refl
  count_if-sort_insert p x (y ∷ ys) = ground (arith, count_if-sort_insert p x ys)

  pub count_if-sort_by : (p : A → Bool) (xs : List A) → count_if p (sort_by xs) ≡ count_if p xs
  unfolding sort_by
  count_if-sort_by p [] = refl
  count_if-sort_by p (x ∷ xs) =
      ground (arith, count_if-sort_insert p x (sort_by xs), count_if-sort_by p xs)

  sum_of-sort_insert :
      (m : A → ℕ) (x : A) (xs : List A) → sum_of m (sort_insert x xs) ≡ sum_of m (x ∷ xs)
  unfolding sort_insert
  sum_of-sort_insert m x [] = refl
  sum_of-sort_insert m x (y ∷ ys) = ground (arith, sum_of-sort_insert m x ys)

  pub sum_of-sort_by : (m : A → ℕ) (xs : List A) → sum_of m (sort_by xs) ≡ sum_of m xs
  unfolding sort_by
  sum_of-sort_by m [] = refl
  sum_of-sort_by m (x ∷ xs) =
      ground (arith, sum_of-sort_insert m x (sort_by xs), sum_of-sort_by m xs)

  any-sort_insert :
      (p : A → Bool) (x : A) (xs : List A) → any p (sort_insert x xs) ≡ (p x || any p xs)
  unfolding sort_insert
  any-sort_insert p x [] = refl
  any-sort_insert p x (y ∷ ys) = ground (arith, any-sort_insert p x ys)

  pub any-sort_by : (p : A → Bool) (xs : List A) → any p (sort_by xs) ≡ any p xs
  unfolding sort_by
  any-sort_by p [] = refl
  any-sort_by p (x ∷ xs) = ground (arith, any-sort_insert p x (sort_by xs), any-sort_by p xs)

  length-sort_insert : (x : A) (xs : List A) → length (sort_insert x xs) ≡ suc (length xs)
  unfolding sort_insert
  length-sort_insert x [] = refl
  length-sort_insert x (y ∷ ys) = ground (arith, length-sort_insert x ys)

  pub length-sort_by : (xs : List A) → length (sort_by xs) ≡ length xs
  unfolding sort_by
  length-sort_by [] = refl
  length-sort_by (x ∷ xs) = ground (arith, length-sort_insert x (sort_by xs), length-sort_by xs)

  -- The elements of a class within which none is less than another keep their order.
  keep-sort_insert :
      (p : A → Bool)
      → ((a b : A) → p a ≡ true → p b ≡ true → less a b ≡ false)
      → (x : A) (xs : List A) → keep p (sort_insert x xs) ≡ keep p (x ∷ xs)
  unfolding sort_insert
  keep-sort_insert p ties x [] = refl
  keep-sort_insert p ties x (y ∷ ys) = ground (arith, keep-sort_insert p ties x ys, ties y x)

  keep-sort_by :
      (p : A → Bool)
      → ((a b : A) → p a ≡ true → p b ≡ true → less a b ≡ false)
      → (xs : List A) → keep p (sort_by xs) ≡ keep p xs
  unfolding sort_by
  keep-sort_by p ties [] = refl
  keep-sort_by p ties (x ∷ xs) =
      ground (arith, keep-sort_insert p ties x (sort_by xs), keep-sort_by p ties xs)

-- `less` is a strict weak order on the elements that satisfy `P`.
pub record IsWeakOrder {ℓ κ} {A : Type ℓ} (less : A → A → Bool) (P : A → Type κ)
    : Type (ℓ ⊔ κ) where
  pub asymm : (a b : A) → P a → P b → less a b ≡ true → less b a ≡ false
  pub neg_trans :
      (a b c : A) → P a → P b → P c → less b a ≡ false → less c b ≡ false → less c a ≡ false

module _ {ℓ κ} {A : Type ℓ} (less : A → A → Bool) (P : A → Type κ) (o : IsWeakOrder less P) where
  not_less_below :
      (x y : A) (ys : List A)
      → P x
      → P y
      → All P ys
      → less y x ≡ false
      → All (λ z. less z y ≡ false) ys
      → All (λ z. less z x ≡ false) ys
  not_less_below x y [] px py ps e h = tt
  not_less_below x y (z ∷ zs) px py ps e h =
      (o.neg_trans x y z px py ps.0 e h.0, not_less_below x y zs px py ps.1 e h.1)

  sort_insert-IsSortedBy :
      (x : A) (xs : List A)
      → P x
      → All P xs
      → IsSortedBy less xs
      → IsSortedBy less (sort_insert less x xs)
  unfolding sort_insert
  sort_insert-IsSortedBy x [] px ps s = (tt, tt)
  sort_insert-IsSortedBy x (y ∷ ys) px ps s = elim (Bool-cases (less y x)) [
    | inl e ↦ rw e (
      All-sort_insert less (λ z. less z y ≡ false) x ys (o.asymm y x ps.0 px e) s.0,
      sort_insert-IsSortedBy x ys px ps.1 s.1,
    )
    | inr e ↦ rw e ((e, not_less_below x y ys px ps.0 ps.1 e s.0), s)
  ]

  -- The result of a sort is in order.
  pub sort_by-IsSortedBy : (xs : List A) → All P xs → IsSortedBy less (sort_by less xs)
  unfolding sort_by
  sort_by-IsSortedBy [] ps = tt
  sort_by-IsSortedBy (x ∷ xs) ps =
      sort_insert-IsSortedBy x (sort_by less xs) ps.0 (All-sort_by less P xs ps.1)
        (sort_by-IsSortedBy xs ps.1)
