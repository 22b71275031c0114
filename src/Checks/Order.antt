-- ===== src/Checks/Order.antt =====
-- The benchmark order of internal/checks/registry.go is an order.
use jenkins_bench.Prelude.{
  ℕ, ◌+◌, ◌*◌, ◌-◌, ◌%◌, ◌<◌, ◌≡◌, ◌≢◌, refl, sym, ◌∙◌, ◌⊎◌, inl, inr, true, false, some, List, [],
  ◌∷◌, All, arith, IsWeakOrder,
}
use jenkins_bench.Prelude.Text.{
  Text, split, text_eq_iff, text_lt, text_lt_irrefl, text_lt_trans, text_lt_neg_trans, text_eq_refl,
  is_empty,
}
use jenkins_bench.Checks.{
  Check, atoi, atoi_loop, int_mod, less_component, less_parts, less_cisid, less_check,
}

-- A component that `atoi` reads.
abbrev pub IsNumber : Text → Type 0
IsNumber p = (n : ℕ) × (atoi p ≡ some n)

-- An identifier whose dotted components are all numbers, such as 2.3.10.
abbrev pub IsNumeric : Text → Type 0
IsNumeric id = All IsNumber (split b'.' id)

less_parts_irrefl : (l : List Text) → less_parts l l ≡ false
unfolding less_parts less_component
less_parts_irrefl [] = refl
less_parts_irrefl (p ∷ ps) = ground (arith, less_parts_irrefl ps, text_eq_refl p)

less_parts_asymm : (l m : List Text) → less_parts l m ≡ true → less_parts m l ≡ false
unfolding less_parts less_component
less_parts_asymm [] [] h = cc
less_parts_asymm [] (b ∷ m) h = refl
less_parts_asymm (a ∷ l) [] h = cc
less_parts_asymm (a ∷ l) (b ∷ m) h = ground (
  arith,
  less_parts_asymm l m,
  text_eq_iff a b,
  text_eq_iff b a,
  text_lt_trans a b a,
  text_lt_irrefl a,
)

less_parts_trans :
    (l m r : List Text)
    → All IsNumber l
    → All IsNumber m
    → All IsNumber r
    → less_parts l m ≡ true
    → less_parts m r ≡ true
    → less_parts l r ≡ true
unfolding less_parts less_component
less_parts_trans [] [] r nl nm nr p q = q
less_parts_trans [] (b ∷ m) [] nl nm nr p q = cc
less_parts_trans [] (b ∷ m) (c ∷ r) nl nm nr p q = refl
less_parts_trans (a ∷ l) [] r nl nm nr p q = cc
less_parts_trans (a ∷ l) (b ∷ m) [] nl nm nr p q = cc
less_parts_trans (a ∷ l) (b ∷ m) (c ∷ r) nl nm nr p q =
    ground (arith, nl.0.1, nm.0.1, nr.0.1, less_parts_trans l m r nl.1 nm.1 nr.1)

atoi_loop-lt : (n : ℕ) (s : Text) (m : ℕ) → n < int_mod → atoi_loop n s ≡ some m → m < int_mod
unfolding atoi_loop
atoi_loop-lt n [] m lt h = ground arith
atoi_loop-lt n (r ∷ s) m lt h =
    ground (arith, atoi_loop-lt ((n * 10 + (r - b'0')) % int_mod) s m (omega arith))

atoi-lt : (s : Text) (m : ℕ) → atoi s ≡ some m → m < int_mod
unfolding atoi
atoi-lt s m h = ground (arith, atoi_loop-lt 0 s m (omega arith))

less_parts_neg_trans :
    (l m r : List Text)
    → All IsNumber l
    → All IsNumber m
    → All IsNumber r
    → less_parts m l ≡ false
    → less_parts r m ≡ false
    → less_parts r l ≡ false
unfolding less_parts less_component
less_parts_neg_trans [] [] r nl nm nr p q = q
less_parts_neg_trans [] (b ∷ m) [] nl nm nr p q = refl
less_parts_neg_trans [] (b ∷ m) (c ∷ r) nl nm nr p q = refl
less_parts_neg_trans (a ∷ l) [] r nl nm nr p q = cc
less_parts_neg_trans (a ∷ l) (b ∷ m) [] nl nm nr p q = cc
less_parts_neg_trans (a ∷ l) (b ∷ m) (c ∷ r) nl nm nr p q = ground (
  arith,
  nl.0.1,
  nm.0.1,
  nr.0.1,
  atoi-lt a nl.0.0,
  atoi-lt b nm.0.0,
  atoi-lt c nr.0.0,
  less_parts_neg_trans l m r nl.1 nm.1 nr.1,
)

pub split-nonempty : (d : ℕ) (t : Text) → split d t ≢ []
split-nonempty d [] h = cc
split-nonempty d (c ∷ t) h = ground (arith, split-nonempty d t)

-- The empty identifier is before every number, and none is before it.
pub less_parts_empty :
    (l : List Text)
    → All IsNumber l
    → l ≢ []
    → (less_parts ([] ∷ []) l ≡ true) × (less_parts l ([] ∷ []) ≡ false)
unfolding less_parts less_component atoi text_lt
less_parts_empty [] h n = absurd (n refl)
less_parts_empty ([] ∷ l) h n = absurd (cc h.0.1)
less_parts_empty ((c ∷ s) ∷ l) h n = (refl, ground (arith, h.0.1))

-- An identifier is never before itself.
pub less_cisid_irrefl : (a : Text) → less_cisid a a ≡ false
unfolding less_cisid
less_cisid_irrefl a = less_parts_irrefl (split b'.' a)

-- Of two identifiers at most one is before the other, whatever their components.
pub less_cisid_asymm : (a b : Text) → less_cisid a b ≡ true → less_cisid b a ≡ false
unfolding less_cisid
less_cisid_asymm a b = less_parts_asymm (split b'.' a) (split b'.' b)

pub less_cisid_neg_trans :
    (a b c : Text)
    → IsNumeric a
    → IsNumeric b
    → IsNumeric c
    → less_cisid b a ≡ false
    → less_cisid c b ≡ false
    → less_cisid c a ≡ false
unfolding less_cisid
less_cisid_neg_trans a b c = less_parts_neg_trans (split b'.' a) (split b'.' b) (split b'.' c)

-- Condition: the three identifiers are numeric. `LessCISID` is then transitive on them.
less_cisid_trans :
    (a b c : Text)
    → IsNumeric a
    → IsNumeric b
    → IsNumeric c
    → less_cisid a b ≡ true
    → less_cisid b c ≡ true
    → less_cisid a c ≡ true
unfolding less_cisid
less_cisid_trans a b c = less_parts_trans (split b'.' a) (split b'.' b) (split b'.' c)

-- A benchmark number, or none: what `lessCheck` orders.
abbrev pub HasRank : Check → Type 0
HasRank c = (is_empty c.cis_id ≡ true) ⊎ IsNumeric c.cis_id

less_check_asymm : (a b : Check) → less_check a b ≡ true → less_check b a ≡ false
unfolding less_check
less_check_asymm a b h =
    ground
      (arith, less_cisid_asymm a.cis_id b.cis_id, text_lt_trans a.id b.id a.id, text_lt_irrefl a.id)

IsNumeric-nonempty : (t : Text) → IsNumeric t → is_empty t ≡ false
unfolding atoi
IsNumeric-nonempty [] h = absurd (cc h.0.1)
IsNumeric-nonempty (c ∷ s) h = refl

-- Two supplements are ordered by their identifiers.
less_check_by_id :
    (a b : Check)
    → is_empty a.cis_id ≡ true
    → is_empty b.cis_id ≡ true
    → less_check a b ≡ text_lt a.id b.id
unfolding less_check
less_check_by_id a b ha hb = rw (ha, hb)

less_check_neg_trans :
    (a b c : Check)
    → HasRank a
    → HasRank b
    → HasRank c
    → less_check b a ≡ false
    → less_check c b ≡ false
    → less_check c a ≡ false
unfolding less_check
less_check_neg_trans a b c (inl ha) (inl hb) (inl hc) p q =
    less_check_by_id c a hc ha
    ∙ text_lt_neg_trans a.id b.id c.id (sym (less_check_by_id b a hb ha) ∙ p)
        (sym (less_check_by_id c b hc hb) ∙ q)
less_check_neg_trans a b c (inl ha) (inl hb) (inr hc) p q =
    ground (arith, IsNumeric-nonempty c.cis_id hc)
less_check_neg_trans a b c (inl ha) (inr hb) (inl hc) p q =
    ground (arith, IsNumeric-nonempty b.cis_id hb)
less_check_neg_trans a b c (inl ha) (inr hb) (inr hc) p q =
    ground (arith, IsNumeric-nonempty b.cis_id hb, IsNumeric-nonempty c.cis_id hc)
less_check_neg_trans a b c (inr ha) (inl hb) (inl hc) p q =
    ground (arith, IsNumeric-nonempty a.cis_id ha)
less_check_neg_trans a b c (inr ha) (inl hb) (inr hc) p q =
    ground (arith, IsNumeric-nonempty a.cis_id ha, IsNumeric-nonempty c.cis_id hc)
less_check_neg_trans a b c (inr ha) (inr hb) (inl hc) p q =
    ground (arith, IsNumeric-nonempty a.cis_id ha, IsNumeric-nonempty b.cis_id hb)
less_check_neg_trans a b c (inr ha) (inr hb) (inr hc) p q = ground (
  arith,
  less_cisid_neg_trans a.cis_id b.cis_id c.cis_id ha hb hc,
  IsNumeric-nonempty a.cis_id ha,
  IsNumeric-nonempty b.cis_id hb,
  IsNumeric-nonempty c.cis_id hc,
)

-- On checks whose benchmark number is numeric or missing, `lessCheck` is a strict weak order, which
-- is what Go's sort asks of it.
pub less_check-IsWeakOrder : IsWeakOrder less_check HasRank
less_check-IsWeakOrder = record {
  asymm = λ a b _ _. less_check_asymm a b;
  neg_trans = less_check_neg_trans;
}
