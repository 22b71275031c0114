-- ===== src/Jenkins/Walk/Names.antt =====
-- `childOf` of internal/ci/jenkins/fetcher.go against names made of segments.
use jenkins_bench.Prelude.{
  ◌≡◌, ◌↔◌, refl, sym, ap, ◌∙◌, true, false, some, [], ◌∷◌, ◌++◌, arith, Option-cases, inl, inr,
  Bool-cases, if◌then◌else◌,
}
use jenkins_bench.Prelude.Text.{Text, is_empty, has_rune}
use jenkins_bench.Jenkins.Walk.{cut_prefix, child_of, is_segment}

-- The full name of an item of a container.
abbrev pub full_name_in : Text → Text → Text
full_name_in container segment =
    if is_empty container then segment else container ++ (b'/' ∷ segment)

cut_prefix-append : (p s : Text) → cut_prefix (p ++ s) p ≡ some s
unfolding cut_prefix
cut_prefix-append [] s = refl
cut_prefix-append (c ∷ p) s = ground (arith, cut_prefix-append p s)

append-cut_prefix : (s p r : Text) → cut_prefix s p ≡ some r → s ≡ p ++ r
unfolding cut_prefix
append-cut_prefix s [] r h = ground arith
append-cut_prefix [] (c ∷ p) r h = cc
append-cut_prefix (x ∷ s) (c ∷ p) r h = ground (arith, append-cut_prefix s p r)

-- A full name of one segment more than the container's.
abbrev pub IsDirectlyInside : Text → Text → Type 0
IsDirectlyInside container full_name =
    (segment : Text) × (full_name ≡ full_name_in container segment)
    × (is_empty segment ≡ false)
    × (has_rune b'/' segment ≡ false)

append_assoc-slash : (c s : Text) → (c ++ b'/' ∷ []) ++ s ≡ c ++ (b'/' ∷ s)
append_assoc-slash [] s = refl
append_assoc-slash (x ∷ c) s = ap (λ l. x ∷ l) (append_assoc-slash c s)

is_empty-append : (c s : Text) → is_empty (c ++ (b'/' ∷ s)) ≡ false
is_empty-append [] s = refl
is_empty-append (x ∷ c) s = refl

child_of-IsDirectlyInside : (c n : Text) → child_of c n ≡ true → IsDirectlyInside c n
unfolding child_of
child_of-IsDirectlyInside c n h = elim (Bool-cases (is_empty n)) [
  | inl e ↦ ground arith
  | inr e ↦ (elim (Bool-cases (is_empty c)) [
    | inl d ↦ (n, rw d refl, e, ground arith)
    | inr d ↦ (elim (Option-cases (cut_prefix n (c ++ b'/' ∷ []))) [
      | inl x ↦ ground arith
      | inr (s, x) ↦
          let seg : is_segment s ≡ true = rw (e, d, x) at h in
          (
            s,
            rw d (append-cut_prefix n (c ++ b'/' ∷ []) s x ∙ append_assoc-slash c s),
            ground (arith, seg),
            ground (arith, seg),
          )
    ])
  ])
]

IsDirectlyInside-child_of : (c n : Text) → IsDirectlyInside c n → child_of c n ≡ true
unfolding child_of
IsDirectlyInside-child_of c n (s, e, h, k) = elim (Bool-cases (is_empty c)) [
  | inl d ↦ (let e2 : n ≡ s = rw d at e in rw (e2, h, d, k) refl)
  | inr d ↦
      let e2 : n ≡ (c ++ b'/' ∷ []) ++ s = (rw d at e) ∙ sym (append_assoc-slash c s) in
      let cut : cut_prefix n (c ++ b'/' ∷ []) ≡ some s =
        rw e2 (cut_prefix-append (c ++ b'/' ∷ []) s) in
      let filled : is_empty n ≡ false = rw (rw d at e) (is_empty-append c s) in
      rw (filled, d, cut, h, k) refl
]

-- `childOf` accepts exactly the full names that add one segment to the container's: not empty, and
-- without a slash.
child_of_iff : (c n : Text) → (child_of c n ≡ true) ↔ IsDirectlyInside c n
child_of_iff c n = (child_of-IsDirectlyInside c n, IsDirectlyInside-child_of c n)
