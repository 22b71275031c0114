-- ===== src/Engine/Order.antt =====
-- The order in which a report is read: `sortFindings` of internal/engine/engine.go.
use mathlib.Core.Bool.{true≢false}
use jenkins_bench.Prelude.{
  sym, ◌∙◌, ◌⊎◌, inl, inr, [], ◌∷◌, ◌≡◌, ◌≢◌, ◌≤◌, ◌<◌, ap, true, false, List, All, IsWeakOrder,
  IsSortedBy, sort_by, sort_by-IsSortedBy, arith, Bool-cases,
}
use jenkins_bench.Prelude.Text.{
  Text, split, text_lt, text_eq, text_eq_iff, text_lt_trans, text_lt_irrefl, text_lt_neg_trans,
}
use jenkins_bench.Checks.{weight, less_cisid}
use jenkins_bench.Checks.Order.{
  IsNumeric, less_cisid_asymm, less_cisid_irrefl, less_parts_empty, split-nonempty,
  less_cisid_neg_trans,
}
use jenkins_bench.Engine.{Status, pass, fail, manual, na, Finding, less_finding, status_rank}

-- What `LessCISID` is asked to order: a benchmark number, or nothing for a supplement.
abbrev pub IsId : Text → Type 0
IsId t = (t ≡ []) ⊎ IsNumeric t

less_cisid_empty : (t : Text) → IsNumeric t → (less_cisid [] t ≡ true) × (less_cisid t [] ≡ false)
unfolding less_cisid
less_cisid_empty t h = less_parts_empty (split b'.' t) h (split-nonempty b'.' t)

less_cisid_neg_trans_id :
    (a b c : Text)
    → IsId a
    → IsId b
    → IsId c
    → less_cisid b a ≡ false
    → less_cisid c b ≡ false
    → less_cisid c a ≡ false
less_cisid_neg_trans_id a b c (inl a0) (inl b0) hc p q = rw (a0, ← b0) q
less_cisid_neg_trans_id a b c (inl a0) (inr hb) (inl c0) p q = rw (a0, c0) (less_cisid_irrefl [])
less_cisid_neg_trans_id a b c (inl a0) (inr hb) (inr hc) p q = rw a0 (less_cisid_empty c hc).1
less_cisid_neg_trans_id a b c (inr ha) (inl b0) hc p q =
    absurd (true≢false (sym (less_cisid_empty a ha).0 ∙ (rw b0 at p)))
less_cisid_neg_trans_id a b c (inr ha) (inr hb) (inl c0) p q =
    absurd (true≢false (sym (less_cisid_empty b hb).0 ∙ (rw c0 at q)))
less_cisid_neg_trans_id a b c (inr ha) (inr hb) (inr hc) p q =
    less_cisid_neg_trans a b c ha hb hc p q

-- A numbering: identifiers that are benchmark numbers or empty, no two of which tie. (1.1 and 1.01
-- tie, and a report that held both would be sorted by resource only within each.)
pub record IsNumbering {κ} (P : Text → Type κ) : Type κ where
  pub ids : (a : Text) → P a → IsId a
  pub apart : (a b : Text) → P a → P b → less_cisid a b ≡ false → less_cisid b a ≡ false → a ≡ b

less_finding_asymm : (a b : Finding) → less_finding a b ≡ true → less_finding b a ≡ false
unfolding less_finding
less_finding_asymm a b h = ground (
  arith,
  less_cisid_asymm a.cis_id b.cis_id,
  text_eq_iff a.cis_id b.cis_id,
  text_eq_iff b.cis_id a.cis_id,
  text_lt_trans a.resource b.resource a.resource,
  text_lt_irrefl a.resource,
)

-- The statuses from which a report may go on to a status.
abbrev pub IsAtMost : Status → Status → Type 0
IsAtMost fail s = Unit
IsAtMost manual s = s ≢ fail
IsAtMost pass s = (s ≢ fail) × (s ≢ manual)
IsAtMost na s = s ≡ na

-- That a finding may stand before another.
pub record MayPrecede (a b : Finding) : Type 0 where
  pub by_status : IsAtMost a.status b.status
  pub by_severity : a.status ≡ b.status → weight b.severity ≤ weight a.severity
  pub by_number :
      a.status ≡ b.status
      → weight a.severity ≡ weight b.severity
      → less_cisid b.cis_id a.cis_id ≡ false
  pub by_resource :
      a.status ≡ b.status
      → weight a.severity ≡ weight b.severity
      → a.cis_id ≡ b.cis_id
      → text_lt b.resource a.resource ≡ false

abbrev pub IsInOrder : List Finding → Type 0
IsInOrder [] = Unit
IsInOrder (f ∷ fs) = All (MayPrecede f) fs × IsInOrder fs

IsAtMost-status_rank : (s t : Status) → (status_rank t < status_rank s → ⊥) → IsAtMost s t
unfolding status_rank
IsAtMost-status_rank fail t h = tt
IsAtMost-status_rank manual t h = λ e. h (rw e (omega arith))
IsAtMost-status_rank pass t h = (λ e. h (rw e (omega arith)), λ e. h (rw e (omega arith)))
IsAtMost-status_rank na fail h = absurd (h (omega arith))
IsAtMost-status_rank na manual h = absurd (h (omega arith))
IsAtMost-status_rank na pass h = absurd (h (omega arith))
IsAtMost-status_rank na na h = λ i. na

less_finding-MayPrecede : (a b : Finding) → less_finding b a ≡ false → MayPrecede a b
unfolding less_finding
less_finding-MayPrecede a b h = record {
  by_status = IsAtMost-status_rank a.status b.status (ground (arith, h));
  by_severity = λ s. ground (arith, h, ap status_rank s);
  by_number = λ s w. elim (Bool-cases (text_eq b.cis_id a.cis_id)) [
    | inl e ↦ rw ((text_eq_iff b.cis_id a.cis_id).0 e) (less_cisid_irrefl a.cis_id)
    | inr e ↦ ground (arith, h, ap status_rank s, w, e)
  ];
  by_resource = λ s w i.
      let e : text_eq b.cis_id a.cis_id ≡ true = (text_eq_iff b.cis_id a.cis_id).1 (sym i) in
      ground (arith, h, ap status_rank s, w, e);
}

All-MayPrecede :
    (f : Finding) (fs : List Finding)
    → All (λ y. less_finding y f ≡ false) fs
    → All (MayPrecede f) fs
All-MayPrecede f [] h = tt
All-MayPrecede f (g ∷ fs) h = (less_finding-MayPrecede f g h.0, All-MayPrecede f fs h.1)

IsSortedBy-IsInOrder : (fs : List Finding) → IsSortedBy less_finding fs → IsInOrder fs
IsSortedBy-IsInOrder [] h = tt
IsSortedBy-IsInOrder (f ∷ fs) h = (All-MayPrecede f fs h.0, IsSortedBy-IsInOrder fs h.1)

module _ {κ} (P : Text → Type κ) (n : IsNumbering P) where
  -- A finding whose control has an identifier of the numbering.
  abbrev pub IsRanked : Finding → Type κ
  IsRanked f = P f.cis_id

  less_finding_neg_trans :
      (a b c : Finding)
      → IsRanked a
      → IsRanked b
      → IsRanked c
      → less_finding b a ≡ false
      → less_finding c b ≡ false
      → less_finding c a ≡ false
  unfolding less_finding
  less_finding_neg_trans a b c ha hb hc p q =
      let trans =
        less_cisid_neg_trans_id a.cis_id b.cis_id c.cis_id (n.ids a.cis_id ha) (n.ids b.cis_id hb)
          (n.ids c.cis_id hc) in
      ground (
        arith,
        trans,
        n.apart a.cis_id b.cis_id ha hb,
        n.apart b.cis_id c.cis_id hb hc,
        n.apart a.cis_id c.cis_id ha hc,
        text_eq_iff a.cis_id b.cis_id,
        text_eq_iff b.cis_id c.cis_id,
        text_eq_iff a.cis_id c.cis_id,
        text_eq_iff b.cis_id a.cis_id,
        text_eq_iff c.cis_id b.cis_id,
        text_eq_iff c.cis_id a.cis_id,
        less_cisid_asymm a.cis_id b.cis_id,
        less_cisid_asymm b.cis_id c.cis_id,
        text_lt_neg_trans a.resource b.resource c.resource,
      )

  less_finding-IsWeakOrder : IsWeakOrder less_finding IsRanked
  less_finding-IsWeakOrder = record {
    asymm = λ a b _ _. less_finding_asymm a b;
    neg_trans = less_finding_neg_trans;
  }

  sort-IsSortedBy :
      (fs : List Finding) → All IsRanked fs → IsSortedBy less_finding (sort_by less_finding fs)
  sort-IsSortedBy fs h = sort_by-IsSortedBy less_finding IsRanked less_finding-IsWeakOrder fs h

  -- Condition: the findings' identifiers belong to a numbering. In what `sortFindings` leaves, each finding may stand
  -- before each that follows it: FAIL comes first, then MANUAL, PASS and NA; among those of one status the heavier severity first, then the lower benchmark number, then the resource.
  pub sort-IsInOrder : (fs : List Finding) → All IsRanked fs → IsInOrder (sort_by less_finding fs)
  sort-IsInOrder fs h = IsSortedBy-IsInOrder (sort_by less_finding fs) (sort-IsSortedBy fs h)
