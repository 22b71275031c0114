-- ===== src/Report/Tally/Laws.antt =====
-- What `tallyResources` of internal/report/table.go counts.
use jenkins_bench.Prelude.{
  ℕ, ◌+◌, ◌≤◌, Bool, true, false, not, ◌&&◌, ◌≡◌, refl, ◌∙◌, inl, inr, List, [], ◌∷◌, any, count_if,
  sum_of, sum_of-sort_by, count_if-sort_by, if◌then◌else◌, Bool-cases, arith,
}
use jenkins_bench.Prelude.Text.{Text, text_eq, text_eq_iff, text_eq_refl}
use jenkins_bench.Engine.{pass, fail, manual, na, Finding}
use jenkins_bench.Report.{is_status, unread, status_label}
use jenkins_bench.Report.Tally.{
  Tally, count_label, new_tally, tally_finding, tally_loop, less_tally, tally_resources,
}

name-count_label : (label : Text) (t : Tally) → (count_label label t).name ≡ t.name
unfolding count_label
name-count_label label t = ground arith

-- A count of the tally of a name.
abbrev pub of_name : (Tally → ℕ) → Text → Tally → ℕ
of_name field name t = if text_eq t.name name then field t else 0

module _ (field : Tally → ℕ) (counted : Finding → Bool)
    (counts : (f : Finding) (t : Tally)
      → field (count_label (status_label f) t) ≡ field t + (if counted f then 1 else 0))
    (fresh : (f : Finding) → field (new_tally f) ≡ 0) where
  abbrev counts_for : Text → Finding → Bool
  counts_for name f = text_eq f.resource name && counted f

  sum-tally_finding :
      (name : Text) (f : Finding) (ts : List Tally)
      → sum_of (of_name field name) (tally_finding f ts)
        ≡ sum_of (of_name field name) ts + (if counts_for name f then 1 else 0)
  unfolding tally_finding
  sum-tally_finding name f [] =
      ground
        (arith, counts f (new_tally f), fresh f, name-count_label (status_label f) (new_tally f))
  sum-tally_finding name f (t ∷ ts) = ground (
    arith,
    counts f t,
    name-count_label (status_label f) t,
    text_eq_iff t.name f.resource,
    sum-tally_finding name f ts,
  )

  sum-tally_loop :
      (name : Text) (ts : List Tally) (fs : List Finding)
      → sum_of (of_name field name) (tally_loop ts fs)
        ≡ sum_of (of_name field name) ts + count_if (counts_for name) fs
  unfolding tally_loop
  sum-tally_loop name ts [] = omega arith
  sum-tally_loop name ts (f ∷ fs) =
      ground (arith, sum-tally_loop name (tally_finding f ts) fs, sum-tally_finding name f ts)

  sum-tally_resources :
      (name : Text) (fs : List Finding)
      → sum_of (of_name field name) (tally_resources fs) ≡ count_if (counts_for name) fs
  unfolding tally_resources
  sum-tally_resources name fs = omega (
    arith,
    sum_of-sort_by less_tally (of_name field name) (tally_loop [] fs),
    sum-tally_loop name [] fs,
  )

-- The entries of a resource.
abbrev pub names : Text → Tally → Bool
names name t = text_eq t.name name

failed_counts :
    (f : Finding) (t : Tally)
    → (count_label (status_label f) t).failed
      ≡ t.failed + (if is_status f.status fail then 1 else 0)
unfolding count_label status_label unread
failed_counts f t = ground arith

unread_counts :
    (f : Finding) (t : Tally)
    → (count_label (status_label f) t).unread ≡ t.unread + (if unread f then 1 else 0)
unfolding count_label status_label unread
unread_counts f t = ground arith

manual_counts :
    (f : Finding) (t : Tally)
    → (count_label (status_label f) t).manual
      ≡ t.manual + (if is_status f.status manual && not (unread f) then 1 else 0)
unfolding count_label status_label unread
manual_counts f t = ground arith

passed_counts :
    (f : Finding) (t : Tally)
    → (count_label (status_label f) t).passed
      ≡ t.passed + (if is_status f.status pass then 1 else 0)
unfolding count_label status_label unread
passed_counts f t = ground arith

na_counts :
    (f : Finding) (t : Tally)
    → (count_label (status_label f) t).na ≡ t.na + (if is_status f.status na then 1 else 0)
unfolding count_label status_label unread
na_counts f t = ground arith

count-tally_finding :
    (name : Text) (f : Finding) (ts : List Tally)
    → (text_eq f.resource name ≡ false
        → count_if (names name) (tally_finding f ts) ≡ count_if (names name) ts)
      × (text_eq f.resource name ≡ true
          → count_if (names name) ts ≤ 1
          → count_if (names name) (tally_finding f ts) ≡ 1)
unfolding tally_finding
count-tally_finding name f [] = (
  λ other. ground (arith, name-count_label (status_label f) (new_tally f)),
  λ same one. ground (arith, name-count_label (status_label f) (new_tally f)),
)
count-tally_finding name f (t ∷ ts) =
    let label = status_label f in
    elim (Bool-cases (text_eq t.name f.resource)) [
      | inl e ↦ rw e (
        λ other. ground (arith, name-count_label label t),
        λ same one. ground (
          arith,
          name-count_label label t,
          text_eq_iff t.name f.resource,
          text_eq_iff f.resource name,
        ),
      )
      | inr e ↦ rw e (
        λ other. ground (arith, (count-tally_finding name f ts).0 other),
        λ same one. ground (
          arith,
          (count-tally_finding name f ts).1 same,
          text_eq_iff t.name name,
          text_eq_iff t.name f.resource,
          text_eq_iff f.resource name,
          text_eq_refl f.resource,
        ),
      )
    ]

count-tally_loop :
    (name : Text) (ts : List Tally) (fs : List Finding)
    → count_if (names name) ts ≤ 1
    → count_if (names name) (tally_loop ts fs)
      ≡ (if any (λ f. text_eq f.resource name) fs then 1 else count_if (names name) ts)
unfolding tally_loop
count-tally_loop name ts [] one = refl
count-tally_loop name ts (f ∷ fs) one = elim (Bool-cases (text_eq f.resource name)) [
  | inl e ↦
      (let new = (count-tally_finding name f ts).1 e one in
        ground (arith, e, new, count-tally_loop name (tally_finding f ts) fs (omega (arith, new))))
  | inr e ↦
      (let same = (count-tally_finding name f ts).0 e in
        ground (
          arith,
          e,
          same,
          count-tally_loop name (tally_finding f ts) fs (omega (arith, same, one)),
        ))
]

count-tally_resources :
    (fs : List Finding) (name : Text)
    → count_if (names name) (tally_resources fs)
      ≡ (if any (λ f. text_eq f.resource name) fs then 1 else 0)
unfolding tally_resources
count-tally_resources fs name =
    count_if-sort_by less_tally (names name) (tally_loop [] fs)
    ∙ count-tally_loop name [] fs (omega arith)

-- A resource has one tally where it has a finding, and none otherwise; its five numbers are those of its
-- findings that failed, went unread, need a person, passed and do not apply.
pub tally_resources_lem :
    (fs : List Finding) (name : Text)
    → let ts = tally_resources fs in
      (count_if (names name) ts ≡ (if any (λ f. text_eq f.resource name) fs then 1 else 0))
      × (sum_of (of_name (λ t. t.failed) name) ts
          ≡ count_if (λ f. text_eq f.resource name && is_status f.status fail) fs)
      × (sum_of (of_name (λ t. t.unread) name) ts
          ≡ count_if (λ f. text_eq f.resource name && unread f) fs)
      × (sum_of (of_name (λ t. t.manual) name) ts
          ≡ count_if
              (λ f. text_eq f.resource name && (is_status f.status manual && not (unread f)))
              fs)
      × (sum_of (of_name (λ t. t.passed) name) ts
          ≡ count_if (λ f. text_eq f.resource name && is_status f.status pass) fs)
      × (sum_of (of_name (λ t. t.na) name) ts
          ≡ count_if (λ f. text_eq f.resource name && is_status f.status na) fs)
tally_resources_lem fs name = (
  count-tally_resources fs name,
  sum-tally_resources (λ t. t.failed) (λ f. is_status f.status fail) failed_counts (λ f. refl) name
      fs,
  sum-tally_resources (λ t. t.unread) unread unread_counts (λ f. refl) name fs,
  sum-tally_resources (λ t. t.manual) (λ f. is_status f.status manual && not (unread f))
      manual_counts (λ f. refl) name fs,
  sum-tally_resources (λ t. t.passed) (λ f. is_status f.status pass) passed_counts (λ f. refl) name
      fs,
  sum-tally_resources (λ t. t.na) (λ f. is_status f.status na) na_counts (λ f. refl) name fs,
)
