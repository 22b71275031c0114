-- ===== src/Checks/Load/Laws.antt =====
-- What every bundle that loads satisfies.
use jenkins_bench.Prelude.{
  ℕ, ◌+◌, ◌≤◌, ◌≡◌, refl, sym, ap, ◌∙◌, ◌⊎◌, inl, inr, Option, none, some, List, [], ◌∷◌, ◌++◌, All,
  All-append, count_if, All-sort_by, sort_by, count_if-sort_by, arith, Option-cases, if◌then◌else◌,
}
use jenkins_bench.Prelude.Text.{Text, text_eq, text_eq_iff}
use jenkins_bench.Prelude.Assoc.{lookup, insert, lookup-insert}
use jenkins_bench.Prelude.Result.{ok, >>=-eq-ok}
use jenkins_bench.Checks.{Metadata, Check, validate, less_check}
use jenkins_bench.Checks.Load.{
  FileEntry, Bundle, LoadState, load_metadata, load_entry, load_entries, load_from, path_dir, start,
  finish,
}

-- How many checks have the ID `k`.
abbrev pub id_count : Text → List Check → ℕ
id_count k = count_if (λ c. text_eq c.id k)

id_count-snoc :
    (k : Text) (cs : List Check) (c : Check)
    → id_count k (cs ++ c ∷ []) ≡ (if text_eq c.id k then id_count k cs + 1 else id_count k cs)
id_count-snoc k [] c = ground arith
id_count-snoc k (d ∷ cs) c = ground (arith, id_count-snoc k cs c)

-- The invariant of the walk.
pub record IsSound (s : LoadState) : Type 0 where
  pub valid : All (λ c. validate c ≡ none) s.bundle.checks
  pub unseen : (k : Text) → lookup k s.seen ≡ none → id_count k s.bundle.checks ≡ 0
  pub unique : (k : Text) → id_count k s.bundle.checks ≤ 1

-- What one check more does to the state.
abbrev pub with_check : LoadState → Check → Text → LoadState
with_check s c p = record {
  bundle = record { checks = s.bundle.checks ++ c ∷ []; modules = s.bundle.modules };
  seen = insert c.id p s.seen;
}

with_check-IsSound :
    (s : LoadState) (c : Check) (p : Text)
    → IsSound s
    → validate c ≡ none
    → lookup c.id s.seen ≡ none
    → IsSound (with_check s c p)
with_check-IsSound s c p h v n = record {
  valid = All-append (λ d. validate d ≡ none) s.bundle.checks (c ∷ []) h.valid (v, tt);
  unseen =
      λ k e. rw id_count-snoc (ground (arith, sym (lookup-insert c.id k p s.seen) ∙ e, h.unseen k));
  unique = λ k. rw id_count-snoc (
      ground (
        arith,
        text_eq_iff c.id k,
        h.unseen c.id n,
        h.unique k,
        ap (λ j. id_count j s.bundle.checks) {x = c.id} {y = k},
      ));
}

IsSound-same :
    {s t : LoadState} → IsSound s → t.bundle.checks ≡ s.bundle.checks → t.seen ≡ s.seen → IsSound t
IsSound-same h c n = record {
  valid = rw c h.valid;
  unseen = λ k. rw (c, n) (h.unseen k);
  unique = λ k. rw c (h.unique k);
}

start-IsSound : IsSound start
unfolding lookup
start-IsSound = record { valid = tt; unseen = λ k _. refl; unique = λ k. omega arith }

module _ (decode : Text → Option Metadata) where
  load_metadata-eq-ok :
      (p raw : Text) (s : LoadState) {t : LoadState}
      → load_metadata decode p raw s ≡ ok t
      → (c : Check) × (validate c ≡ none) × (lookup c.id s.seen ≡ none) × (t ≡ with_check s c p)
  unfolding load_metadata
  load_metadata-eq-ok p raw s e = elim (Option-cases (decode raw)) [
    | inl n ↦ absurd (ground arith)
    | inr (meta, j) ↦
        (record { metadata = meta; dir = path_dir p }, ground arith, ground arith, ground arith)
  ]

  -- An entry leaves the checks and the IDs alone, or is a metadata.json.
  load_entry-eq-ok :
      (d : FileEntry) (s : LoadState) {t : LoadState}
      → load_entry decode d s ≡ ok t
      → ((t.bundle.checks ≡ s.bundle.checks) × (t.seen ≡ s.seen))
        ⊎ ((raw : Text) × (load_metadata decode d.path raw s ≡ ok t))
  unfolding load_entry
  load_entry-eq-ok d s {t} e = elim (Option-cases d.contents) [
    | inl n ↦ inl (ground arith, ground arith)
    | inr (raw, j) ↦ elim (at raw j) [ inl same ↦ inl same | inr m ↦ inr (raw, m) ]
  ]
    where
      at :
          (raw : Text)
          → d.contents ≡ some raw
          → ((t.bundle.checks ≡ s.bundle.checks) × (t.seen ≡ s.seen))
            ⊎ (load_metadata decode d.path raw s ≡ ok t)
      at raw j = ground arith

  load_entry-IsSound :
      (d : FileEntry) (s : LoadState) {t : LoadState}
      → IsSound s
      → load_entry decode d s ≡ ok t
      → IsSound t
  load_entry-IsSound d s h e = elim (load_entry-eq-ok d s e) [
    | inl same ↦ IsSound-same h same.0 same.1
    | inr (raw, m) ↦
        let (c, v, n, q) = load_metadata-eq-ok d.path raw s m in
        rw q (with_check-IsSound s c d.path h v n)
  ]

  load_entries-IsSound :
      (ds : List FileEntry) (s : LoadState) {t : LoadState}
      → IsSound s
      → load_entries decode ds s ≡ ok t
      → IsSound t
  unfolding load_entries
  load_entries-IsSound [] s h e = IsSound-same h (ground arith) (ground arith)
  load_entries-IsSound (d ∷ ds) s h e =
      let (s', first, rest) = >>=-eq-ok (load_entry decode d s) (load_entries decode ds) e in
      load_entries-IsSound ds s' (load_entry-IsSound d s h first) rest

  -- A bundle that loads holds only checks that `validate` accepts, and no two of one ID.
  pub load_from-IsSound :
      (entries : List FileEntry) {b : Bundle}
      → load_from decode entries ≡ ok b
      → All (λ c. validate c ≡ none) b.checks × ((k : Text) → id_count k b.checks ≤ 1)
  unfolding load_from
  load_from-IsSound entries {b} e =
      let (s, walked, done) = >>=-eq-ok (load_entries decode entries start) finish e in
      let h = load_entries-IsSound entries start start-IsSound walked in
      let q : b.checks ≡ sort_by less_check s.bundle.checks = ground arith in
      rw q (
        All-sort_by less_check (λ c. validate c ≡ none) s.bundle.checks h.valid,
        λ k. rw (count_if-sort_by less_check (λ c. text_eq c.id k) s.bundle.checks) (h.unique k),
      )
