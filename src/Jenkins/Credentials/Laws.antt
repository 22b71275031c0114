-- ===== src/Jenkins/Credentials/Laws.antt =====
-- When `fetchCredentials` of internal/ci/jenkins/fetcher.go calls the credentials available, and how
-- many it records.
use jenkins_bench.Prelude.{
  ℕ, suc, ◌+◌, ◌≡◌, refl, Bool, true, not, ◌&&◌, none, some, List, [], ◌∷◌, ◌++◌, any, any-sort_by,
  length, length-append, sort_by, sort_insert, count_if, arith, inl, inr, Option-cases, Bool-cases,
  if◌then◌else◌,
}
use jenkins_bench.Prelude.Text.{Text, is_empty}
use jenkins_bench.Ci.{Controller}
use jenkins_bench.Jenkins.Credentials.{
  CredentialEntry, CredentialDomain, CredentialStore, Reading, read_entry, read_entries,
  read_domain, read_domains, read_stores, domain_before, store_before, is_nil, fetch_credentials,
}

-- An entry that came back empty, and a domain or a store that shows less than it has.
abbrev pub is_hollow : CredentialEntry → Bool
is_hollow c = is_empty c.id

abbrev pub withholds : CredentialDomain → Bool
withholds d = elim d.listed [ none ↦ true | some cs ↦ any is_hollow cs ]

abbrev pub store_withholds : CredentialStore → Bool
store_withholds s = any withholds s.domains

-- The sum of a measure over a list.
abbrev pub total {ℓ} : {A : Type ℓ} → (A → ℕ) → List A → ℕ
total m [] = 0
total m (x ∷ xs) = m x + total m xs

total-sort_insert {ℓ} :
    {A : Type ℓ} (less : A → A → Bool) (m : A → ℕ) (x : A) (xs : List A)
    → total m (sort_insert less x xs) ≡ m x + total m xs
unfolding sort_insert
total-sort_insert less m x [] = refl
total-sort_insert less m x (y ∷ ys) = ground (arith, total-sort_insert less m x ys)

total-sort_by {ℓ} :
    {A : Type ℓ} (less : A → A → Bool) (m : A → ℕ) (xs : List A)
    → total m (sort_by less xs) ≡ total m xs
unfolding sort_by
total-sort_by less m [] = refl
total-sort_by less m (x ∷ xs) =
    ground (arith, total-sort_insert less m x (sort_by less xs), total-sort_by less m xs)

-- The entries with an ID.
abbrev pub shown_entries : CredentialDomain → ℕ
shown_entries d = elim d.listed [ none ↦ 0 | some cs ↦ count_if (λ c. not (is_hollow c)) cs ]

abbrev pub shown_in_store : CredentialStore → ℕ
shown_in_store s = total shown_entries s.domains

-- What a loop does to the state: it is complete if it was and nothing is withheld, and `n` credentials
-- longer.
abbrev Reads : Reading → Reading → Bool → ℕ → Type 0
Reads r t withheld n =
    (t.complete ≡ (r.complete && not withheld)) × (length t.credentials ≡ length r.credentials + n)

length-snoc {ℓ} : {A : Type ℓ} (xs : List A) (x : A) → length (xs ++ x ∷ []) ≡ suc (length xs)
length-snoc xs x = omega (arith, length-append xs (x ∷ []))

read_entry-Reads :
    (store domain : Text) (c : CredentialEntry) (r : Reading)
    → Reads r (read_entry store domain c r) (is_hollow c) (if is_hollow c then 0 else 1)
unfolding read_entry
read_entry-Reads store domain c r = elim (Bool-cases (is_hollow c)) [
  | inl e ↦ rw e (ground arith, omega arith)
  | inr e ↦ rw e (ground arith, rw (length-snoc r.credentials) (omega arith))
]

read_entries-Reads :
    (store domain : Text) (cs : List CredentialEntry) (r : Reading)
    → Reads r
        (read_entries store domain cs r)
        (any is_hollow cs)
        (count_if (λ c. not (is_hollow c)) cs)
unfolding read_entries
read_entries-Reads store domain [] r = (ground arith, ground arith)
read_entries-Reads store domain (c ∷ cs) r =
    let h = read_entry-Reads store domain c r in
    let ih = read_entries-Reads store domain cs (read_entry store domain c r) in
    (ground (arith, ih.0, h.0), ground (arith, ih.1, h.1))

read_domain-Reads :
    (store : Text) (d : CredentialDomain) (r : Reading)
    → Reads r (read_domain store d r) (withholds d) (shown_entries d)
unfolding read_domain
read_domain-Reads store d r = elim (Option-cases d.listed) [
  | inl e ↦ (ground (arith, e), ground (arith, e))
  | inr (cs, e) ↦
      let h = read_entries-Reads store d.name cs r in
      (ground (arith, e, h.0), ground (arith, e, h.1))
]

read_domains-Reads :
    (store : Text) (ds : List CredentialDomain) (r : Reading)
    → Reads r (read_domains store ds r) (any withholds ds) (total shown_entries ds)
unfolding read_domains
read_domains-Reads store [] r = (ground arith, ground arith)
read_domains-Reads store (d ∷ ds) r =
    let h = read_domain-Reads store d r in
    let ih = read_domains-Reads store ds (read_domain store d r) in
    (ground (arith, ih.0, h.0), ground (arith, ih.1, h.1))

read_stores-Reads :
    (ss : List CredentialStore) (r : Reading)
    → Reads r (read_stores ss r) (any store_withholds ss) (total shown_in_store ss)
unfolding read_stores
read_stores-Reads [] r = (ground arith, ground arith)
read_stores-Reads (s ∷ ss) r =
    let ds = sort_by domain_before s.domains in
    let h = read_domains-Reads s.name ds r in
    let ih = read_stores-Reads ss (read_domains s.name ds r) in
    (
      ground (arith, ih.0, h.0, any-sort_by domain_before withholds s.domains),
      ground (arith, ih.1, h.1, total-sort_by domain_before shown_entries s.domains),
    )

-- On a body that was read, the credentials are available exactly if a store came back and no domain
-- of any store withholds its list or an ID, and one credential is recorded for each listed entry with
-- an ID.
fetch_credentials-available :
    (stores : List CredentialStore) (c : Controller)
    → ((fetch_credentials (some stores) c).credentials_available
        ≡ (not (is_nil stores) && not (any store_withholds stores)))
      × (length (fetch_credentials (some stores) c).credentials
          ≡ length c.credentials + total shown_in_store stores)
unfolding fetch_credentials
fetch_credentials-available stores c =
    let h =
      read_stores-Reads (sort_by store_before stores)
        (record { credentials = c.credentials; complete = true }) in
    (
      ground (arith, h.0, any-sort_by store_before store_withholds stores),
      ground (arith, h.1, total-sort_by store_before shown_in_store stores),
    )
