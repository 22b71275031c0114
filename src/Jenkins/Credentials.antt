-- ===== src/Jenkins/Credentials.antt =====
-- internal/ci/jenkins/fetcher.go: `fetchCredentials`, and the documents of models.go that it decodes.
-- The request is a parameter: its body, or none for an error. A map is a list of its entries, in any
-- order; the messages of the report's error list are not modelled.
pub mod Laws
use jenkins_bench.Prelude.{
  Bool, true, false, not, ◌&&◌, Option, none, some, List, [], ◌∷◌, ◌++◌, sort_by, if◌then◌else◌,
}
use jenkins_bench.Prelude.Text.{Text, text_lt, is_empty}
use jenkins_bench.Ci.{Credential, Controller}

-- credential
pub record CredentialEntry : Type 0 where
  pub id : Text
  pub type_name : Text
  pub description : Text

-- A credentialDomain under its name; `none` is the nil pointer.
pub record CredentialDomain : Type 0 where
  pub name : Text
  pub listed : Option (List CredentialEntry)

-- A credentialStore under its name.
pub record CredentialStore : Type 0 where
  pub name : Text
  pub domains : List CredentialDomain

-- What the loops have: the credentials appended, and `complete`.
pub record Reading : Type 0 where
  pub credentials : List Credential
  pub complete : Bool

unfoldable pub read_entry : Text → Text → CredentialEntry → Reading → Reading
read_entry store domain cred r =
    if is_empty cred.id then record r { complete = false } else record r {
      credentials =
          r.credentials
          ++ (record {
            id = cred.id;
            type_name = cred.type_name;
            store = store;
            domain = domain;
            description = cred.description;
          })
            ∷ [];
    }

unfoldable pub read_entries : Text → Text → List CredentialEntry → Reading → Reading
read_entries store domain [] r = r
read_entries store domain (c ∷ cs) r = read_entries store domain cs (read_entry store domain c r)

-- The body of the loop over the domains of a store.
unfoldable pub read_domain : Text → CredentialDomain → Reading → Reading
read_domain store d r = elim d.listed [
  | none ↦ record r { complete = false }
  | some cs ↦ read_entries store d.name cs r
]

unfoldable pub read_domains : Text → List CredentialDomain → Reading → Reading
read_domains store [] r = r
read_domains store (d ∷ ds) r = read_domains store ds (read_domain store d r)

abbrev domain_before : CredentialDomain → CredentialDomain → Bool
domain_before a b = text_lt a.name b.name

abbrev store_before : CredentialStore → CredentialStore → Bool
store_before a b = text_lt a.name b.name

-- The loop over the stores; the names of each map are visited in sorted order.
unfoldable pub read_stores : List CredentialStore → Reading → Reading
read_stores [] r = r
read_stores (s ∷ ss) r = read_stores ss (read_domains s.name (sort_by domain_before s.domains) r)

abbrev is_nil : List CredentialStore → Bool
is_nil [] = true
is_nil (s ∷ ss) = false

-- fetchCredentials
unfoldable pub fetch_credentials : Option (List CredentialStore) → Controller → Controller
fetch_credentials none c = record c { credentials_available = false }
fetch_credentials (some stores) c =
    let r =
      read_stores (sort_by store_before stores)
        (record { credentials = c.credentials; complete = true }) in
    record c {
      credentials = r.credentials;
      credentials_available = not (is_nil stores) && r.complete;
    }
