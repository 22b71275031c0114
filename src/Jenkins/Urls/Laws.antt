-- ===== src/Jenkins/Urls/Laws.antt =====
-- What `stripCredentials` of internal/ci/jenkins/urls.go leaves of a remote that net/url does not read as a URL
-- with a host.
use jenkins_bench.Prelude.{
  ℕ, Bool, true, false, ◌||◌, ◌≡◌, refl, ap, ◌∙◌, inl, inr, [], ◌∷◌, ◌++◌, ◌==◌, ==_iff, Bool-cases,
  arith,
}
use jenkins_bench.Prelude.Text.{Text, has_rune}
use jenkins_bench.Jenkins.Urls.{
  before, from, after_last, cut_scheme, is_slash, ends_path, strip_rest, strip_by_hand,
}

has_rune-append : (d : ℕ) (s t : Text) → has_rune d (s ++ t) ≡ (has_rune d s || has_rune d t)
has_rune-append d [] t = refl
has_rune-append d (c ∷ s) t = ground (arith, has_rune-append d s t)

before-ends : (p : ℕ → Bool) (d : ℕ) (s : Text) → p d ≡ true → has_rune d (before p s) ≡ false
before-ends p d [] e = refl
before-ends p d (c ∷ s) e = ground (arith, before-ends p d s e, ==_iff c d)

has_rune-before :
    (p : ℕ → Bool) (d : ℕ) (s : Text) → has_rune d s ≡ false → has_rune d (before p s) ≡ false
has_rune-before p d [] e = refl
has_rune-before p d (c ∷ s) e = ground (arith, e, has_rune-before p d s)

has_rune-from :
    (p : ℕ → Bool) (d : ℕ) (s : Text) → has_rune d s ≡ false → has_rune d (from p s) ≡ false
has_rune-from p d [] e = refl
has_rune-from p d (c ∷ s) e = ground (arith, e, has_rune-from p d s)

has_rune-after_last :
    (d k : ℕ) (s : Text) → has_rune d s ≡ false → has_rune d (after_last k s) ≡ false
has_rune-after_last d k [] e = refl
has_rune-after_last d k (c ∷ s) e = ground (arith, e, has_rune-after_last d k s)

after_last-ends : (k : ℕ) (s : Text) → has_rune k (after_last k s) ≡ false
after_last-ends k [] = refl
after_last-ends k (c ∷ s) = ground (arith, after_last-ends k s)

-- No slash stands before the first slash, so that the cut at the first slash finds the same path again.
before-append :
    (front s : Text)
    → has_rune b'/' front ≡ false
    → before is_slash (front ++ from is_slash s) ≡ front
before-append [] [] e = refl
before-append [] (c ∷ s) e = elim (Bool-cases (c == b'/')) [
  | inl k ↦ rw k (rw k refl)
  | inr k ↦ rw k (before-append [] s e)
]
before-append (c ∷ front) s e = ground (arith, e, before-append front s)

strip_rest-without :
    (d : ℕ) (rest : Text)
    → has_rune d (before ends_path rest) ≡ false
    → has_rune d (strip_rest rest) ≡ false
unfolding strip_rest
strip_rest-without d rest e =
    let short = before ends_path rest in
    let host = after_last b'@' (before is_slash short) in
    has_rune-append d host (from is_slash short)
    ∙ rw
        (
          has_rune-after_last d b'@' _ (has_rune-before is_slash d short e),
          has_rune-from is_slash d short e,
        )
        refl

strip_rest_lem :
    (rest : Text)
    → (has_rune b'?' (strip_rest rest) ≡ false)
      × (has_rune b'#' (strip_rest rest) ≡ false)
      × (has_rune b'@' (before is_slash (strip_rest rest)) ≡ false)
unfolding strip_rest
strip_rest_lem rest =
    let short = before ends_path rest in
    let host = after_last b'@' (before is_slash short) in
    let question = before-ends ends_path b'?' rest refl in
    let hash = before-ends ends_path b'#' rest refl in
    (
      strip_rest-without b'?' rest question,
      strip_rest-without b'#' rest hash,
      ap (has_rune b'@') (
            before-append host short (
              has_rune-after_last b'/' b'@' (before is_slash short)
                (before-ends is_slash b'/' short refl)))
          ∙ after_last-ends b'@' (before is_slash short),
    )

-- Condition: the text up to the first "://" holds no at sign, question mark or hash, as the scheme of a URL does
-- not. What is left of the remote then holds no query and no fragment, and no at sign before the first slash
-- behind the scheme, where a user and a password stand. (Behind that slash an at sign stays, and with it a password that
-- holds a slash.)
pub strip_by_hand_lem :
    (raw : Text)
    → has_rune b'@' (cut_scheme raw).0 ≡ false
    → has_rune b'?' (cut_scheme raw).0 ≡ false
    → has_rune b'#' (cut_scheme raw).0 ≡ false
    → (has_rune b'?' (strip_by_hand raw) ≡ false)
      × (has_rune b'#' (strip_by_hand raw) ≡ false)
      × ((rest : Text) × (strip_by_hand raw ≡ (cut_scheme raw).0 ++ rest)
          × (has_rune b'@' ((cut_scheme raw).0 ++ before is_slash rest) ≡ false))
unfolding strip_by_hand
strip_by_hand_lem raw at question hash =
    let scheme = (cut_scheme raw).0 in
    let rest = strip_rest (cut_scheme raw).1 in
    let clean = strip_rest_lem (cut_scheme raw).1 in
    (
      has_rune-append b'?' scheme rest ∙ ground (arith, question, clean.0),
      has_rune-append b'#' scheme rest ∙ ground (arith, hash, clean.1),
      (
        rest,
        refl,
        has_rune-append b'@' scheme (before is_slash rest) ∙ ground (arith, at, clean.2),
      ),
    )
