-- ===== src/Jenkins/Client/Redirects.antt =====
-- internal/ci/jenkins/client.go: the redirects that `checkRedirect` lets pass.
use mathlib.Core.Bool.{true≢false}
use jenkins_bench.Prelude.{
  ℕ, ◌<◌, ◌≡◌, ◌≢◌, ◌↔◌, ◌⊎◌, refl, sym, ◌∙◌, inl, inr, true, false, some, none, [], ◌∷◌, map,
  arith, Bool-cases,
}
use jenkins_bench.Prelude.Text.{Text, codes, to_lower, fold_rune, text_eq, text_eq_iff, equal_fold}
use jenkins_bench.Jenkins.Client.{Origin, effective_port, same_origin, check_redirect, to_cleartext}

-- The port a scheme stands for where none is named.
abbrev pub IsDefaultPort : Text → Text → Type 0
IsDefaultPort scheme p =
    ((to_lower scheme ≡ codes "https") × (p ≡ codes "443"))
    ⊎ ((to_lower scheme ≡ codes "http") × (p ≡ codes "80"))
    ⊎ ((to_lower scheme ≢ codes "https") × (to_lower scheme ≢ codes "http") × (p ≡ []))

-- The port that a URL names, or else its scheme's.
abbrev pub IsPort : Text → Text → Text → Type 0
IsPort [] scheme p = IsDefaultPort scheme p
IsPort (c ∷ port) scheme p = p ≡ c ∷ port

-- The same scheme and the same host but for their case, and the same port.
abbrev pub IsSameOrigin : Origin → Origin → Type 0
IsSameOrigin a b =
    (equal_fold a.scheme b.scheme ≡ true)
    × (equal_fold a.hostname b.hostname ≡ true)
    × ((p : Text) × IsPort a.port a.scheme p × IsPort b.port b.scheme p)

-- One runs over TLS and the other does not.
abbrev pub IsDowngrade : Origin → Origin → Type 0
IsDowngrade from to =
    (equal_fold from.scheme (codes "https") ≡ true) × (equal_fold to.scheme (codes "http") ≡ true)

https_not_http : codes "https" ≢ codes "http"
https_not_http h = true≢false (sym ((text_eq_iff (codes "https") (codes "http")).1 h))

effective_port_iff :
    (host port scheme p : Text)
    → IsPort port scheme p
      ↔ (p ≡ effective_port (record { scheme = scheme; hostname = host; port = port }))
unfolding effective_port
effective_port_iff host (c ∷ port) scheme p = (λ h. h, λ h. h)
effective_port_iff host [] scheme p =
    let https = text_eq_iff (to_lower scheme) (codes "https") in
    let http = text_eq_iff (to_lower scheme) (codes "http") in
    elim (Bool-cases (text_eq (to_lower scheme) (codes "https"))) [
      | inl e ↦
          let is = https.0 e in
          rw e (
            λ h. elim h [
              | inl (a, q) ↦ q
              | inr (inl (a, q)) ↦ absurd (https_not_http (sym is ∙ a))
              | inr (inr (a, b, q)) ↦ absurd (a is)
            ],
            λ q. inl (is, q),
          )
      | inr e ↦ elim (Bool-cases (text_eq (to_lower scheme) (codes "http"))) [
        | inl k ↦
            let is = http.0 k in
            rw (e, k)
              (
                λ h. elim h [
                  | inl (a, q) ↦ absurd (https_not_http (sym a ∙ is))
                  | inr (inl (a, q)) ↦ q
                  | inr (inr (a, b, q)) ↦ absurd (b is)
                ],
                λ q. inr (inl (is, q)),
              )
        | inr k ↦
            rw (e, k)
              (
                λ h. elim h [
                  | inl (a, q) ↦ absurd (true≢false (sym (https.1 a) ∙ e))
                  | inr (inl (a, q)) ↦ absurd (true≢false (sym (http.1 a) ∙ k))
                  | inr (inr (a, b, q)) ↦ q
                ],
                λ q. inr (
                    inr (
                      λ a. true≢false (sym (https.1 a) ∙ e),
                      λ a. true≢false (sym (http.1 a) ∙ k),
                      q,
                    )),
              )
      ]
    ]

same_origin_iff : (a b : Origin) → (same_origin a b ≡ true) ↔ IsSameOrigin a b
unfolding same_origin
same_origin_iff a b =
    let port_a = effective_port_iff a.hostname a.port a.scheme in
    let port_b = effective_port_iff b.hostname b.port b.scheme in
    let ports = text_eq_iff (effective_port a) (effective_port b) in
    (
      λ h.
          let same : effective_port a ≡ effective_port b = ports.0 (ground (arith, h)) in
          (
            ground (arith, h),
            ground (arith, h),
            (
              effective_port a,
              (port_a (effective_port a)).1 refl,
              (port_b (effective_port a)).1 same,
            ),
          ),
      λ (scheme, host, (p, pa, pb)).
          let same = ports.1 (sym ((port_a p).0 pa) ∙ (port_b p).0 pb) in
          rw (scheme, host, same) refl,
    )

fold_not_https :
    (s : Text) → equal_fold s (codes "http") ≡ true → equal_fold s (codes "https") ≡ false
unfolding equal_fold fold_rune
fold_not_https s h = rw ((text_eq_iff (map fold_rune s) (codes "http")).0 h) refl

equal_fold_trans :
    (a b c : Text) → equal_fold a b ≡ true → equal_fold a c ≡ true → equal_fold b c ≡ true
unfolding equal_fold
equal_fold_trans a b c h k =
    let ab = (text_eq_iff (map fold_rune a) (map fold_rune b)).0 h in
    let ac = (text_eq_iff (map fold_rune a) (map fold_rune c)).0 k in
    (text_eq_iff (map fold_rune b) (map fold_rune c)).1 (sym ab ∙ ac)

downgrade_apart : (a b : Origin) → IsDowngrade a b → same_origin a b ≡ false
unfolding same_origin
downgrade_apart a b h = elim (Bool-cases (equal_fold a.scheme b.scheme)) [
  | inl e ↦ absurd (
      true≢false (
        sym (equal_fold_trans a.scheme b.scheme (codes "https") e h.0)
        ∙ fold_not_https b.scheme h.1))
  | inr e ↦ rw e refl
]

-- A redirect is followed exactly if it keeps the scheme, the host and the port, and fewer than five requests were
-- made. It is refused as one to cleartext exactly if it leads from https to http, however many requests were made.
pub check_redirect_iff :
    (from to : Origin) (hops : ℕ)
    → ((check_redirect from to hops ≡ none) ↔ (IsSameOrigin from to × (hops < 5)))
      × ((check_redirect from to hops ≡ some to_cleartext) ↔ IsDowngrade from to)
unfolding check_redirect
check_redirect_iff from to hops =
    let (there, back) = same_origin_iff from to in
    let apart = downgrade_apart from to in
    (
      (λ h. (there (ground (arith, h)), ground (arith, h)), λ (o, h). ground (arith, back o, h)),
      (λ h. ground (arith, h), λ h. ground (arith, h, apart h)),
    )
