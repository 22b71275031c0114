-- ===== src/Jenkins/Client/Laws.antt =====
-- What the client of internal/ci/jenkins/client.go does at most, and what its answers mean.
use jenkins_bench.Prelude.{
  ℕ, zero, suc, ◌+◌, ◌-◌, ◌*◌, ◌/◌, ◌^◌, ◌≤◌, ◌<◌, ◌≡◌, ◌⊎◌, refl, inl, inr, Bool, Option, none,
  some, All, length, ltb, arith, Bool-cases, if◌then◌else◌,
}
use jenkins_bench.Prelude.Text.{Text}
use jenkins_bench.Prelude.Result.{Result}
use jenkins_bench.Jenkins.Client.{
  second, Attempt, ClientError, backoff, shift_of, retry_after, Verdict, final, retry, judge, Run,
  retries, raw, pause, after_pause, after_request, ended, cancelled, refused_redirect,
  bad_certificate, transport_failed, too_large, read_failed, answered,
}

-- A retry's pause, once the jitter keeps to its range, is at most a minute.
abbrev pub IsShort : ℕ → Type 0
IsShort d = d ≤ 60 * second

abbrev pub IsJitter : (ℕ → ℕ) → Type 0
IsJitter jitter = (n : ℕ) → 0 < n → jitter n < n

clamp_bound : (n : ℕ) → 2 ^ (if ltb 4 n then 4 else n) ≤ 16
clamp_bound zero = omega arith
clamp_bound (suc zero) = omega arith
clamp_bound (suc (suc zero)) = omega arith
clamp_bound (suc (suc (suc zero))) = omega arith
clamp_bound (suc (suc (suc (suc zero)))) = omega arith
clamp_bound (suc (suc (suc (suc (suc n))))) = ground arith

backoff-IsShort :
    (jitter : ℕ → ℕ) → IsJitter jitter → (attempt : ℕ) → IsShort (backoff jitter attempt)
unfolding backoff
backoff-IsShort jitter j attempt =
    let base : ℕ = 2 ^ shift_of attempt * second in
    omega (arith, clamp_bound (attempt - 1), j (base / 2 + 1) (omega arith))

retry_after-IsShort : (o : Option ℕ) (d : ℕ) → retry_after o ≡ some d → IsShort d
unfolding retry_after
retry_after-IsShort none d h = cc
retry_after-IsShort (some secs) d h = ground (arith, h)

pub Verdict-cases :
    (v : Verdict)
    → ((r : Result ClientError Text) × (v ≡ final r))
      ⊎ ((e : ClientError) × (o : Option ℕ) × (v ≡ retry e o))
Verdict-cases (final r) = inl (r, refl)
Verdict-cases (retry e o) = inr (e, o, refl)

module _ (answer : ℕ → Attempt) (ends : ℕ → Bool) (jitter : ℕ → ℕ) (j : IsJitter jitter) where
  -- At most `left` more requests and pauses, each pause a short one.
  abbrev IsBounded : ℕ → Run → Type 0
  IsBounded left r = (r.sent ≤ left) × ((length r.slept ≤ left) × All IsShort r.slept)

  abbrev IsShortPause : Option ℕ → Type 0
  IsShortPause o = (d : ℕ) → o ≡ some d → IsShort d

  judge-IsShortPause :
      (a : Attempt) (e : ClientError) (o : Option ℕ) → judge a ≡ retry e o → IsShortPause o
  unfolding judge
  judge-IsShortPause cancelled e o h = cc
  judge-IsShortPause refused_redirect e o h = cc
  judge-IsShortPause bad_certificate e o h = cc
  judge-IsShortPause transport_failed e o h = λ d p. cc
  judge-IsShortPause too_large e o h = cc
  judge-IsShortPause read_failed e o h = λ d p. cc
  judge-IsShortPause (answered code after body) e o h =
      λ d p. ground (arith, h, p, retry_after-IsShort after d)

  pause-IsShort :
      (wait : Option ℕ) (attempt : ℕ)
      → IsShortPause wait
      → IsShort (pause wait (backoff jitter attempt))
  pause-IsShort none attempt w = backoff-IsShort jitter j attempt
  pause-IsShort (some d) attempt w = w d refl

  after_pause-IsBounded :
      (left d : ℕ) (r : Run)
      → IsShort d
      → IsBounded left r
      → IsBounded (suc left) (after_pause d (after_request r))
  after_pause-IsBounded left d r s (a, (b, c)) = (omega arith, (omega arith, (s, c)))

  retries-IsBounded :
      (left attempt : ℕ) (last : ClientError) (wait : Option ℕ)
      → IsShortPause wait
      → IsBounded left (retries answer ends jitter left attempt last wait)
  unfolding retries
  retries-IsBounded zero attempt last wait w = (omega arith, (omega arith, tt))
  retries-IsBounded (suc left) attempt last wait w = elim (Bool-cases (ends attempt)) [
    | inl e ↦ rw e (omega arith, (omega arith, tt))
    | inr e ↦
        let d0 = pause wait (backoff jitter attempt) in
        let short = pause-IsShort wait attempt w in
        elim (Verdict-cases (judge (answer attempt))) [
          | inl (r, f) ↦
              rw (e, f)
                (after_pause-IsBounded left d0 (ended r) short (omega arith, (omega arith, tt)))
          | inr (d, o, f) ↦
              let ih =
                retries-IsBounded left (suc attempt) d o
                  (judge-IsShortPause (answer attempt) d o f) in
              rw (e, f)
                (after_pause-IsBounded left d0 (retries answer ends jitter left (suc attempt) d o)
                  short ih)
        ]
  ]

  -- Conditions: the jitter keeps to its range. With `max_retries` retries the request ends after at
  -- most that many more attempts and as many pauses, none of them longer than a minute.
  pub raw_bounds :
      (max_retries : ℕ)
      → ((raw answer ends jitter max_retries).sent ≤ max_retries + 1)
        × ((length (raw answer ends jitter max_retries).slept ≤ max_retries)
            × All IsShort (raw answer ends jitter max_retries).slept)
  unfolding raw
  raw_bounds max_retries = elim (Verdict-cases (judge (answer 0))) [
    | inl (r, f) ↦ rw f (omega arith, (omega arith, tt))
    | inr (d, o, f) ↦
        let (a, (b, c)) =
          retries-IsBounded max_retries 1 d o (judge-IsShortPause (answer 0) d o f) in
        rw f (omega arith, (b, c))
  ]
