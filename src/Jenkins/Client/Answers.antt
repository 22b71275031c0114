-- ===== src/Jenkins/Client/Answers.antt =====
-- internal/ci/jenkins/client.go: which attempt decides what `raw` and `ProbeAnonymous` return.
use jenkins_bench.Prelude.{
  ℕ, zero, suc, ◌≤◌, ◌<◌, ◌≡◌, ◌↔◌, ◌⊎◌, refl, sym, ap, ◌∙◌, inl, inr, Bool, true, false, Option,
  none, some, arith,
}
use mathlib.Core.Bool.{true≢false}
use jenkins_bench.Prelude.Text.{Text, text_eq_iff}
use jenkins_bench.Prelude.Result.{Result, ok, err}
use jenkins_bench.Jenkins.Client.{
  Attempt, ClientError, api_error, final, retry, judge, raw, retries, retry_after, probe, is_root,
  class_hudson, cancelled, refused_redirect, bad_certificate, transport_failed, too_large,
  read_failed, answered, is_forbidden, status_of, transport_error, read_error, context_over,
  redirect_refused, certificate_refused, body_too_large,
}
use jenkins_bench.Jenkins.Client.Laws.{Verdict-cases}

-- An attempt that is worth another: the connection or the body broke, or the controller was busy or failed.
abbrev pub IsRetried : Attempt → Type 0
IsRetried transport_failed = Unit
IsRetried read_failed = Unit
IsRetried (answered code after body) = (code ≡ 429) ⊎ (500 ≤ code)
IsRetried _ = ⊥

-- An answer with the body and a status of success.
abbrev pub IsServed : Text → Attempt → Type 0
IsServed body (answered code after got) = (200 ≤ code) × (code < 300) × (got ≡ body)
IsServed body _ = ⊥

abbrev pub IsDenied : Attempt → Type 0
IsDenied (answered code after body) = (code ≡ 401) ⊎ (code ≡ 403)
IsDenied _ = ⊥

-- An answer of success whose body is the root object of the API.
abbrev pub IsRoot : (Text → Option Text) → Attempt → Type 0
IsRoot class_of (answered code after body) =
    (200 ≤ code) × (code < 300) × (class_of body ≡ some class_hudson)
IsRoot class_of _ = ⊥

-- Among the next `left` attempts is one of a kind, and all before it are such as are retried.
pub data Meets (answer : ℕ → Attempt) (P : Attempt → Type 0) : ℕ → ℕ → Type 0 where
  now : {left attempt : ℕ} → P (answer attempt) → Meets answer P (suc left) attempt
  later :
      {left attempt : ℕ}
      → IsRetried (answer attempt)
      → Meets answer P left (suc attempt)
      → Meets answer P (suc left) attempt

judge-IsRetried : (a : Attempt) (e : ClientError) (o : Option ℕ) → judge a ≡ retry e o → IsRetried a
unfolding judge
judge-IsRetried cancelled e o h = cc
judge-IsRetried refused_redirect e o h = cc
judge-IsRetried bad_certificate e o h = cc
judge-IsRetried transport_failed e o h = tt
judge-IsRetried too_large e o h = cc
judge-IsRetried read_failed e o h = tt
judge-IsRetried (answered code after body) e o h = ground (arith, h)

IsRetried-judge :
    (a : Attempt) → IsRetried a → (e : ClientError) × (o : Option ℕ) × (judge a ≡ retry e o)
unfolding judge
IsRetried-judge cancelled h = elim h [ ]
IsRetried-judge refused_redirect h = elim h [ ]
IsRetried-judge bad_certificate h = elim h [ ]
IsRetried-judge too_large h = elim h [ ]
IsRetried-judge transport_failed h = (_, _, refl)
IsRetried-judge read_failed h = (_, _, refl)
IsRetried-judge (answered code after body) h =
    (api_error code, retry_after after, ground (arith, h))

-- An error that is retried is no denial.
retried-is_forbidden :
    (a : Attempt) (e : ClientError) (o : Option ℕ) → judge a ≡ retry e o → is_forbidden e ≡ false
unfolding judge is_forbidden status_of
retried-is_forbidden cancelled e o h = cc
retried-is_forbidden refused_redirect e o h = cc
retried-is_forbidden bad_certificate e o h = cc
retried-is_forbidden transport_failed e o h =
    let same : transport_error ≡ e = ground arith in rw (← same) refl
retried-is_forbidden too_large e o h = cc
retried-is_forbidden read_failed e o h =
    let same : read_error ≡ e = ground arith in rw (← same) refl
retried-is_forbidden (answered code after body) e o h = ground (arith, h)

module _ (answer : ℕ → Attempt) (ends : ℕ → Bool) (jitter : ℕ → ℕ) (calm : (n : ℕ) → ends n ≡ false)
    (W : Result ClientError Text → Type 0) (P : Attempt → Type 0)
    (stops : (a : Attempt) (r : Result ClientError Text) → judge a ≡ final r → W r → P a)
    (decides : (a : Attempt) → P a → (r : Result ClientError Text) × (judge a ≡ final r) × W r)
    (spent : (a : Attempt) (e : ClientError) (o : Option ℕ)
      → judge a ≡ retry e o
      → ¬ W (err e)) where
  retries-Meets :
      (left attempt : ℕ) (last : ClientError) (wait : Option ℕ)
      → (¬ W (err last))
      → W (retries answer ends jitter left attempt last wait).result
      → Meets answer P left attempt
  unfolding retries
  retries-Meets zero attempt last wait bad h = absurd (bad h)
  retries-Meets (suc left) attempt last wait bad h = elim (Verdict-cases (judge (answer attempt))) [
    | inl (r, f) ↦ now (stops (answer attempt) r f (rw (calm attempt, f) at h))
    | inr (d, o, f) ↦ later (judge-IsRetried (answer attempt) d o f) (
        retries-Meets left (suc attempt) d o (spent (answer attempt) d o f)
          (rw (calm attempt, f) at h))
  ]

  Meets-retries :
      (left attempt : ℕ) (last : ClientError) (wait : Option ℕ)
      → Meets answer P left attempt
      → W (retries answer ends jitter left attempt last wait).result
  unfolding retries
  Meets-retries left attempt last wait (now {left = l} p) =
      let (r, f, w) = decides (answer attempt) p in rw (calm attempt, f) w
  Meets-retries left attempt last wait (later {left = l} again m) =
      let (d, o, f) = IsRetried-judge (answer attempt) again in
      rw (calm attempt, f) (Meets-retries l (suc attempt) d o m)

  raw-Meets :
      (max_retries : ℕ)
      → W (raw answer ends jitter max_retries).result
      → Meets answer P (suc max_retries) 0
  unfolding raw
  raw-Meets max_retries h = elim (Verdict-cases (judge (answer 0))) [
    | inl (r, f) ↦ now (stops (answer 0) r f (rw f at h))
    | inr (d, o, f) ↦
        later (judge-IsRetried (answer 0) d o f)
          (retries-Meets max_retries 1 d o (spent (answer 0) d o f) (rw f at h))
  ]

  Meets-raw :
      (max_retries : ℕ)
      → Meets answer P (suc max_retries) 0
      → W (raw answer ends jitter max_retries).result
  unfolding raw
  Meets-raw max_retries (now p) = let (r, f, w) = decides (answer 0) p in rw f w
  Meets-raw max_retries (later again m) =
      let (d, o, f) = IsRetried-judge (answer 0) again in rw f (Meets-retries max_retries 1 d o m)

judge-IsServed : (body : Text) (a : Attempt) → judge a ≡ final (ok body) → IsServed body a
unfolding judge
judge-IsServed body cancelled h = cc
judge-IsServed body refused_redirect h = cc
judge-IsServed body bad_certificate h = cc
judge-IsServed body transport_failed h = cc
judge-IsServed body too_large h = cc
judge-IsServed body read_failed h = cc
judge-IsServed body (answered code after got) h = ground (arith, h)

IsServed-judge : (body : Text) (a : Attempt) → IsServed body a → judge a ≡ final (ok body)
unfolding judge
IsServed-judge body cancelled h = elim h [ ]
IsServed-judge body refused_redirect h = elim h [ ]
IsServed-judge body bad_certificate h = elim h [ ]
IsServed-judge body transport_failed h = elim h [ ]
IsServed-judge body too_large h = elim h [ ]
IsServed-judge body read_failed h = elim h [ ]
IsServed-judge body (answered code after got) (lo, hi, e) = rw e (ground (arith, lo, hi))

judge-IsDenied :
    (a : Attempt) (e : ClientError) → judge a ≡ final (err e) → is_forbidden e ≡ true → IsDenied a
unfolding judge is_forbidden status_of
judge-IsDenied cancelled e h k =
    let same : context_over ≡ e = ground arith in absurd (true≢false (sym k ∙ rw (← same) refl))
judge-IsDenied refused_redirect e h k =
    let same : redirect_refused ≡ e = ground arith in absurd (true≢false (sym k ∙ rw (← same) refl))
judge-IsDenied bad_certificate e h k =
    let same : certificate_refused ≡ e = ground arith in
    absurd (true≢false (sym k ∙ rw (← same) refl))
judge-IsDenied transport_failed e h k = cc
judge-IsDenied too_large e h k =
    let same : body_too_large ≡ e = ground arith in absurd (true≢false (sym k ∙ rw (← same) refl))
judge-IsDenied read_failed e h k = cc
judge-IsDenied (answered code after got) e h k = ground (arith, h, k)

IsDenied-judge :
    (a : Attempt)
    → IsDenied a
    → (code : ℕ) × (judge a ≡ final (err (api_error code))) × (is_forbidden (api_error code) ≡ true)
unfolding judge is_forbidden status_of
IsDenied-judge cancelled h = elim h [ ]
IsDenied-judge refused_redirect h = elim h [ ]
IsDenied-judge bad_certificate h = elim h [ ]
IsDenied-judge transport_failed h = elim h [ ]
IsDenied-judge too_large h = elim h [ ]
IsDenied-judge read_failed h = elim h [ ]
IsDenied-judge (answered code after got) (inl e) = (401, rw e refl, refl)
IsDenied-judge (answered code after got) (inr e) = (403, rw e refl, refl)

-- The context does not end during a wait.
module _ (answer : ℕ → Attempt) (ends : ℕ → Bool) (jitter : ℕ → ℕ)
    (calm : (n : ℕ) → ends n ≡ false) where
  -- Condition: the context does not end during a wait. `raw` returns a body exactly if one of its attempts is
  -- answered with that body and a status from 200 to 299, and every attempt before it broke in transport, or was
  -- answered 429 or 500 and above.
  pub raw_iff :
      (max_retries : ℕ) (body : Text)
      → ((raw answer ends jitter max_retries).result ≡ ok body)
        ↔ Meets answer (IsServed body) (suc max_retries) 0
  raw_iff max_retries body =
      let stops : (a : Attempt) (r : Result ClientError Text)
          → judge a ≡ final r
          → r ≡ ok body
          → IsServed body a =
        λ a r f w. judge-IsServed body a (f ∙ ap final w) in
      let decides : (a : Attempt)
          → IsServed body a
          → (r : Result ClientError Text) × (judge a ≡ final r) × (r ≡ ok body) =
        λ a p. (ok body, IsServed-judge body a p, refl) in
      let spent : (a : Attempt) (e : ClientError) (o : Option ℕ)
          → judge a ≡ retry e o
          → ¬ (err e ≡ ok body) =
        λ a e o f h. cc in
      (
        raw-Meets answer ends jitter calm (λ r. r ≡ ok body) (IsServed body) stops decides spent
            max_retries,
        Meets-raw answer ends jitter calm (λ r. r ≡ ok body) (IsServed body) stops decides spent
            max_retries,
      )

module _ (class_of : Text → Option Text) where
  IsServed-IsRoot :
      (body : Text) (a : Attempt)
      → IsServed body a
      → class_of body ≡ some class_hudson
      → IsRoot class_of a
  IsServed-IsRoot body cancelled h e = elim h [ ]
  IsServed-IsRoot body refused_redirect h e = elim h [ ]
  IsServed-IsRoot body bad_certificate h e = elim h [ ]
  IsServed-IsRoot body transport_failed h e = elim h [ ]
  IsServed-IsRoot body too_large h e = elim h [ ]
  IsServed-IsRoot body read_failed h e = elim h [ ]
  IsServed-IsRoot body (answered code after got) (lo, hi, q) e = (lo, hi, ap class_of q ∙ e)

  IsRoot-IsServed :
      (a : Attempt)
      → IsRoot class_of a
      → (body : Text) × IsServed body a × (class_of body ≡ some class_hudson)
  IsRoot-IsServed cancelled h = elim h [ ]
  IsRoot-IsServed refused_redirect h = elim h [ ]
  IsRoot-IsServed bad_certificate h = elim h [ ]
  IsRoot-IsServed transport_failed h = elim h [ ]
  IsRoot-IsServed too_large h = elim h [ ]
  IsRoot-IsServed read_failed h = elim h [ ]
  IsRoot-IsServed (answered code after got) (lo, hi, e) = (got, (lo, hi, refl), e)

  is_root_iff : (o : Option Text) → (is_root o ≡ true) ↔ (o ≡ some class_hudson)
  is_root_iff none = (λ h. cc, λ h. cc)
  is_root_iff (some class) =
      let same = text_eq_iff class class_hudson in
      (λ h. ap some (same.0 h), λ h. ap is_root h ∙ refl)

  probe-allowed :
      (a : Attempt) (r : Result ClientError Text)
      → judge a ≡ final r
      → (probe class_of r).allowed ≡ true
      → IsRoot class_of a
  unfolding probe
  probe-allowed a (ok body) f w =
      IsServed-IsRoot body a (judge-IsServed body a f) ((is_root_iff (class_of body)).0 w)
  probe-allowed a (err e) f w = cc

  probe-conclusive :
      (a : Attempt) (r : Result ClientError Text)
      → judge a ≡ final r
      → (probe class_of r).conclusive ≡ true
      → IsRoot class_of a ⊎ IsDenied a
  unfolding probe
  probe-conclusive a (ok body) f w = inl (probe-allowed a (ok body) f w)
  probe-conclusive a (err e) f w = inr (judge-IsDenied a e f w)

  allowed-probe :
      (a : Attempt)
      → IsRoot class_of a
      → (r : Result ClientError Text) × (judge a ≡ final r)
        × ((probe class_of r).allowed ≡ true)
        × ((probe class_of r).conclusive ≡ true)
  unfolding probe
  allowed-probe a h =
      let (body, served, e) = IsRoot-IsServed a h in
      let root = (is_root_iff (class_of body)).1 e in
      (ok body, IsServed-judge body a served, root, root)

  conclusive-probe :
      (a : Attempt)
      → IsRoot class_of a ⊎ IsDenied a
      → (r : Result ClientError Text) × (judge a ≡ final r) × ((probe class_of r).conclusive ≡ true)
  unfolding probe
  conclusive-probe a (inl h) = let (r, f, w, c) = allowed-probe a h in (r, f, c)
  conclusive-probe a (inr h) = let (code, f, w) = IsDenied-judge a h in (err (api_error code), f, w)

  module _ (answer : ℕ → Attempt) (ends : ℕ → Bool) (jitter : ℕ → ℕ)
      (calm : (n : ℕ) → ends n ≡ false) where
    -- Condition: the context does not end during a wait. The probe finds the controller open exactly if an attempt
    -- is answered with a status from 200 to 299 and a body of class `hudson.model.Hudson`, and every attempt before
    -- it is such as is retried. It settles the question exactly if that is so, or an attempt that follows such ones
    -- only is answered 401 or 403.
    pub probe_iff :
        (max_retries : ℕ)
        → let outcome = probe class_of (raw answer ends jitter max_retries).result in
          ((outcome.allowed ≡ true) ↔ Meets answer (IsRoot class_of) (suc max_retries) 0)
          × ((outcome.conclusive ≡ true)
              ↔ Meets answer (λ a. IsRoot class_of a ⊎ IsDenied a) (suc max_retries) 0)
    unfolding probe
    probe_iff max_retries =
        let Open = λ (r : Result ClientError Text). (probe class_of r).allowed ≡ true in
        let Settled = λ (r : Result ClientError Text). (probe class_of r).conclusive ≡ true in
        let opened : (a : Attempt)
            → IsRoot class_of a
            → (r : Result ClientError Text) × (judge a ≡ final r) × Open r =
          λ a h. let (r, f, w, c) = allowed-probe a h in (r, f, w) in
        let open_spent : (a : Attempt) (e : ClientError) (o : Option ℕ)
            → judge a ≡ retry e o
            → ¬ Open (err e) =
          λ a e o f h. cc in
        let spent : (a : Attempt) (e : ClientError) (o : Option ℕ)
            → judge a ≡ retry e o
            → ¬ Settled (err e) =
          λ a e o f h. absurd (true≢false (sym h ∙ retried-is_forbidden a e o f)) in
        (
          (
            raw-Meets answer ends jitter calm Open (IsRoot class_of) probe-allowed opened open_spent
                max_retries,
            Meets-raw answer ends jitter calm Open (IsRoot class_of) probe-allowed opened open_spent
                max_retries,
          ),
          (
            raw-Meets answer ends jitter calm Settled _ probe-conclusive conclusive-probe spent
                max_retries,
            Meets-raw answer ends jitter calm Settled _ probe-conclusive conclusive-probe spent
                max_retries,
          ),
        )
