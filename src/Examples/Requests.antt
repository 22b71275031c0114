-- ===== src/Examples/Requests.antt =====
-- Requests of the client: instances of the theorems.
use jenkins_bench.Prelude.{
  ℕ, ◌≤◌, ◌<◌, ◌≡◌, ◌↔◌, ◌⊎◌, refl, Bool, true, false, Option, none, some, All, length, ◌==◌, arith,
  [], if◌then◌else◌,
}
use jenkins_bench.Prelude.Text.{Text, codes, equal_fold, to_lower}
use jenkins_bench.Prelude.Result.{ok}
use jenkins_bench.Jenkins.Client.{
  Attempt, answered, raw, retries, judge, probe, class_hudson, Origin, check_redirect, same_origin,
  effective_port, to_cleartext, too_many, is_forbidden, status_of,
}
use jenkins_bench.Jenkins.Client.Laws.{IsShort, IsJitter, raw_bounds}
use jenkins_bench.Jenkins.Client.Answers.{Meets, IsServed, IsRoot, IsDenied, raw_iff, probe_iff}
use jenkins_bench.Jenkins.Client.Redirects.{IsSameOrigin, IsDowngrade, check_redirect_iff}

-- A controller that throttles the first attempt and answers the second.
abbrev throttling : ℕ → Attempt
throttling n = if n == 0 then answered 429 (some 5) [] else answered 200 none (codes "{}")

abbrev patient : ℕ → Bool
patient n = false

abbrev no_jitter : ℕ → ℕ
no_jitter n = 0

no_jitter-IsJitter : IsJitter no_jitter
no_jitter-IsJitter n h = omega (arith, h)

raw_bounds_example :
    ((raw throttling patient no_jitter 3).sent ≤ 4)
    × ((length (raw throttling patient no_jitter 3).slept ≤ 3)
        × All IsShort (raw throttling patient no_jitter 3).slept)
raw_bounds_example = raw_bounds throttling patient no_jitter no_jitter-IsJitter 3

patient-calm : (n : ℕ) → patient n ≡ false
patient-calm n = refl

raw_iff_example :
    ((raw throttling patient no_jitter 3).result ≡ ok (codes "{}"))
    ↔ Meets throttling (IsServed (codes "{}")) 4 0
raw_iff_example = raw_iff throttling patient no_jitter patient-calm 3 (codes "{}")

abbrev controller_origin : Origin
controller_origin = record { scheme = codes "https"; hostname = codes "ci"; port = [] }

abbrev plain_origin : Origin
plain_origin = record controller_origin { scheme = codes "http" }

check_redirect_iff_example :
    ((check_redirect controller_origin plain_origin 1 ≡ none)
      ↔ (IsSameOrigin controller_origin plain_origin × (1 < 5)))
    × ((check_redirect controller_origin plain_origin 1 ≡ some to_cleartext)
        ↔ IsDowngrade controller_origin plain_origin)
check_redirect_iff_example = check_redirect_iff controller_origin plain_origin 1

-- A reader for which every body is the root object, and one attempt that is denied behind one that is throttled.
abbrev every_root : Text → Option Text
every_root body = some class_hudson

abbrev denying : ℕ → Attempt
denying n = if n == 0 then answered 503 none [] else answered 403 none []

probe_iff_example :
    (((probe every_root (raw denying patient no_jitter 3).result).allowed ≡ true)
      ↔ Meets denying (IsRoot every_root) 4 0)
    × (((probe every_root (raw denying patient no_jitter 3).result).conclusive ≡ true)
        ↔ Meets denying (λ a. IsRoot every_root a ⊎ IsDenied a) 4 0)
probe_iff_example = probe_iff every_root denying patient no_jitter patient-calm 3

denying-settles :
    (probe every_root (raw denying patient no_jitter 3).result
      ≡ record { allowed = false; conclusive = true })
unfolding probe raw retries judge is_forbidden status_of
denying-settles = refl

-- The fifth redirect of a request has had five requests before it, and is refused.
fifth_redirect : check_redirect controller_origin controller_origin 5 ≡ some too_many
unfolding check_redirect same_origin effective_port equal_fold to_lower
fifth_redirect = refl
