-- ===== src/Jenkins/Client.antt =====
-- internal/ci/jenkins/client.go: the retry loop of `raw` with `backoff` and `retryAfter`, the anonymous
-- probe, and the redirects that `checkRedirect` refuses. What each attempt meets, whether the context
-- ends during a wait, and the random jitter are parameters; time is in nanoseconds.
pub mod Laws
pub mod Answers
pub mod Redirects
use jenkins_bench.Prelude.{
  ℕ, zero, suc, ◌+◌, ◌-◌, ◌*◌, ◌/◌, ◌^◌, Bool, true, false, not, ◌&&◌, ◌||◌, Option, none, some,
  List, [], ◌∷◌, ltb, leb, ◌==◌, if◌then◌else◌,
}
use jenkins_bench.Prelude.Text.{Text, codes, text_eq, to_lower, equal_fold, is_empty}
use jenkins_bench.Prelude.Result.{Result, ok, err}

abbrev pub second : ℕ
second = 1_000_000_000

-- How one attempt ends: client.Do fails with the context over, with a redirect refused, with a
-- certificate nobody vouches for or otherwise; the body is past the cap or cannot be read; or a status
-- with the number of its Retry-After header, where there is one, and the body.
pub data Attempt : Type 0 where
  cancelled refused_redirect bad_certificate transport_failed : Attempt
  too_large read_failed : Attempt
  answered : ℕ → Option ℕ → Text → Attempt

pub data ClientError : Type 0 where
  context_over redirect_refused certificate_refused body_too_large : ClientError
  transport_error read_error : ClientError
  api_error : ℕ → ClientError

-- Status
unfoldable pub status_of : ClientError → ℕ
status_of (api_error code) = code
status_of _ = 0

-- IsForbidden
unfoldable pub is_forbidden : ClientError → Bool
unfolding status_of
is_forbidden e = status_of e == 403 || status_of e == 401

abbrev shift_of : ℕ → ℕ
shift_of attempt = if ltb 4 (attempt - 1) then 4 else attempt - 1

-- backoff, where `jitter` is rand.N
unfoldable pub backoff : (ℕ → ℕ) → ℕ → ℕ
backoff jitter attempt = let base = 2 ^ shift_of attempt * second in base + jitter (base / 2 + 1)

-- retryAfter
unfoldable pub retry_after : Option ℕ → Option ℕ
retry_after none = none
retry_after (some secs) = some ((if ltb 60 secs then 60 else secs) * second)

-- What the switch makes of an attempt: an end of the request, or an error to retry with the pause
-- that the server asks for.
pub data Verdict : Type 0 where
  final : Result ClientError Text → Verdict
  retry : ClientError → Option ℕ → Verdict

unfoldable pub judge : Attempt → Verdict
unfolding retry_after
judge cancelled = final (err context_over)
judge refused_redirect = final (err redirect_refused)
judge bad_certificate = final (err certificate_refused)
judge transport_failed = retry transport_error none
judge too_large = final (err body_too_large)
judge read_failed = retry read_error none
judge (answered code after body) =
    if leb 200 code && ltb code 300
    then final (ok body)
    else if code == 429 || leb 500 code
    then retry (api_error code) (retry_after after)
    else final (err (api_error code))

-- A run of the loop: the attempts sent, the time slept, and what the caller gets.
pub record Run : Type 0 where
  pub sent : ℕ
  pub slept : List ℕ
  pub result : Result ClientError Text

abbrev ended : Result ClientError Text → Run
ended r = record { sent = 0; slept = []; result = r }

-- A pause that the server named, or the loop's own.
abbrev pub pause : Option ℕ → ℕ → ℕ
pause none d = d
pause (some d) own = d

abbrev after_pause : ℕ → Run → Run
after_pause d r = record r { slept = d ∷ r.slept }

abbrev after_request : Run → Run
after_request r = record r { sent = suc r.sent }

module _ (answer : ℕ → Attempt) (ends : ℕ → Bool) (jitter : ℕ → ℕ) where
  -- The iterations after a failed one: `left` of them, the first being `attempt`; `wait` is the pause
  -- that the server named. The last failed attempt sleeps no such pause.
  unfoldable pub retries : ℕ → ℕ → ClientError → Option ℕ → Run
  unfolding judge
  retries zero attempt last wait = ended (err last)
  retries (suc left) attempt last wait =
      let rest : Run = elim (judge (answer attempt)) [
        | final r ↦ ended r
        | retry e after ↦ retries left (suc attempt) e after
      ] in
      if ends attempt
      then ended (err context_over)
      else after_pause (pause wait (backoff jitter attempt)) (after_request rest)

  -- raw, with `max_retries` retries after the first attempt
  unfoldable pub raw : ℕ → Run
  raw max_retries = after_request (elim (judge (answer 0)) [
    | final r ↦ ended r
    | retry e after ↦ retries max_retries 1 e after
  ])

pub record Probe : Type 0 where
  pub allowed : Bool
  pub conclusive : Bool

-- classHudson
abbrev pub class_hudson : Text
class_hudson = codes "hudson.model.Hudson"

abbrev pub is_root : Option Text → Bool
is_root none = false
is_root (some class) = text_eq class class_hudson

-- ProbeAnonymous, on what `raw` returned. `class_of` is json.Unmarshal into a struct of the one field `_class`: the
-- field's value, or `none` where it fails.
unfoldable pub probe : (Text → Option Text) → Result ClientError Text → Probe
unfolding is_forbidden
probe class_of (ok body) =
    let root = is_root (class_of body) in record { allowed = root; conclusive = root }
probe class_of (err e) = record { allowed = false; conclusive = is_forbidden e }

-- The parts of a URL that decide its origin; `port` is empty where the URL names none.
pub record Origin : Type 0 where
  pub scheme : Text
  pub hostname : Text
  pub port : Text

-- effectivePort
unfoldable pub effective_port : Origin → Text
effective_port u =
    if not (is_empty u.port)
    then u.port
    else if text_eq (to_lower u.scheme) (codes "https")
    then codes "443"
    else if text_eq (to_lower u.scheme) (codes "http")
    then codes "80"
    else []

-- sameOrigin
unfoldable pub same_origin : Origin → Origin → Bool
same_origin a b =
    equal_fold a.scheme b.scheme
    && (equal_fold a.hostname b.hostname && text_eq (effective_port a) (effective_port b))

pub data RedirectError : Type 0 where
  to_cleartext other_origin too_many : RedirectError

abbrev pub max_redirects : ℕ
max_redirects = 5

-- checkRedirect, from the first URL to the next after `hops` requests; `none` is the nil error
unfoldable pub check_redirect : Origin → Origin → ℕ → Option RedirectError
check_redirect from to hops =
    if not (same_origin from to)
    then (if equal_fold from.scheme (codes "https") && equal_fold to.scheme (codes "http")
        then some to_cleartext
        else some other_origin)
    else if leb max_redirects hops
    then some too_many
    else none
