-- ===== src/Config/Validity.antt =====
-- What a configuration that passes `Config.Validate` of internal/config/config.go satisfies.
use jenkins_bench.Prelude.{
  ℕ, zero, suc, ◌==◌, ap, ◌≤◌, ◌≡◌, ◌≢◌, refl, ◌⊎◌, true, false, none, some, List, [], ◌∷◌, All,
  arith, Option-cases, inl, inr,
}
use jenkins_bench.Prelude.Text.{Text, to_lower, trim_space, is_empty}
use jenkins_bench.Prelude.Int.{ℤ, pos, negsuc, ltb_ℤ}
use jenkins_bench.Prelude.Glob.{Token, tokens}
use jenkins_bench.Prelude.Date.{parse_day, zero_time}
use jenkins_bench.Config.{
  Scan, Exception, Config, expires_at, check_patterns, validate_exception, first_blank,
  check_exceptions, one_of, fail_on_values, progress_values, validate_scan, validate_lists,
  validate,
}

abbrev pub NotBlank : Text → Type 0
NotBlank s = trim_space s ≢ []

-- A resource pattern that matches something.
abbrev pub IsPattern : Text → Type 0
IsPattern p = NotBlank p × ((ts : List Token) × (tokens p ≡ some ts))

pub record IsGoodException (e : Exception) : Type 0 where
  pub control : NotBlank e.control
  pub some_resource : e.resources ≢ []
  pub patterns : All IsPattern e.resources
  pub reason : NotBlank e.reason
  pub dated : (day : ℕ) × (parse_day e.expires ≡ some day)

pub record IsGoodScan (s : Scan) : Type 0 where
  pub fail_on : one_of (to_lower s.fail_on) fail_on_values ≡ true
  pub progress : one_of (to_lower s.progress) progress_values ≡ true
  pub concurrency : (n : ℕ) × (s.concurrency ≡ pos (suc n))
  pub fail_under : (n : ℕ) × (s.fail_under ≡ pos n) × (n ≤ 100)
  pub max_manual : (s.max_manual ≡ negsuc 0) ⊎ ((n : ℕ) × (s.max_manual ≡ pos n) × (n ≤ 100))
  pub timeout : (n : ℕ) × (s.timeout ≡ pos n)
  pub max_duration : (n : ℕ) × (s.max_duration ≡ pos n)
  pub one_trust : (s.ca_file ≡ []) ⊎ (s.insecure ≡ false)

pub record IsGoodConfig (c : Config) : Type 0 where
  pub scan : IsGoodScan c.scan
  pub age : (n : ℕ) × (c.update_site_max_age_days ≡ pos n)
  pub audit_plugin_names : All NotBlank c.audit_plugin_names
  pub exclude : All NotBlank c.exclude
  pub include : All NotBlank c.include
  pub exceptions : All IsGoodException c.exceptions

is_empty-NotBlank : (s : Text) → is_empty (trim_space s) ≡ false → NotBlank s
is_empty-NotBlank s h e = cc (h, ap is_empty e)

check_patterns-All : (ps : List Text) → check_patterns ps ≡ none → All IsPattern ps
unfolding check_patterns
check_patterns-All [] h = tt
check_patterns-All (p ∷ ps) h = elim (Option-cases (tokens p)) [
  | inl n ↦ absurd (ground arith)
  | inr (ts, e) ↦
      ((is_empty-NotBlank p (ground arith), (ts, e)), check_patterns-All ps (ground arith))
]

first_blank-All : (i : ℕ) (l : List Text) → first_blank i l ≡ none → All NotBlank l
unfolding first_blank
first_blank-All i [] h = tt
first_blank-All i (x ∷ l) h =
    (is_empty-NotBlank x (ground arith), first_blank-All (suc i) l (ground arith))

expires_at-dated :
    (e : Exception)
    → (expires_at e == zero_time) ≡ false
    → (day : ℕ) × (parse_day e.expires ≡ some day)
unfolding expires_at
expires_at-dated e h = elim (Option-cases (parse_day e.expires)) [
  | inl n ↦ absurd (ground arith)
  | inr found ↦ found
]

validate_exception-IsGood : (e : Exception) → validate_exception e ≡ none → IsGoodException e
unfolding validate_exception
validate_exception-IsGood e h = record {
  control = is_empty-NotBlank e.control (ground arith);
  some_resource = λ q. ground arith;
  patterns = check_patterns-All e.resources (ground arith);
  reason = is_empty-NotBlank e.reason (ground arith);
  dated = expires_at-dated e (ground arith);
}

check_exceptions-All :
    (i : ℕ) (es : List Exception) → check_exceptions i es ≡ none → All IsGoodException es
unfolding check_exceptions
check_exceptions-All i [] h = tt
check_exceptions-All i (e ∷ es) h =
    (validate_exception-IsGood e (ground arith), check_exceptions-All (suc i) es (ground arith))

pos_of : (z : ℤ) → ltb_ℤ z (pos 0) ≡ false → (n : ℕ) × (z ≡ pos n)
pos_of (pos n) h = (n, refl)
pos_of (negsuc n) h = absurd (ground arith)

suc_of : (z : ℤ) → ltb_ℤ z (pos 1) ≡ false → (n : ℕ) × (z ≡ pos (suc n))
suc_of (pos zero) h = absurd (ground arith)
suc_of (pos (suc n)) h = (n, refl)
suc_of (negsuc n) h = absurd (ground arith)

percent_of :
    (z : ℤ)
    → ltb_ℤ z (pos 0) ≡ false
    → ltb_ℤ (pos 100) z ≡ false
    → (n : ℕ) × (z ≡ pos n) × (n ≤ 100)
percent_of (pos n) h k = (n, refl, ground arith)
percent_of (negsuc n) h k = absurd (ground arith)

gate_of :
    (z : ℤ)
    → ltb_ℤ z (negsuc 0) ≡ false
    → ltb_ℤ (pos 100) z ≡ false
    → (z ≡ negsuc 0) ⊎ ((n : ℕ) × (z ≡ pos n) × (n ≤ 100))
gate_of (pos n) h k = inr (n, refl, ground arith)
gate_of (negsuc zero) h k = inl refl
gate_of (negsuc (suc n)) h k = absurd (ground arith)

validate_scan-IsGood : (s : Scan) → validate_scan s ≡ none → IsGoodScan s
unfolding validate_scan
validate_scan-IsGood s h = record {
  fail_on = ground arith;
  progress = ground arith;
  concurrency = suc_of s.concurrency (ground arith);
  fail_under = percent_of s.fail_under (ground arith) (ground arith);
  max_manual = gate_of s.max_manual (ground arith) (ground arith);
  timeout = pos_of s.timeout (ground arith);
  max_duration = pos_of s.max_duration (ground arith);
  one_trust = ground arith;
}

-- Condition: `Validate` accepts the configuration. It then has a known failOn and progress, at
-- least one fetch at a time, percentages in range, no negative duration or age, one way of trusting
-- the certificate, no blank entry, and exceptions that each have a control, a reason, readable
-- patterns and a date.
pub validate-IsGoodConfig : (c : Config) → validate c ≡ none → IsGoodConfig c
unfolding validate validate_lists
validate-IsGoodConfig c h = record {
  scan = validate_scan-IsGood c.scan (ground arith);
  age = pos_of c.update_site_max_age_days (ground arith);
  audit_plugin_names = first_blank-All 0 c.audit_plugin_names (ground arith);
  exclude = first_blank-All 0 c.exclude (ground arith);
  include = first_blank-All 0 c.include (ground arith);
  exceptions = check_exceptions-All 0 c.exceptions (ground arith);
}
