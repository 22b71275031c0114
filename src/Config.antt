-- ===== src/Config.antt =====
-- internal/config/config.go: the configuration, what makes it valid, and which controls it selects.
-- A decoded document is the record; durations are signed nanoseconds.
pub mod Load
pub mod Validity
use jenkins_bench.Prelude.{
  ℕ, suc, ◌+◌, ◌*◌, Bool, true, false, ◌||◌, Option, none, some, List, [], ◌∷◌, ◌==◌, any,
  if◌then◌else◌,
}
use jenkins_bench.Prelude.Text.{Text, codes, text_eq, to_lower, trim_space, is_empty, equal_fold}
use jenkins_bench.Prelude.Int.{ℤ, pos, negsuc, ltb_ℤ}
use jenkins_bench.Prelude.Glob.{tokens}
use jenkins_bench.Prelude.Date.{parse_day, day_ns, zero_time}

pub record Scan : Type 0 where
  pub fail_on : Text
  pub fail_under : ℤ
  pub max_manual : ℤ
  pub concurrency : ℤ
  pub timeout : ℤ
  pub max_duration : ℤ
  pub ca_file : Text
  pub insecure : Bool
  pub allow_plaintext : Bool
  pub allow_incomplete : Bool
  pub progress : Text

pub record Exception : Type 0 where
  pub control : Text
  pub resources : List Text
  pub reason : Text
  pub owner : Text
  pub expires : Text

pub record Config : Type 0 where
  pub scan : Scan
  pub update_site_max_age_days : ℤ
  pub audit_plugin_names : List Text
  pub skip_disabled_jobs : Bool
  pub exclude : List Text
  pub include : List Text
  pub exceptions : List Exception

-- Exception.ExpiresAt: the end of the expiry day, or the zero time for what is no date.
unfoldable pub expires_at : Exception → ℕ
expires_at e = elim (parse_day e.expires) [ none ↦ zero_time | some day ↦ (day + 1) * day_ns ]

pub data ExceptionError : Type 0 where
  control_required resources_required empty_pattern reason_required : ExceptionError
  expires_required not_a_date : ExceptionError
  bad_pattern : Text → ExceptionError

-- The loop of `Exception.validate` over the resource patterns.
unfoldable pub check_patterns : List Text → Option ExceptionError
check_patterns [] = none
check_patterns (p ∷ ps) =
    let rest = check_patterns ps in
    if is_empty (trim_space p)
    then some empty_pattern
    else (elim (tokens p) [ none ↦ some (bad_pattern p) | some ts ↦ rest ])

-- Exception.validate; `none` is the nil error
unfoldable pub validate_exception : Exception → Option ExceptionError
validate_exception e =
    let after_patterns : Option ExceptionError =
      if is_empty (trim_space e.reason)
      then some reason_required
      else if is_empty (trim_space e.expires)
      then some expires_required
      else if expires_at e == zero_time
      then some not_a_date
      else none in
    if is_empty (trim_space e.control) then some control_required else (elim e.resources [
      | [] ↦ some resources_required
      | p ∷ ps ↦ elim (check_patterns (p ∷ ps)) [ some err ↦ some err | none ↦ after_patterns ]
    ])

pub data ListName : Type 0 where
  audit_plugin_names_list exclude_list include_list : ListName

pub data ConfigError : Type 0 where
  bad_fail_on bad_progress : Text → ConfigError
  bad_concurrency bad_fail_under bad_max_manual bad_update_age : ℤ → ConfigError
  negative_duration ca_file_and_insecure : ConfigError
  blank_entry : ListName → ℕ → ConfigError
  bad_exception : ℕ → ExceptionError → ConfigError

-- The index of the first blank entry of a list.
unfoldable pub first_blank : ℕ → List Text → Option ℕ
first_blank i [] = none
first_blank i (item ∷ items) =
    let rest = first_blank (suc i) items in if is_empty (trim_space item) then some i else rest

unfoldable pub check_exceptions : ℕ → List Exception → Option ConfigError
check_exceptions i [] = none
check_exceptions i (e ∷ es) =
    let rest = check_exceptions (suc i) es in
    elim (validate_exception e) [ some err ↦ some (bad_exception i err) | none ↦ rest ]

abbrev pub one_of : Text → List Text → Bool
one_of s = any (λ known. text_eq s known)

abbrev pub fail_on_values : List Text
fail_on_values = codes "high" ∷ codes "medium" ∷ codes "low" ∷ codes "none" ∷ []

abbrev pub progress_values : List Text
progress_values = codes "full" ∷ codes "compact" ∷ codes "off" ∷ []

-- The first part of `Config.Validate`, on the scan section.
unfoldable pub validate_scan : Scan → Option ConfigError
validate_scan s =
    if one_of (to_lower s.fail_on) fail_on_values
    then (if ltb_ℤ s.concurrency (pos 1)
        then some (bad_concurrency s.concurrency)
        else if one_of (to_lower s.progress) progress_values
        then (if ltb_ℤ s.fail_under (pos 0) || ltb_ℤ (pos 100) s.fail_under
            then some (bad_fail_under s.fail_under)
            else if ltb_ℤ s.max_manual (negsuc 0) || ltb_ℤ (pos 100) s.max_manual
            then some (bad_max_manual s.max_manual)
            else if ltb_ℤ s.timeout (pos 0) || ltb_ℤ s.max_duration (pos 0)
            then some negative_duration
            else if is_empty s.ca_file
            then none
            else if s.insecure
            then some ca_file_and_insecure
            else none)
        else some (bad_progress s.progress))
    else some (bad_fail_on s.fail_on)

-- The loops over the three lists and the exceptions.
unfoldable pub validate_lists : Config → Option ConfigError
validate_lists c = elim (first_blank 0 c.audit_plugin_names) [
  | some i ↦ some (blank_entry audit_plugin_names_list i)
  | none ↦ elim (first_blank 0 c.exclude) [
    | some i ↦ some (blank_entry exclude_list i)
    | none ↦ elim (first_blank 0 c.include) [
      | some i ↦ some (blank_entry include_list i)
      | none ↦ check_exceptions 0 c.exceptions
    ]
  ]
]

-- Config.Validate; `none` is the nil error
unfoldable pub validate : Config → Option ConfigError
validate c = elim (validate_scan c.scan) [
  | some err ↦ some err
  | none ↦
      if ltb_ℤ c.update_site_max_age_days (pos 0)
      then some (bad_update_age c.update_site_max_age_days)
      else validate_lists c
]

-- Config.Selects
unfoldable pub selects : Config → Text → Bool
selects c id =
    if any (λ ex. equal_fold (trim_space ex) id) c.exclude then false else (elim c.include [
      | [] ↦ true
      | inc ∷ more ↦ any (λ i. equal_fold (trim_space i) id) (inc ∷ more)
    ])

-- Default
abbrev pub default : Config
default = record {
  scan = record {
    fail_on = codes "high";
    fail_under = pos 0;
    max_manual = negsuc 0;
    concurrency = pos 8;
    timeout = pos (30 * 1_000_000_000);
    max_duration = pos 0;
    ca_file = [];
    insecure = false;
    allow_plaintext = false;
    allow_incomplete = false;
    progress = codes "compact";
  };
  update_site_max_age_days = pos 30;
  audit_plugin_names =
      codes "audit-trail"
      ∷ codes "audit-log"
      ∷ codes "logstash"
      ∷ codes "splunk-devops"
      ∷ codes "datadog"
      ∷ codes "opentelemetry"
      ∷ [];
  skip_disabled_jobs = false;
  exclude = [];
  include = [];
  exceptions = [];
}
