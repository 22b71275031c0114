-- ===== src/Examples/Settings.antt =====
-- Configurations that `Config.Validate` accepts: instances of the theorem.
use jenkins_bench.Prelude.Text.{Text, codes, has_rune, split, trim_space, to_lower}
use jenkins_bench.Prelude.Glob.{tokens}
use jenkins_bench.Prelude.Date.{parse_day}
use jenkins_bench.Prelude.{◌≡◌, refl, false, none, some, List, [], ◌∷◌, length}
use jenkins_bench.Prelude.Result.{ok, err}
use jenkins_bench.Config.{
  validate_scan, validate_lists, validate_exception, first_blank, expires_at, check_patterns,
  check_exceptions, validate,
}
use jenkins_bench.Config.Validity.{IsGoodConfig}
use jenkins_bench.Config.Load.{
  Outside, is_key_segment, cut, document_from, override_document, apply_override, apply_overrides,
  load_file, load_with_overrides, bad_key, many_lines,
}
use jenkins_bench.Config.Load.Laws.{
  load_with_overrides-IsGoodConfig, newlines, override_document-lines,
}
use jenkins_bench.Examples.{excluding}

excluding-validate : validate excluding ≡ none
unfolding validate validate_scan to_lower validate_lists first_blank trim_space check_exceptions
    validate_exception check_patterns tokens expires_at parse_day
excluding-validate = refl

-- A disk with no file, and a decoder that reads every override as the one configuration.
abbrev settled : Outside
settled = record { read = λ path. none; decode = λ doc cfg. some excluding }

abbrev quiet : List Text
quiet = codes "scan.failOn=none" ∷ []

settled-loads : load_with_overrides settled [] quiet ≡ ok excluding
unfolding load_with_overrides load_file apply_overrides apply_override override_document cut
    document_from is_key_segment validate validate_scan to_lower validate_lists first_blank
    trim_space check_exceptions validate_exception check_patterns tokens expires_at parse_day
settled-loads = refl

load_with_overrides-IsGoodConfig_example : IsGoodConfig excluding
load_with_overrides-IsGoodConfig_example =
    load_with_overrides-IsGoodConfig settled [] quiet excluding settled-loads

quiet-document : override_document (codes "scan.failOn=none") ≡ ok (codes "scan:\n  failOn: none\n")
unfolding override_document cut document_from is_key_segment
quiet-document = refl

override_document-lines_example :
    (key : Text) × (value : Text) × (cut b'=' (codes "scan.failOn=none") ≡ some (key, value))
    × (has_rune b'\n' value ≡ false)
    × (has_rune b'\r' value ≡ false)
    × (newlines (codes "scan:\n  failOn: none\n") ≡ length (split b'.' key))
override_document-lines_example =
    override_document-lines (codes "scan.failOn=none") (codes "scan:\n  failOn: none\n")
      quiet-document

-- A key with a colon, and a value with a second line, are refused.
crooked_key : override_document (codes "scan: x.y=1") ≡ err (bad_key (codes "scan: x.y=1"))
unfolding override_document cut document_from is_key_segment
crooked_key = refl

second_line :
    override_document (codes "exclude=a\nscan: b") ≡ err (many_lines (codes "exclude=a\nscan: b"))
unfolding override_document cut document_from is_key_segment
second_line = refl
