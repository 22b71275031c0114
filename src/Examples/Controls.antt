-- ===== src/Examples/Controls.antt =====
-- A bundle of two controls: instances of the theorems on the registry and on the selection.
use jenkins_bench.Prelude.{
  ◌≤◌, ◌≡◌, ◌≢◌, refl, true, false, not, Option, none, some, [], ◌∷◌, any, All, sort_by,
}
use jenkins_bench.Prelude.Text.{to_upper, equal_fold, Text, codes, is_empty, has_rune, trim_space}
use jenkins_bench.Prelude.Assoc.{lookup, insert}
use jenkins_bench.Prelude.Result.{ok}
use jenkins_bench.Checks.{
  less_parts, less_component, Metadata, validate, less_cisid, atoi, applies_to,
}
use jenkins_bench.Checks.Order.{IsNumeric, less_cisid_asymm}
use jenkins_bench.Checks.Load.{
  FileEntry, Bundle, load_from, load_entries, load_entry, load_metadata, path_ext, path_dir,
}
use jenkins_bench.Checks.Load.Laws.{id_count}
use jenkins_bench.Checks.Validity.{IsWellFormed, load_from-IsWellFormed}
use jenkins_bench.Config.{selects}
use jenkins_bench.Engine.Selection.{
  validate_selection, new, select, refuse_empty, unknown_ids, note_all, note, note_exceptions,
  is_known,
}
use jenkins_bench.Engine.Selection.Laws.{exclude_effective, new-keep, chosen_from}
use jenkins_bench.Examples.{csrf_check, sandbox_check, excluding}

abbrev metadata_file : FileEntry
metadata_file = record {
  path = codes "jenkins/csrf/metadata.json";
  name = codes "metadata.json";
  is_dir = false;
  walk_failed = false;
  contents = some (codes "x");
}

abbrev decode_csrf : Text → Option Metadata
decode_csrf raw = some csrf_check.metadata

abbrev loaded_bundle : Bundle
loaded_bundle = record {
  checks = (record csrf_check { dir = codes "jenkins/csrf" }) ∷ [];
  modules = [];
}

loaded_bundle-load_from : load_from decode_csrf (metadata_file ∷ []) ≡ ok loaded_bundle
unfolding load_from load_entries load_entry load_metadata path_ext path_dir validate to_upper lookup
    sort_by insert
loaded_bundle-load_from = refl

load_from-IsWellFormed_example :
    All IsWellFormed loaded_bundle.checks × ((k : Text) → id_count k loaded_bundle.checks ≤ 1)
load_from-IsWellFormed_example =
    load_from-IsWellFormed decode_csrf (metadata_file ∷ []) loaded_bundle-load_from

IsNumeric-ids :
    IsNumeric (codes "2.9")
    × (IsNumeric (codes "2.10")
        × (IsNumeric (codes "10.1")
            × ((less_cisid (codes "2.9") (codes "2.10") ≡ true)
                × (less_cisid (codes "2.10") (codes "10.1") ≡ true))))
unfolding atoi less_cisid less_parts less_component
IsNumeric-ids = (
  ((2, refl), ((9, refl), tt)),
  (((2, refl), ((10, refl), tt)), (((10, refl), ((1, refl), tt)), (refl, refl))),
)

less_cisid_asymm_example : less_cisid (codes "2.10") (codes "2.9") ≡ false
less_cisid_asymm_example = less_cisid_asymm (codes "2.9") (codes "2.10") IsNumeric-ids.1.1.1.0

abbrev both : Bundle
both = record { checks = csrf_check ∷ sandbox_check ∷ []; modules = [] }

excluding-known : validate_selection excluding both ≡ none
unfolding validate_selection unknown_ids note_all note trim_space is_known to_upper note_exceptions
excluding-known = refl

sandbox-plain :
    (has_rune 305 (trim_space (codes " JB-sandbox")) ≡ false)
    × (is_empty (trim_space (codes " JB-sandbox")) ≡ false)
unfolding trim_space
sandbox-plain = (refl, refl)

exclude_effective_example : any (λ c. not (selects excluding c.id)) both.checks ≡ true
exclude_effective_example =
    exclude_effective excluding [] (codes " JB-sandbox") [] refl sandbox-plain.0 both
      excluding-known sandbox-plain.1 (refl, (refl, tt))

new-csrf : new (λ b. true) (λ c. true) excluding both (codes "jenkins") ≡ ok (csrf_check ∷ [])
unfolding new validate_selection unknown_ids note_all note trim_space is_known to_upper
    note_exceptions select applies_to equal_fold selects refuse_empty
new-csrf = refl

new-keep_example :
    (csrf_check ∷ [] ≡ chosen_from (λ b. true) (λ c. true) excluding (codes "jenkins") both.checks)
    × (csrf_check ∷ [] ≢ [])
new-keep_example = new-keep (λ b. true) (λ c. true) excluding (codes "jenkins") both new-csrf
