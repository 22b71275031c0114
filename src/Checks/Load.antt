-- ===== src/Checks/Load.antt =====
-- `loadFrom` of internal/checks/registry.go: the walk over the policy files. The entries are those
-- that fs.WalkDir hands out, in its order; the strict JSON decoder of metadata.json is a parameter.
pub mod Laws
use jenkins_bench.Prelude.{
  ℕ, Bool, true, false, not, Option, none, some, List, [], ◌∷◌, ◌++◌, reverse, ◌==◌, sort_by,
  if◌then◌else◌,
}
use jenkins_bench.Prelude.Text.{Text, codes, text_eq, text_lt, is_empty, has_suffix}
use jenkins_bench.Prelude.Assoc.{Assoc, lookup, insert}
use jenkins_bench.Prelude.Result.{Result, ok, err, ◌>>=◌}
use jenkins_bench.Checks.{Metadata, Check, CheckError, validate, less_check}

pub record FileEntry : Type 0 where
  pub path : Text
  pub name : Text
  pub is_dir : Bool
  -- the error that the walk reports for the entry
  pub walk_failed : Bool
  -- fs.ReadFile; `none` is an error
  pub contents : Option Text

pub record Module : Type 0 where
  pub path : Text
  pub source : Text

pub record Bundle : Type 0 where
  pub checks : List Check
  pub modules : List Module

pub data LoadError : Type 0 where
  walk_error read_error parse_error : Text → LoadError
  invalid_check : Text → CheckError → LoadError
  duplicate_id : Text → Text → Text → LoadError

-- The bundle under construction and `seen`, the path that declared each ID.
pub record LoadState : Type 0 where
  pub bundle : Bundle
  pub seen : Assoc Text

-- path.Ext, on the reversed path
abbrev ext_loop : Text → Text → Text
ext_loop [] acc = []
ext_loop (c ∷ s) acc = if c == b'.' then c ∷ acc else if c == b'/' then [] else ext_loop s (c ∷ acc)

unfoldable pub path_ext : Text → Text
path_ext p = ext_loop (reverse p) []

-- path.Dir of the clean paths that the walk makes: what stands before the last slash.
abbrev drop_base : Text → Text
drop_base [] = []
drop_base (c ∷ s) = if c == b'/' then s else drop_base s

unfoldable pub path_dir : Text → Text
path_dir p = let d = reverse (drop_base (reverse p)) in if is_empty d then codes "." else d

abbrev pub start : LoadState
start = record { bundle = record { checks = []; modules = [] }; seen = [] }

-- The two sorts after the walk.
abbrev pub finish : LoadState → Result LoadError Bundle
finish s = ok (record {
  checks = sort_by less_check s.bundle.checks;
  modules = sort_by (λ a b. text_lt a.path b.path) s.bundle.modules;
})

module _ (decode : Text → Option Metadata) where
  -- The second case of the walk's switch, on a metadata.json that was read.
  unfoldable pub load_metadata : Text → Text → LoadState → Result LoadError LoadState
  unfolding path_dir
  load_metadata p raw s = elim (decode raw) [
    | none ↦ err (parse_error p)
    | some meta ↦
        let check : Check = record { metadata = meta; dir = path_dir p } in
        elim (validate check) [
          | some e ↦ err (invalid_check p e)
          | none ↦ elim (lookup meta.id s.seen) [
            | some prev ↦ err (duplicate_id p meta.id prev)
            | none ↦ ok (record {
              bundle = record {
                checks = s.bundle.checks ++ check ∷ [];
                modules = s.bundle.modules;
              };
              seen = insert meta.id p s.seen;
            })
          ]
        ]
  ]

  -- The function that `loadFrom` passes to fs.WalkDir.
  unfoldable pub load_entry : FileEntry → LoadState → Result LoadError LoadState
  unfolding path_ext
  load_entry d s =
      if d.walk_failed
      then err (walk_error d.path)
      else if d.is_dir
      then ok s
      else if text_eq (path_ext d.path) (codes ".rego")
      then (if has_suffix d.name (codes "_test.rego") then ok s else (elim d.contents [
        | none ↦ err (read_error d.path)
        | some src ↦ ok (record s {
          bundle = record {
            checks = s.bundle.checks;
            modules = s.bundle.modules ++ (record { path = d.path; source = src }) ∷ [];
          };
        })
      ]))
      else if text_eq (path_ext d.path) (codes ".json")
      then (if not (text_eq d.name (codes "metadata.json")) then ok s else (elim d.contents [
        | none ↦ err (read_error d.path)
        | some raw ↦ load_metadata d.path raw s
      ]))
      else ok s

  unfoldable pub load_entries : List FileEntry → LoadState → Result LoadError LoadState
  load_entries [] s = ok s
  load_entries (d ∷ ds) s = load_entry d s >>= load_entries ds

  -- loadFrom
  unfoldable pub load_from : List FileEntry → Result LoadError Bundle
  unfolding load_entries
  load_from entries = load_entries entries start >>= finish
