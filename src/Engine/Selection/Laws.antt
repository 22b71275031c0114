-- ===== src/Engine/Selection/Laws.antt =====
-- What `validateSelection` and `New` of internal/engine/engine.go promise together with
-- `Config.Selects`.
use jenkins_bench.Prelude.{
  ℕ, ◌≡◌, ◌≢◌, refl, sym, ◌∙◌, Bool, true, false, not, ◌&&◌, none, List, [], ◌∷◌, ◌++◌, map, All,
  any, keep, ◌==◌, inl, inr, arith, Bool-cases,
}
use jenkins_bench.Prelude.Text.{
  Text, text_eq, to_upper, upper_rune, fold_rune, equal_fold, has_rune, trim_space, is_empty,
}
use jenkins_bench.Prelude.Result.{ok, >>=-eq-ok}
use jenkins_bench.Checks.{Check, applies_to}
use jenkins_bench.Checks.Load.{Bundle}
use jenkins_bench.Config.{Config, selects}
use jenkins_bench.Engine.Selection.{
  Where, exclude_list, is_known, note, note_all, note_exceptions, unknown_ids, validate_selection,
  select, new, include_list, refuse_empty,
}

append-nil_inv : {A : Type 0} (xs ys : List A) → xs ++ ys ≡ [] → (xs ≡ []) × (ys ≡ [])
append-nil_inv [] ys h = (refl, h)
append-nil_inv (x ∷ xs) ys h = cc

-- The dotless i, which is upper-cased to I and folded to itself.
abbrev pub dotless_i : ℕ
dotless_i = 0x131

fold_rune-of_upper :
    (x y : ℕ)
    → upper_rune x ≡ upper_rune y
    → (x == dotless_i) ≡ false
    → (y == dotless_i) ≡ false
    → fold_rune x ≡ fold_rune y
unfolding upper_rune fold_rune
fold_rune-of_upper x y h p q = ground arith

fold-of_upper :
    (a b : Text)
    → text_eq (map upper_rune a) (map upper_rune b) ≡ true
    → has_rune dotless_i a ≡ false
    → has_rune dotless_i b ≡ false
    → text_eq (map fold_rune a) (map fold_rune b) ≡ true
fold-of_upper [] [] h p q = refl
fold-of_upper [] (y ∷ b) h p q = cc
fold-of_upper (x ∷ a) [] h p q = cc
fold-of_upper (x ∷ a) (y ∷ b) h p q = ground (arith, fold_rune-of_upper x y, fold-of_upper a b)

text_eq_sym : (a b : Text) → text_eq a b ≡ text_eq b a
text_eq_sym [] [] = refl
text_eq_sym [] (y ∷ b) = refl
text_eq_sym (x ∷ a) [] = refl
text_eq_sym (x ∷ a) (y ∷ b) = ground (arith, text_eq_sym a b)

-- Upper-casing and folding agree about texts without a dotless i.
equal_fold-of_upper :
    (a b : Text)
    → text_eq (to_upper b) (to_upper a) ≡ true
    → has_rune dotless_i a ≡ false
    → has_rune dotless_i b ≡ false
    → equal_fold a b ≡ true
unfolding to_upper equal_fold
equal_fold-of_upper a b h p q =
    fold-of_upper a b (text_eq_sym (map upper_rune a) (map upper_rune b) ∙ h) p q

note-known :
    (cs : List Check) (id : Text) (place : Where)
    → note cs id place ≡ []
    → is_empty (trim_space id) ≡ false
    → is_known cs (trim_space id) ≡ true
unfolding note
note-known cs id place h e = ground arith

note_all-known :
    (cs : List Check) (place : Where) (pre : List Text) (id : Text) (post : List Text)
    → note_all cs place (pre ++ id ∷ post) ≡ []
    → is_empty (trim_space id) ≡ false
    → is_known cs (trim_space id) ≡ true
unfolding note_all
note_all-known cs place [] id post h e = note-known cs id place (append-nil_inv _ _ h).0 e
note_all-known cs place (p ∷ pre) id post h e =
    note_all-known cs place pre id post (append-nil_inv (note cs p place) _ h).1 e

any-exclude :
    (pre : List Text) (id : Text) (post : List Text) (name : Text)
    → equal_fold (trim_space id) name ≡ true
    → any (λ ex. equal_fold (trim_space ex) name) (pre ++ id ∷ post) ≡ true
any-exclude [] id post name h = rw h
any-exclude (p ∷ pre) id post name h = ground (arith, any-exclude pre id post name h)

selects-exclude :
    (cfg : Config) (pre : List Text) (id : Text) (post : List Text) (name : Text)
    → cfg.exclude ≡ pre ++ id ∷ post
    → equal_fold (trim_space id) name ≡ true
    → selects cfg name ≡ false
unfolding selects
selects-exclude cfg pre id post name e h = rw (e, any-exclude pre id post name h)

validate_selection-nil :
    (cfg : Config) (bundle : Bundle)
    → validate_selection cfg bundle ≡ none
    → unknown_ids cfg bundle ≡ []
unfolding validate_selection
validate_selection-nil cfg bundle h = ground arith

module _ (cfg : Config) (pre : List Text) (id : Text) (post : List Text)
    (e : cfg.exclude ≡ pre ++ id ∷ post) (plain : has_rune dotless_i (trim_space id) ≡ false) where
  known-excluded :
      (cs : List Check)
      → All (λ c. has_rune dotless_i c.id ≡ false) cs
      → is_known cs (trim_space id) ≡ true
      → any (λ c. not (selects cfg c.id)) cs ≡ true
  unfolding is_known
  known-excluded [] ps h = cc
  known-excluded (c ∷ cs) ps h =
      elim (Bool-cases (text_eq (to_upper c.id) (to_upper (trim_space id)))) [
        | inl same ↦ rw (
            selects-exclude cfg pre id post c.id e
              (equal_fold-of_upper (trim_space id) c.id same plain ps.0))
        | inr other ↦ ground (arith, known-excluded cs ps.1)
      ]

  -- Conditions: the selection is accepted against the bundle, the entry of the exclude list is not
  -- blank, and neither it nor a control's ID holds a dotless i. At least one control of the bundle
  -- is then left out.
  pub exclude_effective :
      (bundle : Bundle)
      → validate_selection cfg bundle ≡ none
      → is_empty (trim_space id) ≡ false
      → All (λ c. has_rune dotless_i c.id ≡ false) bundle.checks
      → any (λ c. not (selects cfg c.id)) bundle.checks ≡ true
  unfolding unknown_ids
  exclude_effective bundle v nonblank ps =
      let all_known = validate_selection-nil cfg bundle v in
      let excluded_known =
        (append-nil_inv (note_all bundle.checks exclude_list cfg.exclude)
          (note_exceptions bundle.checks 0 cfg.exceptions)
          (append-nil_inv (note_all bundle.checks include_list cfg.include) _ all_known).1).0 in
      known-excluded bundle.checks ps
        (note_all-known bundle.checks exclude_list pre id post (rw e at excluded_known) nonblank)

refuse_empty-eq-ok :
    (cs : List Check) {chosen : List Check}
    → refuse_empty cs ≡ ok chosen
    → (cs ≡ chosen) × (chosen ≢ [])
unfolding refuse_empty
refuse_empty-eq-ok [] h = absurd (ground arith)
refuse_empty-eq-ok (c ∷ cs) h = (ground arith, λ e. ground arith)

module _ (compiles : Bundle → Bool) (prepares : Check → Bool) (cfg : Config) (platform : Text) where
  -- The controls that the configuration selects for the platform.
  abbrev pub chosen_from : List Check → List Check
  chosen_from = keep (λ c. applies_to c platform && selects cfg c.id)

  select-keep :
      (cs : List Check) {chosen : List Check}
      → select compiles prepares cfg platform cs ≡ ok chosen
      → chosen ≡ chosen_from cs
  unfolding select
  select-keep [] h = ground arith
  select-keep (c ∷ cs) h = elim (Bool-cases (applies_to c platform)) [
    | inr no_platform ↦ rw no_platform (select-keep cs (rw no_platform at h))
    | inl a ↦ elim (Bool-cases (selects cfg c.id)) [
      | inr left_out ↦ rw (a, left_out) (select-keep cs (rw (a, left_out) at h))
      | inl s ↦
          let prepared : prepares c ≡ true = ground arith in
          let (more, rest, done) =
            >>=-eq-ok (select compiles prepares cfg platform cs) (λ more. ok (c ∷ more))
              (rw (a, s, prepared) at h) in
          let ih = select-keep cs rest in rw (a, s) (ground (arith, ih))
    ]
  ]

  -- Condition: `New` returns an engine. Its controls are those of the bundle that apply to the
  -- platform and that the configuration selects, in the order of the bundle, and there is at least
  -- one.
  pub new-keep :
      (bundle : Bundle) {chosen : List Check}
      → new compiles prepares cfg bundle platform ≡ ok chosen
      → (chosen ≡ chosen_from bundle.checks) × (chosen ≢ [])
  unfolding new
  new-keep bundle {chosen} h =
      let v : validate_selection cfg bundle ≡ none = ground arith in
      let k : compiles bundle ≡ true = ground arith in
      let (cs, selected, done) =
        >>=-eq-ok (select compiles prepares cfg platform bundle.checks) refuse_empty
          (ground arith) in
      let (same, some_check) = refuse_empty-eq-ok cs done in
      (sym same ∙ select-keep bundle.checks selected, some_check)
