-- ===== src/Report/Prose/Laws.antt =====
-- What `dimParens` of internal/report/table.go writes.
use jenkins_bench.Prelude.{
  ℕ, ◌+◌, ◌-◌, Bool, true, false, ◌&&◌, ◌≡◌, refl, sym, ap, ◌∙◌, [], ◌∷◌, ◌++◌, ltb, ◌==◌,
  if◌then◌else◌, arith,
}
use mathlib.Core.List.{append_assoc, append-nil}
use jenkins_bench.Prelude.Text.{Text}
use jenkins_bench.Console.Paint.{Painter, paint}
use jenkins_bench.Report.Prose.{flush, dim_loop, dim_parens}

flush_off :
    (p : Painter) (dimmed : Bool) (out seg : Text)
    → p.enabled ≡ false
    → flush p dimmed out seg ≡ out ++ seg
unfolding flush paint
flush_off p true out [] off = sym (append-nil out)
flush_off p false out [] off = sym (append-nil out)
flush_off p true out (c ∷ seg) off = rw off refl
flush_off p false out (c ∷ seg) off = refl

-- The depth of brackets behind a text.
abbrev pub depth_after : ℕ → Text → ℕ
depth_after depth [] = depth
depth_after depth (c ∷ s) =
    if c == b'('
    then depth_after (depth + 1) s
    else if c == b')' && ltb 0 depth
    then depth_after (depth - 1) s
    else depth_after depth s

snoc_append :
    (out seg : Text) (c : ℕ) (s : Text) → out ++ (seg ++ c ∷ []) ++ s ≡ out ++ seg ++ c ∷ s
snoc_append out seg c s =
    ap (λ r. r ++ s) (sym (append_assoc out seg (c ∷ []))) ∙ append_assoc (out ++ seg) (c ∷ []) s

dim_loop_off :
    (p : Painter) (out seg : Text) (depth : ℕ) (s : Text)
    → p.enabled ≡ false
    → (dim_loop p out seg depth s).0 ≡ out ++ seg ++ s
unfolding dim_loop
dim_loop_off p out seg depth [] off =
    flush_off p (ltb 0 depth) out seg off ∙ sym (append-nil (out ++ seg))
dim_loop_off p out seg depth (c ∷ s) off =
    let grown = snoc_append out seg c s in
    let opening =
      dim_loop_off p (flush p false out seg) (c ∷ []) (depth + 1) s off
      ∙ ap (λ r. r ++ c ∷ [] ++ s) (flush_off p false out seg off)
      ∙ append_assoc (out ++ seg) (c ∷ []) s in
    let closing =
      dim_loop_off p (flush p true out (seg ++ c ∷ [])) [] (depth - 1) s off
      ∙ ap (λ r. r ++ [] ++ s) (flush_off p true out (seg ++ c ∷ []) off)
      ∙ ap (λ r. r ++ s) (append-nil (out ++ (seg ++ c ∷ [])))
      ∙ grown in
    ground (
      arith,
      opening,
      closing,
      dim_loop_off p out (seg ++ c ∷ []) (depth + 1) s off ∙ grown,
      dim_loop_off p out (seg ++ c ∷ []) (depth - 1) s off ∙ grown,
      dim_loop_off p out (seg ++ c ∷ []) depth s off ∙ grown,
    )

depth-dim_loop :
    (p : Painter) (out seg : Text) (depth : ℕ) (s : Text)
    → (dim_loop p out seg depth s).1 ≡ depth_after depth s
unfolding dim_loop
depth-dim_loop p out seg depth [] = refl
depth-dim_loop p out seg depth (c ∷ s) = ground (
  arith,
  depth-dim_loop p (flush p false out seg) (c ∷ []) (depth + 1) s,
  depth-dim_loop p out (seg ++ c ∷ []) (depth + 1) s,
  depth-dim_loop p (flush p true out (seg ++ c ∷ [])) [] (depth - 1) s,
  depth-dim_loop p out (seg ++ c ∷ []) (depth - 1) s,
  depth-dim_loop p out (seg ++ c ∷ []) depth s,
)

-- Without colour a line of a warning is printed as it is; and whatever the colour, the depth that is carried to the
-- next line is that of the brackets: an opening one adds to it, a closing one takes from it unless it is 0.
dim_parens_lem :
    (p : Painter) (s : Text) (depth : ℕ)
    → ((dim_parens p s depth).1 ≡ depth_after depth s)
      × (p.enabled ≡ false → (dim_parens p s depth).0 ≡ s)
unfolding dim_parens
dim_parens_lem p s depth = (depth-dim_loop p [] [] depth s, dim_loop_off p [] [] depth s)
