-- ===== src/Report/Lines/Flow/Laws.antt =====
-- What `flowLine` of internal/report/lines.go keeps of a text.
use jenkins_bench.Prelude.{
  ℕ, ◌-◌, ◌≡◌, ◌≢◌, refl, sym, ap, ◌∙◌, inl, inr, List, [], ◌∷◌, ◌++◌, reverse, ltb, ◌==◌,
  Bool-cases, arith,
}
use mathlib.Core.List.{append_assoc, reverse_aux-reverse_aux-nil}
use jenkins_bench.Prelude.Text.{Text, is_empty, is_space, trim_left}
use jenkins_bench.Prelude.Words.{join_words, trim_right_spaces}
use jenkins_bench.Console.Wrap.{wrap}
use jenkins_bench.Console.Wrap.Laws.{wrap-ne-nil}
use jenkins_bench.Console.Table.Layout.Laws.{concat}
use jenkins_bench.Console.Table.Layout.Visible.{
  visible, visible-append, visible-join_words, visible-wrap, visible-empty, visible-reverse_aux,
}
use jenkins_bench.Report.Lines.Flow.{cont_indent, min_flow_width, indented, flow_rest, flow_line}

visible-trim_left_spaces : (s : Text) → visible (trim_left (λ c. c == b' ') s) ≡ visible s
unfolding is_space
visible-trim_left_spaces [] = refl
visible-trim_left_spaces (c ∷ s) = ground (arith, visible-trim_left_spaces s)

visible-trim_right_spaces : (s : Text) → visible (trim_right_spaces s) ≡ visible s
visible-trim_right_spaces s =
    visible-reverse_aux (trim_left (λ c. c == b' ') (reverse s)) []
    ∙ ap reverse (visible-trim_left_spaces (reverse s) ∙ visible-reverse_aux s [])
    ∙ reverse_aux-reverse_aux-nil (visible s) []

visible-indented : (ls : List Text) → visible (concat (indented ls)) ≡ visible (concat ls)
unfolding is_space
visible-indented [] = refl
visible-indented (l ∷ ls) =
    visible-append (cont_indent ++ l) (concat (indented ls))
    ∙ ap (λ r. visible l ++ r) (visible-indented ls)
    ∙ sym (visible-append l (concat ls))

visible-flow_rest : (width : ℕ) (s : Text) → visible (concat (flow_rest width s)) ≡ visible s
unfolding flow_rest
visible-flow_rest width s = elim (Bool-cases (is_empty s)) [
  | inl e ↦ rw e (sym (visible-empty s e))
  | inr e ↦ rw e (visible-indented (wrap s (width - 4)) ∙ visible-wrap s (width - 4))
]

beside :
    (width : ℕ) (head text : Text) (lines : List Text)
    → lines ≢ []
    → visible (concat lines) ≡ visible text
    → visible (
        concat (elim lines as (λ ls. List Text) [
          | [] ↦ []
          | first ∷ more ↦ (head ++ first) ∷ flow_rest width (join_words more)
        ]))
      ≡ visible head ++ visible text
beside width head text [] some e = absurd (some refl)
beside width head text (first ∷ more) some e =
    visible-append (head ++ first) (concat (flow_rest width (join_words more)))
    ∙ rw
        (
          visible-append head first,
          visible-flow_rest width (join_words more),
          visible-join_words more,
        )
        (append_assoc (visible head) (visible first) (visible (concat more))
          ∙ ap (λ r. visible head ++ r) (sym (visible-append first (concat more)) ∙ e))

-- The text of a record behind its head: no visible rune of either is lost, and their order is kept, whatever
-- the width of the terminal.
pub visible-flow_line :
    (width : ℕ) (head : Text) (head_width : ℕ) (text : Text)
    → visible (concat (flow_line width head head_width text)) ≡ visible head ++ visible text
unfolding flow_line
visible-flow_line width head head_width text =
    elim (Bool-cases (ltb (width - head_width) min_flow_width)) [
      | inl e ↦ rw e (
          visible-append (trim_right_spaces head) (concat (indented (wrap text (width - 4))))
          ∙ rw
              (
                visible-trim_right_spaces head,
                visible-indented (wrap text (width - 4)),
                visible-wrap text (width - 4),
              )
              refl)
      | inr e ↦ rw e (
          beside width head text (wrap text (width - head_width))
            (wrap-ne-nil text (width - head_width)) (visible-wrap text (width - head_width)))
    ]
