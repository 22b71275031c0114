-- ===== src/Console/Shown.antt =====
-- What a terminal shows of a text that internal/console/console.go paints: all but the escape sequences.
use jenkins_bench.Prelude.{
  ℕ, zero, suc, ◌+◌, Bool, true, false, ◌≡◌, refl, ap, ◌∙◌, [], ◌∷◌, ◌++◌, Option, none, some,
  length, ◌==◌, if◌then◌else◌, Bool-cases, inl, inr, arith, not, ◌||◌,
}
use mathlib.Core.List.{append_assoc}
use jenkins_bench.Prelude.Text.{Text, has_rune, is_empty}
use jenkins_bench.Prelude.Words.{repeat}
use jenkins_bench.Console.Paint.{Painter, paint, reset}

abbrev pub esc : ℕ
esc = 0x1b

-- The text outside the sequences, each of which starts with an escape and ends with an `m`; `inside` one at first.
unfoldable pub shown_from : Bool → Text → Text
shown_from inside [] = []
shown_from true (c ∷ s) = if c == b'm' then shown_from false s else shown_from true s
shown_from false (c ∷ s) =
    let hidden = shown_from true s in
    let rest = shown_from false s in if c == esc then hidden else c ∷ rest

unfoldable pub shown : Text → Text
unfolding shown_from
shown s = shown_from false s

abbrev pub IsUnescaped : Text → Type 0
IsUnescaped s = has_rune esc s ≡ false

pub shown-append : (s t : Text) → IsUnescaped s → shown (s ++ t) ≡ s ++ shown t
unfolding shown
shown-append [] t h = refl
shown-append (c ∷ s) t h = elim (Bool-cases (c == esc)) [
  | inl e ↦ absurd (ground (arith, h, e))
  | inr e ↦ rw e (ap (◌∷◌ c) (shown-append s t (ground (arith, h))))
]

pub shown-repeat :
    (c : ℕ) (n : ℕ) (t : Text)
    → (c == esc) ≡ false
    → length (shown (repeat c n ++ t)) ≡ n + length (shown t)
unfolding shown
shown-repeat c zero t h = omega arith
shown-repeat c (suc n) t h = rw h (omega (arith, shown-repeat c n t h))

-- A way of painting that adds only what is not shown.
abbrev pub IsTransparent : Option (Text → Text) → Type 0
IsTransparent none = Unit
IsTransparent (some colour) =
    (text rest : Text) → IsUnescaped text → shown (colour text ++ rest) ≡ text ++ shown rest

-- A code that is one escape sequence.
abbrev pub IsCode : Text → Type 0
IsCode code = (rest : Text) → shown (code ++ rest) ≡ shown rest

reset-IsCode : IsCode reset
unfolding shown shown_from
reset-IsCode rest = refl

pub paint-IsTransparent :
    (p : Painter) (code : Text) → IsCode code → IsTransparent (some (paint p code))
unfolding paint
paint-IsTransparent p code h text rest clean = elim (Bool-cases (not p.enabled || is_empty text)) [
  | inl e ↦ rw e (shown-append text rest clean)
  | inr e ↦ rw e (
      ap shown (append_assoc (code ++ text) reset rest)
      ∙ ap shown (append_assoc code text (reset ++ rest))
      ∙ h (text ++ (reset ++ rest))
      ∙ shown-append text (reset ++ rest) clean
      ∙ ap (λ r. text ++ r) (reset-IsCode rest))
]
