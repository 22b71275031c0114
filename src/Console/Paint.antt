-- ===== src/Console/Paint.antt =====
-- internal/console/console.go: colour, the tags of the lines on stderr, and counts with their noun.
use jenkins_bench.Prelude.{ℕ, Bool, not, ◌||◌, [], ◌∷◌, ◌++◌, ◌==◌, if◌then◌else◌}
use jenkins_bench.Prelude.Text.{Text, codes, is_empty}
use jenkins_bench.Prelude.Words.{decimal}

abbrev pub escape : Text → Text
escape s = 0x1b ∷ b'[' ∷ s

abbrev pub reset : Text
reset = escape (codes "0m")

abbrev pub bold : Text
bold = escape (codes "1m")

abbrev pub dim : Text
dim = escape (codes "2m")

abbrev pub red : Text
red = escape (codes "31m")

abbrev pub green : Text
green = escape (codes "32m")

abbrev pub yellow : Text
yellow = escape (codes "33m")

abbrev pub cyan : Text
cyan = escape (codes "36m")

pub record Painter : Type 0 where
  pub enabled : Bool

-- Painter.Paint
unfoldable pub paint : Painter → Text → Text → Text
paint p code s = if not p.enabled || is_empty s then s else code ++ s ++ reset

pub record Tag : Type 0 where
  pub text : Text
  pub colour : Text

abbrev pub pass_tag : Tag
pass_tag = record { text = codes "PASS"; colour = green }

abbrev pub fail_tag : Tag
fail_tag = record { text = codes "FAIL"; colour = red }

abbrev pub warn_tag : Tag
warn_tag = record { text = codes "WARN"; colour = yellow }

abbrev pub info_tag : Tag
info_tag = record { text = codes "INFO"; colour = cyan }

-- Painter.Render
unfoldable pub render : Painter → Tag → Text
unfolding paint
render p t = paint p t.colour (b'[' ∷ t.text ++ b']' ∷ [])

-- Writer.Line, with its message formatted
unfoldable pub tag_line : Painter → Tag → Text → Text
unfolding render
tag_line p t message = render p t ++ b' ' ∷ message

-- Pluralize
unfoldable pub pluralize : ℕ → Text → Text
pluralize n noun =
    if n == 1 then decimal n ++ b' ' ∷ noun else decimal n ++ b' ' ∷ noun ++ b's' ∷ []
