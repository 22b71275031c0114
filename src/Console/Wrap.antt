-- ===== src/Console/Wrap.antt =====
-- internal/console/console.go: `Wrap` and the clamped width. A width is a natural number: callers
-- subtract from one, and `Wrap` takes whatever is not positive as it takes 0.
pub mod Laws
use jenkins_bench.Prelude.{
  ℕ, ◌+◌, Bool, Option, none, some, List, [], ◌∷◌, ◌++◌, length, ltb, ◌==◌, if◌then◌else◌,
}
use jenkins_bench.Prelude.Text.{Text}
use jenkins_bench.Prelude.Words.{fields, join_words}

abbrev pub fallback_width : ℕ
fallback_width = 80

abbrev pub min_width : ℕ
min_width = 60

abbrev pub max_width : ℕ
max_width = 160

-- clampWidth
unfoldable pub clamp_width : ℕ → ℕ
clamp_width w = if ltb w min_width then min_width else if ltb max_width w then max_width else w

-- WidthFor, on COLUMNS where it is a positive number and on the size of the terminal where the output
-- is one; Width is the case without a terminal.
unfoldable pub width_for : Option ℕ → Option ℕ → ℕ
width_for (some columns) terminal = clamp_width columns
width_for none (some w) = clamp_width w
width_for none none = fallback_width

-- The loop of `Wrap` over the words after the first, with the line begun and its width.
unfoldable pub wrap_words : ℕ → Text → ℕ → List Text → List Text
wrap_words width line used [] = line ∷ []
wrap_words width line used (word ∷ words) =
    let n = length word in
    let broken = line ∷ wrap_words width word n words in
    let joined = wrap_words width (line ++ b' ' ∷ word) (used + (1 + n)) words in
    if ltb width (used + 1 + n) then broken else joined

-- The two early returns of `Wrap`, and its loop.
unfoldable pub wrap_fields : ℕ → List Text → List Text
wrap_fields width [] = [] ∷ []
wrap_fields width (word ∷ words) =
    if width == 0 then join_words (word ∷ words) ∷ [] else wrap_words width word (length word) words

-- Wrap
unfoldable pub wrap : Text → ℕ → List Text
unfolding wrap_fields
wrap s width = wrap_fields width (fields s)
