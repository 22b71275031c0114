-- ===== src/Prelude/Text.antt =====
-- Go strings as lists of code points, and the functions of package strings that the program calls.
use Prim.Native.Char.{code}
use Prim.Native.String.{String}
use Prim.Native.Nat.{ℕ, ◌+◌, ◌-◌, ◌%◌}
use mathlib.Core.Path.{◌≡◌, refl}
use mathlib.Core.Bool.{Bool, true, false, not, ◌&&◌, ◌||◌}
use mathlib.Core.Logic.{◌↔◌}
use mathlib.Core.List.{List, [], ◌∷◌, ◌++◌, map, reverse}
use native.Mathlib.Omega.{arith}
use jenkins_bench.Prelude.Tests.{ltb, leb, ◌==◌, if◌then◌else◌}

abbrev pub Text : Type 0
Text = List ℕ

-- The code points of a literal.
abbrev pub codes : String → Text
codes String.[] = []
codes (String.◌∷◌ c s) = code c ∷ codes s

-- a == b
abbrev pub text_eq : Text → Text → Bool
text_eq [] [] = true
text_eq [] (y ∷ ys) = false
text_eq (x ∷ xs) [] = false
text_eq (x ∷ xs) (y ∷ ys) = x == y && text_eq xs ys

-- a < b. The byte order of UTF-8 is the order of the code points.
unfoldable pub text_lt : Text → Text → Bool
text_lt [] [] = false
text_lt [] (y ∷ ys) = true
text_lt (x ∷ xs) [] = false
text_lt (x ∷ xs) (y ∷ ys) = ltb x y || (x == y && text_lt xs ys)

-- unicode.ToUpper on ASCII and on the two other runes whose upper case is ASCII (ı and ſ). The
-- program compares with ASCII constants only, for which this is exact.
unfoldable pub upper_rune : ℕ → ℕ
upper_rune c =
    if leb b'a' c && leb c b'z'
    then c - 32
    else if c == 0x131
    then b'I'
    else if c == 0x17f
    then b'S'
    else c

abbrev in_range : ℕ → ℕ → ℕ → Bool
in_range lo hi c = leb lo c && leb c hi

-- The capitals of Latin-1, Greek and Cyrillic that stand 32 before their small letters.
abbrev is_capital : ℕ → Bool
is_capital c =
    (in_range 0xc0 0xde c && not (c == 0xd7))
    || (in_range 0x391 0x3ab c && not (c == 0x3a2))
    || in_range 0x410 0x42f c

-- The blocks of Latin Extended-A in which an even, or an odd, capital stands before its small letter.
abbrev is_even_capital : ℕ → Bool
is_even_capital c =
    (in_range 0x100 0x12f c || in_range 0x132 0x137 c || in_range 0x14a 0x177 c) && c % 2 == 0

abbrev is_odd_capital : ℕ → Bool
is_odd_capital c = (in_range 0x139 0x148 c || in_range 0x179 0x17e c) && c % 2 == 1

-- unicode.ToLower on Latin up to Extended-A, Greek and Cyrillic without their extensions, and the Kelvin sign.
-- Runes beyond those are left as they are.
unfoldable pub lower_rune : ℕ → ℕ
lower_rune c =
    if leb b'A' c && leb c b'Z'
    then c + 32
    else if is_capital c
    then c + 32
    else if in_range 0x400 0x40f c
    then c + 80
    else if is_even_capital c || is_odd_capital c
    then c + 1
    else if c == 0x178
    then 0xff
    else if c == 0x130
    then b'i'
    else if c == 0x212a
    then b'k'
    else c

-- The fold of one rune: simple folding joins the two cases of a letter, ſ with s and the Kelvin
-- sign with k, and leaves ı and İ apart.
unfoldable pub fold_rune : ℕ → ℕ
fold_rune c =
    if leb b'A' c && leb c b'Z'
    then c + 32
    else if c == 0x17f
    then b's'
    else if c == 0x212a
    then b'k'
    else c

unfoldable pub to_upper : Text → Text
unfolding upper_rune
to_upper = map upper_rune

unfoldable pub to_lower : Text → Text
unfolding lower_rune
to_lower = map lower_rune

-- strings.EqualFold
unfoldable pub equal_fold : Text → Text → Bool
unfolding fold_rune
equal_fold a b = text_eq (map fold_rune a) (map fold_rune b)

-- unicode.IsSpace
unfoldable pub is_space : ℕ → Bool
is_space c =
    (leb 9 c && leb c 13)
    || c == 32
    || c == 0x85
    || c == 0xa0
    || c == 0x1680
    || (leb 0x2000 c && leb c 0x200a)
    || c == 0x2028
    || c == 0x2029
    || c == 0x202f
    || c == 0x205f
    || c == 0x3000

-- strings.TrimLeftFunc
abbrev pub trim_left : (ℕ → Bool) → Text → Text
trim_left p [] = []
trim_left p (c ∷ s) = if p c then trim_left p s else c ∷ s

abbrev pub trim_both : (ℕ → Bool) → Text → Text
trim_both p s = reverse (trim_left p (reverse (trim_left p s)))

-- strings.TrimSpace
unfoldable pub trim_space : Text → Text
unfolding is_space
trim_space s = trim_both is_space s

-- strings.Contains(s, c) of a single character
abbrev pub has_rune : ℕ → Text → Bool
has_rune c [] = false
has_rune c (x ∷ s) = x == c || has_rune c s

-- strings.HasPrefix
abbrev pub has_prefix : Text → Text → Bool
has_prefix s [] = true
has_prefix [] (p ∷ ps) = false
has_prefix (c ∷ s) (p ∷ ps) = c == p && has_prefix s ps

-- strings.HasSuffix
unfoldable pub has_suffix : Text → Text → Bool
has_suffix s p = has_prefix (reverse s) (reverse p)

abbrev pub is_empty : Text → Bool
is_empty [] = true
is_empty (c ∷ s) = false

abbrev pub push_head : ℕ → List Text → List Text
push_head c [] = (c ∷ []) ∷ []
push_head c (s ∷ ss) = (c ∷ s) ∷ ss

-- strings.Split at a single character: never empty
abbrev pub split : ℕ → Text → List Text
split d [] = [] ∷ []
split d (c ∷ s) = let rest = split d s in if c == d then [] ∷ rest else push_head c rest

-- strings.Join with a single character
abbrev pub join : ℕ → List Text → Text
join d [] = []
join d (s ∷ []) = s
join d (s ∷ t ∷ ss) = s ++ d ∷ join d (t ∷ ss)

pub text_eq_iff : (a b : Text) → (text_eq a b ≡ true) ↔ (a ≡ b)
text_eq_iff [] [] = ground arith
text_eq_iff [] (y ∷ ys) = ground arith
text_eq_iff (x ∷ xs) [] = ground arith
text_eq_iff (x ∷ xs) (y ∷ ys) = ground (arith, text_eq_iff xs ys)

pub text_eq_refl : (a : Text) → text_eq a a ≡ true
text_eq_refl a = (text_eq_iff a a).1 refl

pub text_lt_irrefl : (a : Text) → text_lt a a ≡ false
unfolding text_lt
text_lt_irrefl [] = refl
text_lt_irrefl (x ∷ xs) = ground (arith, text_lt_irrefl xs)

pub text_lt_trans : (a b c : Text) → text_lt a b ≡ true → text_lt b c ≡ true → text_lt a c ≡ true
unfolding text_lt
text_lt_trans [] [] c p q = q
text_lt_trans [] (y ∷ ys) [] p q = cc
text_lt_trans [] (y ∷ ys) (z ∷ zs) p q = refl
text_lt_trans (x ∷ xs) [] c p q = cc
text_lt_trans (x ∷ xs) (y ∷ ys) [] p q = cc
text_lt_trans (x ∷ xs) (y ∷ ys) (z ∷ zs) p q = ground (arith, text_lt_trans xs ys zs)

-- Texts that neither precedes are equal.
text_lt_total : (a b : Text) → text_lt a b ≡ false → text_lt b a ≡ false → a ≡ b
unfolding text_lt
text_lt_total [] [] p q = refl
text_lt_total [] (y ∷ ys) p q = cc
text_lt_total (x ∷ xs) [] p q = cc
text_lt_total (x ∷ xs) (y ∷ ys) p q = ground (arith, text_lt_total xs ys)

pub text_lt_neg_trans :
    (a b c : Text) → text_lt b a ≡ false → text_lt c b ≡ false → text_lt c a ≡ false
unfolding text_lt
text_lt_neg_trans [] [] c p q = q
text_lt_neg_trans [] (y ∷ ys) [] p q = refl
text_lt_neg_trans [] (y ∷ ys) (z ∷ zs) p q = refl
text_lt_neg_trans (x ∷ xs) [] c p q = cc
text_lt_neg_trans (x ∷ xs) (y ∷ ys) [] p q = cc
text_lt_neg_trans (x ∷ xs) (y ∷ ys) (z ∷ zs) p q = ground (arith, text_lt_neg_trans xs ys zs)
