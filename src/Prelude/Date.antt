-- ===== src/Prelude/Date.antt =====
-- time.Parse("2006-01-02", s) of Go's standard library, with instants as nanoseconds since the
-- start of the year 0 in UTC, of the proleptic Gregorian calendar that Go uses.
use Prim.Native.Nat.{ℕ, ◌+◌, ◌*◌, ◌-◌, ◌/◌, ◌%◌, ◌^◌}
use mathlib.Core.Bool.{Bool, not, ◌&&◌, ◌||◌}
use mathlib.Core.Option.{Option, none, some}
use mathlib.Core.List.{[], ◌∷◌}
use jenkins_bench.Prelude.Tests.{leb, ◌==◌, if◌then◌else◌}
use jenkins_bench.Prelude.Text.{Text}

unfoldable pub is_leap : ℕ → Bool
is_leap y = y % 4 == 0 && (not (y % 100 == 0) || y % 400 == 0)

unfoldable pub days_in : ℕ → ℕ → ℕ
unfolding is_leap
days_in y m =
    if m == 2
    then (if is_leap y then 29 else 28)
    else if m == 4 || m == 6 || m == 9 || m == 11
    then 30
    else 31

abbrev pub days_before_year : ℕ → ℕ
days_before_year y = 365 * y + (y + 3) / 4 - (y + 99) / 100 + (y + 399) / 400

-- The days of the months before month `m`, counted down from it.
unfoldable pub days_before_month : ℕ → ℕ → ℕ
unfolding days_in
days_before_month y ℕ.zero = 0
days_before_month y (ℕ.suc m) = if m == 0 then 0 else days_before_month y m + days_in y m

abbrev pub is_digit : ℕ → Bool
is_digit c = leb b'0' c && leb c b'9'

abbrev pub digit : ℕ → ℕ
digit c = c - b'0'

unfoldable pub check_date : ℕ → ℕ → ℕ → Option ℕ
unfolding days_in days_before_month
check_date y m d =
    if leb 1 m && leb m 12 && leb 1 d && leb d (days_in y m)
    then some (days_before_year y + days_before_month y m + (d - 1))
    else none

-- The day, counted from 0000-01-01; `none` is the error of time.Parse.
unfoldable pub parse_day : Text → Option ℕ
unfolding check_date
parse_day (a ∷ b ∷ c ∷ d ∷ s ∷ e ∷ f ∷ t ∷ g ∷ h ∷ []) =
    if (is_digit a
        && is_digit b
        && is_digit c
        && is_digit d
        && is_digit e
        && is_digit f
        && is_digit g
        && is_digit h)
      && (s == b'-' && t == b'-')
    then check_date (digit a * 1000 + digit b * 100 + digit c * 10 + digit d)
        (digit e * 10 + digit f) (digit g * 10 + digit h)
    else none
parse_day _ = none

abbrev pub day_ns : ℕ
day_ns = 86400 * 10 ^ 9

-- time.Time{}, the first instant of the year 1
abbrev pub zero_time : ℕ
zero_time = 366 * day_ns
