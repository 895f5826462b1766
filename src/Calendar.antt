-- ===== src/Calendar.antt =====
-- What the program uses of package `time`: days, times of day, the reading of a date and `AddDate`
-- on months, for internal/lifecycle and internal/registry/stage.go. Days count from 1 March of the
-- year -400 of the proleptic Gregorian calendar, and a year is written 400 too large, so that every
-- year that a date can name is a natural number; the calendar repeats after 400 years.
use stego.Prelude.{
  ℕ, ◌+◌, ◌-◌, ◌*◌, ◌/◌, ◌%◌, String, ◌≡◌, refl, Bool, ◌&&◌, ◌||◌, not, Option, none, some, ◌==◌,
  nat_eq, ltb, leb, if◌then◌else◌,
}
use stego.Prelude.Text.{is_digit}
use Prim.Native.Char.{code}
use Prim.Native.String.{[], ◌∷◌}

pub record Time : Type 0 where
  pub day : ℕ
  pub nanos : ℕ

-- 1 January of the year 1, the zero value of `time.Time`.
abbrev zero_day : ℕ
zero_day = 146403

abbrev pub is_zero : Time → Bool
is_zero t = t.day == zero_day && t.nanos == 0

-- `t.Before(u)`
abbrev pub before : Time → Time → Bool
before t u = ltb t.day u.day || t.day == u.day && ltb t.nanos u.nanos

-- `t.After(u)`
abbrev pub after : Time → Time → Bool
after t u = before u t

-- `Day`: midnight of the calendar day.
abbrev pub day_of : Time → Time
day_of t = record { day = t.day; nanos = 0 }

-- A day of the calendar; the months are 1 to 12.
pub record Civil : Type 0 where
  pub year : ℕ
  pub month : ℕ
  pub dom : ℕ

-- The year of a month, for years that begin in March.
abbrev march_year : ℕ → ℕ → ℕ
march_year year month = if leb month 2 then year - 1 else year

abbrev march_month : ℕ → ℕ
march_month month = if leb month 2 then month + 9 else month - 3

-- The days before the first day of a month, and then of a day of it.
unfoldable pub day_number : Civil → ℕ
day_number c =
    let y = march_year c.year c.month in
    365 * y + y / 4 - y / 100 + y / 400 + (153 * march_month c.month + 2) / 5 + c.dom - 1

-- The calendar day of a day number.
unfoldable pub civil_of : ℕ → Civil
civil_of n =
    let doe = n % 146097 in
    let yoe = (doe - doe / 1460 + doe / 36524 - doe / 146096) / 365 in
    let doy = doe - (365 * yoe + yoe / 4 - yoe / 100) in
    let mp = (5 * doy + 2) / 153 in
    record {
      year = n / 146097 * 400 + yoe + (if ltb mp 10 then 0 else 1);
      month = if ltb mp 10 then mp + 3 else mp - 9;
      dom = doy - (153 * mp + 2) / 5 + 1;
    }

-- `AddDate(0, months, 0)` on a midnight: a day that the new month lacks runs over into the next.
unfoldable pub add_months : Time → ℕ → Time
unfolding day_number civil_of
add_months t months =
    let c = civil_of t.day in
    let m = c.month - 1 + months in
    record {
      day = day_number (record { year = c.year + m / 12; month = m % 12 + 1; dom = c.dom });
      nanos = t.nanos;
    }

is_leap : ℕ → Bool
is_leap y = y % 4 == 0 && (not (y % 100 == 0) || y % 400 == 0)

month_days : ℕ → ℕ → ℕ
unfolding is_leap
month_days y m =
    if m == 2
    then (if is_leap y then 29 else 28)
    else (if m == 4 || m == 6 || m == 9 || m == 11 then 30 else 31)

two_digits : ℕ → ℕ → ℕ
two_digits a b = (a - b'0') * 10 + (b - b'0')

checked_date : ℕ → ℕ → ℕ → Option Time
unfolding month_days day_number
checked_date y m d =
    if leb 1 m && leb m 12 && leb 1 d && leb d (month_days y m)
    then some
        (record { day = day_number (record { year = y + 400; month = m; dom = d }); nanos = 0 })
    else none

-- `time.Parse(time.DateOnly, text)`: four digits, two and two, and a day that the month has.
unfoldable pub parse_date : String → Option Time
unfolding checked_date two_digits
parse_date (a ∷ b ∷ c ∷ d ∷ h ∷ e ∷ f ∷ k ∷ i ∷ j ∷ []) =
    if is_digit (code a)
      && is_digit (code b)
      && is_digit (code c)
      && is_digit (code d)
      && code h == b'-'
      && is_digit (code e)
      && is_digit (code f)
      && code k == b'-'
      && is_digit (code i)
      && is_digit (code j)
    then checked_date (two_digits (code a) (code b) * 100 + two_digits (code c) (code d))
        (two_digits (code e) (code f)) (two_digits (code i) (code j))
    else none
parse_date text = none

release_day : parse_date "2026-08-31" ≡ some (record { day = 886261; nanos = 0 })
unfolding parse_date checked_date two_digits day_number month_days is_leap
release_day = refl

-- 31 August and six months is 3 March.
half_a_year_later :
    add_months (record { day = 886261; nanos = 0 }) 6 ≡ record { day = 886445; nanos = 0 }
unfolding add_months civil_of day_number
half_a_year_later = refl
