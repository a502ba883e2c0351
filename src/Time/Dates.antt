-- ===== src/Time/Dates.antt =====
-- `date` of Python's standard library: a year, month and day, compared in this order, with
-- `isoformat`, `isoweekday` and the addition of days, which ends at 9999-12-31.
pub mod Valid
pub mod Midnight
use web_checker_py.Prelude.{
  ℕ, zero, suc, ◌+◌, ◌-◌, ◌*◌, ◌/◌, ◌%◌, Bool, true, ◌&&◌, ◌||◌, Option, none, some, [], ◌∷◌, Text,
  leb, ltb, ◌==◌, nat_eq, HasEqual, ◌≡◌, ◌↔◌, ap, arith, if◌then◌else◌, nat_beq,
}
use web_checker_py.Time.{DateTime, days_in_month, two}

pub record Date : Type 0 where
  pub year : ℕ
  pub month : ℕ
  pub day : ℕ

abbrev pub date_beq : Date → Date → Bool
date_beq a b = nat_beq a.year b.year && (nat_beq a.month b.month && nat_beq a.day b.day)

same_date : (a b : Date) → a.year ≡ b.year → a.month ≡ b.month → a.day ≡ b.day → a ≡ b
same_date a b y m d = λ i. record { year = y i; month = m i; day = d i }

pub date_beq_iff : (a b : Date) → (date_beq a b ≡ true) ↔ (a ≡ b)
date_beq_iff a b = (
  λ h. same_date a b (ground arith) (ground arith) (ground arith),
  λ e. ground (arith, ap (λ d. d.year) e, ap (λ d. d.month) e, ap (λ d. d.day) e),
)

instance abbrev pub date_eq : HasEqual Date
date_eq = record { equal = date_beq; equal_iff = date_beq_iff }

-- `a < b`
abbrev pub date_lt : Date → Date → Bool
date_lt a b =
    ltb a.year b.year
    || (nat_beq a.year b.year
        && (ltb a.month b.month || (nat_beq a.month b.month && ltb a.day b.day)))

-- `d + timedelta(days=1)`
unfoldable pub next_day : Date → Option Date
next_day d =
    if ltb d.day (days_in_month d.year d.month)
    then some (record d { day = suc d.day })
    else if ltb d.month 12
    then some (record { year = d.year; month = suc d.month; day = 1 })
    else if ltb d.year 9999
    then some (record { year = suc d.year; month = 1; day = 1 })
    else none

-- `d - timedelta(days=1)`
unfoldable pub previous_day : Date → Option Date
previous_day d =
    if ltb 1 d.day
    then some (record d { day = d.day - 1 })
    else if ltb 1 d.month
    then some
        (record { year = d.year; month = d.month - 1; day = days_in_month d.year (d.month - 1) })
    else if ltb 1 d.year
    then some (record { year = d.year - 1; month = 12; day = 31 })
    else none

-- `d + timedelta(days=n)`, `none` where it raises `OverflowError`
unfoldable pub plus_days : ℕ → Date → Option Date
plus_days zero d = some d
plus_days (suc n) d = elim (plus_days n d) [ none ↦ none | some e ↦ next_day e ]

-- `d - timedelta(days=n)`
unfoldable pub minus_days : ℕ → Date → Option Date
minus_days zero d = some d
minus_days (suc n) d = elim (minus_days n d) [ none ↦ none | some e ↦ previous_day e ]

-- `d.isoformat()`
unfoldable pub date_iso : Date → Text
unfolding two
date_iso d = two (d.year / 100) (two (d.year % 100) (b'-' ∷ two d.month (b'-' ∷ two d.day [])))

-- The days of a year before a month
abbrev days_before_month : ℕ → ℕ → ℕ
days_before_month y zero = 0
days_before_month y (suc m) = (if m == 0 then 0 else days_in_month y m) + days_before_month y m

-- `d.toordinal()`: 0001-01-01 is day 1
unfoldable pub ordinal : Date → ℕ
ordinal d =
    let y = d.year - 1 in
    y * 365 + y / 4 - y / 100 + y / 400 + days_before_month d.year d.month + d.day

-- `d.isoweekday()`: day 1 was a Monday
unfoldable pub isoweekday : Date → ℕ
unfolding ordinal
isoweekday d = (ordinal d - 1) % 7 + 1

-- `d + (b - a)`, `none` where it raises `OverflowError`
unfoldable pub shift_date : Date → Date → Date → Option Date
shift_date a b d =
    if leb (ordinal a) (ordinal b)
    then plus_days (ordinal b - ordinal a) d
    else minus_days (ordinal a - ordinal b) d

-- The date of a point in time, and its time of the day in microseconds
abbrev pub date_of : DateTime → Date
date_of t = record { year = t.year; month = t.month; day = t.day }

abbrev pub day_time : DateTime → ℕ
day_time t = ((t.hour * 60 + t.minute) * 60 + t.second) * 1000000 + t.microsecond

-- `a < b` for values of one time zone, which Python compares by their fields
abbrev pub local_lt : DateTime → DateTime → Bool
local_lt a b =
    date_lt (date_of a) (date_of b)
    || (date_beq (date_of a) (date_of b) && ltb (day_time a) (day_time b))
