-- ===== src/Time.antt =====
-- `datetime` of Python's standard library, as far as the program uses it: the fields, `isoformat`,
-- and `fromisoformat` on the texts that `isoformat` writes (all other texts are refused here).
-- An offset is a sign with hours, minutes and seconds; a value without one is naive.
pub mod RoundTrip
pub mod Dates
use web_checker_py.Prelude.{
  ℕ, ◌+◌, ◌-◌, ◌*◌, ◌/◌, ◌%◌, Bool, true, ◌&&◌, ◌||◌, not, Option, none, some, [], ◌∷◌, Text,
  is_nil, leb, ltb, ◌==◌, nat_eq, if◌then◌else◌,
}

pub record Offset : Type 0 where
  pub negative : Bool
  pub hours : ℕ
  pub minutes : ℕ
  pub seconds : ℕ

pub record DateTime : Type 0 where
  pub year : ℕ
  pub month : ℕ
  pub day : ℕ
  pub hour : ℕ
  pub minute : ℕ
  pub second : ℕ
  pub microsecond : ℕ
  pub utcoffset : Option Offset

abbrev is_leap : ℕ → Bool
is_leap y = y % 4 == 0 && (not (y % 100 == 0) || y % 400 == 0)

abbrev days_in_month : ℕ → ℕ → ℕ
days_in_month y m =
    if m == 2
    then (if is_leap y then 29 else 28)
    else if m == 4 || m == 6 || m == 9 || m == 11
    then 30
    else 31

offset_in_range : Option Offset → Bool
offset_in_range none = true
offset_in_range (some o) = ltb o.hours 24 && ltb o.minutes 60 && ltb o.seconds 60

-- The ranges that the constructor of `datetime` checks.
unfoldable pub in_range : DateTime → Bool
unfolding offset_in_range
in_range d =
    leb 1 d.year
    && leb d.year 9999
    && leb 1 d.month
    && leb d.month 12
    && leb 1 d.day
    && leb d.day (days_in_month d.year d.month)
    && ltb d.hour 24
    && ltb d.minute 60
    && ltb d.second 60
    && ltb d.microsecond 1000000
    && offset_in_range d.utcoffset

-- Two digits, before a text.
two : ℕ → Text → Text
two n rest = (48 + n / 10) ∷ (48 + n % 10) ∷ rest

micros_text : ℕ → Text → Text
unfolding two
micros_text u rest =
    if u == 0 then rest else b'.' ∷ two (u / 10000) (two (u / 100 % 100) (two (u % 100) rest))

offset_text : Option Offset → Text
unfolding two
offset_text none = []
offset_text (some o) =
    (if o.negative then b'-' else b'+')
    ∷ two o.hours (b':' ∷ two o.minutes (if o.seconds == 0 then [] else b':' ∷ two o.seconds []))

-- `d.isoformat()`
unfoldable pub isoformat : DateTime → Text
unfolding two micros_text offset_text
isoformat d = two (d.year / 100) (
    two (d.year % 100) (
      b'-'
      ∷ two d.month (
          b'-'
          ∷ two d.day (
              b'T'
              ∷ two d.hour (
                  b':'
                  ∷ two d.minute (
                      b':'
                      ∷ two d.second (micros_text d.microsecond (offset_text d.utcoffset))))))))

infixl 5 ◌>>=◌
abbrev ◌>>=◌ : {A B : Type 0} → Option A → (A → Option B) → Option B
none >>= f = none
some a >>= f = f a

abbrev is_digit : ℕ → Bool
is_digit c = leb 48 c && leb c 57

-- Reads two digits.
read_two : Text → Option (ℕ × Text)
read_two (a ∷ b ∷ rest) =
    if is_digit a && is_digit b then some ((a - 48) * 10 + (b - 48), rest) else none
read_two _ = none

-- Reads one given character.
read_char : ℕ → Text → Option Text
read_char c [] = none
read_char c (x ∷ rest) = if x == c then some rest else none

read_micros : Text → Option (ℕ × Text)
read_micros [] = some (0, [])
read_micros (c ∷ s) =
    if c == b'.'
    then (do
      (a, s1) ← read_two s
      (b, s2) ← read_two s1
      (d, s3) ← read_two s2
      some (a * 10000 + b * 100 + d, s3))
    else some (0, c ∷ s)

read_offset_seconds : Text → Option ℕ
read_offset_seconds [] = some 0
read_offset_seconds (c ∷ s) = do
  s1 ← read_char b':' (c ∷ s)
  (n, s2) ← read_two s1
  if is_nil s2 then some n else none

read_offset : Text → Option (Option Offset)
read_offset [] = some none
read_offset (c ∷ s) =
    if c == b'+' || c == b'-'
    then (do
      (h, s1) ← read_two s
      s2 ← read_char b':' s1
      (m, s3) ← read_two s2
      n ← read_offset_seconds s3
      some (some (record { negative = c == b'-'; hours = h; minutes = m; seconds = n })))
    else none

-- `datetime.fromisoformat`, `none` where it raises `ValueError`
unfoldable pub fromisoformat : Text → Option DateTime
unfolding read_two read_char read_micros read_offset_seconds read_offset in_range
fromisoformat s = do
  (century, s1) ← read_two s
  (rest, s2) ← read_two s1
  s3 ← read_char b'-' s2
  (month, s4) ← read_two s3
  s5 ← read_char b'-' s4
  (day, s6) ← read_two s5
  s7 ← read_char b'T' s6
  (hour, s8) ← read_two s7
  s9 ← read_char b':' s8
  (minute, s10) ← read_two s9
  s11 ← read_char b':' s10
  (second, s12) ← read_two s11
  (microsecond, s13) ← read_micros s12
  utcoffset ← read_offset s13
  let d : DateTime = record {
    year = century * 100 + rest;
    month = month;
    day = day;
    hour = hour;
    minute = minute;
    second = second;
    microsecond = microsecond;
    utcoffset = utcoffset;
  }
  if in_range d then some d else none
