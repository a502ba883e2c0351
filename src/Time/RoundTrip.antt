-- ===== src/Time/RoundTrip.antt =====
-- `fromisoformat` reads back what `isoformat` writes.
use web_checker_py.Prelude.{
  ℕ, ◌+◌, ◌*◌, ◌/◌, ◌%◌, ◌<◌, Bool, true, false, Option, none, some, [], ◌∷◌, Text, ◌≡◌, refl, ap,
  sym, ◌∙◌, nat_beq_iff, ◌||◌, arith, ◌==◌, nat_eq, if◌then◌else◌, Bool-cases, inl, inr,
}
use web_checker_py.Time.{
  Offset, DateTime, in_range, offset_in_range, two, micros_text, offset_text, isoformat, read_two,
  read_char, read_micros, read_offset, read_offset_seconds, fromisoformat,
}

read_two-two : (n : ℕ) (rest : Text) → n < 100 → read_two (two n rest) ≡ some (n, rest)
unfolding read_two two
read_two-two n rest h = ground arith

read_char_self : (c : ℕ) (rest : Text) → read_char c (c ∷ rest) ≡ some rest
unfolding read_char
read_char_self c rest = ground arith

-- An offset is no fraction.
read_micros-offset_text :
    (o : Option Offset) → read_micros (offset_text o) ≡ some (0, offset_text o)
unfolding offset_text read_micros
read_micros-offset_text none = refl
read_micros-offset_text (some o) = elim (Bool-cases o.negative) [ inl e ↦ rw e | inr e ↦ rw e ]

read_micros-micros_text :
    (u : ℕ) (o : Option Offset)
    → u < 1000000
    → read_micros (micros_text u (offset_text o)) ≡ some (u, offset_text o)
unfolding micros_text read_micros
read_micros-micros_text u o h = elim (Bool-cases (u == 0)) [
  | inl e ↦
      rw e (
        read_micros-offset_text o ∙ ap (λ n. some (n, offset_text o)) (sym ((nat_beq_iff u 0).0 e)))
  | inr e ↦
      rw
        (
          e,
          read_two-two (u / 10000) _ (omega arith),
          read_two-two (u / 100 % 100) _ (omega arith),
          read_two-two (u % 100) _ (omega arith),
        )
        (ap (λ n. some (n, offset_text o)) (omega arith))
]

read_seconds :
    (n : ℕ) → n < 60 → read_offset_seconds (if n == 0 then [] else b':' ∷ two n []) ≡ some n
unfolding read_offset_seconds
read_seconds n h = elim (Bool-cases (n == 0)) [
  | inl e ↦ rw e (ap some (sym ((nat_beq_iff n 0).0 e)))
  | inr e ↦ rw (e, read_char_self b':' (two n []), read_two-two n [] (omega arith))
]

sign_test : (b : Bool) → (let c : ℕ = if b then b'-' else b'+' in c == b'+' || c == b'-') ≡ true
sign_test true = refl
sign_test false = refl

sign_back : (b : Bool) → (let c : ℕ = if b then b'-' else b'+' in c == b'-') ≡ b
sign_back true = refl
sign_back false = refl

read_offset-offset_text :
    (o : Option Offset) → offset_in_range o ≡ true → read_offset (offset_text o) ≡ some o
unfolding offset_in_range offset_text read_offset
read_offset-offset_text none h = refl
read_offset-offset_text (some o) h =
    rw
      (
        sign_test o.negative,
        read_two-two o.hours _ (ground arith),
        read_char_self b':' _,
        read_two-two o.minutes _ (ground arith),
        read_seconds o.seconds (ground arith),
      )
      (ap (λ b. some (some (record o { negative = b }))) (sign_back o.negative))

record IsBounded (d : DateTime) : Type 0 where
  year : d.year < 10000
  month : d.month < 100
  day : d.day < 100
  hour : d.hour < 100
  minute : d.minute < 100
  second : d.second < 100
  microsecond : d.microsecond < 1000000
  offset : offset_in_range d.utcoffset ≡ true

bounds : (d : DateTime) → in_range d ≡ true → IsBounded d
unfolding in_range
bounds d h = ground arith

year_back : (y : ℕ) → y / 100 * 100 + y % 100 ≡ y
year_back y = omega arith

-- A value in the range of `datetime` is read back from its text.
pub fromisoformat-isoformat :
    (d : DateTime) → in_range d ≡ true → fromisoformat (isoformat d) ≡ some d
unfolding fromisoformat isoformat read_char
fromisoformat-isoformat d h =
    let b = bounds d h in
    rw (read_two-two (d.year / 100) _ (omega (arith, b.year))) (
      rw (read_two-two (d.year % 100) _ (omega arith)) (
        rw (read_two-two d.month _ b.month) (
          rw (read_two-two d.day _ b.day) (
            rw (read_two-two d.hour _ b.hour) (
              rw (read_two-two d.minute _ b.minute) (
                rw (read_two-two d.second _ b.second) (
                  rw (read_micros-micros_text d.microsecond d.utcoffset b.microsecond) (
                    rw (read_offset-offset_text d.utcoffset b.offset)
                      (rw (year_back d.year) (rw h))))))))))
