-- ===== src/Time/Dates/Valid.antt =====
-- The addition of days keeps dates in the range of `date`.
use web_checker_py.Prelude.{
  some-injective, ℕ, zero, suc, ◌-◌, ◌≤◌, some, leb, ltb, nat_eq, ◌≡◌, subst, arith, Bool-cases,
  Option-cases, inl, inr,
}
use web_checker_py.Time.{days_in_month}
use web_checker_py.Time.Dates.{
  Date, next_day, previous_day, plus_days, minus_days, ordinal, shift_date,
}

pub record IsDate (d : Date) : Type 0 where
  pub year : (1 ≤ d.year) × (d.year ≤ 9999)
  pub month : (1 ≤ d.month) × (d.month ≤ 12)
  pub day : (1 ≤ d.day) × (d.day ≤ days_in_month d.year d.month)

days_in_month-le : (y m : ℕ) → 28 ≤ days_in_month y m
days_in_month-le y m = ground arith

next_day-IsDate : (d e : Date) → IsDate d → next_day d ≡ some e → IsDate e
unfolding next_day
next_day-IsDate d e v h = elim (Bool-cases (ltb d.day (days_in_month d.year d.month))) [
  | inl a ↦
      subst IsDate (some-injective _ e (rw a at h))
        (record { year = v.year; month = v.month; day = (omega arith, ground (arith, a)) })
  | inr a ↦ elim (Bool-cases (ltb d.month 12)) [
    | inl b ↦ subst IsDate (some-injective _ e (rw (a, b) at h)) (record {
      year = v.year;
      month = (omega arith, ground (arith, b));
      day = (omega arith, omega (arith, days_in_month-le d.year (suc d.month)));
    })
    | inr b ↦ elim (Bool-cases (ltb d.year 9999)) [
      | inl f ↦ subst IsDate (some-injective _ e (rw (a, b, f) at h)) (record {
        year = (omega arith, ground (arith, f));
        month = (omega arith, omega arith);
        day = (omega arith, omega (arith, days_in_month-le (suc d.year) 1));
      })
      | inr f ↦ let clash = rw (a, b, f) at h in cc
    ]
  ]
]

previous_day-IsDate : (d e : Date) → IsDate d → previous_day d ≡ some e → IsDate e
unfolding previous_day
previous_day-IsDate d e v h = elim (Bool-cases (ltb 1 d.day)) [
  | inl a ↦
      subst IsDate (some-injective _ e (rw a at h)) (record {
        year = v.year;
        month = v.month;
        day = (ground (arith, a), omega (arith, v.day.1));
      })
  | inr a ↦ elim (Bool-cases (ltb 1 d.month)) [
    | inl b ↦ subst IsDate (some-injective _ e (rw (a, b) at h)) (record {
      year = v.year;
      month = (ground (arith, b), omega (arith, v.month.1));
      day = (omega (arith, days_in_month-le d.year (d.month - 1)), omega arith);
    })
    | inr b ↦ elim (Bool-cases (ltb 1 d.year)) [
      | inl f ↦ subst IsDate (some-injective _ e (rw (a, b, f) at h)) (record {
        year = (ground (arith, f), omega (arith, v.year.1));
        month = (omega arith, omega arith);
        day = (omega arith, omega arith);
      })
      | inr f ↦ let clash = rw (a, b, f) at h in cc
    ]
  ]
]

plus_days-IsDate : (k : ℕ) (d e : Date) → IsDate d → plus_days k d ≡ some e → IsDate e
unfolding plus_days
plus_days-IsDate zero d e v h = subst IsDate (some-injective d e h) v
plus_days-IsDate (suc k) d e v h = elim (Option-cases (plus_days k d)) [
  | inl a ↦ let clash = rw a at h in cc
  | inr (m, a) ↦ next_day-IsDate m e (plus_days-IsDate k d m v a) (rw a at h)
]

minus_days-IsDate : (k : ℕ) (d e : Date) → IsDate d → minus_days k d ≡ some e → IsDate e
unfolding minus_days
minus_days-IsDate zero d e v h = subst IsDate (some-injective d e h) v
minus_days-IsDate (suc k) d e v h = elim (Option-cases (minus_days k d)) [
  | inl a ↦ let clash = rw a at h in cc
  | inr (m, a) ↦ previous_day-IsDate m e (minus_days-IsDate k d m v a) (rw a at h)
]

pub shift_date-IsDate : (a b d e : Date) → IsDate d → shift_date a b d ≡ some e → IsDate e
unfolding shift_date
shift_date-IsDate a b d e v h = elim (Bool-cases (leb (ordinal a) (ordinal b))) [
  | inl f ↦ plus_days-IsDate (ordinal b - ordinal a) d e v (rw f at h)
  | inr f ↦ minus_days-IsDate (ordinal a - ordinal b) d e v (rw f at h)
]
