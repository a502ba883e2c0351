-- ===== src/Drivers/BcParks/Windows.antt =====
-- What `_build_opportunities` of web_checker/drivers/bcparks_dayuse/driver.py uses: lookups, sets of
-- dates, the window of a slot, and the classification of a slot.
use web_checker_py.Prelude.{
  some_or, ℕ, zero, suc, Bool, true, not, ◌&&◌, Option, none, some, List, [], ◌∷◌, ◌++◌, contains,
  map, Text, codes, ◌==◌, text_eq, nat_eq, Result, ok, ◌>>=◌, if◌then◌else◌,
}
use web_checker_py.Time.{DateTime}
use web_checker_py.Time.Dates.{Date, date_eq, plus_days}
use web_checker_py.Core.Models.{Availability, available, unavailable, unknown}
use web_checker_py.Drivers.BcParks.Models.{
  Calendar, ProviderConfig, Facility, ReservationSlot, BcParksError, key_error,
}

-- `pairs[key]`
abbrev pub value_at : {A : Type 0} → List (Text × A) → Text → Option A
value_at [] key = none
value_at (p ∷ ps) key = if p.0 == key then some p.1 else value_at ps key

abbrev pub day_at : List (ℕ × Bool) → ℕ → Option Bool
day_at [] day = none
day_at (p ∷ ps) day = if p.0 == day then some p.1 else day_at ps day

-- Each element of `a` is in `b`.
abbrev pub is_subset : List Date → List Date → Bool
is_subset [] b = true
is_subset (d ∷ a) b = contains b d && is_subset a b

-- `set(a) == set(b)`
abbrev pub same_members : List Date → List Date → Bool
same_members a b = is_subset a b && is_subset b a

-- `{today + timedelta(days=offset) for offset in range(ahead + 1)}`
unfoldable pub expected_dates : ℕ → Date → Option (List Date)
expected_dates zero today = some (today ∷ [])
expected_dates (suc ahead) today = elim (expected_dates ahead today) [
  | none ↦ none
  | some dates ↦ elim (plus_days (suc ahead) today) [
    | none ↦ none
    | some d ↦ some (dates ++ d ∷ [])
  ]
]

-- `datetime.combine(date, time(hour, minute), tzinfo=PROVIDER_TIMEZONE)`
abbrev pub combine : Calendar → Date → ℕ × ℕ → DateTime
combine c d t = record {
  year = d.year;
  month = d.month;
  day = d.day;
  hour = t.0;
  minute = t.1;
  second = 0;
  microsecond = 0;
  utcoffset = some (c.offset_at d t.0 t.1);
}

-- The windows of `_slot_window`
unfoldable pub slot_hours : Text → List (Text × ((ℕ × ℕ) × (ℕ × ℕ)))
slot_hours park_id =
    if park_id == codes "0015"
    then (codes "AM", ((7, 0), (12, 0)))
      ∷ (codes "PM", ((12, 0), (16, 0)))
      ∷ (codes "DAY", ((7, 0), (16, 0)))
      ∷ []
    else (codes "AM", ((7, 0), (13, 0)))
      ∷ (codes "PM", ((13, 0), (15, 30)))
      ∷ (codes "DAY", ((7, 0), (15, 30)))
      ∷ []

-- `_slot_window`
unfoldable pub slot_window :
    Calendar → Text → Date → Text → Result BcParksError (DateTime × DateTime)
slot_window c park_id d slot = do
  hours ← some_or key_error (value_at (slot_hours park_id) slot)
  ok (combine c d hours.0, combine c d hours.1)

unfoldable pub pass_limit : ProviderConfig → Facility → ℕ
pass_limit provider facility =
    if facility.kind == codes "Parking"
    then provider.parking_pass_limit
    else provider.trail_pass_limit

-- The availability of a slot, and the state that its attributes name
unfoldable pub classify : Bool → Bool → Text → Availability × Text
classify booking_day opened capacity =
    if not booking_day
    then (unknown, codes "not_required")
    else if not opened
    then (unknown, codes "pre_open")
    else if capacity == codes "Full"
    then (unavailable, codes "bookable")
    else (available, codes "bookable")

abbrev pub dates_of : List ReservationSlot → List Date
dates_of = map (λ item. item.date)
