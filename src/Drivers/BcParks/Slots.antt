-- ===== src/Drivers/BcParks/Slots.antt =====
-- `_build_opportunities` of web_checker/drivers/bcparks_dayuse/driver.py.
pub mod Offers
pub mod Window
pub mod Sound
use web_checker_py.Prelude.{
  some_or, ℕ, Bool, not, ◌||◌, some, List, [], ◌∷◌, ◌++◌, contains, filter, any, Text, codes, ltb,
  ◌==◌, text_eq, nat_eq, Result, ok, ◌>>=◌, ◌>>◌, raise_if, map_err, if◌then◌else◌,
}
use web_checker_py.Time.{DateTime, isoformat}
use web_checker_py.Time.Dates.{
  Date, date_eq, date_lt, date_iso, date_of, isoweekday, local_lt, plus_days, minus_days,
}
use web_checker_py.Core.Models.{Opportunity, Attributes, Scalar, make_opportunity}
use web_checker_py.Config.Values.{Numbers}
use web_checker_py.Drivers.BcParks.Models.{
  Calendar, ProviderConfig, Facility, ReservationSlot, BcParksError, parse_error, value_error,
  overflow_error, key_error, wrong_dates, slot_missing, over_limit, outside_window,
}
use web_checker_py.Drivers.BcParks.Config.{DayUseConfig}
use web_checker_py.Drivers.BcParks.Windows.{
  value_at, day_at, same_members, expected_dates, combine, slot_window, pass_limit, classify,
  dates_of,
}

-- The id of an opportunity: park id, facility, date and slot
unfoldable pub slot_id : Text → Text → Date → Text → Text
slot_id park_id facility date slot =
    park_id ++ codes ":" ++ facility ++ codes ":" ++ date_iso date ++ codes ":" ++ slot

-- What does not change during the loop of `_build_opportunities`
pub record Scene (n : Numbers) : Type 0 where
  pub calendar : Calendar
  pub config : DayUseConfig n
  pub park_name : Text
  pub facility : Facility
  pub provider_now : DateTime
  pub latest_date : Date

module _ {n : Numbers} (s : Scene n) where
  abbrev pub c : Calendar
  c = s.calendar

  unfoldable pub slot_title : ReservationSlot → Text
  slot_title item =
      s.park_name
      ++ codes " — "
      ++ s.facility.name
      ++ codes " — "
      ++ item.slot
      ++ codes " on "
      ++ date_iso item.date

  unfoldable pub slot_attributes : ReservationSlot → ℕ → Text → Attributes
  slot_attributes item configured state =
      (codes "park_id", Scalar.text s.config.park_id)
      ∷ (codes "park", Scalar.text s.park_name)
      ∷ (codes "facility", Scalar.text s.facility.name)
      ∷ (codes "facility_type", Scalar.text s.facility.kind)
      ∷ (codes "slot", Scalar.text item.slot)
      ∷ (codes "capacity", Scalar.text item.capacity)
      ∷ (codes "max_reservable", Scalar.number item.max_reservable)
      ∷ (codes "configured_capacity", Scalar.number configured)
      ∷ (codes "booking_state", Scalar.text state)
      ∷ (codes "provider_time", Scalar.text (isoformat s.facility.current_time))
      ∷ []

  -- `Opportunity(...)` of a slot that has not ended
  unfoldable pub slot_opportunity : ReservationSlot → DateTime → Result BcParksError Opportunity
  slot_opportunity item starts_at = do
    opening_day ← some_or overflow_error (minus_days s.facility.booking_days_ahead item.date)
    enabled ← some_or key_error (day_at s.facility.booking_days (isoweekday item.date))
    let booking_day : Bool = enabled || contains s.facility.bookable_holidays item.date
    let opened : Bool =
        not (local_lt s.provider_now (combine c opening_day (s.facility.booking_opening_hour, 0)))
    let state = classify booking_day opened item.capacity
    configured ← some_or key_error (value_at s.facility.booking_times item.slot)
    map_err value_error (
        make_opportunity (record {
          id = slot_id s.config.park_id s.facility.name item.date item.slot;
          title = slot_title item;
          availability = state.0;
          starts_at = some starts_at;
          booking_url = some (s.config.base_url ++ codes "/dayuse/");
          attributes = slot_attributes item configured state.1;
        }))

  -- What follows the check of the window
  unfoldable pub consider_window :
      ReservationSlot → DateTime × DateTime → Result BcParksError (List Opportunity)
  consider_window item (starts_at, ends_at) =
      if local_lt s.provider_now ends_at
      then (do o ← slot_opportunity item starts_at; ok (o ∷ []))
      else ok []

  -- One round of the loop: no opportunity for a slot that has ended
  unfoldable pub consider : ReservationSlot → Result BcParksError (List Opportunity)
  consider item = do
    raise_if (date_lt item.date (date_of s.provider_now) || date_lt s.latest_date item.date)
        (parse_error outside_window)
    window ← slot_window c s.config.park_id item.date item.slot
    consider_window item window

  unfoldable pub consider_all : List ReservationSlot → Result BcParksError (List Opportunity)
  consider_all [] = ok []
  consider_all (item ∷ rest) = do
    first ← consider item
    later ← consider_all rest
    ok (first ++ later)

-- `[item for item in reservations if item.slot == config.slot]`
abbrev pub matching : Text → List ReservationSlot → List ReservationSlot
matching slot = filter (λ item. item.slot == slot)

-- `_build_opportunities`
unfoldable pub build_opportunities :
    {n : Numbers}
    → Calendar
    → DayUseConfig n
    → Text
    → ProviderConfig
    → Facility
    → List ReservationSlot
    → Result BcParksError (List Opportunity)
build_opportunities c config park_name provider facility reservations = do
  provider_now ← some_or overflow_error (c.to_provider facility.current_time)
  let today : Date = date_of provider_now
  latest_date ← some_or overflow_error (plus_days facility.booking_days_ahead today)
  expected ← some_or overflow_error (expected_dates facility.booking_days_ahead today)
  raise_if (not (same_members (dates_of reservations) expected)) (parse_error wrong_dates)
  let slots : List ReservationSlot = matching config.slot reservations
  raise_if (not (same_members (dates_of slots) (dates_of reservations))) (parse_error slot_missing)
  raise_if (any (λ item. ltb (pass_limit provider facility) item.max_reservable) slots)
      (parse_error over_limit)
  consider_all
      (record {
        calendar = c;
        config = config;
        park_name = park_name;
        facility = facility;
        provider_now = provider_now;
        latest_date = latest_date;
      })
      slots
