-- ===== src/Drivers/BcParks/Parser/Reservations.antt =====
-- `parse_reservations` of web_checker/drivers/bcparks_dayuse/parser.py.
use web_checker_py.Prelude.{
  differ, Bool, true, false, not, ◌&&◌, ◌||◌, none, some, List, [], ◌∷◌, ◌++◌, contains, Text,
  codes, ◌==◌, nat_eq, text_eq, text_lt, order_by, Result, ok, err, ◌>>=◌, ◌>>◌, raise_if,
}
use web_checker_py.Time.Dates.{Date, date_lt, date_beq}
use web_checker_py.Config.Values.{get, Numbers, Value, Items, no_items, item, name, no_name}
use web_checker_py.Drivers.BcParks.Models.{
  Calendar, bad_date, empty_response, no_slots, unknown_slot, unknown_capacity,
  inconsistent_capacity, bad_keys, BcParksError, parse_error, ReservationSlot,
}
use web_checker_py.Drivers.BcParks.Parser.{as_object, as_text, as_integer}

abbrev pub known_slots : List Text
known_slots = codes "AM" ∷ codes "PM" ∷ codes "DAY" ∷ []

abbrev pub known_capacity_states : List Text
known_capacity_states =
    codes "Full" ∷ codes "Low" ∷ codes "Medium" ∷ codes "Moderate" ∷ codes "High" ∷ []

-- The order of `sorted(..., key=lambda item: (item.date, item.slot))`
abbrev pub slot_before : ReservationSlot → ReservationSlot → Bool
slot_before a b = date_lt a.date b.date || (date_beq a.date b.date && text_lt a.slot b.slot)

abbrev pub read_date : Calendar → Text → Result BcParksError Date
read_date c raw = elim (c.parse_date raw) [ none ↦ err (parse_error bad_date) | some d ↦ ok d ]

module _ {n : Numbers} where
  -- `if not value`
  unfoldable pub is_empty : Items n → Bool
  is_empty no_items = true
  is_empty (item k v rest) = false

  -- One slot of a date
  unfoldable pub parse_slot : Date → Text → Value n → Result BcParksError ReservationSlot
  parse_slot date slot raw = do
    raise_if (not (contains known_slots slot)) (parse_error unknown_slot)
    availability ← as_object raw
    capacity ← as_text (get (codes "capacity") availability)
    raise_if (not (contains known_capacity_states capacity)) (parse_error unknown_capacity)
    max_reservable ← as_integer 0 100 (get (codes "max") availability)
    raise_if (differ (capacity == codes "Full") (max_reservable == 0))
        (parse_error inconsistent_capacity)
    ok (record { date = date; slot = slot; capacity = capacity; max_reservable = max_reservable })

  unfoldable pub parse_slots : Date → Items n → Result BcParksError (List ReservationSlot)
  parse_slots date no_items = ok []
  parse_slots date (item no_name raw rest) = err (parse_error bad_keys)
  parse_slots date (item (name slot) raw rest) = do
    reservation ← parse_slot date slot raw
    reservations ← parse_slots date rest
    ok (reservation ∷ reservations)

  module _ (c : Calendar) where
    unfoldable pub parse_dates : Items n → Result BcParksError (List ReservationSlot)
    parse_dates no_items = ok []
    parse_dates (item no_name raw rest) = err (parse_error bad_keys)
    parse_dates (item (name raw_date) raw rest) = do
      date ← read_date c raw_date
      slots ← as_object raw
      raise_if (is_empty slots) (parse_error no_slots)
      reservations ← parse_slots date slots
      later ← parse_dates rest
      ok (reservations ++ later)

    unfoldable pub parse_reservations : Value n → Result BcParksError (List ReservationSlot)
    parse_reservations value = do
      response ← as_object value
      raise_if (is_empty response) (parse_error empty_response)
      reservations ← parse_dates response
      ok (order_by slot_before reservations)
