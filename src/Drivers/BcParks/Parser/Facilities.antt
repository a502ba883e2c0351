-- ===== src/Drivers/BcParks/Parser/Facilities.antt =====
-- `parse_facilities` of web_checker/drivers/bcparks_dayuse/parser.py, with its helpers.
use web_checker_py.Prelude.{
  ℕ, Bool, true, false, not, ◌&&◌, Option, none, some, List, [], ◌∷◌, ◌++◌, contains, Text, codes,
  is_none, decimal, ◌==◌, text_eq, Result, ok, err, ◌>>=◌, ◌>>◌, raise_if, if◌then◌else◌, nat_eq,
}
use web_checker_py.Time.{DateTime}
use web_checker_py.Time.Dates.{Date}
use web_checker_py.Config.Values.{
  get, is_text, Numbers, Value, null, boolean, number, text, sequence, mapping, Values, no_values,
  cons, Items, no_items, item, name, no_name, lookup, only_fields,
}
use web_checker_py.Drivers.BcParks.Models.{
  Calendar, bad_keys, bad_timestamp, no_timezone, duplicate_facility, bad_sk, unknown_type,
  unknown_status, bad_pk, bad_booking_days, no_booking_times, unknown_slot, bad_date, BcParksError,
  parse_error, Facility,
}
use web_checker_py.Drivers.BcParks.Parser.{
  as_object, non_empty_list, as_text, as_boolean, as_integer,
}
use web_checker_py.Drivers.BcParks.Parser.Reservations.{is_empty, known_slots}

abbrev pub known_facility_states : List Text
known_facility_states = codes "open" ∷ codes "closed" ∷ []

abbrev pub known_facility_types : List Text
known_facility_types = codes "Parking" ∷ codes "Trail" ∷ []

-- `range(1, 8)`
abbrev pub week : List ℕ
week = 1 ∷ 2 ∷ 3 ∷ 4 ∷ 5 ∷ 6 ∷ 7 ∷ []

abbrev day_names : List ℕ → List Text
day_names [] = []
day_names (d ∷ ds) = decimal d ∷ day_names ds

-- `value.replace("Z", "+00:00")`
unfoldable pub replace_z : Text → Text
replace_z [] = []
replace_z (c ∷ s) = if c == b'Z' then codes "+00:00" ++ replace_z s else c ∷ replace_z s

-- The date of an enabled holiday
unfoldable pub read_holiday : Calendar → Text → Bool → Result BcParksError (List Date)
read_holiday c raw false = ok []
read_holiday c raw true = elim (c.parse_date raw) [
  | none ↦ err (parse_error bad_date)
  | some d ↦ ok (d ∷ [])
]

unfoldable pub read_timestamp : Option DateTime → Result BcParksError DateTime
read_timestamp none = err (parse_error bad_timestamp)
read_timestamp (some t) = do raise_if (is_none t.utcoffset) (parse_error no_timezone); ok t

module _ {n : Numbers} where
  -- Whether a dict has all the keys
  unfoldable pub has_fields : List Text → Items n → Bool
  has_fields [] items = true
  has_fields (k ∷ ks) items = not (is_none (lookup k items)) && has_fields ks items

  unfoldable pub read_days : List ℕ → Items n → Result BcParksError (List (ℕ × Bool))
  read_days [] items = ok []
  read_days (d ∷ ds) items = do
    enabled ← as_boolean (get (decimal d) items)
    days ← read_days ds items
    ok ((d, enabled) ∷ days)

  -- `_parse_booking_days`; the days in the order of their names
  unfoldable pub parse_booking_days : Value n → Result BcParksError (List (ℕ × Bool))
  parse_booking_days value = do
    items ← as_object value
    raise_if (not (only_fields (day_names week) items && has_fields (day_names week) items))
        (parse_error bad_booking_days)
    read_days week items

  unfoldable pub read_times : Items n → Result BcParksError (List (Text × ℕ))
  read_times no_items = ok []
  read_times (item no_name raw rest) = err (parse_error bad_keys)
  read_times (item (name slot) raw rest) = do
    fields ← as_object raw
    capacity ← as_integer 1 100000 (get (codes "max") fields)
    times ← read_times rest
    ok ((slot, capacity) ∷ times)

  -- `_parse_booking_times`
  unfoldable pub parse_booking_times : Value n → Result BcParksError (List (Text × ℕ))
  parse_booking_times value = do
    items ← as_object value
    raise_if (is_empty items) (parse_error no_booking_times)
    raise_if (not (only_fields known_slots items)) (parse_error unknown_slot)
    read_times items

  module _ (c : Calendar) where
    unfoldable pub read_holidays : Items n → Result BcParksError (List Date)
    read_holidays no_items = ok []
    read_holidays (item no_name raw rest) = err (parse_error bad_keys)
    read_holidays (item (name raw_date) raw rest) = do
      enabled ← as_boolean raw
      first ← read_holiday c raw_date enabled
      holidays ← read_holidays rest
      ok (first ++ holidays)

    -- `_parse_holidays`
    unfoldable pub parse_holidays : Value n → Result BcParksError (List Date)
    parse_holidays value = do items ← as_object value; read_holidays items

    -- `_timestamp`
    unfoldable pub parse_timestamp : Value n → Result BcParksError DateTime
    parse_timestamp (text s) = read_timestamp (c.parse_datetime (replace_z s))
    parse_timestamp null = err (parse_error bad_timestamp)
    parse_timestamp (boolean b) = err (parse_error bad_timestamp)
    parse_timestamp (number x) = err (parse_error bad_timestamp)
    parse_timestamp (sequence vs) = err (parse_error bad_timestamp)
    parse_timestamp (mapping is) = err (parse_error bad_timestamp)

    -- One item of the facility response, with the names of the items before it
    unfoldable pub parse_facility : Text → List Text → Value n → Result BcParksError Facility
    parse_facility park_id seen raw = do
      items ← as_object raw
      label ← as_text (get (codes "name") items)
      raise_if (contains seen label) (parse_error duplicate_facility)
      raise_if (not (is_text label (get (codes "sk") items))) (parse_error bad_sk)
      raise_if (not (is_text (codes "facility::" ++ park_id) (get (codes "pk") items)))
          (parse_error bad_pk)
      kind ← as_text (get (codes "type") items)
      raise_if (not (contains known_facility_types kind)) (parse_error unknown_type)
      status_items ← as_object (get (codes "status") items)
      status ← as_text (get (codes "state") status_items)
      raise_if (not (contains known_facility_states status)) (parse_error unknown_status)
      booking_days ← parse_booking_days (get (codes "bookingDays") items)
      booking_times ← parse_booking_times (get (codes "bookingTimes") items)
      holidays ← parse_holidays (get (codes "bookableHolidays") items)
      current_time ← parse_timestamp (get (codes "currentTime") items)
      visible ← as_boolean (get (codes "visible") items)
      days_ahead ← as_integer 0 31 (get (codes "bookingDaysAhead") items)
      opening_hour ← as_integer 0 23 (get (codes "bookingOpeningHour") items)
      ok (record {
        park_id = park_id;
        name = label;
        kind = kind;
        status = status;
        visible = visible;
        booking_days_ahead = days_ahead;
        booking_opening_hour = opening_hour;
        booking_days = booking_days;
        booking_times = booking_times;
        bookable_holidays = holidays;
        current_time = current_time;
      })

    unfoldable pub parse_facility_items :
        Text → List Text → Values n → Result BcParksError (List Facility)
    parse_facility_items park_id seen no_values = ok []
    parse_facility_items park_id seen (cons raw rest) = do
      facility ← parse_facility park_id seen raw
      facilities ← parse_facility_items park_id (facility.name ∷ seen) rest
      ok (facility ∷ facilities)

    unfoldable pub parse_facilities : Text → Value n → Result BcParksError (List Facility)
    parse_facilities park_id value = do
      values ← non_empty_list value
      parse_facility_items park_id [] values
