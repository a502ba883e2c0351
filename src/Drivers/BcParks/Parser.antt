-- ===== src/Drivers/BcParks/Parser.antt =====
-- parser.py of web_checker/drivers/bcparks_dayuse, on the value that `json.loads` returns: an
-- object is a dict, an array a list.
pub mod Facilities
pub mod Reservations
pub mod Consistent
use web_checker_py.Prelude.{
  some_or, ℕ, Bool, true, false, not, ◌&&◌, Option, none, some, List, [], ◌∷◌, contains, Text,
  codes, is_nil, strip, leb, ◌==◌, text_eq, Result, ok, err, ◌>>=◌, ◌>>◌, raise_if, if◌then◌else◌,
}
use web_checker_py.Config.Values.{
  as_string, as_number, as_mapping, Numbers, Value, null, boolean, number, text, sequence, mapping,
  Values, no_values, cons, Items, no_items, item, name, no_name, get, is_text,
}
use web_checker_py.Drivers.BcParks.Models.{
  Problem, not_an_object, bad_keys, not_a_list, not_a_text, not_a_boolean, not_an_integer,
  duplicate_park, bad_pk, unknown_status, BcParksError, parse_error, ProviderConfig, Park,
}

abbrev pub known_park_states : List Text
known_park_states = codes "open" ∷ codes "closed" ∷ []

-- An int that is not negative, within the bounds
unfoldable pub within : ℕ → ℕ → Option ℕ → Result BcParksError ℕ
within minimum maximum none = err (parse_error not_an_integer)
within minimum maximum (some k) = do
  raise_if (not (leb minimum k && leb k maximum)) (parse_error not_an_integer)
  ok k

module _ {n : Numbers} where
  -- `all(isinstance(key, str) for key in value)`
  unfoldable pub names_only : Items n → Bool
  names_only no_items = true
  names_only (item (name k) v rest) = names_only rest
  names_only (item no_name v rest) = false

  -- `_object`
  unfoldable pub as_object : Value n → Result BcParksError (Items n)
  as_object v = do
    is ← some_or (parse_error not_an_object) (as_mapping v)
    raise_if (not (names_only is)) (parse_error bad_keys)
    ok is

  -- `_non_empty_list`
  unfoldable pub non_empty_list : Value n → Result BcParksError (Values n)
  non_empty_list (sequence no_values) = err (parse_error not_a_list)
  non_empty_list (sequence (cons v vs)) = ok (cons v vs)
  non_empty_list null = err (parse_error not_a_list)
  non_empty_list (boolean b) = err (parse_error not_a_list)
  non_empty_list (number x) = err (parse_error not_a_list)
  non_empty_list (text s) = err (parse_error not_a_list)
  non_empty_list (mapping is) = err (parse_error not_a_list)

  -- `_text`
  unfoldable pub as_text : Value n → Result BcParksError Text
  as_text v = do
    s ← some_or (parse_error not_a_text) (as_string v)
    raise_if (is_nil (strip s)) (parse_error not_a_text)
    ok (strip s)

  -- `_boolean`
  unfoldable pub as_boolean : Value n → Result BcParksError Bool
  as_boolean (boolean b) = ok b
  as_boolean null = err (parse_error not_a_boolean)
  as_boolean (number x) = err (parse_error not_a_boolean)
  as_boolean (text s) = err (parse_error not_a_boolean)
  as_boolean (sequence vs) = err (parse_error not_a_boolean)
  as_boolean (mapping is) = err (parse_error not_a_boolean)

  -- `_integer`, whose minimum is never negative
  unfoldable pub as_integer : ℕ → ℕ → Value n → Result BcParksError ℕ
  as_integer minimum maximum v = do
    x ← some_or (parse_error not_an_integer) (as_number v)
    within minimum maximum (n.whole x)

  unfoldable pub parse_provider_config : Value n → Result BcParksError ProviderConfig
  parse_provider_config value = do
    items ← as_object value
    limit ← as_integer 1 31 (get (codes "ADVANCE_BOOKING_LIMIT") items)
    hour ← as_integer 0 23 (get (codes "ADVANCE_BOOKING_HOUR") items)
    parking ← as_integer 1 100 (get (codes "PARKING_PASS_LIMIT") items)
    trail ← as_integer 1 100 (get (codes "TRAIL_PASS_LIMIT") items)
    ok (record {
      advance_booking_limit = limit;
      advance_booking_hour = hour;
      parking_pass_limit = parking;
      trail_pass_limit = trail;
    })

  -- One item of the park response, with the ids of the items before it
  unfoldable pub parse_park : List Text → Value n → Result BcParksError Park
  parse_park seen raw = do
    items ← as_object raw
    id ← as_text (get (codes "sk") items)
    raise_if (contains seen id) (parse_error duplicate_park)
    raise_if (not (is_text (codes "park") (get (codes "pk") items))) (parse_error bad_pk)
    status ← as_text (get (codes "status") items)
    raise_if (not (contains known_park_states status)) (parse_error unknown_status)
    label ← as_text (get (codes "name") items)
    visible ← as_boolean (get (codes "visible") items)
    ok (record { id = id; name = label; status = status; visible = visible })

  unfoldable pub parse_park_items : List Text → Values n → Result BcParksError (List Park)
  parse_park_items seen no_values = ok []
  parse_park_items seen (cons raw rest) = do
    park ← parse_park seen raw
    parks ← parse_park_items (park.id ∷ seen) rest
    ok (park ∷ parks)

  unfoldable pub parse_parks : Value n → Result BcParksError (List Park)
  parse_parks value = do values ← non_empty_list value; parse_park_items [] values
