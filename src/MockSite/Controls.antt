-- ===== src/MockSite/Controls.antt =====
-- The routes that `register_bcparks_mock` of mock_site/bcparks.py adds. A control is refused with a
-- `Failure`, and then leaves the state as it was.
use web_checker_py.Prelude.{
  ℕ, Bool, true, false, not, ◌&&◌, ◌||◌, Option, none, some, List, [], ◌∷◌, contains, Text, codes,
  is_none, leb, differ, ◌==◌, nat_eq, text_eq, Result, ok, err, ◌>>=◌, ◌>>◌, raise_if,
  if◌then◌else◌,
}
use web_checker_py.Config.Values.{
  get, Numbers, Value, null, boolean, number, text, sequence, mapping, Items, lookup, only_fields,
}
use web_checker_py.Drivers.BcParks.Models.{Calendar}
use web_checker_py.Drivers.BcParks.Parser.Facilities.{has_fields, replace_z}
use web_checker_py.MockSite.State.{
  Capacity, full, low, medium, high, Behavior, MockState, Failure, bad_request, server_error,
  or_fail, as_key, update_park, update_facility, update_reservation, set_current_time,
}

unfoldable pub capacity_value : Capacity → Text
capacity_value full = codes "Full"
capacity_value low = codes "Low"
capacity_value medium = codes "Medium"
capacity_value high = codes "High"

-- The capacity that a string names
unfoldable pub read_capacity : Text → Option Capacity
read_capacity s =
    if s == codes "Full"
    then some full
    else if s == codes "Low"
    then some low
    else if s == codes "Medium"
    then some medium
    else if s == codes "High"
    then some high
    else none

-- A number that `max` may be
unfoldable pub checked_most : Option ℕ → Result Failure ℕ
checked_most none = err bad_request
checked_most (some k) = do raise_if (not (leb k 100)) bad_request; ok k

-- A status code that a behavior may have
unfoldable pub checked_status : Option ℕ → Result Failure ℕ
checked_status none = err bad_request
checked_status (some k) = do
  raise_if (not (k == 200) && not (leb 400 k && leb k 599)) bad_request
  ok k

module _ {n : Numbers} where
  -- `_json_object` on the body
  unfoldable pub json_object : Value n → Result Failure (Items n)
  json_object (mapping is) = ok is
  json_object null = err bad_request
  json_object (boolean b) = err bad_request
  json_object (number x) = err bad_request
  json_object (text s) = err bad_request
  json_object (sequence vs) = err bad_request

  -- `value in {...}` for strings: a list or dict has no hash.
  unfoldable pub one_of : List Text → Value n → Result Failure Text
  one_of names (text s) = do raise_if (not (contains names s)) bad_request; ok s
  one_of names null = err bad_request
  one_of names (boolean b) = err bad_request
  one_of names (number x) = err bad_request
  one_of names (sequence vs) = err server_error
  one_of names (mapping is) = err server_error

  unfoldable pub a_boolean : Value n → Result Failure Bool
  a_boolean (boolean b) = ok b
  a_boolean null = err bad_request
  a_boolean (number x) = err bad_request
  a_boolean (text s) = err bad_request
  a_boolean (sequence vs) = err bad_request
  a_boolean (mapping is) = err bad_request

  unfoldable pub a_delay : Value n → Result Failure n.Number
  a_delay (number x) = do
    raise_if (not (n.leq (n.of_nat 0) x && n.leq x (n.of_nat 10))) bad_request
    ok x
  a_delay null = err bad_request
  a_delay (boolean b) = err bad_request
  a_delay (text s) = err bad_request
  a_delay (sequence vs) = err bad_request
  a_delay (mapping is) = err bad_request

  -- `True` and `False` are ints, but no status that is allowed.
  unfoldable pub a_status : Value n → Result Failure ℕ
  a_status (number x) = checked_status (n.whole x)
  a_status null = err bad_request
  a_status (boolean b) = err bad_request
  a_status (text s) = err bad_request
  a_status (sequence vs) = err bad_request
  a_status (mapping is) = err bad_request

  unfoldable pub a_most : Value n → Result Failure ℕ
  a_most (number x) = checked_most (n.whole x)
  a_most null = err bad_request
  a_most (boolean b) = err bad_request
  a_most (text s) = err bad_request
  a_most (sequence vs) = err bad_request
  a_most (mapping is) = err bad_request

  unfoldable pub a_string : Value n → Result Failure Text
  a_string (text s) = ok s
  a_string null = err bad_request
  a_string (boolean b) = err bad_request
  a_string (number x) = err bad_request
  a_string (sequence vs) = err bad_request
  a_string (mapping is) = err bad_request

  unfoldable pub is_hashable : Value n → Bool
  is_hashable (sequence vs) = false
  is_hashable (mapping is) = false
  is_hashable (text s) = true
  is_hashable null = true
  is_hashable (boolean b) = true
  is_hashable (number x) = true

  -- A field that may be absent, and then keeps the value
  unfoldable pub field_or_keep :
      {A : Type 0} → (Value n → Result Failure A) → A → Option (Value n) → Result Failure A
  field_or_keep read old none = ok old
  field_or_keep read old (some v) = read v

  unfoldable pub control_clock : Calendar → Value n → MockState n → Result Failure (MockState n)
  control_clock c body s = do
    items ← json_object body
    let fields : List Text = codes "current_time" ∷ []
    raise_if (not (only_fields fields items && has_fields fields items)) bad_request
    value ← a_string (get (codes "current_time") items)
    parsed ← or_fail bad_request (c.parse_datetime (replace_z value))
    raise_if (is_none parsed.utcoffset) bad_request
    set_current_time c value s

  unfoldable pub control_behavior : Value n → MockState n → Result Failure (MockState n)
  control_behavior body s = do
    items ← json_object body
    raise_if
        (not (
          only_fields
            (codes "delay_seconds" ∷ codes "status_code" ∷ codes "malformed" ∷ codes "empty" ∷ [])
            items))
        bad_request
    let old : Behavior n = s.behavior
    delay ← field_or_keep a_delay old.delay_seconds (lookup (codes "delay_seconds") items)
    status ← field_or_keep a_status old.status_code (lookup (codes "status_code") items)
    malformed ← field_or_keep a_boolean old.malformed (lookup (codes "malformed") items)
    is_empty ← field_or_keep a_boolean old.is_empty (lookup (codes "empty") items)
    ok (record s {
      behavior = record {
        delay_seconds = delay;
        status_code = status;
        malformed = malformed;
        is_empty = is_empty;
      };
    })

  -- The checks on the body for a park or a facility
  unfoldable pub checked_changes : Value n → Result Failure (Items n)
  checked_changes body = do
    items ← json_object body
    raise_if (not (only_fields (codes "status" ∷ codes "visible" ∷ []) items)) bad_request
    status ←
        field_or_keep (one_of (codes "open" ∷ codes "closed" ∷ [])) []
          (lookup (codes "status") items)
    visible ← field_or_keep a_boolean true (lookup (codes "visible") items)
    ok items

  unfoldable pub control_park : Text → Value n → MockState n → Result Failure (MockState n)
  control_park park_id body s = do changes ← checked_changes body; update_park park_id changes s

  unfoldable pub control_facility :
      Text → Text → Value n → MockState n → Result Failure (MockState n)
  control_facility park_id facility body s = do
    changes ← checked_changes body
    update_facility park_id facility changes s

  unfoldable pub control_reservation : Value n → MockState n → Result Failure (MockState n)
  control_reservation body s = do
    items ← json_object body
    let fields : List Text =
        codes "park_id"
        ∷ codes "facility"
        ∷ codes "date"
        ∷ codes "slot"
        ∷ codes "capacity"
        ∷ codes "max"
        ∷ []
    raise_if (not (only_fields fields items && has_fields fields items)) bad_request
    named ←
        one_of (codes "Full" ∷ codes "Low" ∷ codes "Medium" ∷ codes "High" ∷ [])
          (get (codes "capacity") items)
    capacity ← or_fail bad_request (read_capacity named)
    most ← a_most (get (codes "max") items)
    raise_if (differ (named == codes "Full") (most == 0)) bad_request
    let park_value : Value n = get (codes "park_id") items
    let facility_value : Value n = get (codes "facility") items
    raise_if (not (is_hashable park_value) || not (is_hashable facility_value)) server_error
    park ← as_key park_value
    facility ← as_key facility_value
    update_reservation park facility (get (codes "date") items) (get (codes "slot") items)
        (record { capacity = capacity; most = most }) s
