-- ===== src/MockSite/Routes.antt =====
-- The routes of mock_site/bcparks.py: a request to a control changes the state or is refused, and
-- the API answers from the state.
use web_checker_py.Prelude.{
  ℕ, Bool, not, ◌||◌, Option, none, some, List, [], ◌∷◌, Text, codes, is_nil, ◌==◌, nat_eq, text_eq,
  Result, ok, err, ◌>>◌, raise_if, if◌then◌else◌,
}
use web_checker_py.Config.Values.{
  Numbers, Value, number, text, sequence, mapping, Values, no_values, cons, Items, no_items, item,
  name,
}
use web_checker_py.Drivers.BcParks.Models.{Calendar}
use web_checker_py.MockSite.State.{
  Places, Days, MockState, Failure, not_found, find_days, facility_values, park_values,
}
use web_checker_py.MockSite.Defaults.{reset, default_config}
use web_checker_py.MockSite.Controls.{
  capacity_value, control_clock, control_behavior, control_park, control_facility,
  control_reservation,
}

-- A request to a control
pub data Control (n : Numbers) : Type 0 where
  reset_request : Control n
  clock_request : Value n → Control n
  behavior_request : Value n → Control n
  reservation_request : Value n → Control n
  park_request : Text → Value n → Control n
  facility_request : Text → Text → Value n → Control n

-- The answer of the API: an error status, a body that is no JSON, or a JSON value
pub data Reply (n : Numbers) : Type 0 where
  status : ℕ → Reply n
  garbage : Reply n
  json : Value n → Reply n

module _ {n : Numbers} where
  unfoldable pub route : Calendar → Control n → MockState n → Result Failure (MockState n)
  route c reset_request s = ok (reset n)
  route c (clock_request body) s = control_clock c body s
  route c (behavior_request body) s = control_behavior body s
  route c (reservation_request body) s = control_reservation body s
  route c (park_request park_id body) s = control_park park_id body s
  route c (facility_request park_id facility body) s = control_facility park_id facility body s

  -- `require_controls`, and the control
  unfoldable pub control : Bool → Calendar → Control n → MockState n → Result Failure (MockState n)
  control enabled c request s = do raise_if (not enabled) not_found; route c request s

  -- The state after a request: a refused one changes nothing.
  unfoldable pub settle : MockState n → Result Failure (MockState n) → MockState n
  settle s (ok changed) = changed
  settle s (err e) = s

  -- The state after requests from the start
  unfoldable pub after_requests : Bool → Calendar → List (Control n) → MockState n → MockState n
  after_requests enabled c [] s = s
  after_requests enabled c (r ∷ rs) s =
      after_requests enabled c rs (settle s (control enabled c r s))

  -- `apply_behavior`
  unfoldable pub apply_behavior : Value n → MockState n → Option (Reply n)
  apply_behavior empty_value s =
      if not (s.behavior.status_code == 200)
      then some (status s.behavior.status_code)
      else if s.behavior.malformed
      then some garbage
      else if s.behavior.is_empty
      then some (json empty_value)
      else none

  -- The special answer, or the usual one
  abbrev special_or : Option (Reply n) → Reply n → Reply n
  special_or none usual = usual
  special_or (some special) usual = special

  -- The JSON of the reservations of a facility
  unfoldable pub slot_items : List (Text × Places) → Items n
  slot_items [] = no_items
  slot_items (p ∷ ps) =
      item (name p.0)
        (mapping (
          item (name (codes "capacity")) (text (capacity_value p.1.capacity))
            (item (name (codes "max")) (number (n.of_nat p.1.most)) no_items)))
        (slot_items ps)

  unfoldable pub day_items : Days → Items n
  day_items [] = no_items
  day_items (p ∷ ps) = item (name p.0) (mapping (slot_items p.1)) (day_items ps)

  unfoldable pub get_config : MockState n → Reply n
  get_config s =
      special_or (apply_behavior (mapping no_items) s) (json (mapping (default_config n)))

  unfoldable pub get_parks : MockState n → Reply n
  get_parks s =
      special_or (apply_behavior (sequence no_values) s) (json (sequence (park_values s.parks)))

  unfoldable pub found_facilities : Values n → Reply n
  found_facilities no_values = status 404
  found_facilities (cons v vs) = json (sequence (cons v vs))

  -- The parameters `park` and `facilities` are empty where they are absent.
  unfoldable pub get_facilities : Text → Text → MockState n → Reply n
  get_facilities park_id facilities s = special_or (apply_behavior (sequence no_values) s) (
      if not (facilities == codes "true") || is_nil park_id
      then status 400
      else found_facilities (facility_values park_id s))

  unfoldable pub found_days : Option Days → Reply n
  found_days none = status 404
  found_days (some days) = json (mapping (day_items days))

  unfoldable pub get_reservations : Text → Text → MockState n → Reply n
  get_reservations park_id facility s = special_or (apply_behavior (mapping no_items) s) (
      if is_nil park_id || is_nil facility
      then status 400
      else found_days (find_days park_id facility s.reservations))
