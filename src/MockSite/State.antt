-- ===== src/MockSite/State.antt =====
-- `BCParksMockState` of mock_site/bcparks.py. Parks and facilities are the JSON objects that are
-- stored; the availability of a slot has only the two fields that are ever stored. The lock makes
-- each method one step.
use web_checker_py.Prelude.{
  ℕ, Bool, ◌&&◌, Option, none, some, List, [], ◌∷◌, Text, codes, is_none, ◌==◌, text_eq, Result, ok,
  err, ◌>>=◌, ◌>>◌, raise_if, if◌then◌else◌,
}
use web_checker_py.Time.Dates.{Date, date_eq, date_iso, date_of, shift_date}
use web_checker_py.Config.Values.{
  Numbers, Value, null, boolean, number, text, sequence, mapping, Items, no_items, item, name,
  no_name, lookup, Values, no_values, cons,
}
use web_checker_py.Drivers.BcParks.Models.{Calendar}
use web_checker_py.Drivers.BcParks.Parser.Facilities.{replace_z}

-- The values of `capacity` that the controls let in
pub data Capacity : Type 0 where
  full low medium high : Capacity

pub record Places : Type 0 where
  pub capacity : Capacity
  pub most : ℕ

abbrev pub Days : Type 0
Days = List (Text × List (Text × Places))

pub record Behavior (n : Numbers) : Type 0 where
  pub delay_seconds : n.Number
  pub status_code : ℕ
  pub malformed : Bool
  pub is_empty : Bool

pub record MockState (n : Numbers) : Type 0 where
  pub parks : List (Text × Items n)
  pub facilities : List (Text × List (Text × Items n))
  pub reservations : List ((Text × Text) × Days)
  pub current_time : Text
  pub behavior : Behavior n

-- A response of the controls that is not a success: `abort(400)`, `abort(404)`, and an exception
-- that Flask answers with 500.
pub data Failure : Type 0 where
  bad_request not_found server_error : Failure

-- `d.get(key)` and `d[key] = value` for a key that is there
unfoldable pub entry : {A : Type 0} → Text → List (Text × A) → Option A
entry key [] = none
entry key (p ∷ ps) = if p.0 == key then some p.1 else entry key ps

unfoldable pub set_entry : {A : Type 0} → Text → A → List (Text × A) → List (Text × A)
set_entry key value [] = []
set_entry key value (p ∷ ps) =
    let rest = set_entry key value ps in if p.0 == key then (key, value) ∷ ps else p ∷ rest

-- `self._reservations.get((park_id, facility))`, and its replacement
unfoldable pub find_days : Text → Text → List ((Text × Text) × Days) → Option Days
find_days park facility [] = none
find_days park facility (p ∷ ps) =
    if p.0.0 == park && p.0.1 == facility then some p.1 else find_days park facility ps

unfoldable pub set_days :
    Text → Text → Days → List ((Text × Text) × Days) → List ((Text × Text) × Days)
set_days park facility days [] = []
set_days park facility days (p ∷ ps) =
    let rest = set_days park facility days ps in
    if p.0.0 == park && p.0.1 == facility then (p.0, days) ∷ ps else p ∷ rest

-- A value, or the response
unfoldable pub or_fail : {A : Type 0} → Failure → Option A → Result Failure A
or_fail e none = err e
or_fail e (some a) = ok a

-- `_provider_date`
unfoldable pub provider_date : Calendar → Text → Result Failure Date
provider_date c value = do
  parsed ← or_fail server_error (c.parse_datetime (replace_z value))
  local ← or_fail server_error (c.to_provider parsed)
  ok (date_of local)

-- `(datetime.fromisoformat(raw_date).date() + date_delta).isoformat()`
unfoldable pub shift_key : Calendar → Date → Date → Text → Result Failure Text
shift_key c previous next raw = do
  t ← or_fail server_error (c.parse_datetime raw)
  d ← or_fail server_error (shift_date previous next (date_of t))
  ok (date_iso d)

-- The inner dict; distinct dates stay distinct.
unfoldable pub shift_days : Calendar → Date → Date → Days → Result Failure Days
shift_days c previous next [] = ok []
shift_days c previous next (p ∷ ps) = do
  key ← shift_key c previous next p.0
  later ← shift_days c previous next ps
  ok ((key, p.1) ∷ later)

unfoldable pub shift_all :
    Calendar
    → Date
    → Date
    → List ((Text × Text) × Days)
    → Result Failure (List ((Text × Text) × Days))
shift_all c previous next [] = ok []
shift_all c previous next (p ∷ ps) = do
  days ← shift_days c previous next p.1
  later ← shift_all c previous next ps
  ok ((p.0, days) ∷ later)

-- `if date_delta`
unfoldable pub shift_reservations :
    Calendar
    → Date
    → Date
    → List ((Text × Text) × Days)
    → Result Failure (List ((Text × Text) × Days))
shift_reservations c previous next reservations =
    if previous == next then ok reservations else shift_all c previous next reservations

module _ {n : Numbers} where
  -- `d[key] = value` on a JSON object
  unfoldable pub set_item : Text → Value n → Items n → Items n
  set_item key value no_items = item (name key) value no_items
  set_item key value (item (name k) v rest) =
      let later = set_item key value rest in
      if k == key then item (name k) value rest else item (name k) v later
  set_item key value (item no_name v rest) = item no_name v (set_item key value rest)

  -- `d.update(changes)`
  unfoldable pub update_items : Items n → Items n → Items n
  update_items items no_items = items
  update_items items (item (name k) v rest) = update_items (set_item k v items) rest
  update_items items (item no_name v rest) = update_items items rest

  -- The object without a key
  unfoldable pub without : Text → Items n → Items n
  without key no_items = no_items
  without key (item (name k) v rest) =
      let later = without key rest in if k == key then rest else item (name k) v later
  without key (item no_name v rest) = item no_name v (without key rest)

  -- `update_park`
  unfoldable pub update_park : Text → Items n → MockState n → Result Failure (MockState n)
  update_park park_id changes s = do
    park ← or_fail not_found (entry park_id s.parks)
    ok (record s { parks = set_entry park_id (update_items park changes) s.parks })

  -- `item["status"]["state"] = value`; the status of a stored facility is an object.
  unfoldable pub set_state : Value n → Items n → Items n
  set_state value facility = elim (lookup (codes "status") facility) [
    | some (mapping status) ↦
        set_item (codes "status") (mapping (set_item (codes "state") value status)) facility
    | _ ↦ facility
  ]

  unfoldable pub apply_status : Option (Value n) → Items n → Items n
  apply_status none facility = facility
  apply_status (some value) facility = set_state value facility

  -- `update_facility`
  unfoldable pub change_facility : Items n → Items n → Items n
  change_facility changes facility =
      update_items (apply_status (lookup (codes "status") changes) facility)
        (without (codes "status") changes)

  unfoldable pub update_facility :
      Text → Text → Items n → MockState n → Result Failure (MockState n)
  update_facility park_id facility_name changes s = do
    facilities ← or_fail not_found (entry park_id s.facilities)
    facility ← or_fail not_found (entry facility_name facilities)
    ok (record s {
      facilities =
          set_entry park_id (set_entry facility_name (change_facility changes facility) facilities)
            s.facilities;
    })

  -- A value that is looked up as a key: a list or dict has no hash, and no key but a string is there.
  unfoldable pub as_key : Value n → Result Failure Text
  as_key (text s) = ok s
  as_key null = err not_found
  as_key (boolean b) = err not_found
  as_key (number x) = err not_found
  as_key (sequence vs) = err server_error
  as_key (mapping is) = err server_error

  -- `update_reservation`
  unfoldable pub update_reservation :
      Text → Text → Value n → Value n → Places → MockState n → Result Failure (MockState n)
  update_reservation park facility date_value slot_value places s = do
    days ← or_fail not_found (find_days park facility s.reservations)
    date ← as_key date_value
    slots ← or_fail not_found (entry date days)
    slot ← as_key slot_value
    raise_if (is_none (entry slot slots)) not_found
    ok (record s {
      reservations =
          set_days park facility (set_entry date (set_entry slot places slots) days) s.reservations;
    })

  -- `set_current_time`
  unfoldable pub set_current_time : Calendar → Text → MockState n → Result Failure (MockState n)
  set_current_time c value s = do
    previous ← provider_date c s.current_time
    next ← provider_date c value
    reservations ← shift_reservations c previous next s.reservations
    ok (record s { reservations = reservations; current_time = value })

  -- What `facilities` returns for a park, and the list of `parks`
  unfoldable pub with_time : Text → List (Text × Items n) → Values n
  with_time time [] = no_values
  with_time time (p ∷ ps) =
      cons (mapping (set_item (codes "currentTime") (text time) p.1)) (with_time time ps)

  unfoldable pub facility_values : Text → MockState n → Values n
  facility_values park_id s = elim (entry park_id s.facilities) [
    | none ↦ no_values
    | some facilities ↦ with_time s.current_time facilities
  ]

  unfoldable pub park_values : List (Text × Items n) → Values n
  park_values [] = no_values
  park_values (p ∷ ps) = cons (mapping p.1) (park_values ps)
