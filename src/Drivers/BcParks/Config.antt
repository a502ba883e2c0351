-- ===== src/Drivers/BcParks/Config.antt =====
-- `BCParksDayUseConfig` and `_parse_config` of web_checker/drivers/bcparks_dayuse/driver.py. Every
-- exception that the construction raises becomes a `BCParksConfigurationError`.
pub mod Valid
use web_checker_py.Prelude.{
  some_or, ℕ, Bool, true, not, ◌&&◌, ◌||◌, Option, none, some, List, [], ◌∷◌, ◌++◌, contains, Text,
  codes, is_nil, is_none, strip, leb, ◌==◌, nat_eq, text_eq, Result, ok, err, ◌>>=◌, ◌>>◌, raise_if,
  if◌then◌else◌,
}
use web_checker_py.Config.Values.{
  get, get_or, as_string, as_number, Numbers, Value, null, boolean, number, text, sequence, mapping,
  Items, lookup, only_fields,
}
use web_checker_py.Drivers.BcParks.Models.{BcParksError, configuration_error}
use web_checker_py.Drivers.BcParks.Parser.Facilities.{has_fields}
use web_checker_py.Drivers.BcParks.Parser.Reservations.{known_slots}

-- `urlsplit(...)`; a part that is absent is empty, a username or password `None`.
pub record SplitUrl : Type 0 where
  pub scheme : Text
  pub netloc : Text
  pub username : Option Text
  pub password : Option Text
  pub query : Text
  pub fragment : Text

-- Functions of the standard library: `urlsplit` on a string, `none` where it raises `ValueError`,
-- `str.isdigit` of one character, and `str.lower`.
pub record Strings : Type 0 where
  pub urlsplit : Text → Option SplitUrl
  pub is_digit : ℕ → Bool
  pub lower : Text → Text

pub record DayUseConfig (n : Numbers) : Type 0 where
  pub base_url : Text
  pub park_id : Text
  pub facility : Text
  pub slot : Text
  pub date_strategy : Text
  pub app_version : Option Text
  pub timeout_seconds : n.Number
  pub max_response_bytes : ℕ

abbrev pub supported_date_strategy : Text
supported_date_strategy = codes "rolling_window"

-- `s.rstrip("/")`
unfoldable pub rstrip_slash : Text → Text
rstrip_slash [] = []
rstrip_slash (c ∷ s) =
    let rest = rstrip_slash s in if is_nil rest && c == b'/' then [] else c ∷ rest

abbrev all_digits : (ℕ → Bool) → Text → Bool
all_digits p [] = true
all_digits p (c ∷ s) = p c && all_digits p s

-- `s.isdigit()`
abbrev pub isdigit : Strings → Text → Bool
isdigit s t = not (is_nil t) && all_digits s.is_digit t

unfoldable pub check_url : Option SplitUrl → Result BcParksError SplitUrl
check_url none = err configuration_error
check_url (some u) = do
  raise_if (not (u.scheme == codes "http" || u.scheme == codes "https") || is_nil u.netloc)
      configuration_error
  raise_if (not (is_none u.username) || not (is_none u.password)) configuration_error
  raise_if (not (is_nil u.query) || not (is_nil u.fragment)) configuration_error
  ok u

-- An int that is not negative, within the limits
unfoldable pub checked_bytes : Option ℕ → Result BcParksError ℕ
checked_bytes none = err configuration_error
checked_bytes (some k) = do raise_if (not (leb 1 k && leb k 2097152)) configuration_error; ok k

abbrev required : List Text
required = codes "base_url" ∷ codes "park_id" ∷ codes "facility" ∷ codes "slot" ∷ []

abbrev optional : List Text
optional =
    codes "date_strategy"
    ∷ codes "app_version"
    ∷ codes "timeout_seconds"
    ∷ codes "max_response_bytes"
    ∷ []

module _ {n : Numbers} where
  -- A string, or the error
  unfoldable pub string_of : Value n → Result BcParksError Text
  string_of v = some_or configuration_error (as_string v)

  unfoldable pub read_app_version : Value n → Result BcParksError (Option Text)
  read_app_version null = ok none
  read_app_version v = do
    s ← string_of v
    raise_if (is_nil (strip s)) configuration_error
    ok (some (strip s))

  -- The limits of the timeout; `float` keeps the number.
  unfoldable pub read_timeout : Value n → Result BcParksError n.Number
  read_timeout v = do
    x ← some_or configuration_error (as_number v)
    raise_if (n.leq x (n.of_nat 0) || n.less (n.of_nat 120) x) configuration_error
    ok x

  unfoldable pub read_max_bytes : Value n → Result BcParksError ℕ
  read_max_bytes v = do x ← some_or configuration_error (as_number v); checked_bytes (n.whole x)

  -- `BCParksDayUseConfig(...)` on the values of its fields
  unfoldable pub make_day_use_config :
      Strings
      → Value n
      → Value n
      → Value n
      → Value n
      → Value n
      → Value n
      → Value n
      → Value n
      → Result BcParksError (DayUseConfig n)
  make_day_use_config s base_url park_id facility slot strategy app_version timeout max_bytes = do
    url ← string_of base_url
    parts ← check_url (s.urlsplit url)
    park ← string_of park_id
    raise_if (not (isdigit s park)) configuration_error
    facility_name ← string_of facility
    raise_if (is_nil (strip facility_name)) configuration_error
    slot_name ← string_of slot
    raise_if (not (contains known_slots slot_name)) configuration_error
    strategy_name ← string_of strategy
    raise_if (not (strategy_name == supported_date_strategy)) configuration_error
    version ← read_app_version app_version
    seconds ← read_timeout timeout
    bytes ← read_max_bytes max_bytes
    ok (record {
      base_url = rstrip_slash url;
      park_id = park;
      facility = strip facility_name;
      slot = slot_name;
      date_strategy = strategy_name;
      app_version = version;
      timeout_seconds = seconds;
      max_response_bytes = bytes;
    })

  -- `_parse_config` on a mapping
  unfoldable pub parse_config : Strings → Items n → Result BcParksError (DayUseConfig n)
  parse_config s items = do
    raise_if (not (only_fields (required ++ optional) items)) configuration_error
    raise_if (not (has_fields required items)) configuration_error
    make_day_use_config s (get (codes "base_url") items) (get (codes "park_id") items)
        (get (codes "facility") items) (get (codes "slot") items)
        (get_or (text supported_date_strategy) (codes "date_strategy") items)
        (get (codes "app_version") items)
        (get_or (number (n.of_nat 10)) (codes "timeout_seconds") items)
        (get_or (number (n.of_nat 262144)) (codes "max_response_bytes") items)
