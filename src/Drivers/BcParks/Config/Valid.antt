-- ===== src/Drivers/BcParks/Config/Valid.antt =====
-- What a configuration that `_parse_config` of web_checker/drivers/bcparks_dayuse/driver.py accepts
-- is like.
use web_checker_py.Prelude.{
  some_or, not-false, ℕ, ◌≤◌, true, false, not, ◌&&◌, ◌||◌, Option, none, some, ◌++◌, contains,
  Text, is_nil, strip, leb, ◌==◌, nat_eq, text_eq, ok, raise_if-eq-ok, bind-eq-ok, ok-injective,
  ◌≡◌, subst, arith,
}
use web_checker_py.Config.Values.{
  as_number, as_string, Numbers, Value, null, boolean, number, text, sequence, mapping, Items,
  only_fields,
}
use web_checker_py.Drivers.BcParks.Parser.Facilities.{has_fields}
use web_checker_py.Drivers.BcParks.Parser.Reservations.{known_slots}
use web_checker_py.Drivers.BcParks.Models.{configuration_error}
use web_checker_py.Drivers.BcParks.Config.{
  Strings, DayUseConfig, isdigit, supported_date_strategy, check_url, checked_bytes, string_of,
  read_app_version, read_timeout, read_max_bytes, make_day_use_config, required, optional,
  parse_config,
}

-- The version is absent or not blank.
abbrev pub IsVersion : Option Text → Type 0
IsVersion none = Unit
IsVersion (some v) = is_nil v ≡ false

pub record IsValidConfig (n : Numbers) (s : Strings) (c : DayUseConfig n) : Type 0 where
  pub park_id : isdigit s c.park_id ≡ true
  pub facility : is_nil c.facility ≡ false
  pub slot : contains known_slots c.slot ≡ true
  pub strategy : c.date_strategy ≡ supported_date_strategy
  pub version : IsVersion c.app_version
  pub above_zero : n.leq c.timeout_seconds (n.of_nat 0) ≡ false
  pub at_most : n.less (n.of_nat 120) c.timeout_seconds ≡ false
  pub bytes : (1 ≤ c.max_response_bytes) × (c.max_response_bytes ≤ 2097152)

checked_bytes-le : (o : Option ℕ) (k : ℕ) → checked_bytes o ≡ ok k → (1 ≤ k) × (k ≤ 2097152)
unfolding checked_bytes
checked_bytes-le none k h = cc
checked_bytes-le (some j) k h =
    let (good, last) = raise_if-eq-ok (not (leb 1 j && leb j 2097152)) _ _ h in
    subst (λ i. (1 ≤ i) × (i ≤ 2097152)) (ok-injective j k last)
      (ground (arith, good), ground (arith, good))

abbrev IsTimeout : (n : Numbers) → n.Number → Type 0
IsTimeout n x = (n.leq x (n.of_nat 0) ≡ false) × (n.less (n.of_nat 120) x ≡ false)

module _ {n : Numbers} where
  read_max_bytes-le : (v : Value n) (k : ℕ) → read_max_bytes v ≡ ok k → (1 ≤ k) × (k ≤ 2097152)
  unfolding read_max_bytes
  read_max_bytes-le v k h =
      let (x, e, rest) = bind-eq-ok (some_or configuration_error (as_number v)) _ h in
      checked_bytes-le (n.whole x) k rest

  read_timeout-IsTimeout : (v : Value n) (x : n.Number) → read_timeout v ≡ ok x → IsTimeout n x
  unfolding read_timeout
  read_timeout-IsTimeout v x h =
      let (y, e, rest) = bind-eq-ok (some_or configuration_error (as_number v)) _ h in
      let (good, last) =
        raise_if-eq-ok (n.leq y (n.of_nat 0) || n.less (n.of_nat 120) y) _ _ rest in
      subst (IsTimeout n) (ok-injective y x last) (ground (arith, good), ground (arith, good))

  read_app_version-IsVersion :
      (v : Value n) (o : Option Text) → read_app_version v ≡ ok o → IsVersion o
  unfolding read_app_version string_of as_string
  read_app_version-IsVersion null o h = subst IsVersion (ok-injective none o h) tt
  read_app_version-IsVersion (text s) o h =
      let (good, last) = raise_if-eq-ok (is_nil (strip s)) _ _ h in
      subst IsVersion (ok-injective _ o last) good
  read_app_version-IsVersion (boolean b) o h = cc
  read_app_version-IsVersion (number x) o h = cc
  read_app_version-IsVersion (sequence vs) o h = cc
  read_app_version-IsVersion (mapping is) o h = cc

  make_day_use_config-IsValidConfig :
      (s : Strings) (url park facility slot strategy version timeout bytes : Value n)
      (c : DayUseConfig n)
      → make_day_use_config s url park facility slot strategy version timeout bytes ≡ ok c
      → IsValidConfig n s c
  unfolding make_day_use_config
  make_day_use_config-IsValidConfig s url park facility slot strategy version timeout bytes c h =
      let (u, e1, h1) = bind-eq-ok (string_of url) _ h in
      let (parts, e2, h2) = bind-eq-ok (check_url (s.urlsplit u)) _ h1 in
      let (p, e3, h3) = bind-eq-ok (string_of park) _ h2 in
      let (digits, h4) = raise_if-eq-ok (not (isdigit s p)) _ _ h3 in
      let (f, e5, h5) = bind-eq-ok (string_of facility) _ h4 in
      let (named, h6) = raise_if-eq-ok (is_nil (strip f)) _ _ h5 in
      let (t, e7, h7) = bind-eq-ok (string_of slot) _ h6 in
      let (known, h8) = raise_if-eq-ok (not (contains known_slots t)) _ _ h7 in
      let (d, e9, h9) = bind-eq-ok (string_of strategy) _ h8 in
      let (same, h10) = raise_if-eq-ok (not (d == supported_date_strategy)) _ _ h9 in
      let (v, e11, h11) = bind-eq-ok (read_app_version version) _ h10 in
      let (seconds, e12, h12) = bind-eq-ok (read_timeout timeout) _ h11 in
      let (limit, e13, h13) = bind-eq-ok (read_max_bytes bytes) _ h12 in
      let timeout_range = read_timeout-IsTimeout timeout seconds e12 in
      subst (IsValidConfig n s) (ok-injective _ c h13) (record {
        park_id = not-false _ digits;
        facility = named;
        slot = not-false _ known;
        strategy = (text_eq.equal_iff d supported_date_strategy).0 (not-false _ same);
        version = read_app_version-IsVersion version v e11;
        above_zero = timeout_range.0;
        at_most = timeout_range.1;
        bytes = read_max_bytes-le bytes limit e13;
      })

  -- A configuration that is accepted has a park id of digits, a facility that is not empty, a known
  -- slot, the one date strategy, a version that is absent or not blank, a timeout that is neither
  -- at most 0 nor above 120, and a limit of 1 to 2097152 bytes.
  pub parse_config-IsValidConfig :
      (s : Strings) (items : Items n) (c : DayUseConfig n)
      → parse_config s items ≡ ok c
      → IsValidConfig n s c
  unfolding parse_config
  parse_config-IsValidConfig s items c h =
      let (known, h1) = raise_if-eq-ok (not (only_fields (required ++ optional) items)) _ _ h in
      let (complete, h2) = raise_if-eq-ok (not (has_fields required items)) _ _ h1 in
      make_day_use_config-IsValidConfig s _ _ _ _ _ _ _ _ c h2
