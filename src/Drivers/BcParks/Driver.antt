-- ===== src/Drivers/BcParks/Driver.antt =====
-- `BCParksDayUseDriver.check` of web_checker/drivers/bcparks_dayuse/driver.py.
pub mod Report
use web_checker_py.Prelude.{
  some_or, ◌+◌, not, ◌||◌, Option, none, some, List, [], ◌∷◌, ◌++◌, find, Text, codes, ◌==◌,
  is_none, text_eq, nat_eq, Result, ok, err, ◌>>=◌, ◌>>◌, raise_if, map_err,
}
use web_checker_py.Time.{DateTime}
use web_checker_py.Core.Models.{Opportunity, CheckResult, make_check_result}
use web_checker_py.Config.Values.{Numbers, Items}
use web_checker_py.Drivers.BcParks.Models.{
  Calendar, ProviderConfig, Park, Facility, BcParksError, parse_error, value_error, provider_closed,
  park_absent, facility_absent, slot_not_offered, hours_disagree, windows_disagree,
  no_opportunities,
}
use web_checker_py.Drivers.BcParks.Config.{Strings, SplitUrl, DayUseConfig, parse_config}
use web_checker_py.Drivers.BcParks.Responses.{Client, get_json}
use web_checker_py.Drivers.BcParks.Parser.{parse_provider_config, parse_parks}
use web_checker_py.Drivers.BcParks.Parser.Facilities.{parse_facilities}
use web_checker_py.Drivers.BcParks.Parser.Reservations.{parse_reservations}
use web_checker_py.Drivers.BcParks.Windows.{value_at}
use web_checker_py.Drivers.BcParks.Slots.{build_opportunities}

-- `origin`; the URL was split when the configuration was read.
unfoldable pub origin : Option SplitUrl → Text
origin none = []
origin (some u) = u.scheme ++ codes "://" ++ u.netloc

-- The selected park, which must be open and visible
unfoldable pub select_park : Text → List Park → Result BcParksError Park
select_park park_id parks = do
  park ← some_or (parse_error park_absent) (find (λ p. p.id == park_id) parks)
  raise_if (not park.visible || not (park.status == codes "open")) provider_closed
  ok park

-- The selected facility, which must be open, offer the slot and agree with the provider
unfoldable pub select_facility :
    Text → Text → ProviderConfig → List Facility → Result BcParksError Facility
select_facility facility_name slot provider facilities = do
  facility ← some_or (parse_error facility_absent) (find (λ f. f.name == facility_name) facilities)
  raise_if (not facility.visible || not (facility.status == codes "open")) provider_closed
  raise_if (is_none (value_at facility.booking_times slot)) (parse_error slot_not_offered)
  raise_if (not (provider.advance_booking_hour == facility.booking_opening_hour))
      (parse_error hours_disagree)
  raise_if (not (provider.advance_booking_limit == facility.booking_days_ahead + 1))
      (parse_error windows_disagree)
  ok facility

-- The end of `check`, at the time of the clock
unfoldable pub finish_check : DateTime → List Opportunity → Result BcParksError CheckResult
finish_check now [] = err (parse_error no_opportunities)
finish_check now (o ∷ os) =
    map_err value_error (make_check_result (record { checked_at = now; opportunities = o ∷ os }))

module _ {n : Numbers} where
  -- The headers of every request
  unfoldable pub request_headers : Strings → DayUseConfig n → List (Text × Text)
  request_headers s config =
      (codes "Accept", codes "application/json")
      ∷ (codes "Origin", origin (s.urlsplit config.base_url))
      ∷ (codes "User-Agent", codes "WebChecker/0.1")
      ∷ elim config.app_version [ none ↦ [] | some v ↦ (codes "X-App-Version", v) ∷ [] ]

  -- `check`
  unfoldable pub check_day_use :
      Calendar → Strings → Client n → DateTime → Items n → Result BcParksError CheckResult
  check_day_use c s client now items = do
    config ← parse_config s items
    let headers : List (Text × Text) = request_headers s config
    config_value ← get_json s client config headers (codes "/api/config") []
    provider ← parse_provider_config config_value
    park_value ← get_json s client config headers (codes "/api/park") []
    parks ← parse_parks park_value
    park ← select_park config.park_id parks
    facility_value ←
        get_json s client config headers (codes "/api/facility")
          ((codes "park", config.park_id) ∷ (codes "facilities", codes "true") ∷ [])
    facilities ← parse_facilities c config.park_id facility_value
    facility ← select_facility config.facility config.slot provider facilities
    reservation_value ←
        get_json s client config headers (codes "/api/reservation")
          ((codes "facility", config.facility) ∷ (codes "park", config.park_id) ∷ [])
    reservations ← parse_reservations c reservation_value
    opportunities ← build_opportunities c config park.name provider facility reservations
    finish_check now opportunities
