-- ===== src/Tests/DayUse.antt =====
-- The theorems on the BC Parks driver at a provider with one park, one facility and one date.
use web_checker_py.Prelude.{
  true, some, [], ◌∷◌, All, contains, codes, Text, is_space, strip, lstrip, order_by, insert_by,
  decimal, text_eq, ok, ◌≡◌, refl, IsOrdered,
}
use web_checker_py.Time.{DateTime, fromisoformat, isoformat}
use web_checker_py.Time.Dates.{date_eq, date_of, date_iso, isoweekday, plus_days, minus_days}
use web_checker_py.Core.Models.{ids, is_blank, is_blank_url, make_opportunity, make_check_result}
use web_checker_py.Config.Values.{as_string, as_number, as_mapping, is_text, lookup, only_fields}
use web_checker_py.Drivers.BcParks.Models.{ProviderConfig, Facility}
use web_checker_py.Drivers.BcParks.Parser.{
  names_only, as_object, non_empty_list, as_text, as_boolean, within, as_integer,
  parse_provider_config, parse_park, parse_park_items, parse_parks,
}
use web_checker_py.Drivers.BcParks.Parser.Facilities.{
  replace_z, has_fields, read_days, parse_booking_days, read_times, parse_booking_times,
  read_holiday, read_holidays, parse_holidays, read_timestamp, parse_timestamp, parse_facility,
  parse_facility_items, parse_facilities,
}
use web_checker_py.Drivers.BcParks.Parser.Reservations.{
  is_empty, parse_slot, parse_slots, parse_dates, parse_reservations, slot_before,
}
use web_checker_py.Drivers.BcParks.Parser.Consistent.{IsConsistent, parse_reservations-IsConsistent}
use web_checker_py.Drivers.BcParks.Config.{
  rstrip_slash, check_url, checked_bytes, string_of, read_app_version, read_timeout, read_max_bytes,
  make_day_use_config, parse_config,
}
use web_checker_py.Drivers.BcParks.Config.Valid.{IsValidConfig, parse_config-IsValidConfig}
use web_checker_py.Drivers.BcParks.Responses.{
  is_part, read_body, decode_json, read_response, get_json,
}
use web_checker_py.Drivers.BcParks.Windows.{
  expected_dates, slot_hours, slot_window, pass_limit, classify,
}
use web_checker_py.Drivers.BcParks.Slots.{
  slot_id, slot_title, slot_attributes, slot_opportunity, consider_window, consider, consider_all,
  build_opportunities,
}
use web_checker_py.Drivers.BcParks.Driver.{
  origin, request_headers, select_park, select_facility, finish_check, check_day_use,
}
use web_checker_py.Drivers.BcParks.Driver.Report.{IsReport, check_day_use-IsReport}
use web_checker_py.Drivers.BcParks.Slots.Sound.{IsReported, build_opportunities-IsReported}
use web_checker_py.Drivers.BcParks.Slots.Window.{build_opportunities-id}
use web_checker_py.Drivers.BcParks.Responses.Bounds.{of_chunks, limited, read_body-of_chunks}
use web_checker_py.Tests.Documents.{whole_numbers}
use web_checker_py.Tests.DayUseSite.{
  day, summer, calendar, strings, settings, reservation_value, client, clock, provider_time, found,
  result, reservation, day_config,
}

reads_config : parse_config strings settings ≡ ok day_config
unfolding only_fields lookup has_fields rstrip_slash check_url checked_bytes string_of as_string
    as_number read_app_version read_timeout read_max_bytes make_day_use_config parse_config strip
    lstrip is_space
reads_config = refl

reads_reservations : parse_reservations calendar reservation_value ≡ ok (reservation ∷ [])
unfolding as_string as_number as_mapping names_only as_object as_text within as_integer lookup
    is_empty parse_slot parse_slots parse_dates parse_reservations order_by insert_by strip lstrip
    is_space
reads_reservations = refl

checks : check_day_use calendar strings client clock settings ≡ ok result
unfolding as_string as_number as_mapping names_only as_object non_empty_list as_text as_boolean
    within as_integer is_text parse_provider_config parse_park parse_park_items parse_parks
    replace_z has_fields read_days parse_booking_days read_times parse_booking_times read_holiday
    read_holidays parse_holidays read_timestamp parse_timestamp parse_facility parse_facility_items
    parse_facilities is_empty parse_slot parse_slots parse_dates parse_reservations rstrip_slash
    check_url checked_bytes string_of read_app_version read_timeout read_max_bytes
    make_day_use_config parse_config is_part read_body decode_json read_response get_json
    expected_dates slot_hours slot_window pass_limit classify slot_id slot_title slot_attributes
    slot_opportunity consider_window consider consider_all build_opportunities origin
    request_headers select_park select_facility finish_check check_day_use lookup only_fields strip
    lstrip is_space order_by insert_by decimal fromisoformat isoformat date_iso isoweekday plus_days
    minus_days is_blank is_blank_url make_opportunity make_check_result
checks = refl

parse_config-IsValidConfig_example : IsValidConfig whole_numbers strings day_config
parse_config-IsValidConfig_example =
    parse_config-IsValidConfig strings settings day_config reads_config

parse_reservations-IsConsistent_example :
    All IsConsistent (reservation ∷ []) × IsOrdered slot_before (reservation ∷ [])
parse_reservations-IsConsistent_example =
    parse_reservations-IsConsistent calendar reservation_value (reservation ∷ []) reads_reservations

check_day_use-IsReport_example : IsReport clock result
check_day_use-IsReport_example =
    check_day_use-IsReport calendar strings client clock settings result checks

abbrev provider : ProviderConfig
provider = record {
  advance_booking_limit = 1;
  advance_booking_hour = 7;
  parking_pass_limit = 1;
  trail_pass_limit = 4;
}

abbrev lakes : Facility
lakes = record {
  park_id = codes "0363";
  name = codes "Joffre Lakes";
  kind = codes "Trail";
  status = codes "open";
  visible = true;
  booking_days_ahead = 0;
  booking_opening_hour = 7;
  booking_days =
      (1, true) ∷ (2, true) ∷ (3, true) ∷ (4, true) ∷ (5, true) ∷ (6, true) ∷ (7, true) ∷ [];
  booking_times = (codes "DAY", 570) ∷ [];
  bookable_holidays = [];
  current_time = provider_time;
}

abbrev park_name : Text
park_name = codes "Joffre Lakes Provincial Park"

builds :
    build_opportunities calendar day_config park_name provider lakes (reservation ∷ [])
    ≡ ok (found ∷ [])
unfolding expected_dates slot_hours slot_window pass_limit classify slot_id slot_title
    slot_attributes slot_opportunity consider_window consider consider_all build_opportunities strip
    lstrip is_space isoformat date_iso isoweekday plus_days minus_days is_blank is_blank_url
    make_opportunity
builds = refl

build_opportunities-IsReported_example :
    All (IsReported calendar day_config park_name provider lakes IsConsistent) (found ∷ [])
build_opportunities-IsReported_example =
    build_opportunities-IsReported calendar day_config park_name provider lakes IsConsistent
      (reservation ∷ []) (found ∷ [])
      (parse_reservations-IsConsistent calendar reservation_value (reservation ∷ [])
        reads_reservations).0
      builds

abbrev local_now : DateTime
local_now = record provider_time { hour = 11; utcoffset = some summer }

abbrev day_window : DateTime × DateTime
day_window = (
  record clock { hour = 7; minute = 0; utcoffset = some summer },
  record clock { hour = 15; minute = 30; utcoffset = some summer },
)

in_expected : expected_dates 0 (date_of local_now) ≡ some (day ∷ [])
unfolding expected_dates
in_expected = refl

in_window : slot_window calendar (codes "0363") day (codes "DAY") ≡ ok day_window
unfolding slot_window slot_hours
in_window = refl

build_opportunities-id_example :
    contains
      (ids (found ∷ []))
      (strip (slot_id (codes "0363") (codes "Joffre Lakes") day (codes "DAY")))
    ≡ true
build_opportunities-id_example =
    build_opportunities-id calendar day_config park_name provider lakes (reservation ∷ [])
      (found ∷ []) local_now (day ∷ []) day day_window builds refl in_expected refl in_window refl

read_body-of_chunks_example :
    read_body 3 [] (of_chunks (codes "ab" ∷ codes "cd" ∷ [])) ≡ limited 3 (codes "abcd")
read_body-of_chunks_example = read_body-of_chunks 3 (codes "ab" ∷ codes "cd" ∷ [])
