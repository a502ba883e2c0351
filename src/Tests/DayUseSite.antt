-- ===== src/Tests/DayUseSite.antt =====
-- A BC Parks provider with one park, one facility and one date, and what a check of it finds.
use web_checker_py.Prelude.{
  ℕ, ◌-◌, true, false, none, some, List, [], ◌∷◌, codes, Text, leb, ◌==◌, text_eq, if◌then◌else◌,
}
use web_checker_py.Time.{DateTime, Offset, fromisoformat}
use web_checker_py.Time.Dates.{Date, date_eq}
use web_checker_py.Core.Models.{Opportunity, CheckResult, available, Scalar}
use web_checker_py.Config.Values.{
  Value, Items, boolean, number, text, sequence, mapping, no_values, cons, no_items, item, name,
}
use web_checker_py.Drivers.BcParks.Models.{Calendar, ReservationSlot}
use web_checker_py.Drivers.BcParks.Config.{Strings, DayUseConfig, supported_date_strategy}
use web_checker_py.Drivers.BcParks.Responses.{
  complete, chunk, Exchange, Response, answered, failed, Client,
}
use web_checker_py.Tests.Documents.{whole_numbers}

abbrev pub day : Date
day = record { year = 2026; month = 8; day = 15 }

abbrev pub summer : Offset
summer = record { negative = true; hours = 7; minutes = 0; seconds = 0 }

-- Summer in Vancouver, and the ISO text of one date
abbrev pub calendar : Calendar
calendar = record {
  parse_date = λ s. if s == codes "2026-08-15" then some day else none;
  parse_datetime = fromisoformat;
  to_provider = λ t. some (record t { hour = t.hour - 7; utcoffset = some summer });
  offset_at = λ d h m. summer;
}

abbrev pub strings : Strings
strings = record {
  urlsplit = λ s. some (record {
    scheme = codes "http";
    netloc = codes "parks.test";
    username = none;
    password = none;
    query = [];
    fragment = [];
  });
  is_digit = λ c. if leb 48 c then leb c 57 else false;
  lower = λ s. s;
}

abbrev pub V : Type 0
V = Value whole_numbers

abbrev pub settings : Items whole_numbers
settings = item (name (codes "base_url")) (text (codes "http://parks.test/")) (
    item (name (codes "park_id")) (text (codes "0363")) (
      item (name (codes "facility")) (text (codes "Joffre Lakes"))
        (item (name (codes "slot")) (text (codes "DAY")) no_items)))

abbrev pub config_value : V
config_value = mapping (
    item (name (codes "ADVANCE_BOOKING_LIMIT")) (number 1) (
      item (name (codes "ADVANCE_BOOKING_HOUR")) (number 7) (
        item (name (codes "PARKING_PASS_LIMIT")) (number 1)
          (item (name (codes "TRAIL_PASS_LIMIT")) (number 4) no_items))))

abbrev pub park_value : V
park_value = sequence (
    cons
      (mapping (
        item (name (codes "pk")) (text (codes "park")) (
          item (name (codes "sk")) (text (codes "0363")) (
            item (name (codes "name")) (text (codes "Joffre Lakes Provincial Park")) (
              item (name (codes "status")) (text (codes "open"))
                (item (name (codes "visible")) (boolean true) no_items))))))
      no_values)

abbrev pub days_value : List ℕ → Items whole_numbers
days_value [] = no_items
days_value (d ∷ ds) = item (name (d ∷ [])) (boolean true) (days_value ds)

abbrev pub facility_value : V
facility_value = sequence (
    cons
      (mapping (
        item (name (codes "pk")) (text (codes "facility::0363")) (
          item (name (codes "sk")) (text (codes "Joffre Lakes")) (
            item (name (codes "name")) (text (codes "Joffre Lakes")) (
              item (name (codes "type")) (text (codes "Trail")) (
                item (name (codes "visible")) (boolean true) (
                  item (name (codes "status"))
                    (mapping (item (name (codes "state")) (text (codes "open")) no_items))
                    (item (name (codes "bookingDaysAhead")) (number 0) (
                      item (name (codes "bookingOpeningHour")) (number 7) (
                        item (name (codes "bookingDays"))
                          (mapping (days_value (49 ∷ 50 ∷ 51 ∷ 52 ∷ 53 ∷ 54 ∷ 55 ∷ [])))
                          (item (name (codes "bookingTimes"))
                            (mapping (
                              item (name (codes "DAY"))
                                (mapping (item (name (codes "max")) (number 570) no_items))
                                no_items))
                            (item (name (codes "bookableHolidays")) (mapping no_items) (
                              item (name (codes "currentTime"))
                                (text (codes "2026-08-15T18:02:02Z")) no_items)))))))))))))
      no_values)

abbrev pub reservation_value : V
reservation_value = mapping (
    item (name (codes "2026-08-15"))
      (mapping (
        item (name (codes "DAY"))
          (mapping (
            item (name (codes "capacity")) (text (codes "High"))
              (item (name (codes "max")) (number 4) no_items)))
          no_items))
      no_items)

abbrev pub json : Text → Response
json letter = record {
  status_code = 200;
  content_type = codes "application/json; charset=utf-8";
  body = chunk letter complete;
}

-- The answer to a request: a body of one letter, which stands for the JSON text.
abbrev pub answer : Text → Exchange
answer url =
    if url == codes "http://parks.test/api/config"
    then answered (json (codes "c"))
    else if url == codes "http://parks.test/api/park"
    then answered (json (codes "p"))
    else if url == codes "http://parks.test/api/facility"
    then answered (json (codes "f"))
    else if url == codes "http://parks.test/api/reservation"
    then answered (json (codes "r"))
    else failed

abbrev pub client : Client whole_numbers
client = record {
  send = λ headers url params. answer url;
  load_json = λ body.
      if body == codes "c"
      then some config_value
      else if body == codes "p"
      then some park_value
      else if body == codes "f"
      then some facility_value
      else if body == codes "r"
      then some reservation_value
      else none;
}

abbrev pub clock : DateTime
clock = record {
  year = 2026;
  month = 8;
  day = 15;
  hour = 18;
  minute = 3;
  second = 0;
  microsecond = 0;
  utcoffset = some (record { negative = false; hours = 0; minutes = 0; seconds = 0 });
}

abbrev pub provider_time : DateTime
provider_time = record clock { minute = 2; second = 2 }

abbrev pub found : Opportunity
found = record {
  id = codes "0363:Joffre Lakes:2026-08-15:DAY";
  title = codes "Joffre Lakes Provincial Park — Joffre Lakes — DAY on 2026-08-15";
  availability = available;
  starts_at = some (record clock { hour = 7; minute = 0; utcoffset = some summer });
  booking_url = some (codes "http://parks.test/dayuse/");
  attributes =
      (codes "park_id", Scalar.text (codes "0363"))
      ∷ (codes "park", Scalar.text (codes "Joffre Lakes Provincial Park"))
      ∷ (codes "facility", Scalar.text (codes "Joffre Lakes"))
      ∷ (codes "facility_type", Scalar.text (codes "Trail"))
      ∷ (codes "slot", Scalar.text (codes "DAY"))
      ∷ (codes "capacity", Scalar.text (codes "High"))
      ∷ (codes "max_reservable", Scalar.number 4)
      ∷ (codes "configured_capacity", Scalar.number 570)
      ∷ (codes "booking_state", Scalar.text (codes "bookable"))
      ∷ (codes "provider_time", Scalar.text (codes "2026-08-15T18:02:02+00:00"))
      ∷ [];
}

abbrev pub result : CheckResult
result = record { checked_at = clock; opportunities = found ∷ [] }

abbrev pub reservation : ReservationSlot
reservation = record { date = day; slot = codes "DAY"; capacity = codes "High"; max_reservable = 4 }

abbrev pub day_config : DayUseConfig whole_numbers
day_config = record {
  base_url = codes "http://parks.test";
  park_id = codes "0363";
  facility = codes "Joffre Lakes";
  slot = codes "DAY";
  date_strategy = supported_date_strategy;
  app_version = none;
  timeout_seconds = 10;
  max_response_bytes = 262144;
}
