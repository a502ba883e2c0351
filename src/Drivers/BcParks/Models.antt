-- ===== src/Drivers/BcParks/Models.antt =====
-- models.py and errors.py of web_checker/drivers/bcparks_dayuse, and what of the standard library
-- depends on tables that the program does not hold: ISO texts and the provider's time zone.
use web_checker_py.Prelude.{ℕ, Bool, Option, List, Text}
use web_checker_py.Time.{Offset, DateTime}
use web_checker_py.Time.Dates.{Date}
use web_checker_py.Core.Models.{ValueError}

-- `date.fromisoformat` and `datetime.fromisoformat`, `none` where they raise `ValueError`;
-- `astimezone(PROVIDER_TIMEZONE)`, `none` where it raises `OverflowError`; and the offset that
-- the zone has on a date at an hour and a minute.
pub record Calendar : Type 0 where
  pub parse_date : Text → Option Date
  pub parse_datetime : Text → Option DateTime
  pub to_provider : DateTime → Option DateTime
  pub offset_at : Date → ℕ → ℕ → Offset

pub record ProviderConfig : Type 0 where
  pub advance_booking_limit : ℕ
  pub advance_booking_hour : ℕ
  pub parking_pass_limit : ℕ
  pub trail_pass_limit : ℕ

pub record Park : Type 0 where
  pub id : Text
  pub name : Text
  pub status : Text
  pub visible : Bool

pub record Facility : Type 0 where
  pub park_id : Text
  pub name : Text
  pub kind : Text
  pub status : Text
  pub visible : Bool
  pub booking_days_ahead : ℕ
  pub booking_opening_hour : ℕ
  pub booking_days : List (ℕ × Bool)
  pub booking_times : List (Text × ℕ)
  pub bookable_holidays : List Date
  pub current_time : DateTime

pub record ReservationSlot : Type 0 where
  pub date : Date
  pub slot : Text
  pub capacity : Text
  pub max_reservable : ℕ

-- What a `BCParksParseError` says.
pub data Problem : Type 0 where
  not_an_object bad_keys not_a_list not_a_text not_a_boolean not_an_integer bad_timestamp : Problem
  no_timezone bad_json duplicate_park bad_pk unknown_status duplicate_facility bad_sk : Problem
  unknown_type bad_booking_days no_booking_times unknown_slot bad_date empty_response : Problem
  no_slots unknown_capacity inconsistent_capacity : Problem
  park_absent facility_absent slot_not_offered hours_disagree windows_disagree : Problem
  wrong_dates slot_missing over_limit outside_window no_opportunities : Problem

-- What `check` raises: the subclasses of `BCParksDriverError`, a `ValueError` of the core's
-- models, `OverflowError` and `KeyError`.
pub data BcParksError : Type 0 where
  configuration_error provider_closed request_error timeout_error : BcParksError
  response_error response_too_large overflow_error key_error : BcParksError
  parse_error : Problem → BcParksError
  value_error : ValueError → BcParksError
