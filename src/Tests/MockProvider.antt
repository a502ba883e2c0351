-- ===== src/Tests/MockProvider.antt =====
-- The theorems on the mock provider, after one change of a reservation.
use web_checker_py.Prelude.{
  ℕ, true, false, Option, none, some, List, [], ◌∷◌, ◌++◌, Text, codes, ok, ◌≡◌, refl, sym, ap, ◌∙◌,
}
use web_checker_py.Time.{DateTime, fromisoformat}
use web_checker_py.Time.Dates.{Date, date_of}
use web_checker_py.Time.Dates.Midnight.{midnight, midnight_text, fromisoformat-midnight}
use web_checker_py.Config.Values.{
  Value, number, text, mapping, Items, no_items, item, name, lookup, only_fields,
}
use web_checker_py.Drivers.BcParks.Models.{Calendar, ReservationSlot}
use web_checker_py.Drivers.BcParks.Parser.Facilities.{has_fields}
use web_checker_py.Drivers.BcParks.Parser.Reservations.{parse_reservations}
use web_checker_py.MockSite.State.{
  MockState, as_key, or_fail, entry, set_entry, find_days, set_days, update_reservation,
}
use web_checker_py.MockSite.Defaults.{reset}
use web_checker_py.MockSite.Controls.{
  read_capacity, capacity_value, checked_most, json_object, one_of, a_most, is_hashable,
  control_reservation,
}
use web_checker_py.MockSite.Routes.{
  Control, reservation_request, json, day_items, slot_items, apply_behavior, found_days,
  get_reservations, after_requests, settle, control, route,
}
use web_checker_py.MockSite.Sound.{ReadsDates, IsSound, reset-IsSound}
use web_checker_py.MockSite.Sound.Kept.{after_requests-IsSound}
use web_checker_py.MockSite.Accepted.{get_reservations-accepted}
use web_checker_py.Tests.Documents.{whole_numbers}

abbrev read_day : Text → Option DateTime
read_day s = fromisoformat (s ++ midnight_text)

abbrev the_date : Option DateTime → Option Date
the_date none = none
the_date (some t) = some (date_of t)

-- Dates in the form of `isoformat`, and a zone without an offset
abbrev calendar : Calendar
calendar = record {
  parse_date = λ s. the_date (read_day s);
  parse_datetime = read_day;
  to_provider = λ t. some t;
  offset_at = λ d h m. record { negative = false; hours = 0; minutes = 0; seconds = 0 };
}

same_day : (d : Date) (t : DateTime) → some (midnight d) ≡ some t → date_of t ≡ d
same_day d t h = let same : midnight d ≡ t = cc in sym (ap date_of same)

reads : ReadsDates calendar
reads = record {
  date = λ d h. ap the_date (fromisoformat-midnight d h);
  datetime = λ d t h e. same_day d t (sym (fromisoformat-midnight d h) ∙ e);
}

-- The last place of Joffre Lakes on the third day is taken.
abbrev change : Control whole_numbers
change = reservation_request (
    mapping (
      item (name (codes "park_id")) (text (codes "0363")) (
        item (name (codes "facility")) (text (codes "Joffre Lakes")) (
          item (name (codes "date")) (text (codes "2026-08-17")) (
            item (name (codes "slot")) (text (codes "DAY")) (
              item (name (codes "capacity")) (text (codes "Full"))
                (item (name (codes "max")) (number 0) no_items)))))))

abbrev reached : MockState whole_numbers
reached = after_requests true calendar (change ∷ []) (reset whole_numbers)

abbrev day_value : Text → ℕ → Items whole_numbers
day_value capacity most =
    item (name (codes "DAY"))
      (mapping (
        item (name (codes "capacity")) (text capacity)
          (item (name (codes "max")) (number most) no_items)))
      no_items

abbrev served : Value whole_numbers
served = mapping (
    item (name (codes "2026-08-15")) (mapping (day_value (codes "Full") 0)) (
      item (name (codes "2026-08-16")) (mapping (day_value (codes "Full") 0))
        (item (name (codes "2026-08-17")) (mapping (day_value (codes "Full") 0)) no_items)))

serves : get_reservations (codes "0363") (codes "Joffre Lakes") reached ≡ json served
unfolding get_reservations after_requests settle control route control_reservation json_object
    only_fields has_fields lookup one_of or_fail read_capacity a_most checked_most is_hashable
    as_key update_reservation find_days entry set_entry set_days reset apply_behavior found_days
    day_items slot_items capacity_value
serves = refl

still_full : reached.behavior.is_empty ≡ false
unfolding after_requests settle control route control_reservation json_object only_fields has_fields
    lookup one_of or_fail read_capacity a_most checked_most is_hashable as_key update_reservation
    find_days entry set_entry set_days reset
still_full = refl

get_reservations-accepted_example :
    (rs : List ReservationSlot) × (parse_reservations calendar served ≡ ok rs)
get_reservations-accepted_example =
    get_reservations-accepted whole_numbers calendar reads true (change ∷ []) (codes "0363")
      (codes "Joffre Lakes") served reached refl serves still_full

after_requests-IsSound_example : IsSound reached
after_requests-IsSound_example =
    after_requests-IsSound calendar reads true (change ∷ []) (reset whole_numbers)
      (reset-IsSound whole_numbers)
