-- ===== src/MockSite/Defaults.antt =====
-- The state that `reset` of `BCParksMockState` in mock_site/bcparks.py sets.
use web_checker_py.Prelude.{ℕ, Bool, true, false, List, [], ◌∷◌, ◌++◌, Text, codes}
use web_checker_py.Config.Values.{
  Numbers, Value, null, boolean, number, text, mapping, Items, no_items, item, name,
}
use web_checker_py.MockSite.State.{Capacity, full, high, Places, Days, Behavior, MockState}

abbrev default_current_time : Text
default_current_time = codes "2026-08-15T11:02:02.458Z"

-- `{slot: {"capacity": ..., "max": ...} for slot in slots}`
abbrev pub each_slot : Capacity → ℕ → List Text → List (Text × Places)
each_slot capacity most [] = []
each_slot capacity most (slot ∷ slots) =
    (slot, record { capacity = capacity; most = most }) ∷ each_slot capacity most slots

-- `_availability`
abbrev pub availability : List Text → ℕ → Days
availability slots pass_limit =
    (codes "2026-08-15", each_slot full 0 slots)
    ∷ (codes "2026-08-16", each_slot full 0 slots)
    ∷ (codes "2026-08-17", each_slot high pass_limit slots)
    ∷ []

abbrev pub am_pm : List Text
am_pm = codes "AM" ∷ codes "PM" ∷ []

abbrev pub day_only : List Text
day_only = codes "DAY" ∷ []

abbrev pub default_reservations : List ((Text × Text) × Days)
default_reservations =
    ((codes "0007", codes "Cheakamus"), availability am_pm 1)
    ∷ ((codes "0007", codes "Diamond Head"), availability day_only 1)
    ∷ ((codes "0007", codes "Rubble Creek"), availability day_only 1)
    ∷ ((codes "0008", codes "Alouette Lake Boat Launch Parking"), availability day_only 1)
    ∷ ((codes "0008", codes "Alouette Lake South Beach Day-Use Parking Lot"), availability am_pm 1)
    ∷ ((codes "0008", codes "Gold Creek Parking Lot"), availability am_pm 1)
    ∷ ((codes "0008", codes "West Canyon Trailhead Parking Lot"), availability am_pm 1)
    ∷ ((codes "0363", codes "Joffre Lakes"), availability day_only 4)
    ∷ []

module _ (n : Numbers) where
  abbrev park : Text → Text → Text → Value n → Items n
  park sk label status warning = item (name (codes "pk")) (text (codes "park")) (
      item (name (codes "sk")) (text sk) (
        item (name (codes "name")) (text label) (
          item (name (codes "status")) (text status) (
            item (name (codes "visible")) (boolean true) (
              item (name (codes "specialClosure")) null (
                item (name (codes "specialClosureText")) null
                  (item (name (codes "winterWarning")) warning no_items)))))))

  abbrev pub default_parks : List (Text × Items n)
  default_parks =
      (
        codes "0007",
        park (codes "0007") (codes "Garibaldi Provincial Park") (codes "open") (boolean false),
      )
      ∷ (
        codes "0008",
        park (codes "0008") (codes "Golden Ears Provincial Park") (codes "open") null,
      )
      ∷ (
        codes "0015",
        park (codes "0015") (codes "Mount Seymour Provincial Park") (codes "closed") (boolean true),
      )
      ∷ (
        codes "0363",
        park (codes "0363") (codes "Joffre Lakes Provincial Park") (codes "open") null,
      )
      ∷ []

  -- `ALL_DAYS`, and `FRIDAY_TO_MONDAY` without the days in between
  abbrev booking_days : Bool → Value n
  booking_days midweek = mapping (
      item (name (codes "1")) (boolean true) (
        item (name (codes "2")) (boolean midweek) (
          item (name (codes "3")) (boolean midweek) (
            item (name (codes "4")) (boolean midweek) (
              item (name (codes "5")) (boolean true) (
                item (name (codes "6")) (boolean true)
                  (item (name (codes "7")) (boolean true) no_items)))))))

  abbrev booking_times : List (Text × ℕ) → Items n
  booking_times [] = no_items
  booking_times (p ∷ ps) =
      item (name p.0) (mapping (item (name (codes "max")) (number (n.of_nat p.1)) no_items))
        (booking_times ps)

  -- `_facility`, under its name
  abbrev facility : Text → Text → Text → Bool → List (Text × ℕ) → Text × Items n
  facility park_id label kind midweek times = (
    label,
    item (name (codes "pk")) (text (codes "facility::" ++ park_id)) (
        item (name (codes "sk")) (text label) (
          item (name (codes "name")) (text label) (
            item (name (codes "type")) (text kind) (
              item (name (codes "visible")) (boolean true) (
                item (name (codes "status"))
                  (mapping (
                    item (name (codes "state")) (text (codes "open"))
                      (item (name (codes "stateReason")) null no_items)))
                  (item (name (codes "bookingDaysAhead")) (number (n.of_nat 2)) (
                    item (name (codes "bookingOpeningHour")) (number (n.of_nat 7)) (
                      item (name (codes "bookingDays")) (booking_days midweek) (
                        item (name (codes "bookingTimes")) (mapping (booking_times times)) (
                          item (name (codes "bookableHolidays")) (mapping no_items) (
                            item (name (codes "qrcode")) (boolean true) (
                              item (name (codes "isUpdating")) (boolean false) no_items)))))))))))),
  )

  abbrev pub default_facilities : List (Text × List (Text × Items n))
  default_facilities =
      (
        codes "0007",
        facility (codes "0007") (codes "Cheakamus") (codes "Parking") true
              ((codes "AM", 49) ∷ (codes "PM", 39) ∷ [])
            ∷ facility (codes "0007") (codes "Diamond Head") (codes "Parking") false
                ((codes "DAY", 55) ∷ [])
            ∷ facility (codes "0007") (codes "Rubble Creek") (codes "Parking") false
                ((codes "DAY", 230) ∷ [])
            ∷ [],
      )
      ∷ (
        codes "0008",
        facility (codes "0008") (codes "Alouette Lake Boat Launch Parking") (codes "Parking") false
              ((codes "DAY", 100) ∷ [])
            ∷ facility (codes "0008") (codes "Alouette Lake South Beach Day-Use Parking Lot")
                (codes "Parking") false ((codes "AM", 790) ∷ (codes "PM", 420) ∷ [])
            ∷ facility (codes "0008") (codes "Gold Creek Parking Lot") (codes "Parking") false
                ((codes "AM", 110) ∷ (codes "PM", 60) ∷ [])
            ∷ facility (codes "0008") (codes "West Canyon Trailhead Parking Lot") (codes "Parking")
                false ((codes "AM", 55) ∷ (codes "PM", 30) ∷ [])
            ∷ [],
      )
      ∷ (
        codes "0363",
        facility (codes "0363") (codes "Joffre Lakes") (codes "Trail") true
              ((codes "DAY", 570) ∷ [])
            ∷ [],
      )
      ∷ []

  abbrev pub default_behavior : Behavior n
  default_behavior = record {
    delay_seconds = n.of_nat 0;
    status_code = 200;
    malformed = false;
    is_empty = false;
  }

  -- `DEFAULT_CONFIG`
  abbrev pub default_config : Items n
  default_config = item (name (codes "debugMode")) (boolean false) (
      item (name (codes "API_PUBLIC_PATH")) (text (codes "/api")) (
        item (name (codes "PARKING_PASS_LIMIT")) (number (n.of_nat 1)) (
          item (name (codes "ADVANCE_BOOKING_LIMIT")) (number (n.of_nat 3)) (
            item (name (codes "ADVANCE_BOOKING_HOUR")) (number (n.of_nat 7)) (
              item (name (codes "TRAIL_PASS_LIMIT")) (number (n.of_nat 4)) (
                item (name (codes "ENVIRONMENT")) (text (codes "mock")) (
                  item (name (codes "API_LOCATION")) (text (codes "http://mock-site:8080/bcparks"))
                    (item (name (codes "API_PATH")) (text (codes "/api")) no_items))))))))

  -- `reset`
  unfoldable pub reset : MockState n
  reset = record {
    parks = default_parks;
    facilities = default_facilities;
    reservations = default_reservations;
    current_time = default_current_time;
    behavior = default_behavior;
  }
