-- ===== src/Drivers/BcParks/Slots/Sound.antt =====
-- What `_build_opportunities` of web_checker/drivers/bcparks_dayuse/driver.py reports stands for
-- reservation slots of the response.
use web_checker_py.Prelude.{
  ℕ, ◌≤◌, true, false, some, List, [], ◌∷◌, contains, All, All-map, All-filter, All-contains-key,
  Text, ltb, ◌==◌, nat_eq, text_eq, ok, ◌≡◌, and-true, arith,
}
use web_checker_py.Time.{DateTime}
use web_checker_py.Time.Dates.{Date, date_eq, date_of}
use web_checker_py.Core.Models.{Opportunity}
use web_checker_py.Config.Values.{Numbers}
use web_checker_py.Drivers.BcParks.Models.{Calendar, ProviderConfig, Facility, ReservationSlot}
use web_checker_py.Drivers.BcParks.Config.{DayUseConfig}
use web_checker_py.Drivers.BcParks.Windows.{expected_dates, pass_limit, dates_of}
use web_checker_py.Drivers.BcParks.Slots.{matching, build_opportunities}
use web_checker_py.Drivers.BcParks.Slots.Offers.{IsCurrent, consider_all-IsCurrent}
use web_checker_py.Drivers.BcParks.Slots.Window.{
  scene, build_opportunities-Run, contains-is_subset, filter-IsTrue, any-false,
}

module _ {n : Numbers} where
  -- A slot of the configured name that has a property, is on a date of the booking window and is
  -- within the limit on passes
  pub record IsUsable (config : DayUseConfig n) (limit : ℕ) (dates : List Date)
      (Q : ReservationSlot → Type 0) (r : ReservationSlot) : Type 0 where
    pub slot_is : r.slot ≡ config.slot
    pub limited : r.max_reservable ≤ limit
    pub expected : contains dates r.date ≡ true
    pub has : Q r

  -- An opportunity that the slots account for
  pub record IsReported (c : Calendar) (config : DayUseConfig n) (park_name : Text)
      (provider : ProviderConfig) (facility : Facility) (Q : ReservationSlot → Type 0)
      (o : Opportunity) : Type 0 where
    pub now : DateTime
    pub latest : Date
    pub dates : List Date
    pub now_is : c.to_provider facility.current_time ≡ some now
    pub dates_are : expected_dates facility.booking_days_ahead (date_of now) ≡ some dates
    pub reservation : ReservationSlot
    pub usable : IsUsable config (pass_limit provider facility) dates Q reservation
    pub current : IsCurrent (scene c config park_name provider facility now latest) reservation o

  slot-IsUsable :
      (config : DayUseConfig n) (limit : ℕ) (dates : List Date) (Q : ReservationSlot → Type 0)
      (r : ReservationSlot)
      → (r.slot == config.slot) ≡ true
      → ltb limit r.max_reservable ≡ false
      → contains dates r.date ≡ true
      → Q r
      → IsUsable config limit dates Q r
  slot-IsUsable config limit dates Q r same few dated has = record {
    slot_is = (text_eq.equal_iff r.slot config.slot).0 same;
    limited = ground (arith, few);
    expected = dated;
    has = has;
  }

  slots-IsUsable :
      (config : DayUseConfig n) (limit : ℕ) (dates : List Date) (Q : ReservationSlot → Type 0)
      (rs : List ReservationSlot)
      → All (λ r. (r.slot == config.slot) ≡ true) rs
      → All (λ r. ltb limit r.max_reservable ≡ false) rs
      → All (λ r. contains dates r.date ≡ true) rs
      → All Q rs
      → All (IsUsable config limit dates Q) rs
  slots-IsUsable config limit dates Q [] named few dated has = tt
  slots-IsUsable config limit dates Q (r ∷ rs) named few dated has = (
    slot-IsUsable config limit dates Q r named.0 few.0 dated.0 has.0,
    slots-IsUsable config limit dates Q rs named.1 few.1 dated.1 has.1,
  )

  -- Every opportunity that is built stands for a reservation slot of the response: of the
  -- configured slot, on a date of the booking window, within the limit on passes, and not ended. It
  -- is called available or unavailable only if its day needs a booking and booking has opened, and
  -- then by its capacity. What holds of all reservations holds of this one.
  pub build_opportunities-IsReported :
      (c : Calendar) (config : DayUseConfig n) (park_name : Text) (provider : ProviderConfig)
      (facility : Facility) (Q : ReservationSlot → Type 0) (rs : List ReservationSlot)
      (os : List Opportunity)
      → All Q rs
      → build_opportunities c config park_name provider facility rs ≡ ok os
      → All (IsReported c config park_name provider facility Q) os
  build_opportunities-IsReported c config park_name provider facility Q rs os q h =
      let run = build_opportunities-Run c config park_name provider facility rs os h in
      let slots = matching config.slot rs in
      let named = filter-IsTrue (λ r. r.slot == config.slot) rs in
      let within = any-false _ slots run.limited in
      let has = All-filter Q (λ r. r.slot == config.slot) rs q in
      let dated =
        All-filter (λ r. contains run.dates r.date ≡ true) (λ r. r.slot == config.slot) rs
          (All-map rs
            (λ r. contains-is_subset (dates_of rs) run.dates r.date (and-true _ _ run.covered).0)
            (All-contains-key (λ r. r.date) rs)) in
      let usable = slots-IsUsable config _ run.dates Q slots named within dated has in
      All-map os
        (λ o f. record {
          now = run.now;
          latest = run.latest;
          dates = run.dates;
          now_is = run.now_is;
          dates_are = run.dates_are;
          reservation = f.0;
          usable = f.1;
          current = f.2;
        })
        (consider_all-IsCurrent (scene c config park_name provider facility run.now run.latest)
          (IsUsable config (pass_limit provider facility) run.dates Q) slots os usable run.loop)
