-- ===== src/Drivers/BcParks/Slots/Window.antt =====
-- `_build_opportunities` of web_checker/drivers/bcparks_dayuse/driver.py over the booking window.
use web_checker_py.Prelude.{
  some_or, some_or-eq-ok, not-false, Bool, true, false, not, ◌||◌, some, List, [], ◌∷◌, ◌++◌,
  contains, contains-append, contains-append_left, All, Text, any, map-append, filter, strip,
  beq_refl, and-true, or_right, ltb, ◌==◌, nat_eq, text_eq, ok, raise_if-eq-ok, bind-eq-ok,
  ok-injective, ◌≡◌, sym, subst, Bool-cases, inl, inr,
}
use web_checker_py.Time.{DateTime}
use web_checker_py.Time.Dates.{Date, date_eq, date_beq_iff, date_lt, date_of, local_lt, plus_days}
use web_checker_py.Core.Models.{Opportunity, ids}
use web_checker_py.Config.Values.{Numbers}
use web_checker_py.Drivers.BcParks.Models.{
  Calendar, ProviderConfig, Facility, ReservationSlot, overflow_error, parse_error, outside_window,
}
use web_checker_py.Drivers.BcParks.Config.{DayUseConfig}
use web_checker_py.Drivers.BcParks.Windows.{
  is_subset, same_members, expected_dates, slot_window, pass_limit, dates_of,
}
use web_checker_py.Drivers.BcParks.Slots.{
  Scene, slot_id, slot_opportunity, consider_window, consider, consider_all, matching,
  build_opportunities,
}
use web_checker_py.Drivers.BcParks.Slots.Offers.{slot_opportunity-IsOffer}

pub contains-is_subset :
    (a b : List Date) (d : Date) → is_subset a b ≡ true → contains a d ≡ true → contains b d ≡ true
contains-is_subset [] b d h c = cc
contains-is_subset (x ∷ a) b d h c = elim (Bool-cases (x == d)) [
  | inl e ↦ subst (λ y. contains b y ≡ true) ((date_beq_iff x d).0 e) (and-true _ _ h).0
  | inr e ↦ contains-is_subset a b d (and-true _ _ h).1 (rw e at c)
]

pub filter-IsTrue {ℓ} :
    {A : Type ℓ} (p : A → Bool) (xs : List A) → All (λ x. p x ≡ true) (filter p xs)
filter-IsTrue p [] = tt
filter-IsTrue p (x ∷ xs) = elim (Bool-cases (p x)) [
  | inl e ↦ rw e (e, filter-IsTrue p xs)
  | inr e ↦ rw e (filter-IsTrue p xs)
]

pub any-false {ℓ} :
    {A : Type ℓ} (p : A → Bool) (xs : List A) → any p xs ≡ false → All (λ x. p x ≡ false) xs
any-false p [] h = tt
any-false p (x ∷ xs) h = elim (Bool-cases (p x)) [
  | inl e ↦ let clash = rw e at h in cc
  | inr e ↦ (e, any-false p xs (rw e at h))
]

module _ {n : Numbers} (s : Scene n) where
  -- The id of the opportunity on a date
  abbrev id_on : Date → Text → Text
  id_on d slot = strip (slot_id s.config.park_id s.facility.name d slot)

  consider-id :
      (r : ReservationSlot) (w : DateTime × DateTime) (os : List Opportunity)
      → slot_window s.calendar s.config.park_id r.date r.slot ≡ ok w
      → local_lt s.provider_now w.1 ≡ true
      → consider s r ≡ ok os
      → contains (ids os) (id_on r.date r.slot) ≡ true
  unfolding consider consider_window
  consider-id r w os is_w running h =
      let (inside, h1) =
        raise_if-eq-ok (date_lt r.date (date_of s.provider_now) || date_lt s.latest_date r.date)
          (parse_error outside_window) _ h in
      let h2 : consider_window s r w ≡ ok os = rw is_w at h1 in
      let (o, e3, h3) = bind-eq-ok (slot_opportunity s r w.0) _ (rw running at h2) in
      let offer = slot_opportunity-IsOffer s r w.0 o e3 in
      subst (λ l. contains (ids l) (id_on r.date r.slot) ≡ true) (ok-injective (o ∷ []) os h3)
        (rw (offer.id, beq_refl (id_on r.date r.slot)))

  moved :
      (r : ReservationSlot) (d : Date) (slot : Text) (w : DateTime × DateTime)
      → r.date ≡ d
      → r.slot ≡ slot
      → slot_window s.calendar s.config.park_id d slot ≡ ok w
      → slot_window s.calendar s.config.park_id r.date r.slot ≡ ok w
  moved r d slot w same_date same_slot h =
      subst (λ t. slot_window s.calendar s.config.park_id r.date t ≡ ok w) (sym same_slot)
        (subst (λ y. slot_window s.calendar s.config.park_id y slot ≡ ok w) (sym same_date) h)

  consider_all-id :
      (d : Date) (slot : Text) (w : DateTime × DateTime) (rs : List ReservationSlot)
      (os : List Opportunity)
      → slot_window s.calendar s.config.park_id d slot ≡ ok w
      → local_lt s.provider_now w.1 ≡ true
      → All (λ r. (r.slot == slot) ≡ true) rs
      → contains (dates_of rs) d ≡ true
      → consider_all s rs ≡ ok os
      → contains (ids os) (id_on d slot) ≡ true
  unfolding consider_all
  consider_all-id d slot w [] os is_w running q c h = cc
  consider_all-id d slot w (r ∷ rs) os is_w running q c h =
      let (first, e1, h1) = bind-eq-ok (consider s r) _ h in
      let (later, e2, h2) = bind-eq-ok (consider_all s rs) _ h1 in
      let same_slot : r.slot ≡ slot = (text_eq.equal_iff r.slot slot).0 q.0 in
      subst (λ l. contains (ids l) (id_on d slot) ≡ true) (ok-injective (first ++ later) os h2)
        (rw (map-append (λ o. o.id) first later) (elim (Bool-cases (r.date == d)) [
          | inl e ↦
              let same : r.date ≡ d = (date_beq_iff r.date d).0 e in
              contains-append_left (ids first) (ids later) (id_on d slot) (
                subst (λ y. contains (ids first) (id_on y slot) ≡ true) same
                  (subst (λ t. contains (ids first) (id_on r.date t) ≡ true) same_slot
                    (consider-id r w first (moved r d slot w same same_slot is_w) running e1)))
          | inr e ↦
              rw (contains-append (ids first) (ids later) (id_on d slot))
                (or_right _ _ (consider_all-id d slot w rs later is_w running q.1 (rw e at c) e2))
        ]))

module _ {n : Numbers} (c : Calendar) (config : DayUseConfig n) (park_name : Text)
    (provider : ProviderConfig) (facility : Facility) where
  abbrev pub scene : DateTime → Date → Scene n
  scene now latest = record {
    calendar = c;
    config = config;
    park_name = park_name;
    facility = facility;
    provider_now = now;
    latest_date = latest;
  }

  -- The loop of a run that returned
  pub record Run (rs : List ReservationSlot) (os : List Opportunity) : Type 0 where
    pub now : DateTime
    pub latest : Date
    pub dates : List Date
    pub now_is : c.to_provider facility.current_time ≡ some now
    pub latest_is : plus_days facility.booking_days_ahead (date_of now) ≡ some latest
    pub dates_are : expected_dates facility.booking_days_ahead (date_of now) ≡ some dates
    pub covered : same_members (dates_of rs) dates ≡ true
    pub offered : same_members (dates_of (matching config.slot rs)) (dates_of rs) ≡ true
    pub limited :
        any (λ r. ltb (pass_limit provider facility) r.max_reservable) (matching config.slot rs)
        ≡ false
    pub loop : consider_all (scene now latest) (matching config.slot rs) ≡ ok os

  pub build_opportunities-Run :
      (rs : List ReservationSlot) (os : List Opportunity)
      → build_opportunities c config park_name provider facility rs ≡ ok os
      → Run rs os
  unfolding build_opportunities
  build_opportunities-Run rs os h =
      let (now, e1, h1) =
        bind-eq-ok (some_or overflow_error (c.to_provider facility.current_time)) _ h in
      let (latest, e2, h2) =
        bind-eq-ok (some_or overflow_error (plus_days facility.booking_days_ahead (date_of now))) _
          h1 in
      let (dates, e3, h3) =
        bind-eq-ok
          (some_or overflow_error (expected_dates facility.booking_days_ahead (date_of now))) _
          h2 in
      let (covered, h4) = raise_if-eq-ok (not (same_members (dates_of rs) dates)) _ _ h3 in
      let (offered, h5) =
        raise_if-eq-ok (not (same_members (dates_of (matching config.slot rs)) (dates_of rs))) _ _
          h4 in
      let (limited, h6) =
        raise_if-eq-ok
          (any (λ r. ltb (pass_limit provider facility) r.max_reservable) (matching config.slot rs))
          _ _ h5 in
      record {
        now = now;
        latest = latest;
        dates = dates;
        now_is = some_or-eq-ok overflow_error _ e1;
        latest_is = some_or-eq-ok overflow_error _ e2;
        dates_are = some_or-eq-ok overflow_error _ e3;
        covered = not-false _ covered;
        offered = not-false _ offered;
        limited = limited;
        loop = h6;
      }

  -- When the opportunities are built, each date of the booking window on which the slot has not
  -- ended has its opportunity, found under the id of park, facility, date and slot.
  pub build_opportunities-id :
      (rs : List ReservationSlot) (os : List Opportunity) (now : DateTime) (dates : List Date)
      (d : Date) (w : DateTime × DateTime)
      → build_opportunities c config park_name provider facility rs ≡ ok os
      → c.to_provider facility.current_time ≡ some now
      → expected_dates facility.booking_days_ahead (date_of now) ≡ some dates
      → contains dates d ≡ true
      → slot_window c config.park_id d config.slot ≡ ok w
      → local_lt now w.1 ≡ true
      → contains (ids os) (strip (slot_id config.park_id facility.name d config.slot)) ≡ true
  build_opportunities-id rs os now dates d w h is_now are_dates on_d is_w running =
      let run = build_opportunities-Run rs os h in
      let same_now : now ≡ run.now = cc in
      let same_dates : dates ≡ run.dates = cc in
      let in_dates = subst (λ l. contains l d ≡ true) same_dates on_d in
      let in_response =
        contains-is_subset run.dates (dates_of rs) d (and-true _ _ run.covered).1 in_dates in
      let in_matching =
        contains-is_subset (dates_of rs) (dates_of (matching config.slot rs)) d
          (and-true _ _ run.offered).1 in_response in
      consider_all-id (scene run.now run.latest) d config.slot w (matching config.slot rs) os is_w
        (subst (λ t. local_lt t w.1 ≡ true) same_now running)
        (filter-IsTrue (λ r. r.slot == config.slot) rs) in_matching run.loop
