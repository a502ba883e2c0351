-- ===== src/Drivers/BcParks/Slots/Offers.antt =====
-- What the loop of `_build_opportunities` in web_checker/drivers/bcparks_dayuse/driver.py makes of
-- one reservation slot.
use web_checker_py.Prelude.{
  some_or, some_or-eq-ok, Bool, true, false, not, ◌||◌, some, List, [], ◌∷◌, contains, All, Text,
  codes, strip, ◌==◌, nat_eq, text_eq, ok, raise_if-eq-ok, bind-eq-ok, map_err-eq-ok, ok-injective,
  ◌≡◌, refl, subst, arith, Bool-cases, inl, inr, All-append, All-map,
}
use web_checker_py.Time.{DateTime}
use web_checker_py.Time.Dates.{Date, date_eq, date_lt, date_of, isoweekday, local_lt, minus_days}
use web_checker_py.Core.Models.{
  Availability, available, unavailable, Opportunity, Scalar, is_blank, is_blank_url,
  make_opportunity,
}
use web_checker_py.Config.Values.{Numbers}
use web_checker_py.Drivers.BcParks.Models.{
  ReservationSlot, overflow_error, key_error, parse_error, outside_window, value_error,
}
use web_checker_py.Drivers.BcParks.Windows.{value_at, day_at, combine, slot_window, classify}
use web_checker_py.Drivers.BcParks.Slots.{
  Scene, slot_id, slot_attributes, slot_opportunity, consider_window, consider, consider_all,
}

make_opportunity-eq-ok :
    (x o : Opportunity)
    → make_opportunity x ≡ ok o
    → (record x { id = strip x.id; title = strip x.title }) ≡ o
unfolding make_opportunity
make_opportunity-eq-ok x o h =
    let (a, h1) = raise_if-eq-ok (is_blank x.id) _ _ h in
    let (b, h2) = raise_if-eq-ok (is_blank x.title) _ _ h1 in
    let (c, h3) = raise_if-eq-ok (is_blank_url x.booking_url) _ _ h2 in ok-injective _ o h3

-- A slot that is called available, or not, can be booked, and has places left, or has not.
abbrev pub Claims : Bool → Bool → Bool → Availability → Type 0
Claims day opened full a =
    (a ≡ available → (day ≡ true) × (opened ≡ true) × (full ≡ false))
    × (a ≡ unavailable → (day ≡ true) × (opened ≡ true) × (full ≡ true))

classify-Claims :
    (day opened : Bool) (capacity : Text)
    → Claims day opened (capacity == codes "Full") (classify day opened capacity).0
unfolding classify
classify-Claims false opened capacity = (λ h. cc, λ h. cc)
classify-Claims true false capacity = (λ h. cc, λ h. cc)
classify-Claims true true capacity = elim (Bool-cases (capacity == codes "Full")) [
  | inl e ↦ rw e (λ h. cc, λ h. (refl, refl, refl))
  | inr e ↦ rw e (λ h. (refl, refl, refl), λ h. cc)
]

module _ {n : Numbers} (s : Scene n) where
  -- Booking for the day has opened, at the opening hour some days before it.
  abbrev pub has_opened : Date → Bool
  has_opened opening_day = not (
      local_lt s.provider_now (combine s.calendar opening_day (s.facility.booking_opening_hour, 0)))

  -- What an opportunity says of the slot that it stands for
  pub record IsOffer (r : ReservationSlot) (o : Opportunity) : Type 0 where
    pub id : o.id ≡ strip (slot_id s.config.park_id s.facility.name r.date r.slot)
    pub places :
        value_at o.attributes (codes "max_reservable") ≡ some (Scalar.number r.max_reservable)
    pub opening_day : Date
    pub opening : minus_days s.facility.booking_days_ahead r.date ≡ some opening_day
    pub enabled : Bool
    pub weekday : day_at s.facility.booking_days (isoweekday r.date) ≡ some enabled
    pub claims :
        Claims
          (enabled || contains s.facility.bookable_holidays r.date)
          (has_opened opening_day)
          (r.capacity == codes "Full")
          o.availability

  pub slot_opportunity-IsOffer :
      (r : ReservationSlot) (starts_at : DateTime) (o : Opportunity)
      → slot_opportunity s r starts_at ≡ ok o
      → IsOffer r o
  unfolding slot_opportunity slot_attributes
  slot_opportunity-IsOffer r starts_at o h =
      let (day, e1, h1) =
        bind-eq-ok (some_or overflow_error (minus_days s.facility.booking_days_ahead r.date)) _ h in
      let (enabled, e2, h2) =
        bind-eq-ok (some_or key_error (day_at s.facility.booking_days (isoweekday r.date))) _ h1 in
      let (configured, e3, h3) =
        bind-eq-ok (some_or key_error (value_at s.facility.booking_times r.slot)) _ h2 in
      subst (IsOffer r)
        (make_opportunity-eq-ok _ o (map_err-eq-ok value_error (make_opportunity _) h3))
        (record {
          id = refl;
          places = refl;
          opening_day = day;
          opening = some_or-eq-ok overflow_error _ e1;
          enabled = enabled;
          weekday = some_or-eq-ok key_error _ e2;
          claims = classify-Claims _ _ r.capacity;
        })

  -- The opportunity stands for a slot of the window that has not ended.
  pub record IsCurrent (r : ReservationSlot) (o : Opportunity) : Type 0 where
    pub offer : IsOffer r o
    pub not_past : date_lt r.date (date_of s.provider_now) ≡ false
    pub not_late : date_lt s.latest_date r.date ≡ false
    pub window : DateTime × DateTime
    pub slot_window_is : slot_window s.calendar s.config.park_id r.date r.slot ≡ ok window
    pub running : local_lt s.provider_now window.1 ≡ true

  consider_window-offers :
      (r : ReservationSlot) (w : DateTime × DateTime) (os : List Opportunity)
      → consider_window s r w ≡ ok os
      → All (λ o. IsOffer r o × (local_lt s.provider_now w.1 ≡ true)) os
  unfolding consider_window
  consider_window-offers r (starts_at, ends_at) os h =
      elim (Bool-cases (local_lt s.provider_now ends_at)) [
        | inl e ↦
            let (o, e1, h1) = bind-eq-ok (slot_opportunity s r starts_at) _ (rw e at h) in
            subst (All _) (ok-injective _ os h1)
              ((slot_opportunity-IsOffer r starts_at o e1, e), tt)
        | inr e ↦ subst (All _) (ok-injective [] os (rw e at h)) tt
      ]

  consider-IsCurrent :
      (r : ReservationSlot) (os : List Opportunity) → consider s r ≡ ok os → All (IsCurrent r) os
  unfolding consider
  consider-IsCurrent r os h =
      let (inside, h1) =
        raise_if-eq-ok (date_lt r.date (date_of s.provider_now) || date_lt s.latest_date r.date)
          (parse_error outside_window) _ h in
      let (w, e2, h2) = bind-eq-ok (slot_window s.calendar s.config.park_id r.date r.slot) _ h1 in
      All-map os
        (λ o f. record {
          offer = f.0;
          not_past = ground (arith, inside);
          not_late = ground (arith, inside);
          window = w;
          slot_window_is = e2;
          running = f.1;
        })
        (consider_window-offers r w os h2)

  -- Every opportunity of the loop stands for one of its slots.
  pub consider_all-IsCurrent :
      (Q : ReservationSlot → Type 0) (rs : List ReservationSlot) (os : List Opportunity)
      → All Q rs
      → consider_all s rs ≡ ok os
      → All (λ o. (r : ReservationSlot) × Q r × IsCurrent r o) os
  unfolding consider_all
  consider_all-IsCurrent Q [] os q h = subst (All _) (ok-injective [] os h) tt
  consider_all-IsCurrent Q (r ∷ rs) os q h =
      let (first, e1, h1) = bind-eq-ok (consider s r) _ h in
      let (later, e2, h2) = bind-eq-ok (consider_all s rs) _ h1 in
      subst (All _) (ok-injective _ os h2) (
        All-append _ first later
          (All-map first (λ o f. (r, q.0, f)) (consider-IsCurrent r first e1))
          (consider_all-IsCurrent Q rs later q.1 e2))
