-- ===== src/MockSite/Accepted.antt =====
-- The driver of web_checker/drivers/bcparks_dayuse reads what mock_site/bcparks.py serves.
use web_checker_py.Prelude.{
  ℕ, ◌≤◌, ◌||◌, Bool, true, false, Option, none, some, List, [], ◌∷◌, ◌++◌, contains, All, length,
  map, Text, codes, is_nil, is_space, lstrip, strip, differ, order_by, ◌==◌, nat_eq, text_eq, ok,
  ◌≡◌, refl, subst, arith, Bool-cases, inl, inr,
}
use web_checker_py.Time.Dates.{Date}
use web_checker_py.Config.Values.{
  as_string, as_number, as_mapping, Numbers, Value, mapping, number, text, no_items, item, name,
  lookup,
}
use web_checker_py.Drivers.BcParks.Models.{Calendar, ReservationSlot}
use web_checker_py.Drivers.BcParks.Parser.{names_only, as_object, as_text, within, as_integer}
use web_checker_py.Drivers.BcParks.Parser.Reservations.{
  known_capacity_states, is_empty, parse_slot, parse_slots, parse_dates, read_date, slot_before,
  parse_reservations,
}
use web_checker_py.MockSite.State.{
  Capacity, full, low, medium, high, Places, Days, MockState, find_days,
}
use web_checker_py.MockSite.Controls.{capacity_value}
use web_checker_py.MockSite.Defaults.{reset}
use web_checker_py.MockSite.Routes.{
  json, Control, slot_items, day_items, apply_behavior, get_reservations, found_days,
  after_requests,
}
use web_checker_py.MockSite.Sound.{
  ReadsDates, IsSlot, IsDay, IsDays, IsSound, find_days-All, reset-IsSound,
}
use web_checker_py.MockSite.Sound.Kept.{after_requests-IsSound}

-- The slot that the parser makes of a stored one
abbrev parsed : Date → Text × Places → ReservationSlot
parsed d q = record {
  date = d;
  slot = q.0;
  capacity = capacity_value q.1.capacity;
  max_reservable = q.1.most;
}

as_text-capacity :
    (n : Numbers) (c : Capacity) → as_text {n = n} (text (capacity_value c)) ≡ ok (capacity_value c)
unfolding as_text as_string capacity_value strip lstrip is_space
as_text-capacity n full = refl
as_text-capacity n low = refl
as_text-capacity n medium = refl
as_text-capacity n high = refl

known_capacity : (c : Capacity) → contains known_capacity_states (capacity_value c) ≡ true
unfolding capacity_value
known_capacity full = refl
known_capacity low = refl
known_capacity medium = refl
known_capacity high = refl

differ_refl : (a b : Bool) → a ≡ b → differ a b ≡ false
differ_refl true true h = refl
differ_refl true false h = cc
differ_refl false true h = cc
differ_refl false false h = refl

module _ (n : Numbers) where
  as_integer-of_nat : (k : ℕ) → k ≤ 100 → as_integer {n = n} 0 100 (number (n.of_nat k)) ≡ ok k
  unfolding as_integer as_number within
  as_integer-of_nat k h = rw (n.whole_of_nat k) (ground (arith, h))

  abbrev places_value : Places → Value n
  places_value p = mapping (
      item (name (codes "capacity")) (text (capacity_value p.capacity))
        (item (name (codes "max")) (number (n.of_nat p.most)) no_items))

  parse_slot-eq-ok :
      (d : Date) (q : Text × Places)
      → IsSlot q
      → parse_slot d q.0 (places_value q.1) ≡ ok (parsed d q)
  unfolding parse_slot as_object as_mapping names_only lookup
  parse_slot-eq-ok d q h =
      rw
        (
          h.0,
          as_text-capacity n q.1.capacity,
          known_capacity q.1.capacity,
          as_integer-of_nat q.1.most h.1.0,
          differ_refl _ _ h.1.1,
        )
        refl

  parse_slots-eq-ok :
      (d : Date) (qs : List (Text × Places))
      → All IsSlot qs
      → parse_slots d (slot_items {n = n} qs) ≡ ok (map (parsed d) qs)
  unfolding parse_slots slot_items
  parse_slots-eq-ok d [] h = refl
  parse_slots-eq-ok d (q ∷ qs) h = rw (parse_slot-eq-ok d q h.0, parse_slots-eq-ok d qs h.1) refl

  names_only-slots : (qs : List (Text × Places)) → names_only (slot_items {n = n} qs) ≡ true
  unfolding names_only slot_items
  names_only-slots [] = refl
  names_only-slots (q ∷ qs) = names_only-slots qs

  names_only-days : (days : Days) → names_only (day_items {n = n} days) ≡ true
  unfolding names_only day_items
  names_only-days [] = refl
  names_only-days (p ∷ ps) = names_only-days ps

  is_empty-slots :
      (qs : List (Text × Places)) → 1 ≤ length qs → is_empty (slot_items {n = n} qs) ≡ false
  unfolding is_empty slot_items
  is_empty-slots [] h = ground (arith, h)
  is_empty-slots (q ∷ qs) h = refl

  is_empty-days : (days : Days) → 1 ≤ length days → is_empty (day_items {n = n} days) ≡ false
  unfolding is_empty day_items
  is_empty-days [] h = ground (arith, h)
  is_empty-days (p ∷ ps) h = refl

  found_days-json :
      (o : Option Days) (value : Value n)
      → found_days o ≡ json value
      → (days : Days) × (o ≡ some days) × (mapping (day_items days) ≡ value)
  unfolding found_days
  found_days-json none value h = cc
  found_days-json (some days) value h = (days, refl, cc)

  get_reservations-json :
      (park facility : Text) (value : Value n) (s : MockState n)
      → get_reservations park facility s ≡ json value
      → s.behavior.is_empty ≡ false
      → (days : Days) × (find_days park facility s.reservations ≡ some days)
        × (mapping (day_items days) ≡ value)
  unfolding get_reservations apply_behavior
  get_reservations-json park facility value s h not_empty =
      elim (Bool-cases (s.behavior.status_code == 200)) [
        | inr e ↦ let clash = rw (e) at h in cc
        | inl e ↦ elim (Bool-cases s.behavior.malformed) [
          | inl f ↦ let clash = rw (e, f) at h in cc
          | inr f ↦ elim (Bool-cases (is_nil park || is_nil facility)) [
            | inl g ↦ let clash = rw (e, f, not_empty, g) at h in cc
            | inr g ↦
                found_days-json (find_days park facility s.reservations) value
                  (rw (e, f, not_empty, g) at h)
          ]
        ]
      ]

  module _ (c : Calendar) (reads : ReadsDates c) where
    parse_dates-accepts :
        (days : Days)
        → All IsDay days
        → (rs : List ReservationSlot) × (parse_dates c (day_items {n = n} days) ≡ ok rs)
    unfolding parse_dates day_items as_object as_mapping
    parse_dates-accepts [] h = ([], refl)
    parse_dates-accepts (p ∷ ps) h =
        let day = h.0 in
        let (later, e) = parse_dates-accepts ps h.1 in
        (
          map (parsed day.date) p.1 ++ later,
          rw
              (
                day.key,
                read_date,
                reads.date day.date day.is_date,
                names_only-slots p.1,
                is_empty-slots p.1 day.some_slot,
                parse_slots-eq-ok day.date p.1 day.slots,
                e,
              )
              refl,
        )

    parse_reservations-accepts :
        (days : Days)
        → IsDays days
        → (rs : List ReservationSlot) × (parse_reservations c (mapping (day_items {n = n} days))
            ≡ ok rs)
    unfolding parse_reservations as_object as_mapping
    parse_reservations-accepts days h =
        let (rs, e) = parse_dates-accepts days h.1 in
        (order_by slot_before rs, rw (names_only-days days, is_empty-days days h.0, e) refl)

    -- What the mock API answers with reservations that are not the empty ones of its behavior, the
    -- driver parses, after any requests to the controls since the start.
    pub get_reservations-accepted :
        (enabled : Bool) (requests : List (Control n)) (park facility : Text) (value : Value n)
        (s : MockState n)
        → after_requests enabled c requests (reset n) ≡ s
        → get_reservations park facility s ≡ json value
        → s.behavior.is_empty ≡ false
        → (rs : List ReservationSlot) × (parse_reservations c value ≡ ok rs)
    get_reservations-accepted enabled requests park facility value s reached answer not_empty =
        let (days, found, is_value) =
          get_reservations-json park facility value s answer not_empty in
        let sound =
          subst IsSound reached
            (after_requests-IsSound c reads enabled requests (reset n) (reset-IsSound n)) in
        subst (λ v. (rs : List ReservationSlot) × (parse_reservations c v ≡ ok rs)) is_value
          (parse_reservations-accepts days
            (find_days-All IsDays park facility s.reservations days sound found))
