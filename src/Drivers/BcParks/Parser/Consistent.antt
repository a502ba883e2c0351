-- ===== src/Drivers/BcParks/Parser/Consistent.antt =====
-- What `parse_reservations` of web_checker/drivers/bcparks_dayuse/parser.py accepts.
use web_checker_py.Prelude.{
  some_or, differ, differ-false, not-false, ℕ, ◌≤◌, true, false, not, ◌&&◌, Option, none, some,
  List, [], ◌∷◌, contains, All, All-append, Text, codes, leb, ◌==◌, nat_eq, text_eq, text_lt, ok,
  raise_if-eq-ok, bind-eq-ok, ok-injective, ◌≡◌, refl, subst, arith, IsOrdered, order_by-IsOrdered,
  order_by-All,
}
use web_checker_py.Time.Dates.{Date}
use web_checker_py.Config.Values.{
  as_number, get, Numbers, Value, Items, no_items, item, name, no_name,
}
use web_checker_py.Drivers.BcParks.Models.{parse_error, not_an_integer, Calendar, ReservationSlot}
use web_checker_py.Drivers.BcParks.Parser.{as_object, as_text, as_integer, within}
use web_checker_py.Drivers.BcParks.Parser.Reservations.{
  known_slots, known_capacity_states, slot_before, is_empty, parse_slot, parse_slots, read_date,
  parse_dates, parse_reservations,
}

pub record IsConsistent (r : ReservationSlot) : Type 0 where
  pub slot : contains known_slots r.slot ≡ true
  pub capacity : contains known_capacity_states r.capacity ≡ true
  pub bounded : r.max_reservable ≤ 100
  pub full : (r.capacity == codes "Full") ≡ (r.max_reservable == 0)

text_lt-asymmetric : (s t : Text) → text_lt s t ≡ true → text_lt t s ≡ false
text_lt-asymmetric [] [] h = refl
text_lt-asymmetric [] (y ∷ t) h = refl
text_lt-asymmetric (x ∷ s) [] h = cc
text_lt-asymmetric (x ∷ s) (y ∷ t) h = ground (arith, text_lt-asymmetric s t)

slot_before-asymmetric : (a b : ReservationSlot) → slot_before a b ≡ true → slot_before b a ≡ false
slot_before-asymmetric a b h = ground (arith, text_lt-asymmetric a.slot b.slot)

within-le : (lo hi : ℕ) (o : Option ℕ) (k : ℕ) → within lo hi o ≡ ok k → (lo ≤ k) × (k ≤ hi)
unfolding within
within-le lo hi none k h = cc
within-le lo hi (some j) k h =
    let (good, last) = raise_if-eq-ok (not (leb lo j && leb j hi)) _ _ h in
    subst (λ i. (lo ≤ i) × (i ≤ hi)) (ok-injective j k last)
      (ground (arith, good), ground (arith, good))

module _ {n : Numbers} where
  pub as_integer-le :
      (lo hi : ℕ) (v : Value n) (k : ℕ) → as_integer lo hi v ≡ ok k → (lo ≤ k) × (k ≤ hi)
  unfolding as_integer
  as_integer-le lo hi v k h =
      let (x, e, rest) = bind-eq-ok (some_or (parse_error not_an_integer) (as_number v)) _ h in
      within-le lo hi (n.whole x) k rest

  parse_slot-IsConsistent :
      (d : Date) (slot : Text) (raw : Value n) (r : ReservationSlot)
      → parse_slot d slot raw ≡ ok r
      → IsConsistent r
  unfolding parse_slot
  parse_slot-IsConsistent d slot raw r h =
      let (known, h1) = raise_if-eq-ok (not (contains known_slots slot)) _ _ h in
      let (fields, e2, h2) = bind-eq-ok (as_object raw) _ h1 in
      let (capacity, e3, h3) = bind-eq-ok (as_text (get (codes "capacity") fields)) _ h2 in
      let (state, h4) = raise_if-eq-ok (not (contains known_capacity_states capacity)) _ _ h3 in
      let (most, e5, h5) = bind-eq-ok (as_integer 0 100 (get (codes "max") fields)) _ h4 in
      let (agree, h6) = raise_if-eq-ok (differ (capacity == codes "Full") (most == 0)) _ _ h5 in
      subst IsConsistent (ok-injective _ r h6) (record {
        slot = not-false _ known;
        capacity = not-false _ state;
        bounded = (as_integer-le 0 100 _ most e5).1;
        full = differ-false _ _ agree;
      })

  parse_slots-IsConsistent :
      (d : Date) (items : Items n) (rs : List ReservationSlot)
      → parse_slots d items ≡ ok rs
      → All IsConsistent rs
  unfolding parse_slots
  parse_slots-IsConsistent d no_items rs h = subst (All IsConsistent) (ok-injective _ rs h) tt
  parse_slots-IsConsistent d (item no_name raw rest) rs h = cc
  parse_slots-IsConsistent d (item (name slot) raw rest) rs h =
      let (r, e1, h1) = bind-eq-ok (parse_slot d slot raw) _ h in
      let (later, e2, h2) = bind-eq-ok (parse_slots d rest) _ h1 in
      subst (All IsConsistent) (ok-injective _ rs h2)
        (parse_slot-IsConsistent d slot raw r e1, parse_slots-IsConsistent d rest later e2)

  parse_dates-IsConsistent :
      (c : Calendar) (items : Items n) (rs : List ReservationSlot)
      → parse_dates c items ≡ ok rs
      → All IsConsistent rs
  unfolding parse_dates
  parse_dates-IsConsistent c no_items rs h = subst (All IsConsistent) (ok-injective _ rs h) tt
  parse_dates-IsConsistent c (item no_name raw rest) rs h = cc
  parse_dates-IsConsistent c (item (name key) raw rest) rs h =
      let (d, e1, h1) = bind-eq-ok (read_date c key) _ h in
      let (slots, e2, h2) = bind-eq-ok (as_object raw) _ h1 in
      let (some_slot, h3) = raise_if-eq-ok (is_empty slots) _ _ h2 in
      let (first, e4, h4) = bind-eq-ok (parse_slots d slots) _ h3 in
      let (later, e5, h5) = bind-eq-ok (parse_dates c rest) _ h4 in
      subst (All IsConsistent) (ok-injective _ rs h5) (
        All-append IsConsistent first later (parse_slots-IsConsistent d slots first e4)
          (parse_dates-IsConsistent c rest later e5))

  -- Every reservation that is parsed names a known slot and a known state of its capacity, counts
  -- at most 100 places, and counts none exactly if its state is Full. They come ordered by date and
  -- then by slot.
  pub parse_reservations-IsConsistent :
      (c : Calendar) (value : Value n) (rs : List ReservationSlot)
      → parse_reservations c value ≡ ok rs
      → All IsConsistent rs × IsOrdered slot_before rs
  unfolding parse_reservations
  parse_reservations-IsConsistent c value rs h =
      let (response, e1, h1) = bind-eq-ok (as_object value) _ h in
      let (some_date, h2) = raise_if-eq-ok (is_empty response) _ _ h1 in
      let (parsed, e3, h3) = bind-eq-ok (parse_dates c response) _ h2 in
      subst (λ l. All IsConsistent l × IsOrdered slot_before l) (ok-injective _ rs h3)
        (
          order_by-All IsConsistent slot_before parsed
              (parse_dates-IsConsistent c response parsed e3),
          order_by-IsOrdered slot_before slot_before-asymmetric parsed,
        )
