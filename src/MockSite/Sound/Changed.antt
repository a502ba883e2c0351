-- ===== src/MockSite/Sound/Changed.antt =====
-- A change of one reservation by the controls of mock_site/bcparks.py keeps the reservations sound.
use web_checker_py.Prelude.{
  some-injective, ℕ, ◌≤◌, true, false, not, Option, none, some, List, [], ◌∷◌, contains, All, Text,
  codes, is_none, leb, differ, differ-false, ◌==◌, nat_eq, text_eq, ok, raise_if-eq-ok, bind-eq-ok,
  ok-injective, ◌≡◌, refl, sym, subst, ◌∙◌, arith, Bool-cases, Option-cases, inl, inr,
}
use web_checker_py.Time.Dates.{date_eq}
use web_checker_py.Config.Values.{
  get, Numbers, Value, null, boolean, number, text, sequence, mapping,
}
use web_checker_py.Drivers.BcParks.Parser.Reservations.{known_slots}
use web_checker_py.MockSite.State.{
  Capacity, full, low, medium, high, Places, MockState, bad_request, not_found, or_fail, entry,
  set_entry, find_days, as_key, update_reservation,
}
use web_checker_py.MockSite.Controls.{
  capacity_value, read_capacity, checked_most, json_object, one_of, a_most, control_reservation,
}
use web_checker_py.MockSite.Sound.{
  IsPlaces, IsSlot, IsDay, IsDays, IsSound, entry-All, set_entry-All, length-set_entry,
  or_fail-eq-ok, find_days-All, set_days-All,
}

named_capacity :
    (s t : Text) (c x : Capacity)
    → (s == t) ≡ true
    → some x ≡ some c
    → capacity_value x ≡ t
    → capacity_value c ≡ s
named_capacity s t c x same found value =
    subst (λ y. capacity_value y ≡ s) (some-injective x c found)
      (value ∙ sym ((text_eq.equal_iff s t).0 same))

read_capacity-eq-some : (s : Text) (c : Capacity) → read_capacity s ≡ some c → capacity_value c ≡ s
unfolding read_capacity capacity_value
read_capacity-eq-some s c h = elim (Bool-cases (s == codes "Full")) [
  | inl e ↦ named_capacity s (codes "Full") c full e (rw e at h) refl
  | inr e ↦ elim (Bool-cases (s == codes "Low")) [
    | inl f ↦ named_capacity s (codes "Low") c low f (rw (e, f) at h) refl
    | inr f ↦ elim (Bool-cases (s == codes "Medium")) [
      | inl g ↦ named_capacity s (codes "Medium") c medium g (rw (e, f, g) at h) refl
      | inr g ↦ elim (Bool-cases (s == codes "High")) [
        | inl k ↦ named_capacity s (codes "High") c high k (rw (e, f, g, k) at h) refl
        | inr k ↦ let clash = rw (e, f, g, k) at h in cc
      ]
    ]
  ]
]

-- A slot that is there is a known one.
entry_known :
    (slot : Text) (slots : List (Text × Places))
    → All IsSlot slots
    → is_none (entry slot slots) ≡ false
    → contains known_slots slot ≡ true
entry_known slot slots h there = elim (Option-cases (entry slot slots)) [
  | inl e ↦ let clash = rw e at there in cc
  | inr (p, e) ↦ (entry-All IsSlot slot slots p h e).0
]

checked_most-le : (o : Option ℕ) (k : ℕ) → checked_most o ≡ ok k → k ≤ 100
unfolding checked_most
checked_most-le none k h = cc
checked_most-le (some j) k h =
    let (good, last) = raise_if-eq-ok (not (leb j 100)) bad_request _ h in
    subst (λ i. i ≤ 100) (ok-injective j k last) (ground (arith, good))

module _ {n : Numbers} where
  a_most-le : (v : Value n) (k : ℕ) → a_most v ≡ ok k → k ≤ 100
  unfolding a_most
  a_most-le (number x) k h = checked_most-le (n.whole x) k h
  a_most-le null k h = cc
  a_most-le (boolean b) k h = cc
  a_most-le (text s) k h = cc
  a_most-le (sequence vs) k h = cc
  a_most-le (mapping is) k h = cc

  update_reservation-IsSound :
      (park facility : Text) (date slot : Value n) (places : Places) (s t : MockState n)
      → IsSound s
      → IsPlaces places
      → update_reservation park facility date slot places s ≡ ok t
      → IsSound t
  unfolding update_reservation
  update_reservation-IsSound park facility date slot places s t sound fine h =
      let (days, e1, h1) =
        bind-eq-ok (or_fail not_found (find_days park facility s.reservations)) _ h in
      let (day, e2, h2) = bind-eq-ok (as_key date) _ h1 in
      let (slots, e3, h3) = bind-eq-ok (or_fail not_found (entry day days)) _ h2 in
      let (name, e4, h4) = bind-eq-ok (as_key slot) _ h3 in
      let (there, h5) = raise_if-eq-ok (is_none (entry name slots)) not_found _ h4 in
      let sound_days =
        find_days-All IsDays park facility s.reservations days sound
          (or_fail-eq-ok not_found _ e1) in
      let old = entry-All IsDay day days slots sound_days.1 (or_fail-eq-ok not_found _ e3) in
      let known = entry_known name slots old.slots there in
      let new : IsDay (day, set_entry name places slots) = record {
        date = old.date;
        is_date = old.is_date;
        key = old.key;
        some_slot = omega (arith, old.some_slot, length-set_entry name places slots);
        slots = set_entry-All IsSlot name places slots old.slots (known, fine);
      } in
      subst IsSound (ok-injective _ t h5) (
        set_days-All IsDays park facility _ s.reservations sound (
          omega (arith, sound_days.0, length-set_entry day (set_entry name places slots) days),
          set_entry-All IsDay day (set_entry name places slots) days sound_days.1 new,
        ))

  -- `control_reservation`
  pub control_reservation-IsSound :
      (body : Value n) (s t : MockState n)
      → IsSound s
      → control_reservation body s ≡ ok t
      → IsSound t
  unfolding control_reservation
  control_reservation-IsSound body s t sound h =
      let (items, e1, h1) = bind-eq-ok (json_object body) _ h in
      let (exact, h2) = raise_if-eq-ok _ _ _ h1 in
      let (label, e3, h3) =
        bind-eq-ok
          (one_of (codes "Full" ∷ codes "Low" ∷ codes "Medium" ∷ codes "High" ∷ [])
            (get (codes "capacity") items))
          _ h2 in
      let (capacity, e4, h4) = bind-eq-ok (or_fail bad_request (read_capacity label)) _ h3 in
      let (most, e5, h5) = bind-eq-ok (a_most (get (codes "max") items)) _ h4 in
      let (agree, h6) = raise_if-eq-ok (differ (label == codes "Full") (most == 0)) _ _ h5 in
      let (hashed, h7) = raise_if-eq-ok _ _ _ h6 in
      let (park, e8, h8) = bind-eq-ok (as_key (get (codes "park_id") items)) _ h7 in
      let (facility, e9, h9) = bind-eq-ok (as_key (get (codes "facility") items)) _ h8 in
      let same = read_capacity-eq-some label capacity (or_fail-eq-ok bad_request _ e4) in
      let full_iff =
        subst (λ x. (x == codes "Full") ≡ (most == 0)) (sym same) (differ-false _ _ agree) in
      update_reservation-IsSound park facility _ _ (record { capacity = capacity; most = most }) s t
        sound (a_most-le _ most e5, full_iff) h9
