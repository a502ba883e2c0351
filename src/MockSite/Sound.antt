-- ===== src/MockSite/Sound.antt =====
-- What the controls of mock_site/bcparks.py keep of the reservations: days with a slot, known slots,
-- and capacities that agree with the numbers of places.
pub mod Shifted
pub mod Changed
pub mod Kept
use web_checker_py.Prelude.{
  some-injective, ℕ, suc, ◌≤◌, ◌&&◌, Bool, true, false, not, Option, none, some, List, [], ◌∷◌,
  contains, All, length, Text, codes, ◌==◌, nat_eq, text_eq, ok, err, ok-injective, ◌≡◌, refl, sym,
  subst, ap, ◌∙◌, arith, if◌then◌else◌, Bool-cases, inl, inr,
}
use web_checker_py.Time.Dates.{Date, date_of, date_iso, date_eq, shift_date}
use web_checker_py.Time.{DateTime}
use web_checker_py.Time.Dates.Valid.{IsDate}
use web_checker_py.Config.Values.{Numbers}
use web_checker_py.Drivers.BcParks.Models.{Calendar}
use web_checker_py.Drivers.BcParks.Parser.Reservations.{known_slots}
use web_checker_py.MockSite.State.{
  Failure, or_fail, Capacity, full, high, Places, Days, MockState, entry, set_entry, find_days,
  set_days,
}
use web_checker_py.MockSite.Defaults.{
  each_slot, availability, am_pm, day_only, default_reservations, reset,
}
use web_checker_py.MockSite.Controls.{capacity_value}

-- How ISO texts of dates are read, as the standard library documents
pub record ReadsDates (c : Calendar) : Type 0 where
  pub date : (d : Date) → IsDate d → c.parse_date (date_iso d) ≡ some d
  pub datetime :
      (d : Date) (t : DateTime) → IsDate d → c.parse_datetime (date_iso d) ≡ some t → date_of t ≡ d

-- At most 100 places, and none exactly if the capacity is Full
abbrev pub IsPlaces : Places → Type 0
IsPlaces p = (p.most ≤ 100) × ((capacity_value p.capacity == codes "Full") ≡ (p.most == 0))

abbrev pub IsSlot : Text × Places → Type 0
IsSlot q = (contains known_slots q.0 ≡ true) × IsPlaces q.1

pub record IsDay (p : Text × List (Text × Places)) : Type 0 where
  pub date : Date
  pub is_date : IsDate date
  pub key : p.0 ≡ date_iso date
  pub some_slot : 1 ≤ length p.1
  pub slots : All IsSlot p.1

abbrev pub IsDays : Days → Type 0
IsDays days = (1 ≤ length days) × All IsDay days

abbrev pub IsSound : {n : Numbers} → MockState n → Type 0
IsSound s = All (λ e. IsDays e.1) s.reservations

module _ {A : Type 0} (P : Text × A → Type 0) where
  -- An entry that is found has the property of its pair.
  pub entry-All :
      (key : Text) (ps : List (Text × A)) (a : A) → All P ps → entry key ps ≡ some a → P (key, a)
  unfolding entry
  entry-All key [] a h e = cc
  entry-All key (p ∷ ps) a h e = elim (Bool-cases (p.0 == key)) [
    | inl f ↦
        let same_key : p.0 ≡ key = (text_eq.equal_iff p.0 key).0 f in
        let same : p.1 ≡ a = some-injective p.1 a (rw f at e) in
        subst (λ k. P (k, a)) same_key (subst (λ x. P (p.0, x)) same h.0)
    | inr f ↦ entry-All key ps a h.1 (rw f at e)
  ]

  pub set_entry-All :
      (key : Text) (a : A) (ps : List (Text × A))
      → All P ps
      → P (key, a)
      → All P (set_entry key a ps)
  unfolding set_entry
  set_entry-All key a [] h new = tt
  set_entry-All key a (p ∷ ps) h new = elim (Bool-cases (p.0 == key)) [
    | inl f ↦ rw f (new, h.1)
    | inr f ↦ rw f (h.0, set_entry-All key a ps h.1 new)
  ]

pub length-set_entry :
    {A : Type 0} (key : Text) (a : A) (ps : List (Text × A))
    → length (set_entry key a ps) ≡ length ps
unfolding set_entry
length-set_entry key a [] = refl
length-set_entry key a (p ∷ ps) = elim (Bool-cases (p.0 == key)) [
  | inl f ↦ rw f
  | inr f ↦ rw f (ap (λ k. suc k) (length-set_entry key a ps))
]

pub or_fail-eq-ok :
    {A : Type 0} (e : Failure) (o : Option A) {a : A} → or_fail e o ≡ ok a → o ≡ some a
unfolding or_fail
or_fail-eq-ok e none h = cc
or_fail-eq-ok e (some x) h = ap some (ok-injective x _ h)

-- The same for the reservations of all facilities
pub find_days-All :
    (P : Days → Type 0) (park facility : Text) (rs : List ((Text × Text) × Days)) (days : Days)
    → All (λ e. P e.1) rs
    → find_days park facility rs ≡ some days
    → P days
unfolding find_days
find_days-All P park facility [] days h e = cc
find_days-All P park facility (p ∷ ps) days h e =
    elim (Bool-cases (p.0.0 == park && p.0.1 == facility)) [
      | inl f ↦ let same : p.1 ≡ days = some-injective p.1 days (rw f at e) in subst P same h.0
      | inr f ↦ find_days-All P park facility ps days h.1 (rw f at e)
    ]

pub set_days-All :
    (P : Days → Type 0) (park facility : Text) (days : Days) (rs : List ((Text × Text) × Days))
    → All (λ e. P e.1) rs
    → P days
    → All (λ e. P e.1) (set_days park facility days rs)
unfolding set_days
set_days-All P park facility days [] h new = tt
set_days-All P park facility days (p ∷ ps) h new =
    elim (Bool-cases (p.0.0 == park && p.0.1 == facility)) [
      | inl f ↦ rw f (new, h.1)
      | inr f ↦ rw f (h.0, set_days-All P park facility days ps h.1 new)
    ]

each_slot-All :
    (capacity : Capacity) (most : ℕ) (slots : List Text)
    → IsPlaces (record { capacity = capacity; most = most })
    → All (λ s. contains known_slots s ≡ true) slots
    → All IsSlot (each_slot capacity most slots)
each_slot-All capacity most [] h hs = tt
each_slot-All capacity most (s ∷ slots) h hs = ((hs.0, h), each_slot-All capacity most slots h hs.1)

length-each_slot :
    (capacity : Capacity) (most : ℕ) (slots : List Text)
    → length (each_slot capacity most slots) ≡ length slots
length-each_slot capacity most [] = refl
length-each_slot capacity most (s ∷ slots) = ap (λ k. suc k) (length-each_slot capacity most slots)

august : (day : ℕ) → 1 ≤ day → day ≤ 31 → IsDate (record { year = 2026; month = 8; day = day })
august day from to = record {
  year = (omega arith, omega arith);
  month = (omega arith, omega arith);
  day = (from, to);
}

each_slot-IsDay :
    (d : Date) (capacity : Capacity) (most : ℕ) (slots : List Text)
    → IsDate d
    → IsPlaces (record { capacity = capacity; most = most })
    → 1 ≤ length slots
    → All (λ s. contains known_slots s ≡ true) slots
    → IsDay (date_iso d, each_slot capacity most slots)
each_slot-IsDay d capacity most slots valid places some_slot known = record {
  date = d;
  is_date = valid;
  key = refl;
  some_slot = omega (arith, some_slot, length-each_slot capacity most slots);
  slots = each_slot-All capacity most slots places known;
}

full-IsPlaces : IsPlaces (record { capacity = full; most = 0 })
unfolding capacity_value
full-IsPlaces = (omega arith, refl)

availability-IsDays :
    (slots : List Text) (pass_limit : ℕ)
    → 1 ≤ length slots
    → All (λ s. contains known_slots s ≡ true) slots
    → IsPlaces (record { capacity = high; most = pass_limit })
    → IsDays (availability slots pass_limit)
unfolding date_iso
availability-IsDays slots pass_limit some_slot known places = (
  omega arith,
  (
    each_slot-IsDay _ full 0 slots (august 15 (omega arith) (omega arith)) full-IsPlaces some_slot
        known,
    (
      each_slot-IsDay _ full 0 slots (august 16 (omega arith) (omega arith)) full-IsPlaces some_slot
          known,
      (
        each_slot-IsDay _ high pass_limit slots (august 17 (omega arith) (omega arith)) places
            some_slot known,
        tt,
      ),
    ),
  ),
)

-- The state that is set at the start and by a reset
pub reset-IsSound : (n : Numbers) → IsSound (reset n)
unfolding reset capacity_value
reset-IsSound n =
    let one : IsPlaces (record { capacity = high; most = 1 }) = (omega arith, refl) in
    let four : IsPlaces (record { capacity = high; most = 4 }) = (omega arith, refl) in
    let halves = availability-IsDays am_pm 1 (omega arith) (refl, (refl, tt)) one in
    let whole_day = availability-IsDays day_only 1 (omega arith) (refl, tt) one in
    let trail = availability-IsDays day_only 4 (omega arith) (refl, tt) four in
    (halves, (whole_day, (whole_day, (whole_day, (halves, (halves, (halves, (trail, tt))))))))
