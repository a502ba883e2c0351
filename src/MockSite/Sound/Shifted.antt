-- ===== src/MockSite/Sound/Shifted.antt =====
-- The shift of all days by `set_current_time` of mock_site/bcparks.py.
use web_checker_py.Prelude.{
  suc, List, [], ◌∷◌, All, length, Text, ◌==◌, nat_eq, text_eq, ok, bind-eq-ok, ok-injective, ◌≡◌,
  refl, sym, subst, ap, arith, Bool-cases, inl, inr,
}
use web_checker_py.Time.Dates.{Date, date_of, date_iso, date_eq, shift_date}
use web_checker_py.Time.Dates.Valid.{IsDate, shift_date-IsDate}
use web_checker_py.Drivers.BcParks.Models.{Calendar}
use web_checker_py.MockSite.State.{
  Days, server_error, or_fail, shift_key, shift_days, shift_all, shift_reservations,
}
use web_checker_py.MockSite.Sound.{ReadsDates, IsDay, IsDays, or_fail-eq-ok}

module _ (c : Calendar) (reads : ReadsDates c) where
  shift_key-IsDate :
      (previous next d : Date) (key : Text)
      → IsDate d
      → shift_key c previous next (date_iso d) ≡ ok key
      → (e : Date) × IsDate e × (key ≡ date_iso e)
  unfolding shift_key
  shift_key-IsDate previous next d key valid h =
      let (t, e1, h1) = bind-eq-ok (or_fail server_error (c.parse_datetime (date_iso d))) _ h in
      let (e, e2, h2) =
        bind-eq-ok (or_fail server_error (shift_date previous next (date_of t))) _ h1 in
      let same = reads.datetime d t valid (or_fail-eq-ok server_error _ e1) in
      let valid_t = subst IsDate (sym same) valid in
      (
        e,
        shift_date-IsDate previous next (date_of t) e valid_t (or_fail-eq-ok server_error _ e2),
        sym (ok-injective (date_iso e) key h2),
      )

  shift_days-IsDays :
      (previous next : Date) (days shifted : Days)
      → All IsDay days
      → shift_days c previous next days ≡ ok shifted
      → All IsDay shifted × (length shifted ≡ length days)
  unfolding shift_days
  shift_days-IsDays previous next [] shifted sound h =
      subst (λ l. All IsDay l × (length l ≡ 0)) (ok-injective [] shifted h) (tt, refl)
  shift_days-IsDays previous next (p ∷ ps) shifted sound h =
      let old = sound.0 in
      let (key, e1, h1) = bind-eq-ok (shift_key c previous next p.0) _ h in
      let (later, e2, h2) = bind-eq-ok (shift_days c previous next ps) _ h1 in
      let (d, valid, is_key) =
        shift_key-IsDate previous next old.date key old.is_date
          (subst (λ k. shift_key c previous next k ≡ ok key) old.key e1) in
      let rest = shift_days-IsDays previous next ps later sound.1 e2 in
      subst (λ l. All IsDay l × (length l ≡ suc (length ps))) (ok-injective _ shifted h2)
        (
          (
            record {
              date = d;
              is_date = valid;
              key = is_key;
              some_slot = old.some_slot;
              slots = old.slots;
            },
            rest.0,
          ),
          ap (λ k. suc k) rest.1,
        )

  shift_all-IsDays :
      (previous next : Date) (rs shifted : List ((Text × Text) × Days))
      → All (λ e. IsDays e.1) rs
      → shift_all c previous next rs ≡ ok shifted
      → All (λ e. IsDays e.1) shifted
  unfolding shift_all
  shift_all-IsDays previous next [] shifted sound h = subst (All _) (ok-injective [] shifted h) tt
  shift_all-IsDays previous next (p ∷ ps) shifted sound h =
      let (days, e1, h1) = bind-eq-ok (shift_days c previous next p.1) _ h in
      let (later, e2, h2) = bind-eq-ok (shift_all c previous next ps) _ h1 in
      let moved = shift_days-IsDays previous next p.1 days sound.0.1 e1 in
      subst (All (λ e. IsDays e.1)) (ok-injective _ shifted h2) (
        (omega (arith, sound.0.0, moved.1), moved.0),
        shift_all-IsDays previous next ps later sound.1 e2,
      )

  pub shift_reservations-IsDays :
      (previous next : Date) (rs shifted : List ((Text × Text) × Days))
      → All (λ e. IsDays e.1) rs
      → shift_reservations c previous next rs ≡ ok shifted
      → All (λ e. IsDays e.1) shifted
  unfolding shift_reservations
  shift_reservations-IsDays previous next rs shifted sound h =
      elim (Bool-cases (previous == next)) [
        | inl e ↦ subst (All _) (ok-injective rs shifted (rw e at h)) sound
        | inr e ↦ shift_all-IsDays previous next rs shifted sound (rw e at h)
      ]
