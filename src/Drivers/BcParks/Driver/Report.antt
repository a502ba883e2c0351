-- ===== src/Drivers/BcParks/Driver/Report.antt =====
-- What `BCParksDayUseDriver.check` of web_checker/drivers/bcparks_dayuse/driver.py reports.
use web_checker_py.Prelude.{
  ℕ, ◌≤◌, Bool, true, false, not, some, List, [], ◌∷◌, All, All-map, length, Text, codes, is_none,
  is_distinct, ◌==◌, nat_eq, text_eq, ok, raise_if-eq-ok, bind-eq-ok, map_err-eq-ok, ok-injective,
  ◌≡◌, refl, sym, ◌∙◌, subst, arith,
}
use web_checker_py.Time.{DateTime}
use web_checker_py.Core.Models.{
  Opportunity, CheckResult, available, unavailable, Scalar, ids, make_check_result,
}
use web_checker_py.Config.Values.{Numbers, Items}
use web_checker_py.Drivers.BcParks.Models.{Calendar, ProviderConfig, Facility, value_error}
use web_checker_py.Drivers.BcParks.Parser.{parse_provider_config, parse_parks}
use web_checker_py.Drivers.BcParks.Parser.Facilities.{parse_facilities}
use web_checker_py.Drivers.BcParks.Parser.Reservations.{parse_reservations}
use web_checker_py.Drivers.BcParks.Parser.Consistent.{IsConsistent, parse_reservations-IsConsistent}
use web_checker_py.Drivers.BcParks.Config.{Strings, DayUseConfig, parse_config}
use web_checker_py.Drivers.BcParks.Responses.{Client, get_json}
use web_checker_py.Drivers.BcParks.Windows.{value_at}
use web_checker_py.Drivers.BcParks.Slots.{build_opportunities}
use web_checker_py.Drivers.BcParks.Slots.Sound.{IsReported, build_opportunities-IsReported}
use web_checker_py.Drivers.BcParks.Driver.{
  request_headers, select_park, select_facility, finish_check, check_day_use,
}

-- The number of places that an opportunity states agrees with its availability.
pub record IsHonest (o : Opportunity) : Type 0 where
  pub places : ℕ
  pub stated : value_at o.attributes (codes "max_reservable") ≡ some (Scalar.number places)
  pub at_most : places ≤ 100
  pub some_left : o.availability ≡ available → 1 ≤ places
  pub none_left : o.availability ≡ unavailable → places ≡ 0

-- The result is not empty, its ids differ, it has the time of the clock with an offset, and its
-- opportunities are honest.
pub record IsReport (now : DateTime) (result : CheckResult) : Type 0 where
  pub at_clock : result.checked_at ≡ now
  pub aware : is_none now.utcoffset ≡ false
  pub distinct : is_distinct (ids result.opportunities) ≡ true
  pub not_empty : 1 ≤ length result.opportunities
  pub honest : All IsHonest result.opportunities

places_left : (full : Bool) (k : ℕ) → full ≡ (k == 0) → full ≡ false → 1 ≤ k
places_left full k e h = let e2 : (k == 0) ≡ false = sym e ∙ h in ground (arith, e2)

no_places : (full : Bool) (k : ℕ) → full ≡ (k == 0) → full ≡ true → k ≡ 0
no_places full k e h = let e2 : (k == 0) ≡ true = sym e ∙ h in ground (arith, e2)

finish_check-IsReport :
    (now : DateTime) (os : List Opportunity) (result : CheckResult)
    → All IsHonest os
    → finish_check now os ≡ ok result
    → IsReport now result
unfolding finish_check make_check_result
finish_check-IsReport now [] result honest h = cc
finish_check-IsReport now (o ∷ os) result honest h =
    let made = map_err-eq-ok value_error _ h in
    let (aware, h1) = raise_if-eq-ok (is_none now.utcoffset) _ _ made in
    let (distinct, h2) = raise_if-eq-ok (not (is_distinct (ids (o ∷ os)))) _ _ h1 in
    subst (IsReport now) (ok-injective _ result h2) (record {
      at_clock = refl;
      aware = aware;
      distinct = ground (arith, distinct);
      not_empty = omega arith;
      honest = honest;
    })

module _ {n : Numbers} where
  reported-IsHonest :
      (c : Calendar) (config : DayUseConfig n) (park_name : Text) (provider : ProviderConfig)
      (facility : Facility) (o : Opportunity)
      → IsReported c config park_name provider facility IsConsistent o
      → IsHonest o
  reported-IsHonest c config park_name provider facility o h =
      let r = h.reservation in
      let claims = h.current.offer.claims in
      record {
        places = r.max_reservable;
        stated = h.current.offer.places;
        at_most = h.usable.has.bounded;
        some_left = λ a. places_left _ r.max_reservable h.usable.has.full (claims.0 a).2;
        none_left = λ a. no_places _ r.max_reservable h.usable.has.full (claims.1 a).2;
      }

  -- A check that returns reports at the time of the clock, which has an offset, at least one
  -- opportunity, with different ids. Each states at most 100 places, at least one if it is
  -- available, and none if it is unavailable.
  pub check_day_use-IsReport :
      (c : Calendar) (s : Strings) (client : Client n) (now : DateTime) (items : Items n)
      (result : CheckResult)
      → check_day_use c s client now items ≡ ok result
      → IsReport now result
  unfolding check_day_use
  check_day_use-IsReport c s client now items result h =
      let (config, e1, h1) = bind-eq-ok (parse_config s items) _ h in
      let headers = request_headers s config in
      let (v1, e2, h2) =
        bind-eq-ok (get_json s client config headers (codes "/api/config") []) _ h1 in
      let (provider, e3, h3) = bind-eq-ok (parse_provider_config v1) _ h2 in
      let (v2, e4, h4) =
        bind-eq-ok (get_json s client config headers (codes "/api/park") []) _ h3 in
      let (parks, e5, h5) = bind-eq-ok (parse_parks v2) _ h4 in
      let (park, e6, h6) = bind-eq-ok (select_park config.park_id parks) _ h5 in
      let (v3, e7, h7) =
        bind-eq-ok
          (get_json s client config headers (codes "/api/facility")
            ((codes "park", config.park_id) ∷ (codes "facilities", codes "true") ∷ []))
          _ h6 in
      let (facilities, e8, h8) = bind-eq-ok (parse_facilities c config.park_id v3) _ h7 in
      let (facility, e9, h9) =
        bind-eq-ok (select_facility config.facility config.slot provider facilities) _ h8 in
      let (v4, e10, h10) =
        bind-eq-ok
          (get_json s client config headers (codes "/api/reservation")
            ((codes "facility", config.facility) ∷ (codes "park", config.park_id) ∷ []))
          _ h9 in
      let (reservations, e11, h11) = bind-eq-ok (parse_reservations c v4) _ h10 in
      let (os, e12, h12) =
        bind-eq-ok (build_opportunities c config park.name provider facility reservations) _ h11 in
      finish_check-IsReport now os result
        (All-map os (reported-IsHonest c config park.name provider facility) (
          build_opportunities-IsReported c config park.name provider facility IsConsistent
            reservations os (parse_reservations-IsConsistent c v4 reservations e11).0 e12))
        h12
