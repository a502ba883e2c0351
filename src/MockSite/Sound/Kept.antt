-- ===== src/MockSite/Sound/Kept.antt =====
-- Every request to the routes of mock_site/bcparks.py keeps the reservations sound.
use web_checker_py.Prelude.{
  Bool, true, false, List, [], ◌∷◌, Text, codes, is_none, nat_eq, text_eq, Result, ok, err,
  raise_if-eq-ok, bind-eq-ok, ok-injective, ◌≡◌, refl, subst,
}
use web_checker_py.Time.Dates.{date_eq}
use web_checker_py.Config.Values.{get, Numbers, Value, Items, lookup}
use web_checker_py.Drivers.BcParks.Models.{Calendar}
use web_checker_py.Drivers.BcParks.Parser.Facilities.{replace_z}
use web_checker_py.MockSite.State.{
  MockState, Failure, bad_request, not_found, or_fail, entry, provider_date, shift_reservations,
  update_park, update_facility, set_current_time,
}
use web_checker_py.MockSite.Defaults.{reset}
use web_checker_py.MockSite.Controls.{
  json_object, a_boolean, a_delay, a_status, a_string, field_or_keep, control_clock,
  control_behavior, checked_changes, control_park, control_facility,
}
use web_checker_py.MockSite.Routes.{
  Control, reset_request, clock_request, behavior_request, reservation_request, park_request,
  facility_request, route, control, settle, after_requests,
}
use web_checker_py.MockSite.Sound.{ReadsDates, IsSound, reset-IsSound}
use web_checker_py.MockSite.Sound.Shifted.{shift_reservations-IsDays}
use web_checker_py.MockSite.Sound.Changed.{control_reservation-IsSound}

module _ {n : Numbers} where
  module _ (c : Calendar) (reads : ReadsDates c) where
    set_current_time-IsSound :
        (value : Text) (s t : MockState n)
        → IsSound s
        → set_current_time c value s ≡ ok t
        → IsSound t
    unfolding set_current_time
    set_current_time-IsSound value s t sound h =
        let (previous, e1, h1) = bind-eq-ok (provider_date c s.current_time) _ h in
        let (next, e2, h2) = bind-eq-ok (provider_date c value) _ h1 in
        let (rs, e3, h3) = bind-eq-ok (shift_reservations c previous next s.reservations) _ h2 in
        subst IsSound (ok-injective _ t h3)
          (shift_reservations-IsDays c reads previous next s.reservations rs sound e3)

    control_clock-IsSound :
        (body : Value n) (s t : MockState n) → IsSound s → control_clock c body s ≡ ok t → IsSound t
    unfolding control_clock
    control_clock-IsSound body s t sound h =
        let (items, e1, h1) = bind-eq-ok (json_object body) _ h in
        let (exact, h2) = raise_if-eq-ok _ _ _ h1 in
        let (value, e3, h3) = bind-eq-ok (a_string (get (codes "current_time") items)) _ h2 in
        let (parsed, e4, h4) =
          bind-eq-ok (or_fail bad_request (c.parse_datetime (replace_z value))) _ h3 in
        let (aware, h5) = raise_if-eq-ok (is_none parsed.utcoffset) _ _ h4 in
        set_current_time-IsSound value s t sound h5

  control_behavior-IsSound :
      (body : Value n) (s t : MockState n) → IsSound s → control_behavior body s ≡ ok t → IsSound t
  unfolding control_behavior
  control_behavior-IsSound body s t sound h =
      let (items, e1, h1) = bind-eq-ok (json_object body) _ h in
      let (known, h2) = raise_if-eq-ok _ _ _ h1 in
      let old = s.behavior in
      let (delay, e3, h3) =
        bind-eq-ok (field_or_keep a_delay old.delay_seconds (lookup (codes "delay_seconds") items))
          _ h2 in
      let (code, e4, h4) =
        bind-eq-ok (field_or_keep a_status old.status_code (lookup (codes "status_code") items)) _
          h3 in
      let (malformed, e5, h5) =
        bind-eq-ok (field_or_keep a_boolean old.malformed (lookup (codes "malformed") items)) _
          h4 in
      let (is_empty, e6, h6) =
        bind-eq-ok (field_or_keep a_boolean old.is_empty (lookup (codes "empty") items)) _ h5 in
      subst IsSound (ok-injective _ t h6) sound

  settled-IsSound :
      (s : MockState n) (o : Result Failure (MockState n))
      → IsSound s
      → ((t : MockState n) → o ≡ ok t → IsSound t)
      → IsSound (settle s o)
  unfolding settle
  settled-IsSound s (err e) sound f = sound
  settled-IsSound s (ok t) sound f = f t refl

  update_park-IsSound :
      (park_id : Text) (changes : Items n) (s t : MockState n)
      → IsSound s
      → update_park park_id changes s ≡ ok t
      → IsSound t
  unfolding update_park
  update_park-IsSound park_id changes s t sound h =
      let (park, e1, h1) = bind-eq-ok (or_fail not_found (entry park_id s.parks)) _ h in
      subst IsSound (ok-injective _ t h1) sound

  update_facility-IsSound :
      (park_id facility : Text) (changes : Items n) (s t : MockState n)
      → IsSound s
      → update_facility park_id facility changes s ≡ ok t
      → IsSound t
  unfolding update_facility
  update_facility-IsSound park_id facility changes s t sound h =
      let (facilities, e1, h1) = bind-eq-ok (or_fail not_found (entry park_id s.facilities)) _ h in
      let (found, e2, h2) = bind-eq-ok (or_fail not_found (entry facility facilities)) _ h1 in
      subst IsSound (ok-injective _ t h2) sound

  module _ (c : Calendar) (reads : ReadsDates c) where
    route-IsSound : (r : Control n) (s t : MockState n) → IsSound s → route c r s ≡ ok t → IsSound t
    unfolding route control_park control_facility
    route-IsSound reset_request s t sound h =
        subst IsSound (ok-injective (reset n) t h) (reset-IsSound n)
    route-IsSound (clock_request body) s t sound h = control_clock-IsSound c reads body s t sound h
    route-IsSound (behavior_request body) s t sound h = control_behavior-IsSound body s t sound h
    route-IsSound (reservation_request body) s t sound h =
        control_reservation-IsSound body s t sound h
    route-IsSound (park_request park_id body) s t sound h =
        let (changes, e1, h1) = bind-eq-ok (checked_changes body) _ h in
        update_park-IsSound park_id changes s t sound h1
    route-IsSound (facility_request park_id facility body) s t sound h =
        let (changes, e1, h1) = bind-eq-ok (checked_changes body) _ h in
        update_facility-IsSound park_id facility changes s t sound h1

    settle-IsSound :
        (enabled : Bool) (r : Control n) (s : MockState n)
        → IsSound s
        → IsSound (settle s (control enabled c r s))
    unfolding settle control
    settle-IsSound false r s sound = sound
    settle-IsSound true r s sound =
        settled-IsSound s (route c r s) sound (λ t h. route-IsSound r s t sound h)

    -- Whatever requests the controls get, in whatever order, enabled or not: the reservations of
    -- every facility stay days with a valid date and at least one slot, and every slot is known,
    -- has at most 100 places, and none exactly if it is Full.
    pub after_requests-IsSound :
        (enabled : Bool) (rs : List (Control n)) (s : MockState n)
        → IsSound s
        → IsSound (after_requests enabled c rs s)
    unfolding after_requests
    after_requests-IsSound enabled [] s sound = sound
    after_requests-IsSound enabled (r ∷ rs) s sound =
        after_requests-IsSound enabled rs (settle s (control enabled c r s))
          (settle-IsSound enabled r s sound)
