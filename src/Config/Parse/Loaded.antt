-- ===== src/Config/Parse/Loaded.antt =====
-- What holds of every configuration that loads.
use web_checker_py.Prelude.{
  some_or, ℕ, ◌≤◌, true, false, not, ◌&&◌, ◌||◌, Option, none, some, List, [], ◌∷◌, any, is_nil,
  is_distinct, strip, leb, ltb, Text, codes, text_eq, All, ok, raise_if-eq-ok, bind-eq-ok,
  ok-injective, map_err-eq-ok, ◌≡◌, refl, sym, ap, subst, arith,
}
use web_checker_py.Core.Models.{is_blank}
use web_checker_py.Notifications.Models.{NotificationPlan, make_plan, no_plan}
use web_checker_py.Config.Values.{
  Numbers, Value, null, boolean, number, text, sequence, mapping, Values, no_values, cons, Items,
  lookup, only_fields, as_mapping,
}
use web_checker_py.Config.Definitions.{
  bad_attempts, delays_reversed, zero_delay, bad_config, not_a_mapping, no_jobs, attempts_of,
  bad_channels, bad_transitions, RetryPolicy, ScheduleDefinition, JobDefinition, validate_number,
  make_retry, make_schedule, is_job_id, read_id, read_driver, read_enabled, make_job, job_ids,
  make_config,
}
use web_checker_py.Config.Parse.{
  raw_jobs, job_fields, as_list, as_strings, default_retry, parse_transitions, field, parse_plan,
  parse_notifications, parse_retry, parse_optional_retry, parse_interval, parse_schedule, parse_job,
  parse_jobs, load_config,
}

not_blank : (s : Text) → (is_nil s || is_nil (strip s)) ≡ false → is_nil (strip s) ≡ false
not_blank s h = ground (arith, h)

make_plan-ok : (p q : NotificationPlan) → make_plan p ≡ ok q → is_distinct q.channels ≡ true
unfolding make_plan
make_plan-ok p q h =
    let (good, rest) = raise_if-eq-ok (not (is_distinct p.channels)) _ _ h in
    let (named, last) = raise_if-eq-ok (any (λ c. is_nil (strip c)) p.channels) _ _ rest in
    let same : p ≡ q = cc in subst (λ x. is_distinct x.channels ≡ true) same (ground (arith, good))

bounds : (a : ℕ) → not (leb 1 a && leb a 10) ≡ false → (1 ≤ a) × (a ≤ 10)
bounds a h = (ground (arith, h), ground (arith, h))

module _ {n : Numbers} where
  -- The attempts are bounded.
  abbrev pub IsBounded : Option (ScheduleDefinition n) → Type 0
  IsBounded none = Unit
  IsBounded (some s) = (1 ≤ s.retry.max_attempts) × (s.retry.max_attempts ≤ 10)

  pub record IsValidJob (j : JobDefinition n) : Type 0 where
    pub id : is_job_id j.id ≡ true
    pub driver : is_nil j.driver ≡ false
    pub channels : is_distinct j.notifications.channels ≡ true
    pub schedule : IsBounded j.schedule

  read_id-ok : (v : Value n) (s : Text) → read_id v ≡ ok s → is_job_id s ≡ true
  unfolding read_id
  read_id-ok (text x) s h =
      let (good, rest) = raise_if-eq-ok (not (is_job_id x)) _ _ h in
      let same : x ≡ s = cc in subst (λ y. is_job_id y ≡ true) same (ground (arith, good))
  read_id-ok null s h = cc
  read_id-ok (boolean b) s h = cc
  read_id-ok (number x) s h = cc
  read_id-ok (sequence vs) s h = cc
  read_id-ok (mapping is) s h = cc

  read_driver-ok : (v : Value n) (s : Text) → read_driver v ≡ ok s → is_nil s ≡ false
  unfolding read_driver is_blank
  read_driver-ok (text x) s h =
      let (good, rest) = raise_if-eq-ok (is_blank x) _ _ h in
      let same : strip x ≡ s = cc in subst (λ y. is_nil y ≡ false) same (not_blank x good)
  read_driver-ok null s h = cc
  read_driver-ok (boolean b) s h = cc
  read_driver-ok (number x) s h = cc
  read_driver-ok (sequence vs) s h = cc
  read_driver-ok (mapping is) s h = cc

  parse_plan-ok :
      (items : Items n) (q : NotificationPlan)
      → parse_plan items ≡ ok q
      → is_distinct q.channels ≡ true
  unfolding parse_plan
  parse_plan-ok items q h =
      let (known, h1) =
        raise_if-eq-ok (not (only_fields (codes "channels" ∷ codes "on" ∷ []) items)) _ _ h in
      let (channels_value, e2, h2) = bind-eq-ok (field (codes "channels") items) _ h1 in
      let (on_value, e3, h3) = bind-eq-ok (field (codes "on") items) _ h2 in
      let (channel_values, e4, h4) = bind-eq-ok (as_list bad_channels channels_value) _ h3 in
      let (channels, e5, h5) = bind-eq-ok (as_strings bad_channels channel_values) _ h4 in
      let (transition_values, e6, h6) = bind-eq-ok (as_list bad_transitions on_value) _ h5 in
      let (names, e7, h7) = bind-eq-ok (as_strings bad_transitions transition_values) _ h6 in
      let (on, e8, h8) = bind-eq-ok (parse_transitions names) _ h7 in
      make_plan-ok _ q (map_err-eq-ok _ (make_plan (record { channels = channels; on = on })) h8)

  parse_notifications-ok :
      (v : Option (Value n)) (q : NotificationPlan)
      → parse_notifications v ≡ ok q
      → is_distinct q.channels ≡ true
  unfolding parse_notifications
  parse_notifications-ok none q h =
      let same : no_plan ≡ q = cc in subst (λ x. is_distinct x.channels ≡ true) same refl
  parse_notifications-ok (some null) q h =
      let same : no_plan ≡ q = cc in subst (λ x. is_distinct x.channels ≡ true) same refl
  parse_notifications-ok (some (mapping items)) q h = parse_plan-ok items q h
  parse_notifications-ok (some (boolean b)) q h = cc
  parse_notifications-ok (some (number x)) q h = cc
  parse_notifications-ok (some (text x)) q h = cc
  parse_notifications-ok (some (sequence vs)) q h = cc

  abbrev Bounded : RetryPolicy n → Type 0
  Bounded r = (1 ≤ r.max_attempts) × (r.max_attempts ≤ 10)

  make_retry-ok :
      (attempts initial maximum jitter : Value n) (r : RetryPolicy n)
      → make_retry n attempts initial maximum jitter ≡ ok r
      → Bounded r
  unfolding make_retry
  make_retry-ok attempts initial maximum jitter r h =
      let (a, e1, h1) = bind-eq-ok (attempts_of n attempts) _ h in
      let (good, h2) = raise_if-eq-ok (not (leb 1 a && leb a 10)) bad_attempts _ h1 in
      let (i, e3, h3) = bind-eq-ok (validate_number n (n.of_nat 0) true none initial) _ h2 in
      let (m, e4, h4) = bind-eq-ok (validate_number n (n.of_nat 0) true none maximum) _ h3 in
      let (j, e5, h5) =
        bind-eq-ok (validate_number n (n.of_nat 0) true (some (n.of_nat 1)) jitter) _ h4 in
      let (ordered, h6) = raise_if-eq-ok (not (n.leq i m)) delays_reversed _ h5 in
      let (positive, h7) = raise_if-eq-ok (ltb 1 a && n.leq i (n.of_nat 0)) zero_delay _ h6 in
      subst Bounded (ok-injective _ r h7) (bounds a good)

  parse_optional_retry-ok :
      (v : Option (Value n)) (r : RetryPolicy n) → parse_optional_retry v ≡ ok r → Bounded r
  unfolding parse_optional_retry parse_retry
  parse_optional_retry-ok none r h =
      let same : default_retry ≡ r = cc in subst Bounded same (omega arith, omega arith)
  parse_optional_retry-ok (some null) r h =
      let same : default_retry ≡ r = cc in subst Bounded same (omega arith, omega arith)
  parse_optional_retry-ok (some (mapping items)) r h =
      let (known, h1) = raise_if-eq-ok _ _ _ h in make_retry-ok _ _ _ _ r h1
  parse_optional_retry-ok (some (boolean b)) r h = cc
  parse_optional_retry-ok (some (number x)) r h = cc
  parse_optional_retry-ok (some (text x)) r h = cc
  parse_optional_retry-ok (some (sequence vs)) r h = cc

  make_schedule-ok :
      (v : Value n) (retry : RetryPolicy n) (s : ScheduleDefinition n)
      → make_schedule n v retry ≡ ok s
      → s.retry ≡ retry
  unfolding make_schedule
  make_schedule-ok v retry s h =
      let (i, e, h1) = bind-eq-ok (validate_number n (n.of_nat 0) false none v) _ h in
      ap (λ x. x.retry) (sym (ok-injective _ s h1))

  parse_schedule-ok :
      (v : Option (Value n)) (s : Option (ScheduleDefinition n))
      → parse_schedule v ≡ ok s
      → IsBounded s
  unfolding parse_schedule parse_interval
  parse_schedule-ok none s h = subst IsBounded (ok-injective none s h) tt
  parse_schedule-ok (some null) s h = subst IsBounded (ok-injective none s h) tt
  parse_schedule-ok (some (mapping items)) s h =
      let (schedule, e1, h1) = bind-eq-ok (parse_interval items) _ h in
      let (known, e2) = raise_if-eq-ok _ _ _ e1 in
      let (interval, e3, h3) = bind-eq-ok (field (codes "interval_seconds") items) _ e2 in
      let (retry, e4, h4) = bind-eq-ok (parse_optional_retry (lookup (codes "retry") items)) _ h3 in
      subst IsBounded (ok-injective (some schedule) s h1) (
        subst Bounded (sym (make_schedule-ok interval retry schedule h4))
          (parse_optional_retry-ok (lookup (codes "retry") items) retry e4))
  parse_schedule-ok (some (boolean b)) s h = cc
  parse_schedule-ok (some (number x)) s h = cc
  parse_schedule-ok (some (text x)) s h = cc
  parse_schedule-ok (some (sequence vs)) s h = cc

  make_job-IsValidJob :
      (id driver config : Value n) (enabled : Option (Value n)) (plan : NotificationPlan)
      (schedule : Option (ScheduleDefinition n)) (j : JobDefinition n)
      → make_job id driver config enabled plan schedule ≡ ok j
      → is_distinct plan.channels ≡ true
      → IsBounded schedule
      → IsValidJob j
  unfolding make_job
  make_job-IsValidJob id driver config enabled plan schedule j h channels bounded =
      let (i, e1, h1) = bind-eq-ok (read_id id) _ h in
      let (d, e2, h2) = bind-eq-ok (read_driver driver) _ h1 in
      let (e, e3, h3) = bind-eq-ok (read_enabled enabled) _ h2 in
      let (c, e4, h4) = bind-eq-ok (some_or bad_config (as_mapping config)) _ h3 in
      subst IsValidJob (ok-injective _ j h4) (record {
        id = read_id-ok id i e1;
        driver = read_driver-ok driver d e2;
        channels = channels;
        schedule = bounded;
      })

  parse_job-IsValidJob : (v : Value n) (j : JobDefinition n) → parse_job v ≡ ok j → IsValidJob j
  unfolding parse_job
  parse_job-IsValidJob v j h =
      let (items, e1, h1) = bind-eq-ok (some_or not_a_mapping (as_mapping v)) _ h in
      let (known, h2) = raise_if-eq-ok (not (only_fields job_fields items)) _ _ h1 in
      let (id, e3, h3) = bind-eq-ok (field (codes "id") items) _ h2 in
      let (driver, e4, h4) = bind-eq-ok (field (codes "driver") items) _ h3 in
      let (config, e5, h5) = bind-eq-ok (field (codes "config") items) _ h4 in
      let (plan, e6, h6) = bind-eq-ok (parse_notifications (lookup (codes "notify") items)) _ h5 in
      let (schedule, e7, h7) = bind-eq-ok (parse_schedule (lookup (codes "schedule") items)) _ h6 in
      make_job-IsValidJob id driver config _ plan schedule j h7 (parse_notifications-ok _ plan e6)
        (parse_schedule-ok _ schedule e7)

  parse_jobs-IsValidJob :
      (vs : Values n) (jobs : List (JobDefinition n))
      → parse_jobs vs ≡ ok jobs
      → All IsValidJob jobs
  unfolding parse_jobs
  parse_jobs-IsValidJob no_values jobs h = subst (All IsValidJob) (ok-injective [] jobs h) tt
  parse_jobs-IsValidJob (cons v vs) jobs h =
      let (job, e1, h1) = bind-eq-ok (parse_job v) _ h in
      let (rest, e2, h2) = bind-eq-ok (parse_jobs vs) _ h1 in
      subst (All IsValidJob) (ok-injective (job ∷ rest) jobs h2)
        (parse_job-IsValidJob v job e1, parse_jobs-IsValidJob vs rest e2)

  -- A document that loads gives jobs with distinct ids that match the pattern, drivers that are not
  -- blank, distinct channels for notifications, and, where there is a schedule, between 1 and 10
  -- attempts.
  pub load_config-IsValidJob :
      (document : Value n) (jobs : List (JobDefinition n))
      → load_config document ≡ ok jobs
      → All IsValidJob jobs × (is_distinct (job_ids jobs) ≡ true)
  unfolding load_config make_config
  load_config-IsValidJob document jobs h =
      let (items, e1, h1) = bind-eq-ok (some_or not_a_mapping (as_mapping document)) _ h in
      let (known, h2) = raise_if-eq-ok (not (only_fields (codes "jobs" ∷ []) items)) _ _ h1 in
      let (values, e3, h3) = bind-eq-ok (as_list no_jobs (raw_jobs items)) _ h2 in
      let (parsed, e4, h4) = bind-eq-ok (parse_jobs values) _ h3 in
      let (distinct, h5) = raise_if-eq-ok (not (is_distinct (job_ids parsed))) _ _ h4 in
      subst (λ js. All IsValidJob js × (is_distinct (job_ids js) ≡ true))
        (ok-injective parsed jobs h5)
        (parse_jobs-IsValidJob values parsed e4, ground (arith, distinct))
