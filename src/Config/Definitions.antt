-- ===== src/Config/Definitions.antt =====
-- `RetryPolicy`, `ScheduleDefinition`, `JobDefinition` and `ApplicationConfig` with their
-- `__post_init__`. The text of an error is left out; its place is the constructor.
use web_checker_py.Prelude.{
  ℕ, Bool, true, false, not, ◌&&◌, ◌||◌, Option, none, some, List, [], ◌∷◌, map, find, is_distinct,
  Text, strip, leb, ltb, nat_beq, ◌==◌, text_eq, Result, ok, err, ◌>>=◌, ◌>>◌, raise_if, some_or,
  if◌then◌else◌,
}
use web_checker_py.Core.Models.{is_blank}
use web_checker_py.Notifications.Models.{NotificationPlan}
use web_checker_py.Config.Values.{
  Numbers, Value, null, boolean, number, text, sequence, mapping, Items, as_mapping,
}

-- `ConfigurationError`, and the exceptions that `load_config` lets through.
pub data ConfigError : Type 0 where
  overflow not_a_number out_of_range bad_attempts delays_reversed zero_delay : ConfigError
  bad_id bad_driver bad_enabled bad_config duplicate_ids : ConfigError
  not_a_mapping unsupported_fields missing_fields : ConfigError
  bad_channels bad_transitions bad_plan no_jobs : ConfigError
  unknown_job : Text → ConfigError

module _ (n : Numbers) where
  -- The tests on a number, with what `isfinite` says of it
  unfoldable pub check_finite :
      n.Number → Bool → Option n.Number → n.Number → Option Bool → Result ConfigError n.Number
  check_finite minimum inclusive maximum x none = err overflow
  check_finite minimum inclusive maximum x (some false) = err not_a_number
  check_finite minimum inclusive maximum x (some true) = do
    raise_if (not (if inclusive then n.leq minimum x else not (n.leq x minimum))) out_of_range
    raise_if (elim maximum [ none ↦ false | some m ↦ not (n.leq x m) ]) out_of_range
    ok x

  -- `_validate_finite_number` with a minimum that counts in the range, or not, and a maximum if any
  unfoldable pub validate_number :
      n.Number → Bool → Option n.Number → Value n → Result ConfigError n.Number
  validate_number minimum inclusive maximum (number x) =
      check_finite minimum inclusive maximum x (n.is_finite x)
  validate_number minimum inclusive maximum null = err not_a_number
  validate_number minimum inclusive maximum (boolean b) = err not_a_number
  validate_number minimum inclusive maximum (text s) = err not_a_number
  validate_number minimum inclusive maximum (sequence vs) = err not_a_number
  validate_number minimum inclusive maximum (mapping is) = err not_a_number

  pub record RetryPolicy : Type 0 where
    pub max_attempts : ℕ
    pub initial_delay_seconds : n.Number
    pub max_delay_seconds : n.Number
    pub jitter_fraction : n.Number

  -- An int of at least 0
  unfoldable pub as_whole : Value n → Option ℕ
  as_whole (number x) = n.whole x
  as_whole null = none
  as_whole (boolean b) = none
  as_whole (text s) = none
  as_whole (sequence vs) = none
  as_whole (mapping is) = none

  -- The first test of `__post_init__`: an int
  abbrev pub attempts_of : Value n → Result ConfigError ℕ
  attempts_of v = elim (as_whole v) [ none ↦ err bad_attempts | some a ↦ ok a ]

  -- `RetryPolicy(...)`
  unfoldable pub make_retry : Value n → Value n → Value n → Value n → Result ConfigError RetryPolicy
  make_retry attempts initial maximum jitter = do
    a ← attempts_of attempts
    raise_if (not (leb 1 a && leb a 10)) bad_attempts
    i ← validate_number (n.of_nat 0) true none initial
    m ← validate_number (n.of_nat 0) true none maximum
    j ← validate_number (n.of_nat 0) true (some (n.of_nat 1)) jitter
    raise_if (not (n.leq i m)) delays_reversed
    raise_if (ltb 1 a && n.leq i (n.of_nat 0)) zero_delay
    ok (record {
      max_attempts = a;
      initial_delay_seconds = i;
      max_delay_seconds = m;
      jitter_fraction = j;
    })

  pub record ScheduleDefinition : Type 0 where
    pub interval_seconds : n.Number
    pub retry : RetryPolicy

  -- `ScheduleDefinition(...)`
  unfoldable pub make_schedule : Value n → RetryPolicy → Result ConfigError ScheduleDefinition
  make_schedule interval retry = do
    i ← validate_number (n.of_nat 0) false none interval
    ok (record { interval_seconds = i; retry = retry })

  pub record JobDefinition : Type 0 where
    pub id : Text
    pub driver : Text
    pub config : Items n
    pub enabled : Bool
    pub notifications : NotificationPlan
    pub schedule : Option ScheduleDefinition

-- `[A-Za-z0-9]`
abbrev pub is_alphanumeric : ℕ → Bool
is_alphanumeric c = (leb 48 c && leb c 57) || ((leb 65 c && leb c 90) || (leb 97 c && leb c 122))

-- `[A-Za-z0-9._-]*`
unfoldable pub is_id_tail : Text → Bool
is_id_tail [] = true
is_id_tail (c ∷ rest) =
    (is_alphanumeric c || (nat_beq c 46 || (nat_beq c 95 || nat_beq c 45))) && is_id_tail rest

-- `JOB_ID_PATTERN.fullmatch`
unfoldable pub is_job_id : Text → Bool
is_job_id [] = false
is_job_id (c ∷ rest) = is_alphanumeric c && is_id_tail rest

module _ {n : Numbers} where
  unfoldable pub read_id : Value n → Result ConfigError Text
  read_id (text s) = do raise_if (not (is_job_id s)) bad_id; ok s
  read_id null = err bad_id
  read_id (boolean b) = err bad_id
  read_id (number x) = err bad_id
  read_id (sequence vs) = err bad_id
  read_id (mapping is) = err bad_id

  unfoldable pub read_driver : Value n → Result ConfigError Text
  read_driver (text s) = do raise_if (is_blank s) bad_driver; ok (strip s)
  read_driver null = err bad_driver
  read_driver (boolean b) = err bad_driver
  read_driver (number x) = err bad_driver
  read_driver (sequence vs) = err bad_driver
  read_driver (mapping is) = err bad_driver

  -- `value.get("enabled", True)`
  unfoldable pub read_enabled : Option (Value n) → Result ConfigError Bool
  read_enabled none = ok true
  read_enabled (some (boolean b)) = ok b
  read_enabled (some null) = err bad_enabled
  read_enabled (some (number x)) = err bad_enabled
  read_enabled (some (text s)) = err bad_enabled
  read_enabled (some (sequence vs)) = err bad_enabled
  read_enabled (some (mapping is)) = err bad_enabled

  -- `JobDefinition(...)`. The frozen copy of the config is the config, which nothing changes here.
  unfoldable pub make_job :
      Value n
      → Value n
      → Value n
      → Option (Value n)
      → NotificationPlan
      → Option (ScheduleDefinition n)
      → Result ConfigError (JobDefinition n)
  make_job id driver config enabled plan schedule = do
    i ← read_id id
    d ← read_driver driver
    e ← read_enabled enabled
    c ← some_or bad_config (as_mapping config)
    ok (record {
      id = i;
      driver = d;
      config = c;
      enabled = e;
      notifications = plan;
      schedule = schedule;
    })

  abbrev pub job_ids : List (JobDefinition n) → List Text
  job_ids = map (λ j. j.id)

  -- `ApplicationConfig(jobs=...)`
  unfoldable pub make_config : List (JobDefinition n) → Result ConfigError (List (JobDefinition n))
  make_config jobs = do raise_if (not (is_distinct (job_ids jobs))) duplicate_ids; ok jobs

  -- `get_job`
  unfoldable pub get_job : Text → List (JobDefinition n) → Result ConfigError (JobDefinition n)
  get_job id jobs = elim (find (λ j. j.id == id) jobs) [
    | none ↦ err (unknown_job id)
    | some j ↦ ok j
  ]
