-- ===== src/Config/Parse.antt =====
-- `load_config` on the document that `yaml.load` returns, with `_parse_job`, `_parse_schedule` and
-- `_parse_notifications`. Where the code looks at several fields, the first error is the same.
pub mod Loaded
use web_checker_py.Prelude.{
  ℕ, Bool, true, false, not, Option, none, some, List, [], ◌∷◌, contains, map, is_nil, any, Text,
  codes, ◌==◌, text_eq, is_none, Result, ok, err, ◌>>=◌, ◌>>◌, raise_if, some_or, map_err,
  if◌then◌else◌,
}
use web_checker_py.Core.Transitions.{TransitionType}
use web_checker_py.Notifications.Models.{NotificationPlan, make_plan, no_plan}
use web_checker_py.Storage.Encoding.{read_transition}
use web_checker_py.Config.Values.{
  Numbers, Value, null, boolean, number, text, sequence, mapping, Values, no_values, cons, Items,
  lookup, only_fields, strings, as_mapping,
}
use web_checker_py.Config.Definitions.{
  ConfigError, not_a_mapping, unsupported_fields, missing_fields, bad_channels, bad_transitions,
  bad_plan, no_jobs, RetryPolicy, ScheduleDefinition, JobDefinition, make_retry, make_schedule,
  make_job, make_config,
}

unfoldable pub parse_transitions : List Text → Result ConfigError (List TransitionType)
parse_transitions [] = ok []
parse_transitions (s ∷ rest) = elim (read_transition s) [
  | none ↦ err bad_transitions
  | some t ↦ do ts ← parse_transitions rest; ok (t ∷ ts)
]

abbrev job_fields : List Text
job_fields =
    codes "id"
    ∷ codes "driver"
    ∷ codes "config"
    ∷ codes "enabled"
    ∷ codes "notify"
    ∷ codes "schedule"
    ∷ []

module _ {n : Numbers} where
  -- A value that must be a list with an element
  unfoldable pub as_list : ConfigError → Value n → Result ConfigError (Values n)
  as_list e (sequence no_values) = err e
  as_list e (sequence (cons v vs)) = ok (cons v vs)
  as_list e null = err e
  as_list e (boolean b) = err e
  as_list e (number x) = err e
  as_list e (text s) = err e
  as_list e (mapping is) = err e

  -- A required field
  abbrev pub field : Text → Items n → Result ConfigError (Value n)
  field key items = elim (lookup key items) [ none ↦ err missing_fields | some v ↦ ok v ]

  -- An optional field of a retry policy, with the default of the dataclass
  abbrev pub field_or : Value n → Text → Items n → Value n
  field_or default key items = elim (lookup key items) [ none ↦ default | some v ↦ v ]

  abbrev as_strings : ConfigError → Values n → Result ConfigError (List Text)
  as_strings e vs = elim (strings vs) [ none ↦ err e | some ss ↦ ok ss ]

  -- `_parse_notifications` on a value that is not null
  unfoldable pub parse_plan : Items n → Result ConfigError NotificationPlan
  parse_plan items = do
    raise_if (not (only_fields (codes "channels" ∷ codes "on" ∷ []) items)) unsupported_fields
    channels_value ← field (codes "channels") items
    on_value ← field (codes "on") items
    channel_values ← as_list bad_channels channels_value
    channels ← as_strings bad_channels channel_values
    transition_values ← as_list bad_transitions on_value
    names ← as_strings bad_transitions transition_values
    on ← parse_transitions names
    map_err (λ e. bad_plan) (make_plan (record { channels = channels; on = on }))

  -- `_parse_notifications`
  unfoldable pub parse_notifications : Option (Value n) → Result ConfigError NotificationPlan
  parse_notifications none = ok no_plan
  parse_notifications (some null) = ok no_plan
  parse_notifications (some (mapping items)) = parse_plan items
  parse_notifications (some (boolean b)) = err not_a_mapping
  parse_notifications (some (number x)) = err not_a_mapping
  parse_notifications (some (text s)) = err not_a_mapping
  parse_notifications (some (sequence vs)) = err not_a_mapping

  abbrev default_attempts : Value n
  default_attempts = number (n.of_nat 3)

  -- `RetryPolicy(**retry_value)`
  unfoldable pub parse_retry : Items n → Result ConfigError (RetryPolicy n)
  parse_retry items = do
    raise_if
        (not (
          only_fields
            (codes "max_attempts"
              ∷ codes "initial_delay_seconds"
              ∷ codes "max_delay_seconds"
              ∷ codes "jitter_fraction"
              ∷ [])
            items))
        unsupported_fields
    make_retry n (field_or default_attempts (codes "max_attempts") items)
        (field_or (number (n.of_nat 5)) (codes "initial_delay_seconds") items)
        (field_or (number (n.of_nat 60)) (codes "max_delay_seconds") items)
        (field_or (number n.default_jitter) (codes "jitter_fraction") items)

  abbrev default_retry : RetryPolicy n
  default_retry = record {
    max_attempts = 3;
    initial_delay_seconds = n.of_nat 5;
    max_delay_seconds = n.of_nat 60;
    jitter_fraction = n.default_jitter;
  }

  unfoldable pub parse_optional_retry : Option (Value n) → Result ConfigError (RetryPolicy n)
  parse_optional_retry none = ok default_retry
  parse_optional_retry (some null) = ok default_retry
  parse_optional_retry (some (mapping items)) = parse_retry items
  parse_optional_retry (some (boolean b)) = err not_a_mapping
  parse_optional_retry (some (number x)) = err not_a_mapping
  parse_optional_retry (some (text s)) = err not_a_mapping
  parse_optional_retry (some (sequence vs)) = err not_a_mapping

  -- `_parse_schedule` on a mapping
  unfoldable pub parse_interval : Items n → Result ConfigError (ScheduleDefinition n)
  parse_interval items = do
    raise_if (not (only_fields (codes "interval_seconds" ∷ codes "retry" ∷ []) items))
        unsupported_fields
    interval ← field (codes "interval_seconds") items
    retry ← parse_optional_retry (lookup (codes "retry") items)
    make_schedule n interval retry

  -- `_parse_schedule`
  unfoldable pub parse_schedule :
      Option (Value n) → Result ConfigError (Option (ScheduleDefinition n))
  parse_schedule none = ok none
  parse_schedule (some null) = ok none
  parse_schedule (some (mapping items)) = do s ← parse_interval items; ok (some s)
  parse_schedule (some (boolean b)) = err not_a_mapping
  parse_schedule (some (number x)) = err not_a_mapping
  parse_schedule (some (text s)) = err not_a_mapping
  parse_schedule (some (sequence vs)) = err not_a_mapping

  -- `_parse_job`
  unfoldable pub parse_job : Value n → Result ConfigError (JobDefinition n)
  parse_job value = do
    items ← some_or not_a_mapping (as_mapping value)
    raise_if (not (only_fields job_fields items)) unsupported_fields
    id ← field (codes "id") items
    driver ← field (codes "driver") items
    config ← field (codes "config") items
    plan ← parse_notifications (lookup (codes "notify") items)
    schedule ← parse_schedule (lookup (codes "schedule") items)
    make_job id driver config (lookup (codes "enabled") items) plan schedule

  unfoldable pub parse_jobs : Values n → Result ConfigError (List (JobDefinition n))
  parse_jobs no_values = ok []
  parse_jobs (cons v vs) = do job ← parse_job v; jobs ← parse_jobs vs; ok (job ∷ jobs)

  -- `document.get("jobs")`, null where there is none
  abbrev raw_jobs : Items n → Value n
  raw_jobs items = field_or null (codes "jobs") items

  -- `load_config`
  unfoldable pub load_config : Value n → Result ConfigError (List (JobDefinition n))
  load_config document = do
    items ← some_or not_a_mapping (as_mapping document)
    raise_if (not (only_fields (codes "jobs" ∷ []) items)) unsupported_fields
    values ← as_list no_jobs (raw_jobs items)
    jobs ← parse_jobs values
    make_config jobs
