-- ===== src/Tests/Documents.antt =====
-- The theorem on configurations at a document that loads.
use web_checker_py.Prelude.{
  ℕ, true, some, List, [], ◌∷◌, All, codes, leb, ltb, strip, lstrip, is_space, is_distinct, text_eq,
  ok, ◌≡◌, refl,
}
use web_checker_py.Core.Transitions.{became_available}
use web_checker_py.Core.Models.{is_blank}
use web_checker_py.Notifications.Models.{make_plan}
use web_checker_py.Storage.Encoding.{read_transition, transition_value}
use web_checker_py.Config.Values.{
  Numbers, Value, number, text, sequence, mapping, no_values, cons, no_items, item, name, lookup,
  only_fields, strings, as_mapping,
}
use web_checker_py.Config.Definitions.{
  JobDefinition, job_ids, make_schedule, make_config, make_job, read_driver, read_enabled, read_id,
  is_id_tail, is_job_id, validate_number, check_finite,
}
use web_checker_py.Config.Parse.{
  load_config, as_list, parse_jobs, parse_job, parse_notifications, parse_plan, parse_transitions,
  parse_schedule, parse_interval, parse_optional_retry,
}
use web_checker_py.Config.Parse.Loaded.{IsValidJob, load_config-IsValidJob}

-- Whole numbers only.
abbrev pub whole_numbers : Numbers
whole_numbers = record {
  Number = ℕ;
  is_finite = λ x. some true;
  leq = leb;
  less = ltb;
  whole = λ x. some x;
  of_nat = λ k. k;
  default_jitter = 0;
  whole_of_nat = λ k. refl;
}

abbrev schedule : Value whole_numbers
schedule = mapping (item (name (codes "interval_seconds")) (number 300) no_items)

abbrev notify : Value whole_numbers
notify = mapping (
    item (name (codes "channels")) (sequence (cons (text (codes "console")) no_values)) (
      item (name (codes "on")) (sequence (cons (text (codes "became_available")) no_values))
        no_items))

abbrev document : Value whole_numbers
document = mapping (
    item (name (codes "jobs"))
      (sequence (
        cons
          (mapping (
            item (name (codes "id")) (text (codes "golden-ears")) (
              item (name (codes "driver")) (text (codes " fake ")) (
                item (name (codes "config")) (mapping no_items) (
                  item (name (codes "notify")) notify
                    (item (name (codes "schedule")) schedule no_items))))))
          no_values))
      no_items)

abbrev pub jobs : List (JobDefinition whole_numbers)
jobs =
    record {
      id = codes "golden-ears";
      driver = codes "fake";
      config = no_items;
      enabled = true;
      notifications = record { channels = codes "console" ∷ []; on = became_available ∷ [] };
      schedule = some (record {
        interval_seconds = 300;
        retry = record {
          max_attempts = 3;
          initial_delay_seconds = 5;
          max_delay_seconds = 60;
          jitter_fraction = 0;
        };
      });
    }
    ∷ []

loads : load_config document ≡ ok jobs
unfolding load_config only_fields lookup strings read_transition make_plan strip lstrip is_space
    is_blank transition_value as_mapping make_schedule make_config make_job read_driver read_enabled
    read_id is_id_tail is_job_id validate_number check_finite as_list parse_jobs parse_job
    parse_notifications parse_plan parse_transitions parse_schedule parse_interval
    parse_optional_retry
loads = refl

load_config-IsValidJob_example : All IsValidJob jobs × (is_distinct (job_ids jobs) ≡ true)
load_config-IsValidJob_example = load_config-IsValidJob document jobs loads
