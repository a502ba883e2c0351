-- ===== src/Tests/Deliveries.antt =====
-- The theorems on prunes, deliveries and the scheduler at inputs that meet their hypotheses.
use web_checker_py.Prelude.{
  ℕ, ◌+◌, ◌-◌, ◌*◌, ◌/◌, ◌≤◌, ◌<◌, ltb, if◌then◌else◌, true, none, some, List, [], ◌∷◌, ◌++◌, map,
  filter, not, ◌&&◌, All, Text, codes, strip, text_eq, ok, ◌≡◌, refl, arith,
}
use web_checker_py.Core.Scheduler.{
  Floats, Job, State, make_scheduler, scheduled, startup, set_due, tick, discard_completed,
  is_running, new_task, visit_all, visit, visit_due, start, set_task,
}
use web_checker_py.Core.Scheduler.Overlap.{tick-tasks}
use web_checker_py.Core.Scheduler.Seen.{is_due}
use web_checker_py.Core.Scheduler.Retries.{
  tries, Fails, Attempt, succeeded, raised, checks, sleeps, reports_failure, reviews_backlog,
  execute, execute-succeeded, execute-failed,
}
use web_checker_py.Notifications.Models.{PendingNotification}
use web_checker_py.Time.{isoformat, in_range}
use web_checker_py.Time.RoundTrip.{fromisoformat-isoformat}
use web_checker_py.Core.Models.{available}
use web_checker_py.Core.Transitions.{appeared}
use web_checker_py.Storage.Encoding.{read_availability, read_transition}
use web_checker_py.Notifications.Registry.{register, register_all, get}
use web_checker_py.Notifications.Registry.Lookup.{get-register_all}
use web_checker_py.Notifications.Service.{Channels, attempt, dispatch_pending}
use web_checker_py.Notifications.Service.Settled.{settled, dispatch_pending-settled}
use web_checker_py.Storage.Tables.{Db, OutboxRow, empty, order_by, insert_by}
use web_checker_py.Storage.Latest.{get_latest}
use web_checker_py.Storage.Pending.{
  is_pending, pending_rows, read_notifications, read_notification, read_optional_availability,
  list_pending_notifications,
}
use web_checker_py.Storage.Success.{record_success}
use web_checker_py.Storage.Success.Contract.{record_success-IsSound}
use web_checker_py.Storage.Prune.{prune}
use web_checker_py.Storage.Prune.Deliveries.{prune-pending}
use web_checker_py.Storage.Prune.Newest.{get_latest-prune}
use web_checker_py.Tests.Codec.{codec, codec-IsFaithful}
use web_checker_py.Tests.Data.{
  first_check, job, plan, first_check-IsComplete, empty-IsSound, at_second,
}

-- The store after one check, with two deliveries pending.
abbrev used : Db
used = (record_success codec job first_check plan empty).1

prune-pending_example :
    filter is_pending (prune (at_second 9) (at_second 8) used).1.outbox
    ≡ filter is_pending used.outbox
prune-pending_example =
    prune-pending (at_second 9) (at_second 8) used
      (record_success-IsSound codec codec-IsFaithful job first_check plan empty empty-IsSound
        first_check-IsComplete refl).5.references

get_latest-prune_example :
    get_latest codec job (prune (at_second 9) (at_second 8) used).1 ≡ get_latest codec job used
get_latest-prune_example = get_latest-prune (at_second 9) (at_second 8) used codec job

-- Two jobs, at start.
abbrev pub job_list : List Job
job_list =
    record {
      id = codes "a";
      enabled = true;
      schedule = some (record { interval_seconds = 60; max_attempts = 3 });
    }
    ∷ record {
      id = codes "b";
      enabled = true;
      schedule = some (record { interval_seconds = 7; max_attempts = 1 });
    }
    ∷ []

abbrev pub two_jobs : State
two_jobs = make_scheduler job_list 100

-- Floats that are whole numbers, on which the arithmetic is exact.
abbrev pub whole : Floats
whole = record {
  plus = λ x y. x + y;
  minus = λ x y. x - y;
  floor_divide = λ x y. x / y;
  int = λ x. x;
  times = λ n x. n * x;
}

abbrev pub ticked : State
ticked = record {
  jobs = two_jobs.jobs;
  next_due = (codes "a", 280) ∷ (codes "b", 254) ∷ [];
  tasks = new_task 250 (codes "a") ∷ new_task 250 (codes "b") ∷ [];
  skipped = [];
}

tick-tasks_example :
    (ticked.tasks
      ≡ discard_completed two_jobs.tasks
        ++ map
            (λ j. new_task 250 j.id)
            (filter
              (λ j.
                is_due 250 two_jobs.next_due j
                && not (is_running j.id (discard_completed two_jobs.tasks)))
              two_jobs.jobs))
    × (ticked.skipped
        ≡ two_jobs.skipped
          ++ map
              (λ j. j.id)
              (filter
                (λ j.
                  is_due 250 two_jobs.next_due j
                  && is_running j.id (discard_completed two_jobs.tasks))
                two_jobs.jobs))
unfolding make_scheduler scheduled startup set_due tick visit_all visit visit_due start set_task
tick-tasks_example = tick-tasks whole 250 two_jobs ticked refl refl

-- Two attempts that raise, then one that succeeds.
abbrev third_time : ℕ → Attempt (Unit {0})
third_time n = if ltb n 3 then raised (codes "timeout") else succeeded tt

execute-succeeded_example :
    execute third_time 5
    ≡ checks 1 ∷ sleeps 1 ∷ checks 2 ∷ sleeps 2 ∷ checks 3 ∷ reviews_backlog ∷ []
unfolding tries
execute-succeeded_example = execute-succeeded third_time 2 5 tt (omega arith) fails refl
  where
    fails : (i : ℕ) → 1 ≤ i → i < 1 + 2 → Fails third_time i
    fails i a b = (codes "timeout", let early : ltb i 3 ≡ true = ground arith in rw early)

execute-failed_example :
    execute third_time 2 ≡ checks 1 ∷ sleeps 1 ∷ checks 2 ∷ reports_failure (codes "timeout") ∷ []
unfolding tries
execute-failed_example = execute-failed third_time 1 (codes "timeout") fails refl
  where
    fails : (i : ℕ) → 1 ≤ i → i < 1 + 1 → Fails third_time i
    fails i a b = (codes "timeout", let early : ltb i 3 ≡ true = ground arith in rw early)

-- A notifier is its name; the name "console" can be sent to.
get-register_all_example :
    All
      (λ a.
        get (strip a) ((codes "console", codes "console ") ∷ (codes "email", codes "email") ∷ [])
        ≡ ok a)
      (codes "console " ∷ codes "email" ∷ [])
unfolding register_all register strip
get-register_all_example = get-register_all (λ a. a) (codes "console " ∷ codes "email" ∷ []) _ refl

abbrev channels : Channels
channels = record {
  Notifier = Text;
  notifiers = (codes "console", codes "console") ∷ [];
  send = λ name n. none;
  error_text = λ e. codes "unknown channel";
  attempted_at = λ n. at_second 7;
}

abbrev row : ℕ → Text → OutboxRow
row id channel = record {
  id = id;
  transition_id = 1;
  channel = channel;
  job_id = job;
  transition_type = codes "appeared";
  opportunity_id = codes "a";
  opportunity_title = codes "Golden Ears";
  current_availability = some (codes "available");
  booking_url = none;
  checked_at = isoformat (at_second 5);
  attempts = 0;
  last_attempt_at = none;
  last_error = none;
  delivered_at = none;
}

abbrev notification : ℕ → Text → PendingNotification
notification id channel = record {
  id = id;
  channel = channel;
  job_id = job;
  transition_type = appeared;
  opportunity_id = codes "a";
  opportunity_title = codes "Golden Ears";
  current_availability = some available;
  booking_url = none;
  checked_at = at_second 5;
  attempts = 0;
}

abbrev two_rows : Db
two_rows = record empty { outbox = row 1 (codes "console") ∷ row 2 (codes "email") ∷ [] }

abbrev two_notifications : List PendingNotification
two_notifications = notification 1 (codes "console") ∷ notification 2 (codes "email") ∷ []

listed : list_pending_notifications 100 two_rows ≡ ok two_notifications
unfolding list_pending_notifications pending_rows read_notifications read_notification
    read_optional_availability read_availability read_transition order_by insert_by in_range
listed = rw (fromisoformat-isoformat (at_second 5) refl) refl

dispatch_pending-settled_example : dispatch_pending channels 100 two_rows ≡ (
  ok (record { delivered = 1; failed = 1 }),
  record two_rows { outbox = map (settled channels two_notifications) two_rows.outbox },
)
unfolding attempt get
dispatch_pending-settled_example =
    dispatch_pending-settled channels 100 two_rows two_notifications refl listed
