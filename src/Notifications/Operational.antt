-- ===== src/Notifications/Operational.antt =====
-- `OperationalAlertService` of web_checker/notifications/operational.py: the store, and the events
-- that go to the sink, in order. As in the dispatcher, no other task writes meanwhile.
use web_checker_py.Prelude.{
  ℕ, Bool, true, false, Option, none, some, List, [], ◌∷◌, ◌++◌, map, Text, Result, ok, err,
}
use web_checker_py.Time.{DateTime}
use web_checker_py.Notifications.Models.{OperationalAlert}
use web_checker_py.Notifications.Registry.{RegistryError, get}
use web_checker_py.Storage.Tables.{Db}
use web_checker_py.Storage.Latest.{StorageError}
use web_checker_py.Storage.Alerts.{
  list_pending_operational_alerts, mark_operational_alert_delivered,
  record_operational_alert_failure,
}
use web_checker_py.Storage.Failure.{record_check_failure}
use web_checker_py.Storage.Backlog.{raise_delivery_backlog_alerts}

-- The messages to the event sink. A job of none is shown as "system".
pub data Event : Type 0 where
  check_failure_raised backlog_raised : Text → Event
  alert_delivered : Option Text → Text → Event
  alert_failed : Option Text → Text → Text → Event

-- The notifiers, the text of what a send raises, and the times that are read.
pub record AlertChannels : Type 1 where
  pub Notifier : Type 0
  pub notifiers : List (Text × Notifier)
  pub send : Notifier → OperationalAlert → Option Text
  pub error_text : RegistryError → Text
  pub attempted_at : OperationalAlert → DateTime

-- What a call leaves: its outcome, the store, and the events so far.
pub record AlertRun : Type 0 where
  pub outcome : Result StorageError (Unit {0})
  pub store : Db
  pub events : List Event

module _ (c : AlertChannels) where
  unfoldable pub attempt_alert : OperationalAlert → Option Text
  attempt_alert a = elim (get a.channel c.notifiers) [
    | err e ↦ some (c.error_text e)
    | ok notifier ↦ c.send notifier a
  ]

  -- The statement that keeps the outcome, and the event that follows it
  unfoldable pub keep_alert :
      OperationalAlert → Option Text → Db → (Result StorageError (Unit {0}) × Db) × Event
  keep_alert a none db = (
    mark_operational_alert_delivered a.id (c.attempted_at a) db,
    alert_delivered a.job_id a.channel,
  )
  keep_alert a (some e) db = (
    record_operational_alert_failure a.id (c.attempted_at a) e db,
    alert_failed a.job_id a.channel e,
  )

  abbrev next_alert :
      (Result StorageError (Unit {0}) × Db) × Event
      → List Event
      → (Db → List Event → AlertRun)
      → AlertRun
  next_alert ((err e, db), event) events rest = record {
    outcome = err e;
    store = db;
    events = events;
  }
  next_alert ((ok u, db), event) events rest = rest db (events ++ event ∷ [])

  unfoldable pub dispatch_alerts : List OperationalAlert → Db → List Event → AlertRun
  dispatch_alerts [] db events = record { outcome = ok tt; store = db; events = events }
  dispatch_alerts (a ∷ rest) db events =
      let later = dispatch_alerts rest in
      next_alert (keep_alert a (attempt_alert a) db) events later

  -- `dispatch_pending`
  unfoldable pub dispatch_pending_alerts : Db → List Event → AlertRun
  dispatch_pending_alerts db events = elim (list_pending_operational_alerts 100 db) [
    | err e ↦ record { outcome = err e; store = db; events = events }
    | ok alerts ↦ dispatch_alerts alerts db events
  ]

  abbrev raised_events : Text → Bool → List Event
  raised_events job true = check_failure_raised job ∷ []
  raised_events job false = []

  unfoldable pub after_failure : Text → Result StorageError Bool × Db → List Event → AlertRun
  after_failure job (err e, db) events = record { outcome = err e; store = db; events = events }
  after_failure job (ok raised, db) events =
      dispatch_pending_alerts db (events ++ raised_events job raised)

  -- `check_failed`
  unfoldable pub check_failed : Text → Text → DateTime → ℕ → List Text → Db → List Event → AlertRun
  check_failed job error now alert_after channels db events =
      after_failure job (record_check_failure job error now alert_after channels db) events

  unfoldable pub after_backlog : Result StorageError (List Text) × Db → List Event → AlertRun
  after_backlog (err e, db) events = record { outcome = err e; store = db; events = events }
  after_backlog (ok jobs, db) events =
      dispatch_pending_alerts db (events ++ map backlog_raised jobs)

  -- `delivery_backlog`
  unfoldable pub delivery_backlog : (Text → DateTime) → ℕ → List Text → Db → List Event → AlertRun
  delivery_backlog clock alert_after channels db events =
      after_backlog (raise_delivery_backlog_alerts clock alert_after channels db) events
