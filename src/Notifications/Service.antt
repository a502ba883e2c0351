-- ===== src/Notifications/Service.antt =====
-- `NotificationService.dispatch_pending` of web_checker/notifications/service.py. No other task
-- writes to the store while a delivery is awaited.
pub mod Updates
pub mod Listing
pub mod Settled
use web_checker_py.Prelude.{
  ℕ, ◌+◌, Option, none, some, List, [], ◌∷◌, ◌++◌, Text, codes, is_nil, Result, ok, err, ◌>>=◌,
  if◌then◌else◌,
}
use web_checker_py.Time.{DateTime}
use web_checker_py.Notifications.Models.{PendingNotification, DeliverySummary}
use web_checker_py.Notifications.Registry.{RegistryError, get}
use web_checker_py.Storage.Tables.{Db}
use web_checker_py.Storage.Latest.{StorageError}
use web_checker_py.Storage.Pending.{
  list_pending_notifications, mark_notification_delivered, record_notification_failure,
}

-- What a dispatch meets outside the store: the registered notifiers, the text of the exception that
-- `send` raises, if any, the text of an exception of the registry, and the times of the attempts.
pub record Channels : Type 1 where
  pub Notifier : Type 0
  pub notifiers : List (Text × Notifier)
  pub send : Notifier → PendingNotification → Option Text
  pub error_text : RegistryError → Text
  pub attempted_at : PendingNotification → DateTime

-- What follows a statement of the store, unless it raises.
abbrev pub and_then :
    {A B : Type 0}
    → Result StorageError A × Db
    → (Db → Result StorageError B × Db)
    → Result StorageError B × Db
and_then (err e, db) rest = (err e, db)
and_then (ok a, db) rest = rest db

-- `DeliverySummary()`
abbrev pub no_deliveries : DeliverySummary
no_deliveries = record { delivered = 0; failed = 0 }

module _ (c : Channels) where
  -- `self._registry.get(notification.channel)` and `send`: the text of what is raised
  unfoldable pub attempt : PendingNotification → Option Text
  attempt n = elim (get n.channel c.notifiers) [
    | err e ↦ some (c.error_text e)
    | ok notifier ↦ c.send notifier n
  ]

  -- The statement that keeps the outcome of an attempt.
  unfoldable pub keep_outcome :
      PendingNotification → Option Text → Db → Result StorageError (Unit {0}) × Db
  keep_outcome n none db = mark_notification_delivered n.id (c.attempted_at n) db
  keep_outcome n (some e) db = record_notification_failure n.id (c.attempted_at n) e db

  abbrev pub counted : Option Text → DeliverySummary → DeliverySummary
  counted none s = record s { delivered = s.delivered + 1 }
  counted (some e) s = record s { failed = s.failed + 1 }

  -- The loop over the pending notifications, which an exception of the store ends.
  unfoldable pub dispatch :
      List PendingNotification → DeliverySummary → Db → Result StorageError DeliverySummary × Db
  dispatch [] summary db = (ok summary, db)
  dispatch (n ∷ rest) summary db =
      let later = dispatch rest (counted (attempt n) summary) in
      and_then (keep_outcome n (attempt n) db) later

  -- `dispatch_pending`
  unfoldable pub dispatch_pending : ℕ → Db → Result StorageError DeliverySummary × Db
  dispatch_pending limit db = elim (list_pending_notifications limit db) [
    | err e ↦ (err e, db)
    | ok notifications ↦ dispatch notifications no_deliveries db
  ]
