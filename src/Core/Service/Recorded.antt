-- ===== src/Core/Service/Recorded.antt =====
-- A result that a driver returned is recorded, whatever becomes of the deliveries.
use web_checker_py.Prelude.{
  ℕ, true, Option, none, some, List, [], ◌∷◌, ◌==◌, nat_eq, text_eq, is_distinct, Text, Result, ok,
  err, ◌≡◌, refl, ◌∙◌, Bool-cases, inl, inr,
}
use web_checker_py.Core.Models.{CheckResult}
use web_checker_py.Core.Service.{
  Drivers, default_limit, deliver, finish, deliver_recorded, record_checked, check_with, check,
}
use web_checker_py.Config.Values.{Numbers}
use web_checker_py.Config.Definitions.{JobDefinition}
use web_checker_py.Notifications.Models.{PendingNotification, DeliverySummary}
use web_checker_py.Notifications.Registry.{get}
use web_checker_py.Notifications.Service.{
  Channels, attempt, keep_outcome, counted, and_then, dispatch, no_deliveries, dispatch_pending,
}
use web_checker_py.Storage.Encoding.{JsonCodec}
use web_checker_py.Storage.Tables.{Db, OutboxRow}
use web_checker_py.Storage.Latest.{StorageError, get_latest}
use web_checker_py.Storage.Pending.{
  list_pending_notifications, one_row, update_where, is_pending_id, update_notification,
  mark_notification_delivered, record_notification_failure,
}
use web_checker_py.Storage.Success.{RecordOutcome, record_success}
use web_checker_py.Storage.Success.Snapshot.{IsComplete, IsFaithful, stored_result}
use web_checker_py.Storage.Success.Contract.{
  IsSound, record_success-IsSound, get_latest-record_success,
}

-- Deliveries do not touch the history.
pub record SameHistory (before after : Db) : Type 0 where
  pub runs : after.check_runs ≡ before.check_runs
  pub observations : after.observations ≡ before.observations

same : (db : Db) → SameHistory db db
same db = record { runs = refl; observations = refl }

later : (a b c : Db) → SameHistory a b → SameHistory b c → SameHistory a c
later a b c h k = record { runs = k.runs ∙ h.runs; observations = k.observations ∙ h.observations }

one_row-SameHistory :
    (db : Db) (r : ℕ × List OutboxRow)
    → SameHistory db (one_row db r (λ rows. record db { outbox = rows })).1
one_row-SameHistory db (count, rows) = elim (Bool-cases (count == 1)) [
  | inl e ↦ rw e (record { runs = refl; observations = refl })
  | inr e ↦ rw e (same db)
]

module _ (c : Channels) where
  keep_outcome-SameHistory :
      (p : PendingNotification) (o : Option Text) (db : Db)
      → SameHistory db (keep_outcome c p o db).1
  unfolding keep_outcome mark_notification_delivered record_notification_failure update_notification
  keep_outcome-SameHistory p none db =
      one_row-SameHistory db (update_where (is_pending_id p.id) _ db.outbox)
  keep_outcome-SameHistory p (some e) db =
      one_row-SameHistory db (update_where (is_pending_id p.id) _ db.outbox)

  and_then-SameHistory :
      (db : Db) (r : Result StorageError (Unit {0}) × Db)
      (rest : Db → Result StorageError DeliverySummary × Db)
      → SameHistory db r.1
      → ((x : Db) → SameHistory x (rest x).1)
      → SameHistory db (and_then r rest).1
  and_then-SameHistory db (err e, after) rest h k = h
  and_then-SameHistory db (ok u, after) rest h k = later db after _ h (k after)

  dispatch-SameHistory :
      (ns : List PendingNotification) (s : DeliverySummary) (db : Db)
      → SameHistory db (dispatch c ns s db).1
  unfolding dispatch
  dispatch-SameHistory [] s db = same db
  dispatch-SameHistory (p ∷ ns) s db =
      and_then-SameHistory db (keep_outcome c p (attempt c p) db) _
        (keep_outcome-SameHistory p (attempt c p) db)
        (dispatch-SameHistory ns (counted c (attempt c p) s))

  dispatch_pending-SameHistory :
      (limit : ℕ) (db : Db) → SameHistory db (dispatch_pending c limit db).1
  unfolding dispatch_pending
  dispatch_pending-SameHistory limit db =
      elim (list_pending_notifications limit db)
        as (λ listed.
          SameHistory db
            (elim listed as (λ x. Result StorageError DeliverySummary × Db) [
              | err e ↦ (err e, db)
              | ok ns ↦ dispatch c ns no_deliveries db
            ]).1) [ err e ↦ same db | ok ns ↦ dispatch-SameHistory ns no_deliveries db ]

deliver-SameHistory :
    (channels : Option Channels) (db : Db) → SameHistory db (deliver channels db).1
unfolding deliver
deliver-SameHistory none db = same db
deliver-SameHistory (some c) db = dispatch_pending-SameHistory c default_limit db

finish-state :
    (result : CheckResult) (outcome : RecordOutcome) (r : Result StorageError DeliverySummary × Db)
    → (finish result outcome r).1 ≡ r.1
unfolding finish
finish-state result outcome (err e, db) = refl
finish-state result outcome (ok d, db) = refl

get_latest-SameHistory :
    (json : JsonCodec) (job : Text) (before after : Db)
    → SameHistory before after
    → get_latest json job after ≡ get_latest json job before
unfolding get_latest
get_latest-SameHistory json job before after h = rw (h.runs, h.observations) refl

module _ {n : Numbers} (json : JsonCodec) (faithful : IsFaithful json) (channels : Option Channels)
    (d : Drivers n) (job : JobDefinition n) (db : Db) where
  -- When the driver of the job is registered and returns a complete result, on a sound store and
  -- with distinct channels, the newest snapshot of the job after the check is that result, with the
  -- attributes of each opportunity in the order of their keys, also where a delivery fails or
  -- raises.
  pub get_latest-check :
      (driver : d.Driver) (result : CheckResult)
      → get job.driver d.drivers ≡ ok driver
      → d.check driver job.config ≡ ok result
      → IsSound json db
      → IsComplete result
      → is_distinct job.notifications.channels ≡ true
      → get_latest json job.id (check json channels d job db).1 ≡ ok (some (stored_result result))
  unfolding check check_with record_checked deliver_recorded
  get_latest-check driver result g r sound complete distinct =
      let (previous, e, outcome, recorded_ok, told, after) =
        record_success-IsSound json faithful job.id result job.notifications db sound complete
          distinct in
      let recorded = (record_success json job.id result job.notifications db).1 in
      rw (g, r, recorded_ok, finish-state result _ (deliver channels recorded))
        (get_latest-SameHistory json job.id recorded (deliver channels recorded).1
            (deliver-SameHistory channels recorded)
          ∙ get_latest-record_success json faithful job.id result job.notifications db sound
              complete distinct)
