-- ===== src/Storage/Pending.antt =====
-- The methods of web_checker/storage.py that the two dispatchers call: what is pending, and the
-- outcome of an attempt to deliver it.
use web_checker_py.Prelude.{
  ℕ, ◌+◌, Bool, ◌&&◌, Option, none, some, List, [], ◌∷◌, filter, take, Text, ◌==◌, nat_eq, is_none,
  Result, ok, err, ◌>>=◌, map_err, if◌then◌else◌, ltb,
}
use web_checker_py.Time.{DateTime, isoformat, fromisoformat}
use web_checker_py.Core.Models.{Availability, ValueError}
use web_checker_py.Notifications.Models.{PendingNotification}
use web_checker_py.Storage.Encoding.{read_availability, read_transition}
use web_checker_py.Storage.Tables.{OutboxRow, Db, order_by}
use web_checker_py.Storage.Latest.{StorageError, not_found, unreadable, decoded}

unfoldable pub read_optional_availability : Option Text → Result ValueError (Option Availability)
read_optional_availability none = ok none
read_optional_availability (some s) = do a ← decoded (read_availability s); ok (some a)

unfoldable pub read_notification : OutboxRow → Result ValueError PendingNotification
read_notification row = do
  kind ← decoded (read_transition row.transition_type)
  availability ← read_optional_availability row.current_availability
  checked_at ← decoded (fromisoformat row.checked_at)
  ok (record {
    id = row.id;
    channel = row.channel;
    job_id = row.job_id;
    transition_type = kind;
    opportunity_id = row.opportunity_id;
    opportunity_title = row.opportunity_title;
    current_availability = availability;
    booking_url = row.booking_url;
    checked_at = checked_at;
    attempts = row.attempts;
  })

unfoldable pub read_notifications : List OutboxRow → Result ValueError (List PendingNotification)
read_notifications [] = ok []
read_notifications (row ∷ rest) = do
  n ← read_notification row
  ns ← read_notifications rest
  ok (n ∷ ns)

abbrev pub is_pending : OutboxRow → Bool
is_pending row = is_none row.delivered_at

-- The rows of the `SELECT`. A limit of 0 or less selects nothing.
unfoldable pub pending_rows : ℕ → Db → List OutboxRow
pending_rows limit db = take limit (order_by (λ a b. ltb a.id b.id) (filter is_pending db.outbox))

-- `list_pending_notifications`
unfoldable pub list_pending_notifications : ℕ → Db → Result StorageError (List PendingNotification)
list_pending_notifications limit db =
    map_err unreadable (read_notifications (pending_rows limit db))

-- `WHERE id = ? AND delivered_at IS NULL`
abbrev pub is_pending_id : ℕ → OutboxRow → Bool
is_pending_id id row = row.id == id && is_pending row

-- An `UPDATE` of the rows that pass a test, with the number of rows changed.
unfoldable pub update_where : {A : Type 0} → (A → Bool) → (A → A) → List A → ℕ × List A
update_where test change [] = (0, [])
update_where test change (row ∷ rest) =
    let (count, rows) = update_where test change rest in
    if test row then (count + 1, change row ∷ rows) else (count, row ∷ rows)

-- `if rowcount != 1: raise`, and the connection is closed with nothing committed
abbrev pub one_row : {A : Type 0} → Db → ℕ × A → (A → Db) → Result StorageError (Unit {0}) × Db
one_row db (count, rows) commit = if count == 1 then (ok tt, commit rows) else (err not_found, db)

-- `_update_notification`
unfoldable pub update_notification :
    ℕ → (OutboxRow → OutboxRow) → Db → Result StorageError (Unit {0}) × Db
update_notification id change db =
    one_row db (update_where (is_pending_id id) change db.outbox)
      (λ rows. record db { outbox = rows })

abbrev pub delivered_row : Text → OutboxRow → OutboxRow
delivered_row now row = record row {
  delivered_at = some now;
  last_attempt_at = some now;
  attempts = row.attempts + 1;
  last_error = none;
}

abbrev pub failed_row : Text → Text → OutboxRow → OutboxRow
failed_row now error row = record row {
  last_attempt_at = some now;
  attempts = row.attempts + 1;
  last_error = some (take 2000 error);
}

-- `mark_notification_delivered`
unfoldable pub mark_notification_delivered : ℕ → DateTime → Db → Result StorageError (Unit {0}) × Db
mark_notification_delivered id at = update_notification id (delivered_row (isoformat at))

-- `record_notification_failure`
unfoldable pub record_notification_failure :
    ℕ → DateTime → Text → Db → Result StorageError (Unit {0}) × Db
record_notification_failure id at error = update_notification id (failed_row (isoformat at) error)
