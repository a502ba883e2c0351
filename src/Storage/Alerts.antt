-- ===== src/Storage/Alerts.antt =====
-- The methods of web_checker/storage.py for the operational alerts that await delivery.
use web_checker_py.Prelude.{
  ℕ, ◌+◌, ◌&&◌, Option, none, some, List, [], ◌∷◌, filter, take, Text, ◌==◌, nat_eq, is_none,
  Result, ok, ◌>>=◌, map_err, ltb,
}
use web_checker_py.Time.{DateTime, isoformat, fromisoformat}
use web_checker_py.Core.Models.{ValueError}
use web_checker_py.Notifications.Models.{OperationalAlert}
use web_checker_py.Storage.Tables.{AlertRow, Db, order_by}
use web_checker_py.Storage.Latest.{StorageError, unreadable, decoded}
use web_checker_py.Storage.Pending.{update_where, one_row}

unfoldable pub read_alert : AlertRow → Result ValueError OperationalAlert
read_alert row = do
  created_at ← decoded (fromisoformat row.created_at)
  ok (record {
    id = row.id;
    channel = row.channel;
    key = row.alert_key;
    job_id = row.job_id;
    title = row.title;
    detail = row.detail;
    created_at = created_at;
    attempts = row.attempts;
  })

unfoldable pub read_alerts : List AlertRow → Result ValueError (List OperationalAlert)
read_alerts [] = ok []
read_alerts (row ∷ rest) = do a ← read_alert row; as_ ← read_alerts rest; ok (a ∷ as_)

unfoldable pub pending_alert_rows : ℕ → Db → List AlertRow
pending_alert_rows limit db =
    take limit (order_by (λ a b. ltb a.id b.id) (filter (λ a. is_none a.delivered_at) db.alerts))

-- `list_pending_operational_alerts`
unfoldable pub list_pending_operational_alerts :
    ℕ → Db → Result StorageError (List OperationalAlert)
list_pending_operational_alerts limit db =
    map_err unreadable (read_alerts (pending_alert_rows limit db))

abbrev pub delivered_alert : Text → AlertRow → AlertRow
delivered_alert now row = record row {
  delivered_at = some now;
  attempts = row.attempts + 1;
  last_error = none;
}

abbrev pub failed_alert : Text → AlertRow → AlertRow
failed_alert error row = record row {
  attempts = row.attempts + 1;
  last_error = some (take 2000 error);
}

-- `_update_operational_alert`: an error text for a failed attempt, none for a delivery
unfoldable pub update_operational_alert :
    ℕ → DateTime → Option Text → Db → Result StorageError (Unit {0}) × Db
update_operational_alert id at error db =
    one_row db
      (update_where (λ a. a.id == id && is_none a.delivered_at)
        (elim error [ none ↦ delivered_alert (isoformat at) | some e ↦ failed_alert e ]) db.alerts)
      (λ rows. record db { alerts = rows })

-- `mark_operational_alert_delivered`
unfoldable pub mark_operational_alert_delivered :
    ℕ → DateTime → Db → Result StorageError (Unit {0}) × Db
mark_operational_alert_delivered id at = update_operational_alert id at none

-- `record_operational_alert_failure`
unfoldable pub record_operational_alert_failure :
    ℕ → DateTime → Text → Db → Result StorageError (Unit {0}) × Db
record_operational_alert_failure id at error = update_operational_alert id at (some error)
