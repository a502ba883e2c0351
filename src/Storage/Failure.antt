-- ===== src/Storage/Failure.antt =====
-- `record_check_failure` and `_enqueue_operational_alert` of web_checker/storage.py.
pub mod Rows
pub mod Steps
pub mod Episodes
use web_checker_py.Prelude.{
  ℕ, ◌+◌, Bool, true, false, not, ◌&&◌, Option, none, some, List, [], ◌∷◌, ◌++◌, any, find, take,
  Text, codes, decimal, ◌==◌, text_eq, Result, ok, err, ◌>>=◌, if◌then◌else◌, leb,
}
use web_checker_py.Time.{DateTime, isoformat}
use web_checker_py.Storage.Tables.{JobRow, AlertRow, Db, next_id, alert_ids}
use web_checker_py.Storage.Latest.{StorageError, constraint}
use web_checker_py.Storage.Insert.{failure_key}
use web_checker_py.Storage.Success.{commit}

-- An alert before it has an id and a channel.
pub record AlertDraft : Type 0 where
  pub key : Text
  pub job_id : Text
  pub title : Text
  pub detail : Text
  pub created_at : Text

unfoldable pub alert_row : AlertDraft → Text → ℕ → AlertRow
alert_row draft channel id = record {
  id = id;
  alert_key = draft.key;
  channel = channel;
  job_id = some draft.job_id;
  title = draft.title;
  detail = draft.detail;
  created_at = draft.created_at;
  attempts = 0;
  last_error = none;
  delivered_at = none;
}

-- UNIQUE (alert_key, channel)
abbrev pub same_alert : Text → Text → AlertRow → Bool
same_alert key channel old = old.alert_key == key && old.channel == channel

-- `_enqueue_operational_alert`
unfoldable pub enqueue_alert :
    AlertDraft → List Text → List AlertRow → Result StorageError (List AlertRow)
enqueue_alert draft [] table = ok table
enqueue_alert draft (channel ∷ rest) table =
    let rows = table ++ alert_row draft channel (next_id (alert_ids table)) ∷ [] in
    if any (same_alert draft.key channel) table
    then err constraint
    else enqueue_alert draft rest rows

abbrev pub first_failure : Text → Text → Text → JobRow
first_failure job_id now error = record {
  job_id = job_id;
  last_success_at = none;
  last_failure_at = some now;
  consecutive_failures = 1;
  last_error = some error;
  failure_alert_active = false;
  delivery_alert_active = false;
}

-- The upsert of `job_status` after a failure.
unfoldable pub upsert_failure : Text → Text → Text → List JobRow → List JobRow
upsert_failure job_id now error [] = first_failure job_id now error ∷ []
upsert_failure job_id now error (row ∷ rest) =
    if row.job_id == job_id
    then record row {
      last_failure_at = some now;
      consecutive_failures = row.consecutive_failures + 1;
      last_error = some error;
    }
      ∷ rest
    else row ∷ upsert_failure job_id now error rest

-- The row of a job.
abbrev pub job_row : Text → List JobRow → Option JobRow
job_row job_id rows = find (λ r. r.job_id == job_id) rows

-- `UPDATE job_status SET failure_alert_active = 1 WHERE job_id = ?`
unfoldable pub set_failure_active : Text → List JobRow → List JobRow
set_failure_active job_id [] = []
set_failure_active job_id (row ∷ rest) =
    (if row.job_id == job_id then record row { failure_alert_active = true } else row)
    ∷ set_failure_active job_id rest

unfoldable pub failure_draft : Text → Text → Text → ℕ → AlertDraft
failure_draft job_id error now failures = record {
  key = failure_key job_id;
  job_id = job_id;
  title = codes "Repeated check failures: " ++ job_id;
  detail =
      decimal failures
      ++ (codes " consecutive scheduled checks failed. Last error: " ++ take 1000 error);
  created_at = now;
}

-- The test for an alert, on the row of the job after the upsert.
abbrev pub is_raised : ℕ → JobRow → Bool
is_raised alert_after row = leb alert_after row.consecutive_failures && not row.failure_alert_active

-- The rest of the transaction, on the row that the `SELECT` found.
unfoldable pub raise_failure :
    Text → Text → Text → ℕ → List Text → Option JobRow → Db → Result StorageError (Bool × Db)
raise_failure job_id error now alert_after channels none db = ok (false, db)
raise_failure job_id error now alert_after channels (some row) db =
    if is_raised alert_after row
    then (do
      alerts ←
          enqueue_alert (failure_draft job_id error now row.consecutive_failures) channels db.alerts
      ok (
        true,
        record db { alerts = alerts; job_status = set_failure_active job_id db.job_status },
      ))
    else ok (false, db)

-- `record_check_failure`
unfoldable pub record_check_failure :
    Text → Text → DateTime → ℕ → List Text → Db → Result StorageError Bool × Db
record_check_failure job_id error occurred_at alert_after channels db =
    let now = isoformat occurred_at in
    let rows = upsert_failure job_id now (take 2000 error) db.job_status in
    commit db (
      raise_failure job_id error now alert_after channels (job_row job_id rows)
        (record db { job_status = rows }))
