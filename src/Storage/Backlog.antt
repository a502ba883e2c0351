-- ===== src/Storage/Backlog.antt =====
-- `raise_delivery_backlog_alerts` of web_checker/storage.py. SQLite gives the groups of
-- `GROUP BY s.job_id` in the order of the job ids, which the code does not ask for.
pub mod Flags
pub mod Order
pub mod Notices
pub mod Loop
pub mod Raised
use web_checker_py.Prelude.{
  ℕ, Bool, true, false, not, ◌&&◌, List, [], ◌∷◌, ◌++◌, map, filter, length, Text, codes, decimal,
  ◌==◌, text_eq, is_none, Result, ok, ◌>>=◌, if◌then◌else◌, leb, ltb, order_by, text_lt,
}
use web_checker_py.Time.{DateTime, isoformat}
use web_checker_py.Storage.Tables.{OutboxRow, JobRow, AlertRow, Db, max_of}
use web_checker_py.Storage.Latest.{StorageError}
use web_checker_py.Storage.Success.{commit}
use web_checker_py.Storage.Failure.{AlertDraft, enqueue_alert}

-- `f"delivery-backlog:{job_id}"`
abbrev pub backlog_key : Text → Text
backlog_key job_id = codes "delivery-backlog:" ++ job_id

-- The undelivered rows of a job.
abbrev pub pending_of : Text → List OutboxRow → List OutboxRow
pending_of job_id outbox = filter (λ n. n.job_id == job_id && is_none n.delivered_at) outbox

-- `MAX(n.attempts)`, 0 for no rows, where it is not read
abbrev pub max_attempts : List OutboxRow → ℕ
max_attempts rows = max_of (map (λ n. n.attempts) rows)

abbrev pub is_backlog : ℕ → List OutboxRow → Bool
is_backlog alert_after rows = ltb 0 (length rows) && leb alert_after (max_attempts rows)

unfoldable pub backlog_draft : Text → Text → ℕ → ℕ → AlertDraft
backlog_draft job_id now count attempts = record {
  key = backlog_key job_id;
  job_id = job_id;
  title = codes "Notification delivery backlog: " ++ job_id;
  detail =
      decimal count
      ++ (codes " deliveries remain pending; the oldest has failed "
          ++ (decimal attempts ++ codes " times. Check worker logs."));
  created_at = now;
}

-- `UPDATE job_status SET delivery_alert_active = ? WHERE job_id = ?`
unfoldable pub set_delivery_active : Text → Bool → List JobRow → List JobRow
set_delivery_active job_id active [] = []
set_delivery_active job_id active (row ∷ rest) =
    (if row.job_id == job_id then record row { delivery_alert_active = active } else row)
    ∷ set_delivery_active job_id active rest

abbrev pub without_key : Text → List AlertRow → List AlertRow
without_key key alerts = filter (λ a. not (a.alert_key == key)) alerts

-- The two `if` statements of the loop body.
unfoldable pub backlog_alerts :
    Bool → Bool → AlertDraft → List Text → List AlertRow → Result StorageError (List AlertRow)
backlog_alerts true false draft channels alerts = enqueue_alert draft channels alerts
backlog_alerts false true draft channels alerts = ok (without_key draft.key alerts)
backlog_alerts true true draft channels alerts = ok alerts
backlog_alerts false false draft channels alerts = ok alerts

-- What the loop changes.
pub record Alerting : Type 0 where
  pub raised : List Text
  pub job_status : List JobRow
  pub alerts : List AlertRow

-- The loop over the jobs; `clock` is the time read for a job's alert.
unfoldable pub backlog_loop :
    (Text → DateTime)
    → ℕ
    → List Text
    → List OutboxRow
    → List JobRow
    → Alerting
    → Result StorageError Alerting
backlog_loop clock alert_after channels outbox [] state = ok state
backlog_loop clock alert_after channels outbox (row ∷ rest) state = do
  let pending = pending_of row.job_id outbox
  let active = is_backlog alert_after pending
  let draft =
      backlog_draft row.job_id (isoformat (clock row.job_id)) (length pending)
        (max_attempts pending)
  alerts ← backlog_alerts active row.delivery_alert_active draft channels state.alerts
  backlog_loop clock alert_after channels outbox rest (record {
    raised =
        if active && not row.delivery_alert_active
        then state.raised ++ row.job_id ∷ []
        else state.raised;
    job_status = set_delivery_active row.job_id active state.job_status;
    alerts = alerts;
  })

-- The rows of the `SELECT`, one for each job
abbrev pub by_job_id : List JobRow → List JobRow
by_job_id = order_by (λ a b. text_lt a.job_id b.job_id)

-- `raise_delivery_backlog_alerts`
unfoldable pub raise_delivery_backlog_alerts :
    (Text → DateTime) → ℕ → List Text → Db → Result StorageError (List Text) × Db
raise_delivery_backlog_alerts clock alert_after channels db = commit db (do
  state ←
      backlog_loop clock alert_after channels db.outbox (by_job_id db.job_status)
        (record { raised = []; job_status = db.job_status; alerts = db.alerts })
  ok (state.raised, record db { job_status = state.job_status; alerts = state.alerts }))
