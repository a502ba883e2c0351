-- ===== src/Storage/Status.antt =====
-- `status` and `list_job_statuses` of web_checker/storage.py. The size of the file is a parameter.
pub mod Totals
use web_checker_py.Prelude.{
  ℕ, ◌+◌, suc, Bool, true, false, ◌&&◌, Option, none, some, List, [], ◌∷◌, map, filter, length,
  contains, Text, text_lt, ltb, ◌==◌, nat_eq, text_eq, order_by, Result, ok, err, ◌>>=◌, map_err,
  if◌then◌else◌,
}
use web_checker_py.Time.{DateTime}
use web_checker_py.Core.Models.{ValueError}
use web_checker_py.Storage.Tables.{Run, Observation, OutboxRow, JobRow, Db, max_of, run_ids}
use web_checker_py.Storage.Latest.{StorageError, unreadable, read_time}
use web_checker_py.Storage.Pending.{is_pending}
use web_checker_py.Storage.Backlog.{pending_of}

pub record StorageStatus : Type 0 where
  pub database_bytes : ℕ
  pub oldest_observation : Option DateTime
  pub check_runs : ℕ
  pub pending_notifications : ℕ

pub record JobStatus : Type 0 where
  pub job_id : Text
  pub last_success_at : Option DateTime
  pub last_failure_at : Option DateTime
  pub consecutive_failures : ℕ
  pub last_error : Option Text
  pub availability : List (Text × ℕ)
  pub pending_deliveries : ℕ
  pub failed_deliveries : ℕ

-- `MIN(checked_at)`
unfoldable pub least_text : List Text → Option Text
least_text [] = none
least_text (s ∷ rest) = elim (least_text rest) [
  | none ↦ some s
  | some t ↦ some (if text_lt t s then t else s)
]

-- A text that may be NULL or empty
unfoldable pub read_time_or_none : Option Text → Result ValueError (Option DateTime)
read_time_or_none none = ok none
read_time_or_none (some []) = ok none
read_time_or_none (some (c ∷ s)) = read_time (some (c ∷ s))

unfoldable pub pending_count : Db → ℕ
pending_count db = length (filter is_pending db.outbox)

-- `status`
unfoldable pub status : ℕ → Db → Result StorageError StorageStatus
status database_bytes db = map_err unreadable (do
  oldest ← read_time (least_text (map (λ r. r.checked_at) db.check_runs))
  ok (record {
    database_bytes = database_bytes;
    oldest_observation = oldest;
    check_runs = length db.check_runs;
    pending_notifications = pending_count db;
  }))

-- `SELECT MAX(id) FROM check_runs WHERE job_id = ?`
unfoldable pub latest_run_id : List ℕ → Option ℕ
latest_run_id [] = none
latest_run_id (id ∷ ids) = some (max_of (id ∷ ids))

-- One more of a key
unfoldable pub count_one : Text → List (Text × ℕ) → List (Text × ℕ)
count_one key [] = (key, 1) ∷ []
count_one key (p ∷ ps) =
    let rest = count_one key ps in if p.0 == key then (key, suc p.1) ∷ ps else p ∷ rest

-- `GROUP BY` with `COUNT(*)`; the order of a dict's items does not matter.
unfoldable pub counts : List Text → List (Text × ℕ)
counts [] = []
counts (key ∷ keys) = count_one key (counts keys)

unfoldable pub availability_counts : Text → Db → List (Text × ℕ)
availability_counts job_id db =
    elim (latest_run_id (run_ids (filter (λ r. r.job_id == job_id) db.check_runs))) [
      | none ↦ []
      | some id ↦ counts (map (λ o. o.availability) (filter (λ o. o.run_id == id) db.observations))
    ]

unfoldable pub job_status_of : Db → JobRow → Result ValueError JobStatus
job_status_of db row = do
  success ← read_time_or_none row.last_success_at
  failure ← read_time_or_none row.last_failure_at
  ok (record {
    job_id = row.job_id;
    last_success_at = success;
    last_failure_at = failure;
    consecutive_failures = row.consecutive_failures;
    last_error = row.last_error;
    availability = availability_counts row.job_id db;
    pending_deliveries = length (pending_of row.job_id db.outbox);
    failed_deliveries = length (filter (λ n. ltb 0 n.attempts) (pending_of row.job_id db.outbox));
  })

unfoldable pub job_statuses_of : Db → List JobRow → Result ValueError (List JobStatus)
job_statuses_of db [] = ok []
job_statuses_of db (row ∷ rest) = do
  first ← job_status_of db row
  later ← job_statuses_of db rest
  ok (first ∷ later)

-- `list_job_statuses`
unfoldable pub list_job_statuses : Db → Result StorageError (List JobStatus)
list_job_statuses db =
    map_err unreadable
      (job_statuses_of db (order_by (λ a b. text_lt a.job_id b.job_id) db.job_status))
