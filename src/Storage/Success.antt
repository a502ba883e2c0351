-- ===== src/Storage/Success.antt =====
-- `record_success` of web_checker/storage.py: one transaction for a complete successful check.
pub mod Writes
pub mod Snapshot
pub mod Commits
pub mod Keeps
pub mod Queue
pub mod Told
pub mod Contract
use web_checker_py.Prelude.{
  if◌then◌else◌, ℕ, Bool, Option, none, some, List, [], ◌∷◌, ◌++◌, filter, any, not, true, false,
  Text, ◌==◌, text_eq, Result, ok, err, ◌>>=◌, is_none,
}
use web_checker_py.Time.{isoformat}
use web_checker_py.Core.Models.{Opportunity, CheckResult}
use web_checker_py.Core.Transitions.{
  OpportunityTransition, detect_transitions, detect_initial_transitions,
}
use web_checker_py.Notifications.Models.{NotificationPlan}
use web_checker_py.Storage.Encoding.{JsonCodec}
use web_checker_py.Storage.Tables.{TransitionRow, OutboxRow, Db, next_id, run_ids, transition_ids}
use web_checker_py.Storage.Latest.{StorageError, no_subject, get_latest}
use web_checker_py.Storage.Insert.{
  Notice, failure_key, upsert_success, insert_observations, transition_beq, subject, transition_row,
  enqueue,
}

-- `RecordOutcome` of web_checker/core/service.py
pub record RecordOutcome : Type 0 where
  pub baseline_created : Bool
  pub transitions : List OpportunityTransition

abbrev pub is_selected : NotificationPlan → OpportunityTransition → Bool
is_selected plan t = any (λ k. transition_beq k t.type) plan.on

-- The two tables that the loop over the transitions writes.
pub record Log : Type 0 where
  pub rows : List TransitionRow
  pub notices : List OutboxRow

abbrev pub notice : Text → Text → ℕ → OpportunityTransition → Opportunity → Notice
notice job_id now id t o = record {
  transition_id = id;
  job_id = job_id;
  checked_at = now;
  transition = t;
  opportunity = o;
}

-- `for channel in plan.channels: ...`, which reads the opportunity only where there is a channel
unfoldable pub enqueue_for :
    Text
    → Text
    → ℕ
    → OpportunityTransition
    → Option Opportunity
    → List Text
    → List OutboxRow
    → Result StorageError (List OutboxRow)
enqueue_for job_id now id t o [] notices = ok notices
enqueue_for job_id now id t none (channel ∷ rest) notices = err no_subject
enqueue_for job_id now id t (some o) (channel ∷ rest) notices =
    enqueue (notice job_id now id t o) (channel ∷ rest) notices

-- `if transition.type in plan.on: ...`
unfoldable pub enqueue_selected :
    NotificationPlan
    → Text
    → Text
    → ℕ
    → OpportunityTransition
    → List OutboxRow
    → Result StorageError (List OutboxRow)
enqueue_selected plan job_id now id t notices =
    if is_selected plan t
    then enqueue_for job_id now id t (subject t) plan.channels notices
    else ok notices

-- The loop over the transitions of one run.
unfoldable pub log_transitions :
    NotificationPlan → Text → Text → ℕ → List OpportunityTransition → Log → Result StorageError Log
log_transitions plan job_id now run_id [] log = ok log
log_transitions plan job_id now run_id (t ∷ rest) log = do
  let id = next_id (transition_ids log.rows)
  notices ← enqueue_selected plan job_id now id t log.notices
  log_transitions plan job_id now run_id rest
      (record { rows = log.rows ++ transition_row id run_id t ∷ []; notices = notices })

-- What the check observed, against what was known before.
abbrev pub compare_with : Option CheckResult → CheckResult → List OpportunityTransition
compare_with none result = detect_initial_transitions result
compare_with (some previous) result = detect_transitions previous result

-- The writes of the transaction, once the transitions are known.
unfoldable pub write_success :
    JsonCodec
    → Text
    → CheckResult
    → NotificationPlan
    → List OpportunityTransition
    → Db
    → Result StorageError Db
write_success json job_id result plan transitions db = do
  let now = isoformat result.checked_at
  let run_id = next_id (run_ids db.check_runs)
  observations ← insert_observations json run_id 0 result.opportunities db.observations
  log ←
      log_transitions plan job_id now run_id transitions
        (record { rows = db.transitions; notices = db.outbox })
  ok (record {
    check_runs = db.check_runs ++ record { id = run_id; job_id = job_id; checked_at = now } ∷ [];
    observations = observations;
    transitions = log.rows;
    outbox = log.notices;
    job_status = upsert_success job_id now db.job_status;
    alerts = filter (λ a. not (a.alert_key == failure_key job_id)) db.alerts;
  })

-- The body of the `try` block, up to the commit.
unfoldable pub success_transaction :
    JsonCodec
    → Text
    → CheckResult
    → NotificationPlan
    → Db
    → Result StorageError (RecordOutcome × Db)
success_transaction json job_id result plan db = do
  previous ← get_latest json job_id db
  let transitions = compare_with previous result
  db' ← write_success json job_id result plan transitions db
  ok (record { baseline_created = is_none previous; transitions = transitions }, db')

-- A failed transaction is rolled back.
abbrev pub commit : {A : Type 0} → Db → Result StorageError (A × Db) → Result StorageError A × Db
commit db (ok (a, db')) = (ok a, db')
commit db (err e) = (err e, db)

-- `record_success`
unfoldable pub record_success :
    JsonCodec → Text → CheckResult → NotificationPlan → Db → Result StorageError RecordOutcome × Db
record_success json job_id result plan db =
    commit db (success_transaction json job_id result plan db)
