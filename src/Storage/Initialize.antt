-- ===== src/Storage/Initialize.antt =====
-- `_initialize` of web_checker/storage.py, on a database file. A file has the version in
-- `PRAGMA user_version`, taken as not negative, and its tables, each with its index.
pub mod Backfill
pub mod Upgraded
use web_checker_py.Prelude.{
  ℕ, false, Option, none, some, List, [], ◌∷◌, Text, text_lt, ◌==◌, text_eq, nat_eq, ltb, Result,
  ok, err, if◌then◌else◌,
}
use web_checker_py.Storage.Tables.{Run, Observation, TransitionRow, OutboxRow, JobRow, AlertRow}
use web_checker_py.Storage.Latest.{StorageError, constraint, too_new}

pub record File : Type 0 where
  pub user_version : ℕ
  pub check_runs : Option (List Run)
  pub observations : Option (List Observation)
  pub transitions : Option (List TransitionRow)
  pub outbox : Option (List OutboxRow)
  pub job_status : Option (List JobRow)
  pub alerts : Option (List AlertRow)

abbrev pub schema_version : ℕ
schema_version = 3

-- A statement of a script; what the statements before a failing one did stays done.
abbrev pub Statement : Type 0
Statement = File → Result StorageError (Unit {0}) × File

abbrev run_next :
    Result StorageError (Unit {0}) × File → Statement → Result StorageError (Unit {0}) × File
run_next (ok u, f) next = next f
run_next (err e, f) next = (err e, f)

abbrev pub then_run : Statement → Statement → Statement
then_run first next f = run_next (first f) next

-- `CREATE TABLE` fails where the table is there.
abbrev pub created : {A : Type 0} → Option A → File → File → Result StorageError (Unit {0}) × File
created none f made = (ok tt, made)
created (some a) f made = (err constraint, f)

abbrev pub create_check_runs : Statement
create_check_runs f = created f.check_runs f (record f { check_runs = some [] })

abbrev pub create_observations : Statement
create_observations f = created f.observations f (record f { observations = some [] })

abbrev pub create_transitions : Statement
create_transitions f = created f.transitions f (record f { transitions = some [] })

abbrev pub create_outbox : Statement
create_outbox f = created f.outbox f (record f { outbox = some [] })

abbrev pub create_job_status : Statement
create_job_status f = created f.job_status f (record f { job_status = some [] })

abbrev pub create_alerts : Statement
create_alerts f = created f.alerts f (record f { alerts = some [] })

-- `PRAGMA user_version = n`
abbrev pub set_version : ℕ → Statement
set_version n f = (ok tt, record f { user_version = n })

-- `MAX` of a column that may be NULL and a text
unfoldable pub later_text : Option Text → Text → Text
later_text none s = s
later_text (some t) s = if text_lt t s then s else t

unfoldable pub succeeded_at : Text → Text → JobRow
succeeded_at job_id at = record {
  job_id = job_id;
  last_success_at = some at;
  last_failure_at = none;
  consecutive_failures = 0;
  last_error = none;
  failure_alert_active = false;
  delivery_alert_active = false;
}

-- One more run in the groups
unfoldable pub group_run : Run → List JobRow → List JobRow
group_run r [] = succeeded_at r.job_id r.checked_at ∷ []
group_run r (j ∷ js) =
    let rest = group_run r js in
    if j.job_id == r.job_id
    then succeeded_at r.job_id (later_text j.last_success_at r.checked_at) ∷ js
    else j ∷ rest

-- `SELECT job_id, MAX(checked_at) FROM check_runs GROUP BY job_id`, as rows of `job_status`. SQLite
-- promises no order for its groups.
unfoldable pub group_runs : List Run → List JobRow
group_runs [] = []
group_runs (r ∷ rs) = group_run r (group_runs rs)

-- `INSERT INTO job_status ... SELECT ...`, if there is a table of runs; `job_status` is new and
-- empty.
unfoldable pub backfill : Statement
backfill f = elim f.check_runs [
  | none ↦ (ok tt, f)
  | some runs ↦ (ok tt, record f { job_status = some (group_runs runs) })
]

-- The script for an empty file
unfoldable pub create_all : Statement
create_all = then_run create_check_runs (
    then_run create_observations (
      then_run create_transitions (
        then_run create_outbox
          (then_run create_job_status (then_run create_alerts (set_version 3))))))

-- The script for version 1
unfoldable pub upgrade_1 : Statement
upgrade_1 = then_run create_outbox (set_version 2)

-- The script for version 2, and the rows of the jobs known so far
unfoldable pub upgrade_2 : Statement
upgrade_2 = then_run create_job_status (then_run create_alerts (then_run (set_version 3) backfill))

-- `_initialize`
unfoldable pub initialize : Statement
initialize f =
    if ltb schema_version f.user_version
    then (err too_new, f)
    else if f.user_version == 0
    then create_all f
    else if f.user_version == 1
    then then_run upgrade_1 upgrade_2 f
    else if f.user_version == 2
    then upgrade_2 f
    else (ok tt, f)
