-- ===== src/Storage/Initialize/Upgraded.antt =====
-- What `_initialize` of web_checker/storage.py makes of a file that an older release left.
use web_checker_py.Prelude.{none, some, List, [], Text, ok, ◌≡◌, refl}
use web_checker_py.Storage.Tables.{Run, Observation, TransitionRow, OutboxRow, Db, empty}
use web_checker_py.Storage.Failure.{job_row}
use web_checker_py.Storage.Alerting.{IsJustified}
use web_checker_py.Storage.Initialize.{
  File, initialize, create_all, upgrade_1, upgrade_2, backfill, group_runs,
}
use web_checker_py.Storage.Initialize.Backfill.{
  times_of, greatest, expected_row, group_runs-row, group_runs-is_distinct,
}

-- A file with nothing in it, or of schema version 1 or 2.
pub data Older : Type 0 where
  blank : Older
  first : List Run → List Observation → List TransitionRow → Older
  second : List Run → List Observation → List TransitionRow → List OutboxRow → Older

abbrev blank_file : File
blank_file = record {
  user_version = 0;
  check_runs = none;
  observations = none;
  transitions = none;
  outbox = none;
  job_status = none;
  alerts = none;
}

abbrev pub file_of : Older → File
file_of blank = blank_file
file_of (first runs os ts) = record blank_file {
  user_version = 1;
  check_runs = some runs;
  observations = some os;
  transitions = some ts;
}
file_of (second runs os ts ns) = record blank_file {
  user_version = 2;
  check_runs = some runs;
  observations = some os;
  transitions = some ts;
  outbox = some ns;
}

-- A file of schema version 3
abbrev pub current : Db → File
current db = record {
  user_version = 3;
  check_runs = some db.check_runs;
  observations = some db.observations;
  transitions = some db.transitions;
  outbox = some db.outbox;
  job_status = some db.job_status;
  alerts = some db.alerts;
}

-- The rows that the older file holds
abbrev pub history : Older → Db
history blank = empty
history (first runs os ts) = record empty { check_runs = runs; observations = os; transitions = ts }
history (second runs os ts ns) = record empty {
  check_runs = runs;
  observations = os;
  transitions = ts;
  outbox = ns;
}

-- The tables after an upgrade: the history as it was, and a status for each job with runs, whose
-- last success is the greatest time of its runs.
pub record IsUpgraded (o : Older) (db : Db) : Type 0 where
  pub check_runs : db.check_runs ≡ (history o).check_runs
  pub observations : db.observations ≡ (history o).observations
  pub transitions : db.transitions ≡ (history o).transitions
  pub outbox : db.outbox ≡ (history o).outbox
  pub alerts : db.alerts ≡ []
  pub statuses :
      (job : Text)
      → job_row job db.job_status
        ≡ expected_row job (greatest (times_of job (history o).check_runs))
  pub justified : IsJustified db

abbrev upgraded : Older → Db
upgraded o = record (history o) { job_status = group_runs (history o).check_runs }

alerts-history : (o : Older) → (history o).alerts ≡ []
alerts-history blank = refl
alerts-history (first runs os ts) = refl
alerts-history (second runs os ts ns) = refl

upgraded-IsUpgraded : (o : Older) → IsUpgraded o (upgraded o)
upgraded-IsUpgraded o = record {
  check_runs = refl;
  observations = refl;
  transitions = refl;
  outbox = refl;
  alerts = alerts-history o;
  statuses = λ job. group_runs-row job (history o).check_runs;
  justified = record {
    jobs = group_runs-is_distinct (history o).check_runs;
    alerts = rw (alerts-history o) tt;
  };
}

initialize-upgraded : (o : Older) → initialize (file_of o) ≡ (ok tt, current (upgraded o))
unfolding initialize create_all upgrade_1 upgrade_2 backfill group_runs
initialize-upgraded blank = refl
initialize-upgraded (first runs os ts) = refl
initialize-upgraded (second runs os ts ns) = refl

-- Opening a file that is empty or of schema version 1 or 2 succeeds and leaves a file of version 3
-- that opening again leaves as it is. Its history is the one of the older file, it has no alerts and
-- the reasons for alerts are in order, and each job has a status exactly if it has runs, with the
-- greatest of their times as its last success.
pub initialize-IsUpgraded :
    (o : Older)
    → (db : Db) × (initialize (file_of o) ≡ (ok tt, current db))
      × (initialize (current db) ≡ (ok tt, current db))
      × IsUpgraded o db
unfolding initialize
initialize-IsUpgraded o = (upgraded o, initialize-upgraded o, refl, upgraded-IsUpgraded o)
