-- ===== src/Storage/Alerting.antt =====
-- Why an operational alert exists: the flag of its job is up. This is what keeps the alerts of one
-- episode apart, since `alert_key` and `channel` are unique.
pub mod Rows
use web_checker_py.Prelude.{
  Bool, true, ◌&&◌, ◌||◌, List, map, any, All, Text, ◌==◌, text_eq, is_distinct, ◌≡◌,
}
use web_checker_py.Storage.Tables.{JobRow, AlertRow, Db}
use web_checker_py.Storage.Insert.{failure_key}
use web_checker_py.Storage.Backlog.{backlog_key}

abbrev pub job_ids : List JobRow → List Text
job_ids = map (λ j. j.job_id)

-- The flag of the job is up for the kind of alert that the key names.
abbrev pub justifies : AlertRow → JobRow → Bool
justifies a j =
    (a.alert_key == failure_key j.job_id && j.failure_alert_active)
    || (a.alert_key == backlog_key j.job_id && j.delivery_alert_active)

abbrev pub is_justified : List JobRow → AlertRow → Bool
is_justified jobs a = any (justifies a) jobs

pub record IsJustified (db : Db) : Type 0 where
  pub jobs : is_distinct (job_ids db.job_status) ≡ true
  pub alerts : All (λ a. is_justified db.job_status a ≡ true) db.alerts
