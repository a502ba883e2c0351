-- ===== src/Tests/Statuses.antt =====
-- A store with one job, whose one notification has failed once and waits for another attempt.
use web_checker_py.Prelude.{
  true, false, map, none, some, List, [], ◌∷◌, codes, ok, ◌≡◌, refl, order_by, insert_by,
}
use web_checker_py.Storage.Tables.{empty, Db, JobRow}
use web_checker_py.Storage.Status.{
  JobStatus, StorageStatus, list_job_statuses, status, pending_count, job_statuses_of,
  job_status_of, read_time_or_none, least_text, latest_run_id, availability_counts,
}
use web_checker_py.Storage.Latest.{read_time}
use web_checker_py.Tests.Data.{at_second}
use web_checker_py.Storage.Backlog.Raised.{IsAlerted, alerted, raise_delivery_backlog_alerts-raised}
use web_checker_py.Storage.Status.Totals.{sum_of, list_job_statuses-status}

abbrev one_job : Db
one_job = record empty {
  outbox =
      record {
        id = 1;
        transition_id = 1;
        channel = codes "mail";
        job_id = codes "a";
        transition_type = codes "appeared";
        opportunity_id = codes "o";
        opportunity_title = codes "O";
        current_availability = none;
        booking_url = none;
        checked_at = codes "t";
        attempts = 1;
        last_attempt_at = none;
        last_error = some (codes "refused");
        delivered_at = none;
      }
      ∷ [];
  job_status =
      record {
        job_id = codes "a";
        last_success_at = none;
        last_failure_at = some [];
        consecutive_failures = 0;
        last_error = none;
        failure_alert_active = true;
        delivery_alert_active = true;
      }
      ∷ [];
}

abbrev one_status : List JobStatus
one_status =
    record {
      job_id = codes "a";
      last_success_at = none;
      last_failure_at = none;
      consecutive_failures = 0;
      last_error = none;
      availability = [];
      pending_deliveries = 1;
      failed_deliveries = 1;
    }
    ∷ []

abbrev all_counts : StorageStatus
all_counts = record {
  database_bytes = 4096;
  oldest_observation = none;
  check_runs = 0;
  pending_notifications = 1;
}

lists : list_job_statuses one_job ≡ ok one_status
unfolding list_job_statuses job_statuses_of job_status_of read_time_or_none availability_counts
    latest_run_id order_by insert_by
lists = refl

counts_all : status 4096 one_job ≡ ok all_counts
unfolding status read_time least_text pending_count
counts_all = refl

list_job_statuses-status_example : sum_of (λ s. s.pending_deliveries) one_status ≡ 1
list_job_statuses-status_example =
    list_job_statuses-status 4096 one_job one_status all_counts refl (refl, tt) lists counts_all

-- The store before the backlog was noticed, and the time at which it is.
abbrev unnoticed : Db
unnoticed = record one_job {
  job_status =
      map {A = JobRow} (λ j. record j { delivery_alert_active = false }) one_job.job_status;
}

raise_delivery_backlog_alerts-raised_example :
    IsAlerted
      (λ job. at_second 5)
      1
      (codes "mail" ∷ [])
      unnoticed
      (alerted (λ job. at_second 5) 1 (codes "mail" ∷ []) unnoticed).0
      (alerted (λ job. at_second 5) 1 (codes "mail" ∷ []) unnoticed).1
raise_delivery_backlog_alerts-raised_example =
    raise_delivery_backlog_alerts-raised (λ job. at_second 5) 1 (codes "mail" ∷ []) unnoticed refl
      refl ((λ down. refl), tt)
