-- ===== src/Storage/Failure/Steps.antt =====
-- One terminal failure of a scheduled check, on a store whose alerts all have a reason.
use web_checker_py.Prelude.{
  ℕ, suc, ◌+◌, Bool, true, false, not, ◌&&◌, ◌||◌, none, some, List, [], ◌∷◌, ◌++◌, append-nil,
  codes, decimal, ap, if◌then◌else◌, All, All-append, All-map, contains, is_distinct, take, Text,
  text_eq, ok, ◌≡◌, refl, sym, ◌∙◌, leb, arith, Bool-cases, inl, inr, or_right,
}
use web_checker_py.Time.{DateTime, isoformat}
use web_checker_py.Storage.Tables.{JobRow, AlertRow, Db, next_id, alert_ids}
use web_checker_py.Storage.Failure.{
  AlertDraft, alert_row, failure_draft, is_raised, raise_failure, record_check_failure,
  upsert_failure, set_failure_active, job_row,
}
use web_checker_py.Storage.Failure.Rows.{
  alert_rows, enqueue_alert-eq, alert_rows-key, failures, is_active, failures-row, is_active-row,
  Bumped, job_row-upsert_failure, job_row-set_failure_active,
}
use web_checker_py.Storage.Alerting.{job_ids, is_justified, IsJustified}
use web_checker_py.Storage.Alerting.Rows.{
  flag_of_row, no_failure_alert, justified-upsert_failure, justified-set_failure_active,
  failure_alert_justified, job_ids-set_failure_active, job_ids-upsert_failure, with_job-is_distinct,
  contains-with_job,
}

-- The alerts of an episode, one for each channel, with ids from the given one on.
abbrev pub episode_alerts : Text → Text → Text → ℕ → List Text → ℕ → List AlertRow
episode_alerts job error now failures [] id = []
episode_alerts job error now failures (channel ∷ rest) id =
    record {
      id = id;
      alert_key = codes "check-failure:" ++ job;
      channel = channel;
      job_id = some job;
      title = codes "Repeated check failures: " ++ job;
      detail =
          decimal failures
          ++ (codes " consecutive scheduled checks failed. Last error: " ++ take 1000 error);
      created_at = now;
      attempts = 0;
      last_error = none;
      delivered_at = none;
    }
    ∷ episode_alerts job error now failures rest (suc id)

-- What a failure of a job leaves behind, told by whether an alert was raised.
pub record Failed (job error : Text) (at : DateTime) (channels : List Text) (before after : Db)
    (raised : Bool) : Type 0 where
  pub justified : IsJustified after
  pub counted : failures job after.job_status ≡ failures job before.job_status + 1
  pub flagged : is_active job after.job_status ≡ (is_active job before.job_status || raised)
  pub alerts :
      after.alerts
      ≡ before.alerts
        ++ (if raised
            then episode_alerts job error
                (isoformat at)
                (failures job before.job_status + 1)
                channels
                (next_id (alert_ids before.alerts))
            else [])

or_false : (b : Bool) → (b || false) ≡ b
or_false b = ground arith

and_not : (a b : Bool) → (a && not b) ≡ true → b ≡ false
and_not a b h = ground arith

module _ (job error : Text) (at : DateTime) (alert_after : ℕ) (channels : List Text) (db : Db) where
  abbrev now : Text
  now = isoformat at

  abbrev rows : List JobRow
  rows = upsert_failure job now (take 2000 error) db.job_status

  -- Whether the failure passes the threshold in an episode with no alert yet.
  abbrev pub passes : Bool
  passes = leb alert_after (failures job db.job_status + 1) && not (is_active job db.job_status)

  rows-distinct : IsJustified db → is_distinct (job_ids rows) ≡ true
  rows-distinct h =
      rw (job_ids-upsert_failure job now (take 2000 error) db.job_status)
        (with_job-is_distinct job (job_ids db.job_status) h.jobs)

  rows-justified : IsJustified db → All (λ a. is_justified rows a ≡ true) db.alerts
  rows-justified h =
      All-map db.alerts (justified-upsert_failure job now (take 2000 error) db.job_status) h.alerts

  abbrev quiet : Db
  quiet = record db { job_status = rows }

  abbrev draft : JobRow → AlertDraft
  draft r = failure_draft job error now r.consecutive_failures

  abbrev loud : JobRow → Db
  loud r = record db {
    alerts = db.alerts ++ alert_rows (draft r) channels (next_id (alert_ids db.alerts));
    job_status = set_failure_active job rows;
  }

  episode_alerts-draft :
      (r : JobRow) (cs : List Text) (id : ℕ)
      → alert_rows (draft r) cs id ≡ episode_alerts job error now r.consecutive_failures cs id
  unfolding alert_row failure_draft
  episode_alerts-draft r [] id = refl
  episode_alerts-draft r (c ∷ cs) id = rw (episode_alerts-draft r cs (suc id)) refl

  quiet-Failed :
      (r : JobRow)
      → IsJustified db
      → job_row job rows ≡ some r
      → Bumped job db.job_status r
      → Failed job error at channels db quiet false
  quiet-Failed r h found b = record {
    justified = record { jobs = rows-distinct h; alerts = rows-justified h };
    counted = failures-row job rows r found ∙ b.failures_plus_one;
    flagged =
        is_active-row job rows r found ∙ b.same_flag ∙ sym (or_false (is_active job db.job_status));
    alerts = sym (append-nil db.alerts);
  }

  loud-Failed :
      (r : JobRow)
      → IsJustified db
      → job_row job rows ≡ some r
      → Bumped job db.job_status r
      → Failed job error at channels db (loud r) true
  unfolding failure_draft
  loud-Failed r h found b = record {
    justified = record {
      jobs = rw (job_ids-set_failure_active job rows) (rows-distinct h);
      alerts =
          let new = alert_rows (draft r) channels (next_id (alert_ids db.alerts)) in
          let known : contains (job_ids rows) job ≡ true =
            rw (job_ids-upsert_failure job now (take 2000 error) db.job_status)
              (contains-with_job job (job_ids db.job_status)) in
          All-append (λ a. is_justified (set_failure_active job rows) a ≡ true) db.alerts new
            (All-map db.alerts (justified-set_failure_active job rows) (rows-justified h))
            (All-map new (λ a k. failure_alert_justified job rows a known k)
              (alert_rows-key (draft r) channels (next_id (alert_ids db.alerts))));
    };
    counted =
        failures-row job (set_failure_active job rows) _
          (job_row-set_failure_active job rows r found)
        ∙ b.failures_plus_one;
    flagged =
        is_active-row job (set_failure_active job rows) _
          (job_row-set_failure_active job rows r found)
        ∙ sym (or_right (is_active job db.job_status) true refl);
    alerts =
        ap (λ rows. db.alerts ++ rows)
          (episode_alerts-draft r channels (next_id (alert_ids db.alerts))
            ∙ ap (λ k. episode_alerts job error now k channels (next_id (alert_ids db.alerts)))
                b.failures_plus_one);
  }

  inactive : passes ≡ true → is_active job db.job_status ≡ false
  inactive e = and_not (leb alert_after (failures job db.job_status + 1)) _ e

  -- On a store whose jobs are distinct and whose alerts all have a reason, with distinct channels,
  -- a terminal failure is always recorded: the failures of the job count one more, and an alert is
  -- raised exactly if the count reaches the threshold and the job has no alert yet, which its flag
  -- then tells. An alert that is raised is one undelivered row for each channel, in their order,
  -- behind the rows there were, with the key and the id of the job, the count, the first 1000
  -- characters of the error and the time of the failure; where none is raised, the alerts stay as
  -- they were. The jobs stay distinct, and all alerts keep a reason.
  pub record_check_failure_lem :
      IsJustified db
      → is_distinct channels ≡ true
      → ((record_check_failure job error at alert_after channels db).0 ≡ ok passes)
        × Failed job error at channels db
            (record_check_failure job error at alert_after channels db).1
            passes
  unfolding record_check_failure raise_failure failure_draft
  record_check_failure_lem h d =
      let (r, found, b) = job_row-upsert_failure job now (take 2000 error) db.job_status in
      let same : is_raised alert_after r ≡ passes = rw (b.failures_plus_one, b.same_flag) refl in
      elim (Bool-cases passes) [
        | inl e ↦
            let free =
              no_failure_alert job rows db.alerts
                (flag_of_row job rows r (rows-distinct h) found ∙ b.same_flag ∙ inactive e)
                (rows-justified h) in
            rw (found, same, e, enqueue_alert-eq (draft r) channels db.alerts d free)
              (refl, loud-Failed r h found b)
        | inr e ↦ rw (found, same, e) (refl, quiet-Failed r h found b)
      ]
