-- ===== src/Storage/Backlog/Raised.antt =====
-- Which jobs `raise_delivery_backlog_alerts` of web_checker/storage.py raises an alert for, and the
-- alerts
-- that it leaves.
use web_checker_py.Prelude.{
  All-contains-key, ℕ, true, false, List, [], ◌∷◌, map, filter, contains, is_distinct, All, All-map,
  Text, ◌==◌, text_eq, text_lt, order_by-All, Result, ok, ◌≡◌, ap, ◌∙◌, Bool-cases, inl, inr, ◌⊎◌,
}
use web_checker_py.Time.{DateTime}
use web_checker_py.Storage.Tables.{JobRow, Db}
use web_checker_py.Storage.Latest.{StorageError}
use web_checker_py.Storage.Alerting.{job_ids}
use web_checker_py.Storage.Backlog.Order.{contains-by_job_id, is_distinct-by_job_id}
use web_checker_py.Storage.Backlog.Notices.{rows_of, content}
use web_checker_py.Storage.Backlog.Flags.{flagged, flag_all-eq}
use web_checker_py.Storage.Backlog.Loop.{HasNoStale, is_new, backlog_rows, backlog_loop-Looped}
use web_checker_py.Storage.Backlog.{backlog_key, Alerting, by_job_id, raise_delivery_backlog_alerts}

-- A key that is none of these jobs' keys.
no_key :
    (key : Text) (rows : List JobRow)
    → contains (map (λ r. backlog_key r.job_id) rows) key ≡ false
    → All (λ r. (backlog_key r.job_id == key) ≡ false) rows
no_key key [] h = tt
no_key key (r ∷ rows) h = elim (Bool-cases (backlog_key r.job_id == key)) [
  | inl e ↦ let clash = rw e at h in cc
  | inr e ↦ (e, no_key key rows (rw e at h))
]

module _ (clock : Text → DateTime) (alert_after : ℕ) (channels : List Text) (db : Db) where
  abbrev pub alerted : Result StorageError (List Text) × Db
  alerted = raise_delivery_backlog_alerts clock alert_after channels db

  -- What a call returns and leaves, given as in the theorem below.
  pub record IsAlerted (result : Result StorageError (List Text)) (after : Db) : Type 0 where
    pub returned :
        result ≡ ok (job_ids (filter (is_new alert_after db.outbox) (by_job_id db.job_status)))
    pub flags : after.job_status ≡ map (flagged alert_after db.outbox) db.job_status
    pub own :
        All
          (λ r.
            map content (rows_of (backlog_key r.job_id) after.alerts)
            ≡ backlog_rows clock alert_after channels db.outbox r
                (rows_of (backlog_key r.job_id) db.alerts))
          (by_job_id db.job_status)
    pub others :
        (key : Text)
        → (contains (map (λ r. backlog_key r.job_id) db.job_status) key ≡ true)
          ⊎ (rows_of key after.alerts ≡ rows_of key db.alerts)

  -- On distinct channels and a store whose jobs are distinct and have no backlog alert while their
  -- flag is down, raise_delivery_backlog_alerts never fails, returns, in the order of their ids,
  -- exactly the jobs that have a backlog now and had their flag down, and leaves the flag of every
  -- job up exactly if the job has a backlog. Of the alerts for its backlog, a job without a backlog
  -- has none afterwards, one that had its flag up has those from before, and one that is returned
  -- has one undelivered row for each channel, with the number of its pending deliveries, their most
  -- attempts and the time of the clock; the alerts with a key that is not for the backlog of one of
  -- the jobs are those from before.
  pub raise_delivery_backlog_alerts-raised :
      is_distinct channels ≡ true
      → is_distinct (job_ids db.job_status) ≡ true
      → HasNoStale db.job_status db.alerts
      → IsAlerted alerted.0 alerted.1
  unfolding raise_delivery_backlog_alerts
  raise_delivery_backlog_alerts-raised d dj h =
      let start : Alerting = record {
        raised = [];
        job_status = db.job_status;
        alerts = db.alerts;
      } in
      let rows = by_job_id db.job_status in
      let (after, e, l) =
        backlog_loop-Looped clock alert_after channels db.outbox rows start d
          (is_distinct-by_job_id db.job_status dj)
          (order_by-All _ (λ a b. text_lt a.job_id b.job_id) db.job_status h) in
      let all =
        All-map db.job_status (λ j k. contains-by_job_id db.job_status j.job_id ∙ k)
          (All-contains-key (λ j. j.job_id) db.job_status) in
      rw e (record {
        returned = ap ok l.raised;
        flags = l.flags ∙ flag_all-eq alert_after db.outbox (job_ids rows) db.job_status all;
        own = l.own;
        others = λ key.
            elim (Bool-cases (contains (map (λ r. backlog_key r.job_id) db.job_status) key)) [
              | inl known ↦ inl known
              | inr other ↦
                  inr
                    (l.others key (order_by-All _ _ db.job_status (no_key key db.job_status other)))
            ];
      })
