-- ===== src/Storage/Alerting/Rows.antt =====
-- How the updates of `job_status` change the reasons for alerts.
use web_checker_py.Prelude.{
  Bool, true, false, ◌&&◌, ◌||◌, none, some, List, [], ◌∷◌, any, contains, All, All-map, Text, ◌==◌,
  text_eq, text_beq_iff, is_distinct, is_distinct-snoc, contains_last, or_mono, or_right, beq_refl,
  ◌++◌, ◌≡◌, refl, arith, Bool-cases, inl, inr, if◌then◌else◌,
}
use web_checker_py.Storage.Tables.{JobRow, AlertRow}
use web_checker_py.Storage.Insert.{failure_key}
use web_checker_py.Storage.Backlog.{backlog_key}
use web_checker_py.Storage.Failure.{upsert_failure, set_failure_active, job_row}
use web_checker_py.Storage.Alerting.{job_ids, justifies, is_justified}

-- No row is found for a job that has none.
job_row-missing :
    (job : Text) (rows : List JobRow)
    → contains (job_ids rows) job ≡ false
    → job_row job rows ≡ none
job_row-missing job [] h = refl
job_row-missing job (r ∷ rows) h = ground (arith, job_row-missing job rows)

no_flag :
    (job : Text) (rows : List JobRow)
    → contains (job_ids rows) job ≡ false
    → any (λ j. j.job_id == job && j.failure_alert_active) rows ≡ false
no_flag job [] h = refl
no_flag job (r ∷ rows) h = ground (arith, no_flag job rows)

-- The flag of the row that is found is the flag of the job.
pub flag_of_row :
    (job : Text) (rows : List JobRow) (r : JobRow)
    → is_distinct (job_ids rows) ≡ true
    → job_row job rows ≡ some r
    → any (λ j. j.job_id == job && j.failure_alert_active) rows ≡ r.failure_alert_active
flag_of_row job [] r d h = cc
flag_of_row job (x ∷ rows) r d h = elim (Bool-cases (x.job_id == job)) [
  | inl e ↦
      let same : x.job_id ≡ job = (text_beq_iff x.job_id job).0 e in
      ground (arith, same, no_flag job rows)
  | inr e ↦ ground (arith, flag_of_row job rows r)
]

failure_reason :
    (job : Text) (r : JobRow) (a : AlertRow)
    → a.alert_key ≡ failure_key job
    → justifies a r ≡ (job == r.job_id && r.failure_alert_active)
failure_reason job r a e = rw e (ground arith)

-- With the flag of its job down, an alert for failures of the job has no reason.
no_failure_reason :
    (job : Text) (rows : List JobRow) (a : AlertRow)
    → a.alert_key ≡ failure_key job
    → any (λ j. j.job_id == job && j.failure_alert_active) rows ≡ false
    → is_justified rows a ≡ false
no_failure_reason job [] a k h = refl
no_failure_reason job (r ∷ rows) a k h = rw (failure_reason job r a k) (
    ground
      (arith, no_failure_reason job rows a k, text_beq_iff job r.job_id, text_beq_iff r.job_id job))

-- So there is no such alert among alerts that have reasons.
pub no_failure_alert :
    (job : Text) (rows : List JobRow) (alerts : List AlertRow)
    → any (λ j. j.job_id == job && j.failure_alert_active) rows ≡ false
    → All (λ a. is_justified rows a ≡ true) alerts
    → All (λ a. (a.alert_key == failure_key job) ≡ false) alerts
no_failure_alert job rows alerts h all = All-map alerts go all
  where
    go : (a : AlertRow) → is_justified rows a ≡ true → (a.alert_key == failure_key job) ≡ false
    go a j = elim (Bool-cases (a.alert_key == failure_key job)) [
      | inr e ↦ e
      | inl e ↦
          let k : a.alert_key ≡ failure_key job =
            (text_beq_iff a.alert_key (failure_key job)).0 e in
          cc (no_failure_reason job rows a k h)
    ]

-- A failure raises no flag and takes none down.
pub justified-upsert_failure :
    (job now error : Text) (rows : List JobRow) (a : AlertRow)
    → is_justified rows a ≡ true
    → is_justified (upsert_failure job now error rows) a ≡ true
unfolding upsert_failure
justified-upsert_failure job now error [] a h = cc
justified-upsert_failure job now error (r ∷ rows) a h = elim (Bool-cases (r.job_id == job)) [
  | inl e ↦ rw e h
  | inr e ↦ rw e (
      or_mono (justifies a r) (justifies a r) (is_justified rows a) _ (λ p. p)
        (justified-upsert_failure job now error rows a) h)
]

justifies_up :
    (a : AlertRow) (r : JobRow)
    → justifies a r ≡ true
    → justifies a (record r { failure_alert_active = true }) ≡ true
justifies_up a r h =
    raise_flag (a.alert_key == failure_key r.job_id) r.failure_alert_active
      (a.alert_key == backlog_key r.job_id && r.delivery_alert_active) h
  where
    raise_flag : (k f b : Bool) → (k && f || b) ≡ true → (k && true || b) ≡ true
    raise_flag true f b h = refl
    raise_flag false f b h = h

pub justified-set_failure_active :
    (job : Text) (rows : List JobRow) (a : AlertRow)
    → is_justified rows a ≡ true
    → is_justified (set_failure_active job rows) a ≡ true
unfolding set_failure_active
justified-set_failure_active job [] a h = cc
justified-set_failure_active job (r ∷ rows) a h = elim (Bool-cases (r.job_id == job)) [
  | inl e ↦ rw e (
      or_mono (justifies a r) _ (is_justified rows a) _ (justifies_up a r)
        (justified-set_failure_active job rows a) h)
  | inr e ↦ rw e (
      or_mono (justifies a r) (justifies a r) (is_justified rows a) _ (λ p. p)
        (justified-set_failure_active job rows a) h)
]

-- With the flag up, the failure alerts of the job have a reason.
pub failure_alert_justified :
    (job : Text) (rows : List JobRow) (a : AlertRow)
    → contains (job_ids rows) job ≡ true
    → a.alert_key ≡ failure_key job
    → is_justified (set_failure_active job rows) a ≡ true
unfolding set_failure_active
failure_alert_justified job [] a h k = cc
failure_alert_justified job (r ∷ rows) a h k = elim (Bool-cases (r.job_id == job)) [
  | inl e ↦
      let same : r.job_id ≡ job = (text_beq_iff r.job_id job).0 e in
      rw (e, failure_reason job (record r { failure_alert_active = true }) a k)
        (rw same (rw (beq_refl job)))
  | inr e ↦ rw e (or_right (justifies a r) _ (failure_alert_justified job rows a (ground arith) k))
]

-- The updates keep the jobs apart.
pub job_ids-set_failure_active :
    (job : Text) (rows : List JobRow) → job_ids (set_failure_active job rows) ≡ job_ids rows
unfolding set_failure_active
job_ids-set_failure_active job [] = refl
job_ids-set_failure_active job (r ∷ rows) = elim (Bool-cases (r.job_id == job)) [
  | inl e ↦ rw (e, job_ids-set_failure_active job rows)
  | inr e ↦ rw (e, job_ids-set_failure_active job rows)
]

abbrev with_job : Text → List Text → List Text
with_job job ids = if contains ids job then ids else ids ++ job ∷ []

pub job_ids-upsert_failure :
    (job now error : Text) (rows : List JobRow)
    → job_ids (upsert_failure job now error rows) ≡ with_job job (job_ids rows)
unfolding upsert_failure
job_ids-upsert_failure job now error [] = refl
job_ids-upsert_failure job now error (r ∷ rows) = elim (Bool-cases (r.job_id == job)) [
  | inl e ↦ rw e
  | inr e ↦ elim (Bool-cases (contains (job_ids rows) job)) [
    | inl c ↦ rw (e, job_ids-upsert_failure job now error rows, c)
    | inr c ↦ rw (e, job_ids-upsert_failure job now error rows, c)
  ]
]

pub with_job-is_distinct :
    (job : Text) (ids : List Text) → is_distinct ids ≡ true → is_distinct (with_job job ids) ≡ true
with_job-is_distinct job ids d = elim (Bool-cases (contains ids job)) [
  | inl c ↦ rw c d
  | inr c ↦ rw c (is_distinct-snoc ids job d c)
]

pub contains-with_job : (job : Text) (ids : List Text) → contains (with_job job ids) job ≡ true
contains-with_job job ids = elim (Bool-cases (contains ids job)) [
  | inl c ↦ rw c c
  | inr c ↦ rw c (contains_last ids job)
]
