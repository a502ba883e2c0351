-- ===== src/Storage/Failure/Rows.antt =====
-- The rows that a failure writes: the alerts of an episode, and the status of the job.
use web_checker_py.Prelude.{
  ℕ, suc, ◌+◌, Bool, true, false, ◌&&◌, Option, none, some, List, [], ◌∷◌, ◌++◌, append_assoc,
  append-nil, map-append, ap, ◌∙◌, any, All, All-append, All-map, contains, is_distinct, Text, ◌==◌,
  nat_eq, text_eq, text_beq_iff, ok, ◌≡◌, refl, arith, Bool-cases, inl, inr, beq_refl,
}
use web_checker_py.Storage.Tables.{JobRow, AlertRow, next_id, alert_ids}
use web_checker_py.Storage.Insert.Notices.{next_id-snoc}
use web_checker_py.Storage.Failure.{
  AlertDraft, first_failure, alert_row, same_alert, enqueue_alert, upsert_failure,
  set_failure_active, job_row,
}

-- The rows of a draft for these channels, from an id on.
abbrev pub alert_rows : AlertDraft → List Text → ℕ → List AlertRow
alert_rows draft [] id = []
alert_rows draft (channel ∷ rest) id = alert_row draft channel id ∷ alert_rows draft rest (suc id)

abbrev clashes : Text → List Text → AlertRow → Bool
clashes key channels r = r.alert_key == key && contains channels r.channel

module _ (draft : AlertDraft) where
  no_clash :
      (channel : Text) (rest : List Text) (table : List AlertRow)
      → All (λ r. clashes draft.key (channel ∷ rest) r ≡ false) table
      → any (same_alert draft.key channel) table ≡ false
  no_clash channel rest [] h = refl
  no_clash channel rest (r ∷ table) h = ground (
    arith,
    no_clash channel rest table h.1,
    h.0,
    text_beq_iff channel r.channel,
    text_beq_iff r.channel channel,
  )

  clash_later :
      (channel : Text) (rest : List Text) (r : AlertRow)
      → clashes draft.key (channel ∷ rest) r ≡ false
      → clashes draft.key rest r ≡ false
  clash_later channel rest r h = ground arith

  own_row :
      (channel : Text) (rest : List Text) (id : ℕ)
      → is_distinct (channel ∷ rest) ≡ true
      → clashes draft.key rest (alert_row draft channel id) ≡ false
  unfolding alert_row
  own_row channel rest id d = ground arith

  next_row :
      (channel : Text) (table : List AlertRow)
      → next_id (alert_ids (table ++ alert_row draft channel (next_id (alert_ids table)) ∷ []))
        ≡ suc (next_id (alert_ids table))
  unfolding alert_row
  next_row channel table = rw map-append (next_id-snoc (alert_ids table))

  appended :
      (channels : List Text) (table : List AlertRow)
      → is_distinct channels ≡ true
      → All (λ r. clashes draft.key channels r ≡ false) table
      → enqueue_alert draft channels table
        ≡ ok (table ++ alert_rows draft channels (next_id (alert_ids table)))
  unfolding enqueue_alert
  appended [] table d h = rw append-nil
  appended (channel ∷ rest) table d h =
      let row = alert_row draft channel (next_id (alert_ids table)) in
      let later =
        All-append (λ r. clashes draft.key rest r ≡ false) table (row ∷ [])
          (All-map table (clash_later channel rest) h) (own_row channel rest _ d, tt) in
      rw (no_clash channel rest table h) (
        appended rest (table ++ row ∷ []) (ground arith) later
        ∙ rw (next_row channel table) (ap ok (append_assoc table (row ∷ []) _)))

  -- Where no alert has the key, one row is appended for each channel.
  pub enqueue_alert-eq :
      (channels : List Text) (table : List AlertRow)
      → is_distinct channels ≡ true
      → All (λ r. (r.alert_key == draft.key) ≡ false) table
      → enqueue_alert draft channels table
        ≡ ok (table ++ alert_rows draft channels (next_id (alert_ids table)))
  enqueue_alert-eq channels table d h = appended channels table d (All-map table (λ r e. rw e) h)

  pub alert_rows-key :
      (channels : List Text) (id : ℕ)
      → All (λ r. r.alert_key ≡ draft.key) (alert_rows draft channels id)
  unfolding alert_row
  alert_rows-key [] id = tt
  alert_rows-key (c ∷ rest) id = (refl, alert_rows-key rest (suc id))

-- The consecutive failures of a job, and its flag, as the row that is found tells them.
abbrev pub failures : Text → List JobRow → ℕ
failures job rows = elim (job_row job rows) [ none ↦ 0 | some r ↦ r.consecutive_failures ]

abbrev pub is_active : Text → List JobRow → Bool
is_active job rows = elim (job_row job rows) [ none ↦ false | some r ↦ r.failure_alert_active ]

pub failures-row :
    (job : Text) (rows : List JobRow) (r : JobRow)
    → job_row job rows ≡ some r
    → failures job rows ≡ r.consecutive_failures
failures-row job rows r e =
    ap (λ (o : Option JobRow). elim o [ none ↦ 0 | some x ↦ x.consecutive_failures ]) e

pub is_active-row :
    (job : Text) (rows : List JobRow) (r : JobRow)
    → job_row job rows ≡ some r
    → is_active job rows ≡ r.failure_alert_active
is_active-row job rows r e =
    ap (λ (o : Option JobRow). elim o [ none ↦ false | some x ↦ x.failure_alert_active ]) e

-- What a failure does to the row of its job.
pub record Bumped (job : Text) (before : List JobRow) (r : JobRow) : Type 0 where
  pub failures_plus_one : r.consecutive_failures ≡ failures job before + 1
  pub same_flag : r.failure_alert_active ≡ is_active job before

pub job_row-upsert_failure :
    (job now error : Text) (rows : List JobRow)
    → (r : JobRow) × (job_row job (upsert_failure job now error rows) ≡ some r) × Bumped job rows r
unfolding upsert_failure
job_row-upsert_failure job now error [] = (
  first_failure job now error,
  rw (beq_refl job),
  record { failures_plus_one = omega arith; same_flag = refl },
)
job_row-upsert_failure job now error (r ∷ rows) = elim (Bool-cases (r.job_id == job)) [
  | inl e ↦ (
    record r {
      last_failure_at = some now;
      consecutive_failures = r.consecutive_failures + 1;
      last_error = some error;
    },
    rw (e, e),
    record { failures_plus_one = rw (e, failures); same_flag = rw (e, is_active) },
  )
  | inr e ↦
      let (x, found, b) = job_row-upsert_failure job now error rows in
      (
        x,
        rw (e, e) found,
        record {
          failures_plus_one = rw (e, failures) b.failures_plus_one;
          same_flag = rw (e, is_active) b.same_flag;
        },
      )
]

-- Raising the flag changes nothing else that is read of the job.
pub job_row-set_failure_active :
    (job : Text) (rows : List JobRow) (r : JobRow)
    → job_row job rows ≡ some r
    → job_row job (set_failure_active job rows) ≡ some (record r { failure_alert_active = true })
unfolding set_failure_active
job_row-set_failure_active job [] r h = cc
job_row-set_failure_active job (x ∷ rows) r h = elim (Bool-cases (x.job_id == job)) [
  | inl e ↦
      let found : some x ≡ some r = rw e at h in
      let same : x ≡ r = cc in
      rw (e, e) (ap (λ (y : JobRow). some (record y { failure_alert_active = true })) same)
  | inr e ↦ rw (e, e) (job_row-set_failure_active job rows r (rw e at h))
]
