-- ===== src/Storage/Backlog/Flags.antt =====
-- The flags that `raise_delivery_backlog_alerts` of web_checker/storage.py leaves.
use web_checker_py.Prelude.{
  ℕ, true, List, [], ◌∷◌, map, contains, All, Text, ◌==◌, text_eq, text_beq_iff, beq_sym, ◌≡◌, refl,
  ap, Bool-cases, inl, inr, if◌then◌else◌,
}
use web_checker_py.Storage.Tables.{OutboxRow, JobRow}
use web_checker_py.Storage.Backlog.{pending_of, is_backlog, set_delivery_active}

-- The flag of the job is up exactly if it has a backlog.
abbrev pub flagged : ℕ → List OutboxRow → JobRow → JobRow
flagged alert_after outbox j = record j {
  delivery_alert_active = is_backlog alert_after (pending_of j.job_id outbox);
}

-- The rows of these jobs, flagged
abbrev pub flag_all : ℕ → List OutboxRow → List Text → List JobRow → List JobRow
flag_all alert_after outbox ids [] = []
flag_all alert_after outbox ids (j ∷ js) =
    (if contains ids j.job_id then flagged alert_after outbox j else j)
    ∷ flag_all alert_after outbox ids js

module _ (alert_after : ℕ) (outbox : List OutboxRow) where
  pub flag_all-none : (js : List JobRow) → flag_all alert_after outbox [] js ≡ js
  flag_all-none [] = refl
  flag_all-none (j ∷ js) = ap (λ l. j ∷ l) (flag_all-none js)

  flag_one :
      (id : Text) (ids : List Text) (j : JobRow)
      → (let j' =
            if j.job_id == id
            then record j { delivery_alert_active = is_backlog alert_after (pending_of id outbox) }
            else j in
          if contains ids j'.job_id then flagged alert_after outbox j' else j')
        ≡ (if contains (id ∷ ids) j.job_id then flagged alert_after outbox j else j)
  flag_one id ids j = elim (Bool-cases (j.job_id == id)) [
    | inl e ↦
        let same : j.job_id ≡ id = (text_beq_iff j.job_id id).0 e in
        elim (Bool-cases (contains ids j.job_id)) [
          | inl c ↦ rw (e, beq_sym id j.job_id, e, c) refl
          | inr c ↦ rw (e, beq_sym id j.job_id, e, c, same) refl
        ]
    | inr e ↦ rw (e, beq_sym id j.job_id, e) refl
  ]

  -- Setting the flag of one job, then those of others.
  pub flag_all-set_delivery_active :
      (id : Text) (ids : List Text) (js : List JobRow)
      → flag_all alert_after outbox ids
          (set_delivery_active id (is_backlog alert_after (pending_of id outbox)) js)
        ≡ flag_all alert_after outbox (id ∷ ids) js
  unfolding set_delivery_active
  flag_all-set_delivery_active id ids [] = refl
  flag_all-set_delivery_active id ids (j ∷ js) =
      rw (flag_one id ids j, flag_all-set_delivery_active id ids js)

  -- All rows are flagged when all jobs are.
  pub flag_all-eq :
      (ids : List Text) (js : List JobRow)
      → All (λ j. contains ids j.job_id ≡ true) js
      → flag_all alert_after outbox ids js ≡ map (flagged alert_after outbox) js
  flag_all-eq ids [] h = refl
  flag_all-eq ids (j ∷ js) h = rw (h.0, flag_all-eq ids js h.1)
