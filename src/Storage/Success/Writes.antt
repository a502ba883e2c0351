-- ===== src/Storage/Success/Writes.antt =====
-- What `record_success` writes, in closed form: the tables after a successful check.
use web_checker_py.Prelude.{
  ℕ, suc, true, false, not, ◌&&◌, Option, none, some, List, [], ◌∷◌, ◌++◌, append_assoc, append-nil,
  map-append, subst, sym, ◌∙◌, All, All-append, All-map, filter, contains, contains-append_left,
  contains_last, is_distinct, is_none, Text, ◌==◌, nat_eq, text_eq, ok, ◌≡◌, refl, Bool-cases,
  Option-cases, inl, inr, if◌then◌else◌,
}
use web_checker_py.Time.{isoformat}
use web_checker_py.Core.Models.{Opportunity, CheckResult, ids}
use web_checker_py.Core.Transitions.{OpportunityTransition}
use web_checker_py.Notifications.Models.{NotificationPlan}
use web_checker_py.Storage.Encoding.{JsonCodec}
use web_checker_py.Storage.Tables.{
  TransitionRow, OutboxRow, Db, next_id, run_ids, transition_ids, outbox_ids,
}
use web_checker_py.Storage.Tables.Ids.{ne-next_id}
use web_checker_py.Storage.Tables.References.{HasReferences}
use web_checker_py.Storage.Insert.{
  Notice, failure_key, upsert_success, subject, transition_row, outbox_row, enqueue,
}
use web_checker_py.Storage.Insert.Observations.{clashes, observation_rows, insert_observations-eq}
use web_checker_py.Storage.Insert.Notices.{outbox_rows, enqueue-eq, next_id-snoc}
use web_checker_py.Storage.Success.{
  is_selected, notice, enqueue_for, enqueue_selected, log_transitions, write_success,
}

-- The rows of `transitions` for one run, from an id on.
abbrev pub transition_rows : ℕ → ℕ → List OpportunityTransition → List TransitionRow
transition_rows id run_id [] = []
transition_rows id run_id (t ∷ rest) =
    transition_row id run_id t ∷ transition_rows (suc id) run_id rest

module _ (plan : NotificationPlan) (job_id now : Text) where
  abbrev rows_for : ℕ → OpportunityTransition → Option Opportunity → ℕ → List OutboxRow
  rows_for id t none first = []
  rows_for id t (some o) first = outbox_rows (notice job_id now id t o) plan.channels first

  -- The rows of `notification_outbox` for one transition: one for each channel, if it is selected.
  abbrev pub selected_rows : ℕ → OpportunityTransition → ℕ → List OutboxRow
  selected_rows id t first = if is_selected plan t then rows_for id t (subject t) first else []

  -- The outbox after the transitions from an id on.
  abbrev pub notices_after : ℕ → List OpportunityTransition → List OutboxRow → List OutboxRow
  notices_after id [] table = table
  notices_after id (t ∷ rest) table =
      notices_after (suc id) rest (table ++ selected_rows id t (next_id (outbox_ids table)))

abbrev pub HasSubject : OpportunityTransition → Type 0
HasSubject t = is_none (subject t) ≡ false

-- An outbox row refers to a transition.
abbrev pub Refers : List TransitionRow → OutboxRow → Type 0
Refers rows r = contains (transition_ids rows) r.transition_id ≡ true

module _ (plan : NotificationPlan) (job_id now : Text) where
  enqueue_for-some :
      (id : ℕ) (t : OpportunityTransition) (o : Opportunity) (channels : List Text)
      (table : List OutboxRow)
      → enqueue_for job_id now id t (some o) channels table
        ≡ enqueue (notice job_id now id t o) channels table
  unfolding enqueue_for enqueue
  enqueue_for-some id t o [] table = refl
  enqueue_for-some id t o (c ∷ rest) table = refl

  no_clash :
      (id : ℕ) (channels : List Text) (table : List OutboxRow)
      → All (λ r. (r.transition_id == id) ≡ false) table
      → All (λ r. (r.transition_id == id && contains channels r.channel) ≡ false) table
  no_clash id channels table fresh = All-map table (λ r h. rw h) fresh

  enqueue_selected-eq :
      (id : ℕ) (t : OpportunityTransition) (table : List OutboxRow)
      → is_distinct plan.channels ≡ true
      → HasSubject t
      → All (λ r. (r.transition_id == id) ≡ false) table
      → enqueue_selected plan job_id now id t table
        ≡ ok (table ++ selected_rows plan job_id now id t (next_id (outbox_ids table)))
  unfolding enqueue_selected
  enqueue_selected-eq id t table d s fresh = elim (Bool-cases (is_selected plan t)) [
    | inr e ↦ rw (e, append-nil)
    | inl e ↦ elim (Option-cases (subject t)) [
      | inl missing ↦ cc
      | inr (o, found) ↦
          rw (e, found, enqueue_for-some id t o plan.channels table)
            (enqueue-eq (notice job_id now id t o) plan.channels table d
              (no_clash id plan.channels table fresh))
    ]
  ]

  outbox_rows-id :
      (n : Notice) (channels : List Text) (first : ℕ)
      → All (λ r. r.transition_id ≡ n.transition_id) (outbox_rows n channels first)
  unfolding outbox_row
  outbox_rows-id n [] first = tt
  outbox_rows-id n (c ∷ rest) first = (refl, outbox_rows-id n rest (suc first))

  pub selected_rows-id :
      (id : ℕ) (t : OpportunityTransition) (first : ℕ)
      → All (λ r. r.transition_id ≡ id) (selected_rows plan job_id now id t first)
  selected_rows-id id t first = elim (Bool-cases (is_selected plan t)) [
    | inr e ↦ rw e tt
    | inl e ↦ elim (Option-cases (subject t)) [
      | inl missing ↦ rw (e, missing) tt
      | inr (o, found) ↦
          rw (e, found) (outbox_rows-id (notice job_id now id t o) plan.channels first)
    ]
  ]

  -- The row of the transition makes room for the rows of its notices.
  Refers-step :
      (run_id : ℕ) (t : OpportunityTransition) (rows : List TransitionRow) (table : List OutboxRow)
      → All (Refers rows) table
      → (let id = next_id (transition_ids rows) in
          All
            (Refers (rows ++ transition_row id run_id t ∷ []))
            (table ++ selected_rows plan job_id now id t (next_id (outbox_ids table))))
  unfolding transition_row
  Refers-step run_id t rows table h =
      let id = next_id (transition_ids rows) in
      let sel = selected_rows plan job_id now id t (next_id (outbox_ids table)) in
      All-append (Refers (rows ++ transition_row id run_id t ∷ [])) table sel
        (All-map table
          (λ r q.
            rw map-append (contains-append_left (transition_ids rows) (id ∷ []) r.transition_id q))
          h)
        (All-map sel
          (λ r q. rw map-append (
            subst (λ x. contains (transition_ids rows ++ id ∷ []) x ≡ true) (sym q)
              (contains_last (transition_ids rows) id)))
          (selected_rows-id id t (next_id (outbox_ids table))))

  next_transition :
      (run_id : ℕ) (t : OpportunityTransition) (rows : List TransitionRow)
      → (let id = next_id (transition_ids rows) in
          next_id (transition_ids (rows ++ transition_row id run_id t ∷ [])) ≡ suc id)
  unfolding transition_row
  next_transition run_id t rows = rw map-append (next_id-snoc (transition_ids rows))

  pub log_transitions-eq :
      (run_id : ℕ) (ts : List OpportunityTransition) (rows : List TransitionRow)
      (table : List OutboxRow)
      → is_distinct plan.channels ≡ true
      → All HasSubject ts
      → All (Refers rows) table
      → log_transitions plan job_id now run_id ts (record { rows = rows; notices = table })
        ≡ ok (record {
          rows = rows ++ transition_rows (next_id (transition_ids rows)) run_id ts;
          notices = notices_after plan job_id now (next_id (transition_ids rows)) ts table;
        })
  unfolding log_transitions
  log_transitions-eq run_id [] rows table d s h = rw append-nil
  log_transitions-eq run_id (t ∷ rest) rows table d s h =
      let id = next_id (transition_ids rows) in
      let row = transition_row id run_id t in
      let table' = table ++ selected_rows plan job_id now id t (next_id (outbox_ids table)) in
      let fresh = All-map table (λ r q. ne-next_id (transition_ids rows) r.transition_id q) h in
      rw (enqueue_selected-eq id t table d s.0 fresh) (
        log_transitions-eq run_id rest (rows ++ row ∷ []) table' d s.1
          (Refers-step run_id t rows table h)
        ∙ rw (next_transition run_id t rows, append_assoc))

  pub notices_after-Refers :
      (run_id : ℕ) (ts : List OpportunityTransition) (rows : List TransitionRow)
      (table : List OutboxRow)
      → All (Refers rows) table
      → All
          (Refers (rows ++ transition_rows (next_id (transition_ids rows)) run_id ts))
          (notices_after plan job_id now (next_id (transition_ids rows)) ts table)
  notices_after-Refers run_id [] rows table h = rw append-nil h
  notices_after-Refers run_id (t ∷ rest) rows table h =
      let row = transition_row (next_id (transition_ids rows)) run_id t in
      let later =
        notices_after-Refers run_id rest (rows ++ row ∷ []) _ (Refers-step run_id t rows table h) in
      rw (next_transition run_id t rows, append_assoc) at later

pub transition_rows-run :
    (id run_id : ℕ) (ts : List OpportunityTransition)
    → All (λ r. r.run_id ≡ run_id) (transition_rows id run_id ts)
unfolding transition_row
transition_rows-run id run_id [] = tt
transition_rows-run id run_id (t ∷ rest) = (refl, transition_rows-run (suc id) run_id rest)

-- The store after a successful check with these transitions.
abbrev pub recorded :
    JsonCodec → Text → CheckResult → NotificationPlan → List OpportunityTransition → Db → Db
recorded json job_id result plan transitions db =
    let now = isoformat result.checked_at in
    let run_id = next_id (run_ids db.check_runs) in
    record {
      check_runs = db.check_runs ++ record { id = run_id; job_id = job_id; checked_at = now } ∷ [];
      observations = db.observations ++ observation_rows json run_id 0 result.opportunities;
      transitions =
          db.transitions
          ++ transition_rows (next_id (transition_ids db.transitions)) run_id transitions;
      outbox =
          notices_after plan job_id now (next_id (transition_ids db.transitions)) transitions
            db.outbox;
      job_status = upsert_success job_id now db.job_status;
      alerts = filter (λ a. not (a.alert_key == failure_key job_id)) db.alerts;
    }

no_clash_before :
    (result : CheckResult) (db : Db)
    → HasReferences db
    → All
        (λ r. clashes (next_id (run_ids db.check_runs)) 0 result.opportunities r ≡ false)
        db.observations
no_clash_before result db h =
    All-map db.observations (λ r q. rw (ne-next_id (run_ids db.check_runs) r.run_id q))
      h.observations

-- The writes violate no constraint.
pub write_success-eq :
    (json : JsonCodec) (job_id : Text) (result : CheckResult) (plan : NotificationPlan)
    (transitions : List OpportunityTransition) (db : Db)
    → HasReferences db
    → is_distinct (ids result.opportunities) ≡ true
    → is_distinct plan.channels ≡ true
    → All HasSubject transitions
    → write_success json job_id result plan transitions db
      ≡ ok (recorded json job_id result plan transitions db)
unfolding write_success
write_success-eq json job_id result plan transitions db h di dc s =
    let now = isoformat result.checked_at in
    let run_id = next_id (run_ids db.check_runs) in
    let fresh = no_clash_before result db h in
    rw (
      insert_observations-eq json run_id 0 result.opportunities db.observations di fresh,
      log_transitions-eq plan job_id now run_id transitions db.transitions db.outbox dc s h.outbox,
    )
