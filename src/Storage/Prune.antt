-- ===== src/Storage/Prune.antt =====
-- `prune` of web_checker/storage.py, with the rows that `ON DELETE CASCADE` takes along.
pub mod Deliveries
pub mod Newest
use web_checker_py.Prelude.{
  ℕ, Bool, false, not, ◌&&◌, none, some, List, filter, any, contains, length, Text, text_lt, ◌==◌,
  nat_eq, text_eq, is_none,
}
use web_checker_py.Time.{DateTime, isoformat}
use web_checker_py.Storage.Tables.{Run, TransitionRow, OutboxRow, Db, run_ids, transition_ids}
use web_checker_py.Storage.Latest.{latest_run}

pub record RetentionResult : Type 0 where
  pub check_runs_deleted : ℕ
  pub completed_notifications_deleted : ℕ

-- `delivered_at IS NOT NULL AND delivered_at < ?`
abbrev pub is_completed_before : Text → OutboxRow → Bool
is_completed_before cutoff row = elim row.delivered_at [
  | none ↦ false
  | some at ↦ text_lt at cutoff
]

-- `id IN (SELECT MAX(id) FROM check_runs GROUP BY job_id)`
abbrev pub is_newest : List Run → Run → Bool
is_newest runs run = elim (latest_run run.job_id runs) [ none ↦ false | some r ↦ r.id == run.id ]

-- `EXISTS (SELECT 1 FROM transitions t JOIN notification_outbox n ... AND n.delivered_at IS NULL)`
abbrev pub has_pending : List TransitionRow → List OutboxRow → ℕ → Bool
has_pending transitions outbox run_id =
    any
      (λ t.
        t.run_id == run_id && any (λ n. n.transition_id == t.id && is_none n.delivered_at) outbox)
      transitions

-- The condition of `DELETE FROM check_runs`.
abbrev pub is_expired : Text → List Run → List TransitionRow → List OutboxRow → Run → Bool
is_expired cutoff runs transitions outbox run =
    text_lt run.checked_at cutoff
    && (not (is_newest runs run) && not (has_pending transitions outbox run.id))

-- `ON DELETE CASCADE`: the rows that refer to a row that is left.
abbrev pub kept : {A : Type 0} → (A → ℕ) → List ℕ → List A → List A
kept refers ids rows = filter (λ r. contains ids (refers r)) rows

-- `prune`: the two statements of the transaction; neither can violate a constraint.
unfoldable pub prune : DateTime → DateTime → Db → RetentionResult × Db
prune observations_before notifications_before db =
    let outbox =
      filter (λ n. not (is_completed_before (isoformat notifications_before) n)) db.outbox in
    let expired = is_expired (isoformat observations_before) db.check_runs db.transitions outbox in
    let runs = filter (λ r. not (expired r)) db.check_runs in
    let transitions = kept (λ t. t.run_id) (run_ids runs) db.transitions in
    (
      record {
        check_runs_deleted = length (filter expired db.check_runs);
        completed_notifications_deleted =
            length (filter (is_completed_before (isoformat notifications_before)) db.outbox);
      },
      record db {
        check_runs = runs;
        observations = kept (λ o. o.run_id) (run_ids runs) db.observations;
        transitions = transitions;
        outbox = kept (λ n. n.transition_id) (transition_ids transitions) outbox;
      },
    )
