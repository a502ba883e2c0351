-- ===== src/Storage/Tables/References.antt =====
-- Referential integrity: what the foreign keys of the schema ask for.
use web_checker_py.Prelude.{true, All, contains, nat_eq, ◌≡◌}
use web_checker_py.Storage.Tables.{Db, run_ids, transition_ids}

pub record HasReferences (db : Db) : Type 0 where
  pub observations : All (λ o. contains (run_ids db.check_runs) o.run_id ≡ true) db.observations
  pub transitions : All (λ t. contains (run_ids db.check_runs) t.run_id ≡ true) db.transitions
  pub outbox : All (λ n. contains (transition_ids db.transitions) n.transition_id ≡ true) db.outbox
