-- ===== src/Storage/Success/Commits.antt =====
-- A complete successful check is always recorded: `record_success` raises nothing on a sound store.
use web_checker_py.Prelude.{
  true, Option, none, some, List, All, All-map, map-All, All-filter, filter, is_distinct, is_none,
  Text, ◌==◌, text_eq, ok, ◌≡◌, refl, arith, Option-cases, inl, inr,
}
use web_checker_py.Core.Models.{CheckResult, ids, make_check_result}
use web_checker_py.Core.Transitions.{
  OpportunityTransition, detect_initial_transitions, make_transition,
}
use web_checker_py.Core.Transitions.Valid.{detect_transitions-IsValid, IsValid}
use web_checker_py.Notifications.Models.{NotificationPlan}
use web_checker_py.Storage.Encoding.{JsonCodec}
use web_checker_py.Storage.Tables.{Run, Observation, Db}
use web_checker_py.Storage.Tables.Order.{latest_by-All}
use web_checker_py.Storage.Tables.References.{HasReferences}
use web_checker_py.Storage.Latest.{read_run, latest_run, get_latest}
use web_checker_py.Storage.Success.{compare_with, success_transaction, record_success}
use web_checker_py.Storage.Success.Snapshot.{IsComplete}
use web_checker_py.Storage.Success.Writes.{HasSubject, recorded, write_success-eq}

-- A run whose snapshot can be read back.
abbrev pub IsReadableRun : JsonCodec → List Observation → Run → Type 0
IsReadableRun json table run = (r : CheckResult) × (read_run json table run ≡ ok r)

-- Every run of the store can be read back.
pub record IsReadable (json : JsonCodec) (db : Db) : Type 0 where
  pub runs : All (IsReadableRun json db.observations) db.check_runs

pub get_latest-IsReadable :
    (json : JsonCodec) (job_id : Text) (db : Db)
    → IsReadable json db
    → (previous : Option CheckResult) × (get_latest json job_id db ≡ ok previous)
unfolding get_latest
get_latest-IsReadable json job_id db h = elim (Option-cases (latest_run job_id db.check_runs)) [
  | inl e ↦ (none, rw e)
  | inr (run, e) ↦
      let (r, found) =
        latest_by-All (IsReadableRun json db.observations) _
          (filter (λ x. x.job_id == job_id) db.check_runs) run
          (All-filter (IsReadableRun json db.observations) (λ x. x.job_id == job_id) db.check_runs
            h.runs)
          e in
      (some r, rw (e, found))
]

IsValid-HasSubject : (t : OpportunityTransition) → IsValid t → HasSubject t
unfolding make_transition
IsValid-HasSubject t h = ground arith

initial-HasSubject : (result : CheckResult) → All HasSubject (detect_initial_transitions result)
unfolding detect_initial_transitions
initial-HasSubject result = map-All HasSubject _ _ (λ o. refl)

pub compare_with-HasSubject :
    (previous : Option CheckResult) (result : CheckResult)
    → All HasSubject (compare_with previous result)
compare_with-HasSubject none result = initial-HasSubject result
compare_with-HasSubject (some p) result =
    All-map (compare_with (some p) result) IsValid-HasSubject (detect_transitions-IsValid p result)

pub IsComplete-distinct :
    (r : CheckResult) → IsComplete r → is_distinct (ids r.opportunities) ≡ true
unfolding make_check_result
IsComplete-distinct r h = ground (arith, h.valid)

module _ (json : JsonCodec) (job_id : Text) (result : CheckResult) (plan : NotificationPlan)
    (db : Db) where
  -- On a store with its references in place, a complete result and a plan with distinct channels are
  -- recorded once the newest snapshot of the job has been read.
  pub record_success-eq :
      (previous : Option CheckResult)
      → HasReferences db
      → IsComplete result
      → is_distinct plan.channels ≡ true
      → get_latest json job_id db ≡ ok previous
      → record_success json job_id result plan db ≡ (
        ok (record {
          baseline_created = is_none previous;
          transitions = compare_with previous result;
        }),
        recorded json job_id result plan (compare_with previous result) db,
      )
  unfolding record_success success_transaction
  record_success-eq previous h c d e = rw (
    e,
    write_success-eq json job_id result plan (compare_with previous result) db h
        (IsComplete-distinct result c) d (compare_with-HasSubject previous result),
  )
