-- ===== src/Storage/Success/Contract.antt =====
-- The contract of `record_success`, on a store whose references are in place and whose runs can be
-- read: it never fails, it keeps the store so, and the newest snapshot is the one recorded.
use web_checker_py.Prelude.{
  true, false, Option, some, Text, is_distinct, is_none, ◌==◌, text_eq, Result, ok, ◌≡◌, refl,
}
use web_checker_py.Core.Models.{CheckResult}
use web_checker_py.Notifications.Models.{NotificationPlan}
use web_checker_py.Storage.Encoding.{JsonCodec}
use web_checker_py.Storage.Tables.{Db}
use web_checker_py.Storage.Tables.References.{HasReferences}
use web_checker_py.Storage.Latest.{StorageError, get_latest}
use web_checker_py.Storage.Success.{RecordOutcome, compare_with, record_success}
use web_checker_py.Storage.Success.Snapshot.{IsComplete, IsFaithful, stored_result}
use web_checker_py.Storage.Success.Told.{Tells, compare_with-Tells}
use web_checker_py.Storage.Success.Writes.{recorded}
use web_checker_py.Storage.Success.Commits.{
  IsReadable, get_latest-IsReadable, record_success-eq, IsComplete-distinct,
}
use web_checker_py.Storage.Success.Keeps.{
  recorded-HasReferences, recorded-IsReadable, get_latest-recorded, get_latest-other,
}

-- A store that the methods can work on.
pub record IsSound (json : JsonCodec) (db : Db) : Type 0 where
  pub references : HasReferences db
  pub readable : IsReadable json db

module _ (json : JsonCodec) (faithful : IsFaithful json) (job_id : Text) (result : CheckResult)
    (plan : NotificationPlan) (db : Db) (sound : IsSound json db) (complete : IsComplete result)
    (channels : is_distinct plan.channels ≡ true) where
  abbrev attempt : Result StorageError RecordOutcome × Db
  attempt = record_success json job_id result plan db

  -- A complete result is recorded without an error. The outcome tells of every id what the newest
  -- snapshot of the job before and the result do: without a snapshot it says that a baseline was
  -- created, and has one transition for an id that is available and none for any other; with a
  -- snapshot it says that none was created, and has for each id exactly the transition expected
  -- from its state in the snapshot and in the result. The store stays sound.
  pub record_success-IsSound :
      (previous : Option CheckResult) × (get_latest json job_id db ≡ ok previous)
      × (outcome : RecordOutcome) × (attempt.0 ≡ ok outcome)
      × Tells previous result outcome
      × IsSound json attempt.1
  record_success-IsSound =
      let (previous, e) = get_latest-IsReadable json job_id db sound.readable in
      let ts = compare_with previous result in
      let done =
        record_success-eq json job_id result plan db previous sound.references complete channels
          e in
      let after : IsSound json (recorded json job_id result plan ts db) = record {
        references = recorded-HasReferences json job_id result plan ts db sound.references;
        readable =
            recorded-IsReadable json job_id result plan ts db faithful complete sound.references
              sound.readable;
      } in
      let told =
        compare_with-Tells json job_id db previous result e (IsComplete-distinct result complete) in
      (
        previous,
        e,
        record { baseline_created = is_none previous; transitions = ts },
        rw done refl,
        told,
        rw done after,
      )

  -- The newest snapshot of the job is the recorded result, with the attributes of each opportunity
  -- in the order of their keys.
  pub get_latest-record_success :
      get_latest json job_id attempt.1 ≡ ok (some (stored_result result))
  get_latest-record_success =
      let (previous, e) = get_latest-IsReadable json job_id db sound.readable in
      rw
        (record_success-eq json job_id result plan db previous sound.references complete channels e)
        (get_latest-recorded json job_id result plan (compare_with previous result) db faithful
          complete sound.references)

  -- The newest snapshot of every other job is what it was.
  pub get_latest-record_success_other :
      (other : Text)
      → (job_id == other) ≡ false
      → get_latest json other attempt.1 ≡ get_latest json other db
  get_latest-record_success_other other ne =
      let (previous, e) = get_latest-IsReadable json job_id db sound.readable in
      rw
        (record_success-eq json job_id result plan db previous sound.references complete channels e)
        (get_latest-other json job_id result plan (compare_with previous result) db other ne)
