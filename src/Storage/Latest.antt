-- ===== src/Storage/Latest.antt =====
-- `_get_latest` and `get_latest` of web_checker/storage.py: the newest snapshot of a job, read back.
use web_checker_py.Prelude.{
  Option, none, some, List, [], ◌∷◌, filter, Text, ◌==◌, ltb, text_eq, nat_eq, Result, ok, err,
  ◌>>=◌, map_err,
}
use web_checker_py.Time.{DateTime, fromisoformat}
use web_checker_py.Core.Models.{
  Opportunity, CheckResult, ValueError, bad_value, make_opportunity, make_check_result,
}
use web_checker_py.Storage.Encoding.{JsonCodec, read_availability}
use web_checker_py.Storage.Tables.{Run, Observation, Db, order_by, latest_by}

-- What a method raises: a violated constraint, a missing row, a schema of a later version, the
-- `AttributeError` of a transition with no state, or a value that cannot be read.
pub data StorageError : Type 0 where
  constraint not_found too_new no_subject : StorageError
  unreadable : ValueError → StorageError

-- A decoder that raises `ValueError` where it has no value.
abbrev pub decoded : {A : Type 0} → Option A → Result ValueError A
decoded none = err bad_value
decoded (some a) = ok a

unfoldable pub read_time : Option Text → Result ValueError (Option DateTime)
read_time none = ok none
read_time (some s) = do d ← decoded (fromisoformat s); ok (some d)

module _ (json : JsonCodec) where
  -- `Opportunity(...)` of a row of `opportunity_observations`
  unfoldable pub read_opportunity : Observation → Result ValueError Opportunity
  read_opportunity row = do
    availability ← decoded (read_availability row.availability)
    starts_at ← read_time row.starts_at
    attributes ← decoded (json.loads row.attributes_json)
    make_opportunity (record {
      id = row.opportunity_id;
      title = row.title;
      availability = availability;
      starts_at = starts_at;
      booking_url = row.booking_url;
      attributes = attributes;
    })

  unfoldable pub read_opportunities : List Observation → Result ValueError (List Opportunity)
  read_opportunities [] = ok []
  read_opportunities (row ∷ rest) = do
    o ← read_opportunity row
    os ← read_opportunities rest
    ok (o ∷ os)

  -- The rows of one run, `ORDER BY position`, as a snapshot.
  unfoldable pub read_run : List Observation → Run → Result ValueError CheckResult
  read_run observations run = do
    opportunities ← read_opportunities (
        order_by (λ a b. ltb a.position b.position) (filter (λ o. o.run_id == run.id) observations))
    checked_at ← decoded (fromisoformat run.checked_at)
    make_check_result (record { checked_at = checked_at; opportunities = opportunities })

  abbrev pub read_latest : List Observation → Option Run → Result ValueError (Option CheckResult)
  read_latest observations none = ok none
  read_latest observations (some run) = do r ← read_run observations run; ok (some r)

-- The newest run of a job.
abbrev pub latest_run : Text → List Run → Option Run
latest_run job_id runs = latest_by (λ a b. ltb a.id b.id) (filter (λ r. r.job_id == job_id) runs)

-- `get_latest`
unfoldable pub get_latest : JsonCodec → Text → Db → Result StorageError (Option CheckResult)
get_latest json job_id db =
    map_err unreadable (read_latest json db.observations (latest_run job_id db.check_runs))
