-- ===== src/Storage/Insert.antt =====
-- The statements of `record_success` of web_checker/storage.py. The foreign keys of the rows that
-- it inserts name rows inserted before them in the same transaction.
pub mod Observations
pub mod Notices
use web_checker_py.Prelude.{
  ℕ, suc, Bool, true, false, ◌&&◌, ◌||◌, Option, none, some, List, [], ◌∷◌, ◌++◌, any, Text, codes,
  ◌==◌, text_eq, nat_eq, Result, ok, err, ◌>>=◌, if◌then◌else◌,
}
use web_checker_py.Time.{DateTime, isoformat}
use web_checker_py.Core.Models.{Opportunity}
use web_checker_py.Core.Transitions.{
  TransitionType, OpportunityTransition, appeared, disappeared, became_available,
  became_unavailable, availability_unknown, initially_available,
}
use web_checker_py.Storage.Encoding.{JsonCodec, availability_value, transition_value}
use web_checker_py.Storage.Tables.{
  Observation, TransitionRow, OutboxRow, JobRow, next_id, outbox_ids,
}
use web_checker_py.Storage.Latest.{StorageError, constraint}

-- `f"check-failure:{job_id}"`
abbrev pub failure_key : Text → Text
failure_key job_id = codes "check-failure:" ++ job_id

-- The upsert of `job_status` after a success.
unfoldable pub upsert_success : Text → Text → List JobRow → List JobRow
upsert_success job_id now [] =
    record {
      job_id = job_id;
      last_success_at = some now;
      last_failure_at = none;
      consecutive_failures = 0;
      last_error = none;
      failure_alert_active = false;
      delivery_alert_active = false;
    }
    ∷ []
upsert_success job_id now (row ∷ rest) =
    if row.job_id == job_id
    then record row {
      last_success_at = some now;
      consecutive_failures = 0;
      last_error = none;
      failure_alert_active = false;
    }
      ∷ rest
    else row ∷ upsert_success job_id now rest

abbrev pub iso_or_null : Option DateTime → Option Text
iso_or_null none = none
iso_or_null (some d) = some (isoformat d)

unfoldable pub observation_row : JsonCodec → ℕ → ℕ → Opportunity → Observation
observation_row json run_id position o = record {
  run_id = run_id;
  position = position;
  opportunity_id = o.id;
  title = o.title;
  availability = availability_value o.availability;
  starts_at = iso_or_null o.starts_at;
  booking_url = o.booking_url;
  attributes_json = json.dumps o.attributes;
}

-- PRIMARY KEY (run_id, opportunity_id) and UNIQUE (run_id, position)
abbrev pub same_observation : Observation → Observation → Bool
same_observation new old =
    old.run_id == new.run_id
    && (old.opportunity_id == new.opportunity_id || old.position == new.position)

abbrev pub insert_observation :
    Observation → List Observation → Result StorageError (List Observation)
insert_observation new table =
    if any (same_observation new) table then err constraint else ok (table ++ new ∷ [])

unfoldable pub insert_observations :
    JsonCodec → ℕ → ℕ → List Opportunity → List Observation → Result StorageError (List Observation)
insert_observations json run_id position [] table = ok table
insert_observations json run_id position (o ∷ rest) table = do
  table' ← insert_observation (observation_row json run_id position o) table
  insert_observations json run_id (suc position) rest table'

abbrev pub transition_beq : TransitionType → TransitionType → Bool
transition_beq appeared appeared = true
transition_beq disappeared disappeared = true
transition_beq became_available became_available = true
transition_beq became_unavailable became_unavailable = true
transition_beq availability_unknown availability_unknown = true
transition_beq initially_available initially_available = true
transition_beq _ _ = false

abbrev pub availability_of : Option Opportunity → Option Text
availability_of none = none
availability_of (some o) = some (availability_value o.availability)

-- `transition.current or transition.previous`, both at once `None` being an `AttributeError`
abbrev pub subject : OpportunityTransition → Option Opportunity
subject t = elim t.current [ some o ↦ some o | none ↦ t.previous ]

unfoldable pub transition_row : ℕ → ℕ → OpportunityTransition → TransitionRow
transition_row id run_id t = record {
  id = id;
  run_id = run_id;
  opportunity_id = t.opportunity_id;
  transition_type = transition_value t.type;
  previous_availability = availability_of t.previous;
  current_availability = availability_of t.current;
}

-- What the rows for one transition share.
pub record Notice : Type 0 where
  pub transition_id : ℕ
  pub job_id : Text
  pub checked_at : Text
  pub transition : OpportunityTransition
  pub opportunity : Opportunity

unfoldable pub outbox_row : Notice → Text → ℕ → OutboxRow
outbox_row n channel id = record {
  id = id;
  transition_id = n.transition_id;
  channel = channel;
  job_id = n.job_id;
  transition_type = transition_value n.transition.type;
  opportunity_id = n.transition.opportunity_id;
  opportunity_title = n.opportunity.title;
  current_availability = availability_of n.transition.current;
  booking_url = n.opportunity.booking_url;
  checked_at = n.checked_at;
  attempts = 0;
  last_attempt_at = none;
  last_error = none;
  delivered_at = none;
}

-- UNIQUE (transition_id, channel)
abbrev pub same_notice : ℕ → Text → OutboxRow → Bool
same_notice transition_id channel old = old.transition_id == transition_id && old.channel == channel

-- `for channel in plan.channels: INSERT INTO notification_outbox ...`
unfoldable pub enqueue : Notice → List Text → List OutboxRow → Result StorageError (List OutboxRow)
enqueue n [] table = ok table
enqueue n (channel ∷ rest) table =
    let rows = table ++ outbox_row n channel (next_id (outbox_ids table)) ∷ [] in
    if any (same_notice n.transition_id channel) table then err constraint else enqueue n rest rows
