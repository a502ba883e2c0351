-- ===== src/Storage/Tables.antt =====
-- The tables of schema version 3 (web_checker/storage.py, `_initialize`). Columns of type TEXT hold
-- texts, and a column that may be NULL an `Option`; the 0 and 1 of a flag are Booleans.
pub mod Ids
pub mod Order
pub mod References
unfoldable pub use web_checker_py.Prelude.{insert_by, order_by, latest_by}
use web_checker_py.Prelude.{
  ℕ, suc, max, Bool, Option, none, some, List, [], ◌∷◌, map, ltb, Text, if◌then◌else◌,
}

pub record Run : Type 0 where
  pub id : ℕ
  pub job_id : Text
  pub checked_at : Text

pub record Observation : Type 0 where
  pub run_id : ℕ
  pub position : ℕ
  pub opportunity_id : Text
  pub title : Text
  pub availability : Text
  pub starts_at : Option Text
  pub booking_url : Option Text
  pub attributes_json : Text

pub record TransitionRow : Type 0 where
  pub id : ℕ
  pub run_id : ℕ
  pub opportunity_id : Text
  pub transition_type : Text
  pub previous_availability : Option Text
  pub current_availability : Option Text

pub record OutboxRow : Type 0 where
  pub id : ℕ
  pub transition_id : ℕ
  pub channel : Text
  pub job_id : Text
  pub transition_type : Text
  pub opportunity_id : Text
  pub opportunity_title : Text
  pub current_availability : Option Text
  pub booking_url : Option Text
  pub checked_at : Text
  pub attempts : ℕ
  pub last_attempt_at : Option Text
  pub last_error : Option Text
  pub delivered_at : Option Text

pub record JobRow : Type 0 where
  pub job_id : Text
  pub last_success_at : Option Text
  pub last_failure_at : Option Text
  pub consecutive_failures : ℕ
  pub last_error : Option Text
  pub failure_alert_active : Bool
  pub delivery_alert_active : Bool

pub record AlertRow : Type 0 where
  pub id : ℕ
  pub alert_key : Text
  pub channel : Text
  pub job_id : Option Text
  pub title : Text
  pub detail : Text
  pub created_at : Text
  pub attempts : ℕ
  pub last_error : Option Text
  pub delivered_at : Option Text

pub record Db : Type 0 where
  pub check_runs : List Run
  pub observations : List Observation
  pub transitions : List TransitionRow
  pub outbox : List OutboxRow
  pub job_status : List JobRow
  pub alerts : List AlertRow

abbrev pub empty : Db
empty = record {
  check_runs = [];
  observations = [];
  transitions = [];
  outbox = [];
  job_status = [];
  alerts = [];
}

abbrev pub max_of : List ℕ → ℕ
max_of [] = 0
max_of (n ∷ ns) = max n (max_of ns)

-- The id that SQLite gives to a new row of an `INTEGER PRIMARY KEY` table.
abbrev pub next_id : List ℕ → ℕ
next_id ids = suc (max_of ids)

abbrev pub run_ids : List Run → List ℕ
run_ids = map (λ r. r.id)

abbrev pub transition_ids : List TransitionRow → List ℕ
transition_ids = map (λ t. t.id)

abbrev pub outbox_ids : List OutboxRow → List ℕ
outbox_ids = map (λ n. n.id)

abbrev pub alert_ids : List AlertRow → List ℕ
alert_ids = map (λ a. a.id)
