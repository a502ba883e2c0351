-- ===== src/Notifications/Models.antt =====
-- web_checker/notifications/models.py.
use web_checker_py.Prelude.{
  ℕ, not, Option, List, [], Text, text_eq, is_nil, strip, any, is_distinct, Result, ok, ◌>>◌,
  raise_if,
}
use web_checker_py.Core.Models.{Availability}
use web_checker_py.Core.Transitions.{TransitionType}
use web_checker_py.Time.{DateTime}

pub record NotificationPlan : Type 0 where
  pub channels : List Text
  pub on : List TransitionType

pub data PlanError : Type 0 where
  duplicate_channels blank_channel : PlanError

-- `NotificationPlan(...)` with its `__post_init__`
unfoldable pub make_plan : NotificationPlan → Result PlanError NotificationPlan
make_plan p = do
  raise_if (not (is_distinct p.channels)) duplicate_channels
  raise_if (any (λ c. is_nil (strip c)) p.channels) blank_channel
  ok p

abbrev pub no_plan : NotificationPlan
no_plan = record { channels = []; on = [] }

pub record PendingNotification : Type 0 where
  pub id : ℕ
  pub channel : Text
  pub job_id : Text
  pub transition_type : TransitionType
  pub opportunity_id : Text
  pub opportunity_title : Text
  pub current_availability : Option Availability
  pub booking_url : Option Text
  pub checked_at : DateTime
  pub attempts : ℕ

pub record DeliverySummary : Type 0 where
  pub delivered : ℕ
  pub failed : ℕ

pub record OperationalAlert : Type 0 where
  pub id : ℕ
  pub channel : Text
  pub key : Text
  pub job_id : Option Text
  pub title : Text
  pub detail : Text
  pub created_at : DateTime
  pub attempts : ℕ
