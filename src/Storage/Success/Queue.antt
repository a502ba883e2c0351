-- ===== src/Storage/Success/Queue.antt =====
-- What `record_success` puts in the notification outbox.
use web_checker_py.Prelude.{
  ℕ, suc, true, Option, none, List, [], ◌∷◌, ◌++◌, append_assoc, append-nil, map, map-append, Text,
  text_eq, is_distinct, ok, ◌≡◌, refl, Bool-cases, Option-cases, inl, inr, All, if◌then◌else◌,
}
use web_checker_py.Time.{isoformat}
use web_checker_py.Core.Models.{CheckResult}
use web_checker_py.Core.Transitions.{OpportunityTransition}
use web_checker_py.Notifications.Models.{NotificationPlan}
use web_checker_py.Storage.Encoding.{JsonCodec, transition_value}
use web_checker_py.Storage.Tables.{OutboxRow, Db, next_id, transition_ids, outbox_ids}
use web_checker_py.Storage.Tables.References.{HasReferences}
use web_checker_py.Storage.Latest.{get_latest}
use web_checker_py.Storage.Insert.{Notice, outbox_row, subject}
use web_checker_py.Storage.Insert.Notices.{outbox_rows}
use web_checker_py.Storage.Success.{notice, is_selected, compare_with, record_success}
use web_checker_py.Storage.Success.Snapshot.{IsComplete}
use web_checker_py.Storage.Success.Writes.{HasSubject, selected_rows, notices_after}
use web_checker_py.Storage.Success.Commits.{record_success-eq, compare_with-HasSubject}

-- What a delivery is about, and how far it got.
pub record Delivery : Type 0 where
  pub job_id : Text
  pub opportunity_id : Text
  pub transition_type : Text
  pub channel : Text
  pub attempts : ℕ
  pub delivered_at : Option Text

abbrev pub delivery : OutboxRow → Delivery
delivery r = record {
  job_id = r.job_id;
  opportunity_id = r.opportunity_id;
  transition_type = r.transition_type;
  channel = r.channel;
  attempts = r.attempts;
  delivered_at = r.delivered_at;
}

-- The deliveries that a transition asks for: one on each channel, if the plan selects it.
abbrev pub asked : NotificationPlan → Text → OpportunityTransition → List Delivery
asked plan job_id t =
    if is_selected plan t
    then map
        (λ channel. record {
          job_id = job_id;
          opportunity_id = t.opportunity_id;
          transition_type = transition_value t.type;
          channel = channel;
          attempts = 0;
          delivered_at = none;
        })
        plan.channels
    else []

abbrev pub all_asked : NotificationPlan → Text → List OpportunityTransition → List Delivery
all_asked plan job_id [] = []
all_asked plan job_id (t ∷ rest) = asked plan job_id t ++ all_asked plan job_id rest

module _ (plan : NotificationPlan) (job_id now : Text) where
  deliveries_of_notice :
      (id : ℕ) (t : OpportunityTransition) (n : Notice) (channels : List Text) (first : ℕ)
      → n.job_id ≡ job_id
      → n.transition ≡ t
      → map delivery (outbox_rows n channels first)
        ≡ map
            (λ channel. record {
              job_id = job_id;
              opportunity_id = t.opportunity_id;
              transition_type = transition_value t.type;
              channel = channel;
              attempts = 0;
              delivered_at = none;
            })
            channels
  unfolding outbox_row
  deliveries_of_notice id t n [] first hj ht = refl
  deliveries_of_notice id t n (c ∷ rest) first hj ht =
      rw (deliveries_of_notice id t n rest (suc first) hj ht, hj, ht)

  deliveries_selected :
      (id : ℕ) (t : OpportunityTransition) (first : ℕ)
      → HasSubject t
      → map delivery (selected_rows plan job_id now id t first) ≡ asked plan job_id t
  deliveries_selected id t first s = elim (Bool-cases (is_selected plan t)) [
    | inr e ↦ rw e
    | inl e ↦ elim (Option-cases (subject t)) [
      | inl missing ↦ cc
      | inr (o, found) ↦
          rw (e, found)
            (deliveries_of_notice id t (notice job_id now id t o) plan.channels first refl refl)
    ]
  ]

  deliveries_after :
      (id : ℕ) (ts : List OpportunityTransition) (table : List OutboxRow)
      → All HasSubject ts
      → map delivery (notices_after plan job_id now id ts table)
        ≡ map delivery table ++ all_asked plan job_id ts
  deliveries_after id [] table s = rw append-nil
  deliveries_after id (t ∷ rest) table s =
      rw
        (
          deliveries_after (suc id) rest
              (table ++ selected_rows plan job_id now id t (next_id (outbox_ids table))) s.1,
          map-append,
          deliveries_selected id t (next_id (outbox_ids table)) s.0,
        )
        (append_assoc (map delivery table) _ _)

-- A recorded check leaves the deliveries of before alone, and adds, undelivered and not yet
-- attempted, one for each channel of each transition that the plan selects, in order.
pub outbox-record_success :
    (json : JsonCodec) (job_id : Text) (result : CheckResult) (plan : NotificationPlan) (db : Db)
    (previous : Option CheckResult)
    → HasReferences db
    → IsComplete result
    → is_distinct plan.channels ≡ true
    → get_latest json job_id db ≡ ok previous
    → map delivery (record_success json job_id result plan db).1.outbox
      ≡ map delivery db.outbox ++ all_asked plan job_id (compare_with previous result)
outbox-record_success json job_id result plan db previous h c d e =
    rw (record_success-eq json job_id result plan db previous h c d e) (
      deliveries_after plan job_id (isoformat result.checked_at)
        (next_id (transition_ids db.transitions)) (compare_with previous result) db.outbox
        (compare_with-HasSubject previous result))
