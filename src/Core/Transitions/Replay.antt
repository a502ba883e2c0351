-- ===== src/Core/Transitions/Replay.antt =====
-- A reader who follows the transitions alone knows the availability of every opportunity.
use web_checker_py.Prelude.{
  true, Option, none, some, List, [], ◌∷◌, Text, ◌==◌, text_eq, is_distinct, Bool-cases, inl, inr,
  ◌≡◌, ◌↔◌, text_beq_iff, refl, sym, ap, ◌∙◌, arith, if◌then◌else◌,
}
use web_checker_py.Core.Models.{Availability, Opportunity, CheckResult, ids}
use web_checker_py.Core.Transitions.{
  OpportunityTransition, get_by_id, change, detect_transitions, availability_beq_iff,
}
use web_checker_py.Core.Transitions.Spec.{about, expected, detect_transitions-expected}

abbrev pub View : Type 0
View = Text → Option Availability

abbrev pub availability_in : Option Opportunity → Option Availability
availability_in none = none
availability_in (some o) = some o.availability

abbrev pub view : CheckResult → View
view r key = availability_in (get_by_id key r.opportunities)

-- The reader's step: an opportunity has the availability of the transition's current state.
abbrev pub follow : OpportunityTransition → View → View
follow t v key = if t.opportunity_id == key then availability_in t.current else v key

abbrev pub replay : List OpportunityTransition → View → View
replay [] v = v
replay (t ∷ rest) v = replay rest (follow t v)

abbrev replay_at : List OpportunityTransition → Option Availability → Option Availability
replay_at [] a = a
replay_at (t ∷ rest) a = replay_at rest (availability_in t.current)

replay-eq-replay_at :
    (ts : List OpportunityTransition) (v : View) (key : Text)
    → replay ts v key ≡ replay_at (about key ts) (v key)
replay-eq-replay_at [] v key = refl
replay-eq-replay_at (t ∷ rest) v key = elim (Bool-cases (t.opportunity_id == key)) [
  | inl e ↦ rw (replay-eq-replay_at rest (follow t v) key, e)
  | inr e ↦ rw (replay-eq-replay_at rest (follow t v) key, e)
]

replay_at-expected :
    (old now : Option Opportunity)
    → replay_at (expected old now) (availability_in old) ≡ availability_in now
unfolding expected change
replay_at-expected none none = refl
replay_at-expected (some x) none = refl
replay_at-expected none (some o) = refl
replay_at-expected (some x) (some o) =
    ground (arith, availability_beq_iff x.availability o.availability)

-- From the previous snapshot's availabilities, the transitions lead to those of the current one,
-- for every id, when the ids of each snapshot are distinct.
pub replay-detect_transitions :
    (previous current : CheckResult) (key : Text)
    → is_distinct (ids previous.opportunities) ≡ true
    → is_distinct (ids current.opportunities) ≡ true
    → replay (detect_transitions previous current) (view previous) key ≡ view current key
replay-detect_transitions previous current key hp hc =
    replay-eq-replay_at (detect_transitions previous current) (view previous) key
    ∙ ap (λ ts. replay_at ts (view previous key))
        (detect_transitions-expected previous current key hp hc)
    ∙ replay_at-expected (get_by_id key previous.opportunities)
        (get_by_id key current.opportunities)

nil_of_about : (ts : List OpportunityTransition) → ((key : Text) → about key ts ≡ []) → ts ≡ []
nil_of_about [] h = refl
nil_of_about (t ∷ rest) h =
    ground (arith, text_beq_iff t.opportunity_id t.opportunity_id, h t.opportunity_id)

expected-eq-nil :
    (old now : Option Opportunity)
    → availability_in old ≡ availability_in now
    → expected old now ≡ []
unfolding expected change
expected-eq-nil none none h = refl
expected-eq-nil (some x) none h = cc
expected-eq-nil none (some o) h = cc
expected-eq-nil (some x) (some o) h =
    ground (arith, availability_beq_iff x.availability o.availability)

-- There are no transitions exactly when the two snapshots have the same availability, or the same
-- absence, for every id; the ids of each snapshot are distinct.
pub detect_transitions-eq-nil :
    (previous current : CheckResult)
    → is_distinct (ids previous.opportunities) ≡ true
    → is_distinct (ids current.opportunities) ≡ true
    → (detect_transitions previous current ≡ [])
      ↔ ((key : Text) → view previous key ≡ view current key)
detect_transitions-eq-nil previous current hp hc = (
  λ e key.
      ap (λ ts. replay ts (view previous) key) (sym e)
      ∙ replay-detect_transitions previous current key hp hc,
  λ same. nil_of_about (detect_transitions previous current) λ key.
      detect_transitions-expected previous current key hp hc
      ∙ expected-eq-nil (get_by_id key previous.opportunities) (get_by_id key current.opportunities)
          (same key),
)
