-- ===== src/Core/Transitions.antt =====
-- web_checker/core/transitions.py. `previous_by_id` is a dict: a later item with an id replaces an
-- earlier one, so its `get` finds the last item with the id.
pub mod Spec
pub mod Replay
pub mod Valid
use web_checker_py.Prelude.{
  Result, ok, err, Bool, true, false, Option, none, some, List, [], ◌∷◌, ◌++◌, map, Text, ◌==◌,
  text_eq, filter, find_last, contains, HasEqual, ◌≡◌, ◌↔◌, arith, if◌then◌else◌,
}
use web_checker_py.Core.Models.{
  Availability, available, unavailable, unknown, Opportunity, CheckResult, ids,
}

pub data TransitionType : Type 0 where
  appeared disappeared became_available became_unavailable availability_unknown : TransitionType
  initially_available : TransitionType

pub record OpportunityTransition : Type 0 where
  pub type : TransitionType
  pub opportunity_id : Text
  pub previous : Option Opportunity
  pub current : Option Opportunity

pub data TransitionError : Type 0 where
  no_state id_mismatch : TransitionError

-- `OpportunityTransition(...)` with its `__post_init__`
unfoldable pub make_transition :
    OpportunityTransition → Result TransitionError OpportunityTransition
make_transition t = elim t.current [
  | some o ↦ if t.opportunity_id == o.id then ok t else err id_mismatch
  | none ↦ elim t.previous [
    | some o ↦ if t.opportunity_id == o.id then ok t else err id_mismatch
    | none ↦ err no_state
  ]
]

abbrev pub availability_beq : Availability → Availability → Bool
availability_beq available available = true
availability_beq unavailable unavailable = true
availability_beq unknown unknown = true
availability_beq _ _ = false

pub availability_beq_iff : (a b : Availability) → (availability_beq a b ≡ true) ↔ (a ≡ b)
availability_beq_iff a b = ground arith

instance abbrev pub availability_eq : HasEqual Availability
availability_eq = record { equal = availability_beq; equal_iff = availability_beq_iff }

-- `previous_by_id.get(id)`
abbrev pub get_by_id : Text → List Opportunity → Option Opportunity
get_by_id key items = find_last (λ o. o.id == key) items

unfoldable pub availability_transition : Availability → TransitionType
availability_transition available = became_available
availability_transition unavailable = became_unavailable
availability_transition _ = availability_unknown

-- The body of the loop over the current opportunities.
pub change : Opportunity → Option Opportunity → List OpportunityTransition
unfolding availability_transition
change o none =
    record { type = appeared; opportunity_id = o.id; previous = none; current = some o } ∷ []
change o (some old) =
    if old.availability == o.availability
    then []
    else record {
      type = availability_transition o.availability;
      opportunity_id = o.id;
      previous = some old;
      current = some o;
    }
      ∷ []

pub changes : List Opportunity → List Opportunity → List OpportunityTransition
unfolding change
changes previous [] = []
changes previous (o ∷ rest) = change o (get_by_id o.id previous) ++ changes previous rest

abbrev disappearance : Opportunity → OpportunityTransition
disappearance o = record {
  type = disappeared;
  opportunity_id = o.id;
  previous = some o;
  current = none;
}

pub disappearances : List Opportunity → List Opportunity → List OpportunityTransition
disappearances current [] = []
disappearances current (o ∷ rest) =
    if contains (ids current) o.id
    then disappearances current rest
    else disappearance o ∷ disappearances current rest

unfoldable pub detect_transitions : CheckResult → CheckResult → List OpportunityTransition
unfolding changes disappearances
detect_transitions previous current =
    changes previous.opportunities current.opportunities
    ++ disappearances current.opportunities previous.opportunities

unfoldable pub detect_initial_transitions : CheckResult → List OpportunityTransition
detect_initial_transitions current =
    map
      (λ o. record {
        type = initially_available;
        opportunity_id = o.id;
        previous = none;
        current = some o;
      })
      (filter (λ o. o.availability == available) current.opportunities)
