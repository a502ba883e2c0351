-- ===== src/Core/Transitions/Valid.antt =====
-- The transitions that the detectors build pass the checks of `OpportunityTransition.__post_init__`.
use web_checker_py.Prelude.{
  Option, none, some, List, [], ◌∷◌, Text, text_eq, inl, inr, ◌≡◌, arith, All, All-append,
  Option-cases, text_beq_iff, ok,
}
use web_checker_py.Core.Models.{Opportunity, CheckResult}
use web_checker_py.Core.Transitions.{
  OpportunityTransition, get_by_id, change, changes, disappearances, detect_transitions,
  make_transition,
}

abbrev pub IsValid : OpportunityTransition → Type 0
IsValid t = make_transition t ≡ ok t

get-id :
    (key : Text) (items : List Opportunity) (o : Opportunity)
    → get_by_id key items ≡ some o
    → o.id ≡ key
get-id key [] o h = cc
get-id key (x ∷ rest) o h = elim (Option-cases (get_by_id key rest)) [
  | inl e ↦ ground (arith, text_beq_iff x.id key)
  | inr (y, e) ↦ ground (arith, get-id key rest y e)
]

change-IsValid : (o : Opportunity) (old : Option Opportunity) → All IsValid (change o old)
unfolding change make_transition
change-IsValid o none = ground (arith, text_beq_iff o.id o.id)
change-IsValid o (some x) = ground (arith, text_beq_iff o.id o.id)

changes-IsValid : (previous current : List Opportunity) → All IsValid (changes previous current)
unfolding changes
changes-IsValid previous [] = tt
changes-IsValid previous (o ∷ rest) =
    All-append IsValid (change o (get_by_id o.id previous)) (changes previous rest)
      (change-IsValid o (get_by_id o.id previous)) (changes-IsValid previous rest)

disappearances-IsValid :
    (current previous : List Opportunity) → All IsValid (disappearances current previous)
unfolding disappearances make_transition
disappearances-IsValid current [] = tt
disappearances-IsValid current (o ∷ rest) =
    ground (arith, text_beq_iff o.id o.id, disappearances-IsValid current rest)

-- Every transition between two snapshots has a state, and the id of that state.
pub detect_transitions-IsValid :
    (previous current : CheckResult) → All IsValid (detect_transitions previous current)
unfolding detect_transitions
detect_transitions-IsValid previous current =
    All-append IsValid (changes previous.opportunities current.opportunities)
      (disappearances current.opportunities previous.opportunities)
      (changes-IsValid previous.opportunities current.opportunities)
      (disappearances-IsValid current.opportunities previous.opportunities)
