-- ===== src/Core/Transitions/Spec.antt =====
-- What `detect_transitions` reports about each opportunity, described by its two states alone.
use web_checker_py.Prelude.{
  Bool, true, false, Option, none, some, List, [], ◌∷◌, ◌++◌, Text, ◌==◌, text_eq, text_beq_iff,
  filter, filter-append, contains, is_distinct, Bool-cases, Option-cases, inl, inr, ◌≡◌, refl,
  arith, append-nil, ◌∙◌, if◌then◌else◌,
}
use web_checker_py.Core.Models.{
  Availability, available, unavailable, unknown, Opportunity, CheckResult, ids,
}
use web_checker_py.Core.Transitions.{
  TransitionType, appeared, disappeared, became_available, became_unavailable, availability_unknown,
  availability_beq, availability_transition, OpportunityTransition, get_by_id, change, changes,
  disappearance, disappearances, detect_transitions,
}

abbrev pub about : Text → List OpportunityTransition → List OpportunityTransition
about key ts = filter (λ t. t.opportunity_id == key) ts

-- What a state that an opportunity has got is called.
abbrev pub news : Availability → TransitionType
news available = became_available
news unavailable = became_unavailable
news unknown = availability_unknown

-- What is expected for an opportunity, from its previous and its current state.
unfoldable pub expected : Option Opportunity → Option Opportunity → List OpportunityTransition
expected none none = []
expected (some old) none =
    record { type = disappeared; opportunity_id = old.id; previous = some old; current = none } ∷ []
expected none (some o) =
    record { type = appeared; opportunity_id = o.id; previous = none; current = some o } ∷ []
expected (some old) (some o) =
    if availability_beq old.availability o.availability
    then []
    else record {
      type = news o.availability;
      opportunity_id = o.id;
      previous = some old;
      current = some o;
    }
      ∷ []

news_of : (a : Availability) → availability_transition a ≡ news a
unfolding availability_transition
news_of available = refl
news_of unavailable = refl
news_of unknown = refl

change-expected :
    (o : Opportunity) (old : Option Opportunity) → change o old ≡ expected old (some o)
unfolding change expected
change-expected o none = refl
change-expected o (some old) = rw (news_of o.availability)

changed : Option Opportunity → Option Opportunity → List OpportunityTransition
changed old none = []
changed old (some o) = change o old

vanished : Bool → Option Opportunity → List OpportunityTransition
vanished present none = []
vanished true (some o) = []
vanished false (some o) = disappearance o ∷ []

get-eq-none :
    (key : Text) (items : List Opportunity)
    → contains (ids items) key ≡ false
    → get_by_id key items ≡ none
get-eq-none key [] h = refl
get-eq-none key (o ∷ rest) h = ground (arith, get-eq-none key rest)

about-change :
    (key : Text) (o : Opportunity) (old : Option Opportunity)
    → about key (change o old) ≡ (if o.id == key then change o old else [])
unfolding change
about-change key o none = refl
about-change key o (some old) = ground arith

about-changes :
    (key : Text) (previous current : List Opportunity)
    → is_distinct (ids current) ≡ true
    → about key (changes previous current)
      ≡ changed (get_by_id key previous) (get_by_id key current)
unfolding changes changed
about-changes key previous [] h = refl
about-changes key previous (o ∷ rest) h =
    let split =
      filter-append (λ t. t.opportunity_id == key) (change o (get_by_id o.id previous))
        (changes previous rest) in
    rw split (elim (Bool-cases (o.id == key)) [
      | inl same ↦
          let e : o.id ≡ key = (text_beq_iff o.id key).0 same in
          ground (
            arith,
            about-change key o (get_by_id o.id previous),
            about-changes key previous rest,
            get-eq-none o.id rest,
            e,
          )
      | inr other ↦
          ground
            (arith, about-change key o (get_by_id o.id previous), about-changes key previous rest)
    ])

about-disappearances :
    (key : Text) (current previous : List Opportunity)
    → is_distinct (ids previous) ≡ true
    → about key (disappearances current previous)
      ≡ vanished (contains (ids current) key) (get_by_id key previous)
unfolding disappearances vanished
about-disappearances key current [] h = refl
about-disappearances key current (o ∷ rest) h = elim (Bool-cases (o.id == key)) [
  | inl same ↦
      let e : o.id ≡ key = (text_beq_iff o.id key).0 same in
      ground (arith, about-disappearances key current rest, get-eq-none o.id rest, e)
  | inr other ↦ ground (arith, about-disappearances key current rest)
]

contains-of-get :
    (key : Text) (items : List Opportunity) (o : Opportunity)
    → get_by_id key items ≡ some o
    → contains (ids items) key ≡ true
contains-of-get key [] o h = cc
contains-of-get key (x ∷ rest) o h = elim (Option-cases (get_by_id key rest)) [
  | inl e ↦ ground arith
  | inr (y, e) ↦ ground (arith, contains-of-get key rest y e)
]

contains_of_none :
    (key : Text) (items : List Opportunity)
    → get_by_id key items ≡ none
    → contains (ids items) key ≡ false
contains_of_none key [] h = refl
contains_of_none key (x ∷ rest) h = elim (Option-cases (get_by_id key rest)) [
  | inl e ↦ ground (arith, contains_of_none key rest e)
  | inr (y, e) ↦ ground arith
]

join_missing : (old : Option Opportunity) → vanished false old ≡ expected old none
unfolding vanished expected
join_missing none = refl
join_missing (some o) = refl

join_present :
    (old : Option Opportunity) (o : Opportunity)
    → change o old ++ vanished true old ≡ expected old (some o)
unfolding vanished expected
join_present none o = append-nil _ ∙ change-expected o none
join_present (some x) o = append-nil _ ∙ change-expected o (some x)

-- Between two snapshots with distinct ids, the transitions reported for an id are exactly those
-- expected from the previous and the current state of that id: none without a change of
-- availability, and one otherwise.
pub detect_transitions-expected :
    (previous current : CheckResult) (key : Text)
    → is_distinct (ids previous.opportunities) ≡ true
    → is_distinct (ids current.opportunities) ≡ true
    → about key (detect_transitions previous current)
      ≡ expected (get_by_id key previous.opportunities) (get_by_id key current.opportunities)
unfolding detect_transitions changed
detect_transitions-expected previous current key hp hc =
    let was = previous.opportunities in
    let now = current.opportunities in
    let split =
      filter-append (λ t. t.opportunity_id == key) (changes was now) (disappearances now was) in
    rw (split, about-changes key was now hc, about-disappearances key now was hp)
      (elim (Option-cases (get_by_id key now)) [
        | inl e ↦ rw (e, contains_of_none key now e) (join_missing (get_by_id key was))
        | inr (o, e) ↦ rw (e, contains-of-get key now o e) (join_present (get_by_id key was) o)
      ])
