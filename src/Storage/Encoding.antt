-- ===== src/Storage/Encoding.antt =====
-- How the values of the checker are written to columns of the store, and read back.
use web_checker_py.Prelude.{
  Option, none, some, List, [], ◌∷◌, Text, codes, ◌==◌, text_eq, if◌then◌else◌, ◌≡◌, refl,
}
use web_checker_py.Core.Models.{Availability, available, unavailable, unknown, Attributes}
use web_checker_py.Core.Transitions.{
  TransitionType, appeared, disappeared, became_available, became_unavailable, availability_unknown,
  initially_available,
}

-- `availability.value`
unfoldable pub availability_value : Availability → Text
availability_value available = codes "available"
availability_value unavailable = codes "unavailable"
availability_value unknown = codes "unknown"

-- `transition.type.value`
unfoldable pub transition_value : TransitionType → Text
transition_value appeared = codes "appeared"
transition_value disappeared = codes "disappeared"
transition_value became_available = codes "became_available"
transition_value became_unavailable = codes "became_unavailable"
transition_value availability_unknown = codes "availability_unknown"
transition_value initially_available = codes "initially_available"

-- The members of an enumeration, looked up by value as `Availability(text)` does.
by_value : {A : Type 0} → (A → Text) → List A → Text → Option A
by_value f [] s = none
by_value f (a ∷ rest) s = if f a == s then some a else by_value f rest s

unfoldable pub read_availability : Text → Option Availability
unfolding by_value availability_value
read_availability = by_value availability_value (available ∷ unavailable ∷ unknown ∷ [])

unfoldable pub read_transition : Text → Option TransitionType
unfolding by_value transition_value
read_transition = by_value transition_value (
    appeared ∷ disappeared ∷ became_available ∷ became_unavailable ∷ availability_unknown
    ∷ initially_available ∷ [])

pub read_availability-availability_value :
    (a : Availability) → read_availability (availability_value a) ≡ some a
unfolding read_availability
read_availability-availability_value available = refl
read_availability-availability_value unavailable = refl
read_availability-availability_value unknown = refl

pub read_transition-transition_value :
    (t : TransitionType) → read_transition (transition_value t) ≡ some t
unfolding read_transition
read_transition-transition_value appeared = refl
read_transition-transition_value disappeared = refl
read_transition-transition_value became_available = refl
read_transition-transition_value became_unavailable = refl
read_transition-transition_value availability_unknown = refl
read_transition-transition_value initially_available = refl

-- `json.dumps` with sorted keys, and `json.loads`, of a mapping of attributes.
pub record JsonCodec : Type 0 where
  pub dumps : Attributes → Text
  pub loads : Text → Option Attributes
