-- ===== src/Config/Values.antt =====
-- What `yaml.load` returns: a tree of scalars, lists and dicts. A dict is the list of its items,
-- whose
-- keys differ.
use web_checker_py.Prelude.{
  ℕ, Bool, true, false, ◌&&◌, Option, none, some, List, [], ◌∷◌, contains, Text, ◌==◌, text_eq, ◌≡◌,
  if◌then◌else◌,
}

-- The ints and floats, as the code compares them. `is_finite` has no value where `isfinite` raises
-- `OverflowError`, and `whole` is the number that an int is which is not negative.
pub record Numbers : Type 1 where
  pub Number : Type 0
  pub is_finite : Number → Option Bool
  pub leq : Number → Number → Bool
  pub less : Number → Number → Bool
  pub whole : Number → Option ℕ
  pub of_nat : ℕ → Number
  pub default_jitter : Number
  pub whole_of_nat : (k : ℕ) → whole (of_nat k) ≡ some k

-- A key is a string, or something else.
pub data Key : Type 0 where
  name : Text → Key
  no_name : Key

mutual
  pub data Value (n : Numbers) : Type 0 where
    null : Value n
    boolean : Bool → Value n
    number : n.Number → Value n
    text : Text → Value n
    sequence : Values n → Value n
    mapping : Items n → Value n

  pub data Values (n : Numbers) : Type 0 where
    no_values : Values n
    cons : Value n → Values n → Values n

  pub data Items (n : Numbers) : Type 0 where
    no_items : Items n
    item : Key → Value n → Items n → Items n

module _ {n : Numbers} where
  -- `value.get(key)`
  unfoldable pub lookup : Text → Items n → Option (Value n)
  lookup key no_items = none
  lookup key (item no_name v rest) = lookup key rest
  lookup key (item (name k) v rest) =
      let later = lookup key rest in if k == key then some v else later

  -- `set(value) - allowed` is empty
  unfoldable pub only_fields : List Text → Items n → Bool
  only_fields allowed no_items = true
  only_fields allowed (item no_name v rest) = false
  only_fields allowed (item (name k) v rest) = contains allowed k && only_fields allowed rest

  -- `all(isinstance(item, str) for item in value)`, with the strings
  unfoldable pub strings : Values n → Option (List Text)
  strings no_values = some []
  strings (cons (text s) rest) = elim (strings rest) [ none ↦ none | some ss ↦ some (s ∷ ss) ]
  strings (cons null rest) = none
  strings (cons (boolean b) rest) = none
  strings (cons (number x) rest) = none
  strings (cons (sequence vs) rest) = none
  strings (cons (mapping is) rest) = none

  -- `item.get(key)`
  abbrev pub get : Text → Items n → Value n
  get key items = elim (lookup key items) [ none ↦ null | some v ↦ v ]

  -- `config.get(key, default)`
  abbrev pub get_or : Value n → Text → Items n → Value n
  get_or default key items = elim (lookup key items) [ none ↦ default | some v ↦ v ]

  -- `value == s` for a string `s`
  unfoldable pub is_text : Text → Value n → Bool
  is_text s (text t) = t == s
  is_text s null = false
  is_text s (boolean b) = false
  is_text s (number x) = false
  is_text s (sequence vs) = false
  is_text s (mapping is) = false

  -- The string that a value is
  unfoldable pub as_string : Value n → Option Text
  as_string (text s) = some s
  as_string null = none
  as_string (boolean b) = none
  as_string (number x) = none
  as_string (sequence vs) = none
  as_string (mapping is) = none

  -- The mapping that a value is
  unfoldable pub as_mapping : Value n → Option (Items n)
  as_mapping (mapping is) = some is
  as_mapping null = none
  as_mapping (boolean b) = none
  as_mapping (number x) = none
  as_mapping (text s) = none
  as_mapping (sequence vs) = none

  -- The number that a value is
  unfoldable pub as_number : Value n → Option n.Number
  as_number (number x) = some x
  as_number null = none
  as_number (boolean b) = none
  as_number (text s) = none
  as_number (sequence vs) = none
  as_number (mapping is) = none
