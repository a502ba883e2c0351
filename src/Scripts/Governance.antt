-- ===== src/Scripts/Governance.antt =====
-- scripts/check_pr_governance.py, on the event that `json.loads` returns. What the regular expression
-- CLOSING_REFERENCE_PATTERN finds in a text, and the answers of GitHub, are parameters.
use web_checker_py.Prelude.{
  ℕ, ◌+◌, ◌-◌, ◌*◌, Bool, true, false, not, ◌&&◌, ◌||◌, Option, none, some, List, [], ◌∷◌, ◌++◌,
  contains, Text, codes, is_none, leb, ltb, order_by, ◌==◌, nat_eq, text_eq, Result, ok, err, ◌>>=◌,
  ◌>>◌, raise_if, if◌then◌else◌,
}
use web_checker_py.Config.Values.{
  get, is_text, Numbers, Value, null, boolean, number, text, sequence, mapping, no_values, cons,
  Items, no_items, item, lookup,
}

-- `GovernanceError`, by what it says, and the `TypeError` of a body that is no string.
pub data GovernanceError : Type 0 where
  no_pull_request wrong_base no_head bad_branch : GovernanceError
  not_closing is_pull_request not_open unreadable type_error : GovernanceError

-- `int` of a text of digits
unfoldable pub digits_value : ℕ → Text → ℕ
digits_value value [] = value
digits_value value (c ∷ s) = digits_value (value * 10 + (c - 48)) s

abbrev is_lower : ℕ → Bool
is_lower c = leb 97 c && leb c 122

abbrev is_digit : ℕ → Bool
is_digit c = leb 48 c && leb c 57

-- `[a-z0-9._-]`
abbrev is_word : ℕ → Bool
is_word c = is_lower c || is_digit c || c == b'.' || c == b'_' || c == b'-'

abbrev all_word : Text → Bool
all_word [] = true
all_word (c ∷ s) = is_word c && all_word s

-- `[a-z0-9][a-z0-9._-]*` to the end
abbrev is_description : Text → Bool
is_description [] = false
is_description (c ∷ s) = (is_lower c || is_digit c) && all_word s

-- `[0-9]*-`, and then the description: the digits that are read, in front of those before
unfoldable pub read_issue : Text → Text → Option Text
read_issue read [] = none
read_issue read (c ∷ s) =
    let more = read_issue (read ++ c ∷ []) s in
    if is_digit c then more else if c == b'-' && is_description s then some read else none

-- `(?P<issue>[1-9][0-9]*)-`, after the slash
unfoldable pub read_number : Text → Option ℕ
read_number [] = none
read_number (c ∷ s) =
    if leb 49 c && leb c 57
    then (elim (read_issue (c ∷ []) s) [ none ↦ none | some digits ↦ some (digits_value 0 digits) ])
    else none

-- `[a-z0-9._-]*/`, and then the number
unfoldable pub read_kind : Text → Option ℕ
read_kind [] = none
read_kind (c ∷ s) =
    let more = read_kind s in if c == b'/' then read_number s else if is_word c then more else none

-- `BRANCH_PATTERN.fullmatch(...)`, with the number that it finds
unfoldable pub branch_issue : Text → Option ℕ
branch_issue [] = none
branch_issue (c ∷ s) = if is_lower c then read_kind s else none

-- The elements without those that come again
unfoldable pub unique : List ℕ → List ℕ
unique [] = []
unique (x ∷ xs) = let rest = unique xs in if contains rest x then rest else x ∷ rest

-- A value, or the exception
abbrev pub or_error : {A : Type 0} → GovernanceError → Option A → Result GovernanceError A
or_error e none = err e
or_error e (some a) = ok a

module _ {n : Numbers} where
  -- Whether a value counts as true
  unfoldable pub truthy : Value n → Bool
  truthy null = false
  truthy (boolean b) = b
  truthy (number x) = not (n.leq x (n.of_nat 0) && n.leq (n.of_nat 0) x)
  truthy (text []) = false
  truthy (text (c ∷ s)) = true
  truthy (sequence no_values) = false
  truthy (sequence (cons v vs)) = true
  truthy (mapping no_items) = false
  truthy (mapping (item k v is)) = true

  -- `body or ""`, which the pattern can only search if it is a string
  unfoldable pub string_in : Value n → Option Text
  string_in (text s) = some s
  string_in null = none
  string_in (boolean b) = none
  string_in (number x) = none
  string_in (sequence vs) = none
  string_in (mapping is) = none

  abbrev pub body_text : Value n → Option Text
  body_text v = if truthy v then string_in v else some []

  -- `isinstance(value, Mapping)`
  unfoldable pub as_items : Value n → Option (Items n)
  as_items (mapping is) = some is
  as_items null = none
  as_items (boolean b) = none
  as_items (number x) = none
  as_items (text s) = none
  as_items (sequence vs) = none

  -- `value.get(key) if isinstance(value, Mapping) else None`
  abbrev pub get_in : Text → Value n → Value n
  get_in key v = elim (as_items v) [ none ↦ null | some is ↦ get key is ]

  -- `extract_closing_issue_numbers`, with the numbers that the pattern finds
  unfoldable pub closing_numbers : (Text → List ℕ) → Value n → Option (List ℕ)
  closing_numbers find_all body = elim (body_text body) [
    | none ↦ none
    | some s ↦ some (order_by ltb (unique (find_all s)))
  ]

  -- An issue that is open, and no pull request
  abbrev pub is_pull : Items n → Bool
  is_pull issue = not (is_none (lookup (codes "pull_request") issue))

  abbrev pub is_open : Items n → Bool
  is_open issue = is_text (codes "open") (get (codes "state") issue)

  -- `validate_pull_request`
  unfoldable pub validate_pull_request :
      (Text → List ℕ) → Items n → (ℕ → Result GovernanceError (Items n)) → Result GovernanceError ℕ
  validate_pull_request find_all event issue_lookup = do
    pull ← or_error no_pull_request (as_items (get (codes "pull_request") event))
    raise_if (not (is_text (codes "development") (get_in (codes "ref") (get (codes "base") pull))))
        wrong_base
    head ← or_error no_head (string_in (get_in (codes "ref") (get (codes "head") pull)))
    issue_number ← or_error bad_branch (branch_issue head)
    closing ← or_error type_error (closing_numbers find_all (get (codes "body") pull))
    raise_if (not (contains closing issue_number)) not_closing
    issue ← issue_lookup issue_number
    raise_if (is_pull issue) is_pull_request
    raise_if (not (is_open issue)) not_open
    ok issue_number
