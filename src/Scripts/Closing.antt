-- ===== src/Scripts/Closing.antt =====
-- `issues_to_close` of scripts/close_linked_issues.py, with the answers of GitHub as a parameter.
use web_checker_py.Prelude.{
  ℕ, Bool, false, not, ◌&&◌, Option, none, some, List, [], ◌∷◌, Text, codes, Result, ok, err, ◌>>=◌,
  if◌then◌else◌,
}
use web_checker_py.Config.Values.{get, is_text, Numbers, Items}
use web_checker_py.Scripts.Governance.{truthy, as_items, closing_numbers, is_pull, is_open}

-- The `IssueClosureError` of a lookup, and the `TypeError` of a body that is no string.
pub data ClosureError : Type 0 where
  lookup_failed body_is_no_string : ClosureError

abbrev pub or_type_error : Option (List ℕ) → Result ClosureError (List ℕ)
or_type_error none = err body_is_no_string
or_type_error (some numbers) = ok numbers

module _ {n : Numbers} where
  -- The loop over the numbers
  unfoldable pub closable :
      (ℕ → Result ClosureError (Items n)) → List ℕ → Result ClosureError (List ℕ)
  closable issue_lookup [] = ok []
  closable issue_lookup (number ∷ rest) = do
    issue ← issue_lookup number
    later ← closable issue_lookup rest
    ok (if not (is_pull issue) && is_open issue then number ∷ later else later)

  -- What follows the tests on the event
  unfoldable pub close_from :
      (Text → List ℕ) → Items n → (ℕ → Result ClosureError (Items n)) → Result ClosureError (List ℕ)
  close_from find_all pull issue_lookup = do
    numbers ← or_type_error (closing_numbers find_all (get (codes "body") pull))
    closable issue_lookup numbers

  -- Whether a pull request was merged into development
  unfoldable pub is_merged : Items n → Option (Items n) → Bool
  is_merged pull none = false
  is_merged pull (some base) =
      truthy (get (codes "merged") pull) && is_text (codes "development") (get (codes "ref") base)

  unfoldable pub close_merged :
      (Text → List ℕ)
      → Option (Items n)
      → (ℕ → Result ClosureError (Items n))
      → Result ClosureError (List ℕ)
  close_merged find_all none issue_lookup = ok []
  close_merged find_all (some pull) issue_lookup =
      if is_merged pull (as_items (get (codes "base") pull))
      then close_from find_all pull issue_lookup
      else ok []

  -- `issues_to_close`
  unfoldable pub issues_to_close :
      (Text → List ℕ) → Items n → (ℕ → Result ClosureError (Items n)) → Result ClosureError (List ℕ)
  issues_to_close find_all event issue_lookup =
      close_merged find_all (as_items (get (codes "pull_request") event)) issue_lookup
