-- ===== src/Tests/PullRequests.antt =====
-- A pull request for issue 12 that is accepted and merged.
use web_checker_py.Prelude.{
  ℕ, Bool, true, false, some, List, [], ◌∷◌, contains, Text, codes, Result, ok, order_by, insert_by,
  nat_eq, ◌≡◌, refl,
}
use web_checker_py.Config.Values.{
  get, is_text, Value, boolean, text, mapping, Items, no_items, item, name, lookup,
}
use web_checker_py.Scripts.Governance.{
  GovernanceError, digits_value, read_issue, read_number, read_kind, branch_issue, unique, truthy,
  string_in, as_items, closing_numbers, validate_pull_request,
}
use web_checker_py.Scripts.Closing.{
  ClosureError, closable, close_from, is_merged, close_merged, issues_to_close,
}
use web_checker_py.Scripts.Linked.{issues_to_close-validate_pull_request}
use web_checker_py.Tests.Documents.{whole_numbers}

abbrev Json : Type 0
Json = Items whole_numbers

-- The pattern finds one reference.
abbrev find_all : Text → List ℕ
find_all body = 12 ∷ 7 ∷ 12 ∷ []

abbrev refs : Text → Value whole_numbers
refs branch = mapping (item (name (codes "ref")) (text branch) no_items)

abbrev pull : Bool → Json
pull merged = item (name (codes "base")) (refs (codes "development")) (
    item (name (codes "head")) (refs (codes "agent/12-add-check")) (
      item (name (codes "body")) (text (codes "Closes #12"))
        (item (name (codes "merged")) (boolean merged) no_items)))

abbrev event : Bool → Json
event merged = item (name (codes "pull_request")) (mapping (pull merged)) no_items

abbrev issue : Json
issue = item (name (codes "state")) (text (codes "open")) no_items

abbrev before : ℕ → Result GovernanceError Json
before k = ok issue

abbrev after : ℕ → Result ClosureError Json
after k = ok issue

abbrev closed : List ℕ
closed = 7 ∷ 12 ∷ []

accepts : validate_pull_request find_all (event false) before ≡ ok 12
unfolding validate_pull_request as_items lookup is_text string_in branch_issue read_kind read_number
    read_issue digits_value closing_numbers truthy unique order_by insert_by
accepts = refl

closes : issues_to_close find_all (event true) after ≡ ok (7 ∷ 12 ∷ [])
unfolding issues_to_close close_merged close_from is_merged closable as_items lookup is_text
    string_in closing_numbers truthy unique order_by insert_by
closes = refl

is_pull_item : as_items (get (codes "pull_request") (event false)) ≡ some (pull false)
unfolding as_items lookup
is_pull_item = refl

is_merged_item : as_items (get (codes "pull_request") (event true)) ≡ some (pull true)
unfolding as_items lookup
is_merged_item = refl

same_body : get (codes "body") (pull true) ≡ get (codes "body") (pull false)
unfolding lookup
same_body = refl

on_development : is_merged (pull true) (as_items (get (codes "base") (pull true))) ≡ true
unfolding is_merged as_items lookup is_text truthy
on_development = refl

issues_to_close-validate_pull_request_example : contains closed 12 ≡ true
issues_to_close-validate_pull_request_example =
    issues_to_close-validate_pull_request find_all (event false) (event true) (pull false)
      (pull true) issue before after 12 closed accepts is_pull_item is_merged_item same_body
      on_development refl refl closes
