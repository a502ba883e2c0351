-- ===== src/Scripts/Linked.antt =====
-- scripts/check_pr_governance.py and scripts/close_linked_issues.py together: what the one accepts,
-- the other closes.
use web_checker_py.Prelude.{
  ℕ, true, false, not, ◌&&◌, Option, none, some, List, [], ◌∷◌, contains, Text, codes, not-false,
  nat_beq_iff, ◌==◌, nat_eq, Result, ok, raise_if-eq-ok, bind-eq-ok, ok-injective, ◌≡◌, refl, sym,
  subst, ap, ◌∙◌, Bool-cases, inl, inr,
}
use web_checker_py.Config.Values.{get, is_text, Numbers, Items}
use web_checker_py.Scripts.Governance.{
  GovernanceError, no_head, bad_branch, type_error, branch_issue, string_in, as_items, get_in,
  closing_numbers, is_pull, is_open, or_error, validate_pull_request,
}
use web_checker_py.Scripts.Closing.{
  ClosureError, closable, close_from, is_merged, close_merged, issues_to_close,
}

or_error-eq-ok :
    {A : Type 0} (e : GovernanceError) (o : Option A) {a : A} → or_error e o ≡ ok a → o ≡ some a
or_error-eq-ok e none h = cc
or_error-eq-ok e (some x) h = ap some (ok-injective x _ h)

module _ {n : Numbers} where
  -- What an accepted pull request has
  record IsAccepted (find_all : Text → List ℕ) (pull : Items n)
      (issue_lookup : ℕ → Result GovernanceError (Items n)) (k : ℕ) : Type 0 where
    closing : List ℕ
    finds : closing_numbers find_all (get (codes "body") pull) ≡ some closing
    has : contains closing k ≡ true
    issue : Items n
    found : issue_lookup k ≡ ok issue
    no_pull : is_pull issue ≡ false
    is_open_issue : is_open issue ≡ true

  validate_pull_request-IsAccepted :
      (find_all : Text → List ℕ) (event pull : Items n)
      (issue_lookup : ℕ → Result GovernanceError (Items n)) (k : ℕ)
      → as_items (get (codes "pull_request") event) ≡ some pull
      → validate_pull_request find_all event issue_lookup ≡ ok k
      → IsAccepted find_all pull issue_lookup k
  unfolding validate_pull_request
  validate_pull_request-IsAccepted find_all event pull issue_lookup k is_pull_item h =
      let h0 = rw is_pull_item at h in
      let (based, h1) =
        raise_if-eq-ok
          (not (is_text (codes "development") (get_in (codes "ref") (get (codes "base") pull)))) _ _
          h0 in
      let (head, e2, h2) =
        bind-eq-ok (or_error no_head (string_in (get_in (codes "ref") (get (codes "head") pull)))) _
          h1 in
      let (j, e3, h3) = bind-eq-ok (or_error bad_branch (branch_issue head)) _ h2 in
      let (closing, e4, h4) =
        bind-eq-ok (or_error type_error (closing_numbers find_all (get (codes "body") pull))) _
          h3 in
      let (linked, h5) = raise_if-eq-ok (not (contains closing j)) _ _ h4 in
      let (issue, e6, h6) = bind-eq-ok (issue_lookup j) _ h5 in
      let (no_pull, h7) = raise_if-eq-ok (is_pull issue) _ _ h6 in
      let (opened, h8) = raise_if-eq-ok (not (is_open issue)) _ _ h7 in
      subst (IsAccepted find_all pull issue_lookup) (ok-injective j k h8) (record {
        closing = closing;
        finds = or_error-eq-ok type_error _ e4;
        has = not-false _ linked;
        issue = issue;
        found = e6;
        no_pull = no_pull;
        is_open_issue = not-false _ opened;
      })

  closable-contains :
      (issue_lookup : ℕ → Result ClosureError (Items n)) (k : ℕ) (issue : Items n)
      (numbers closed : List ℕ)
      → issue_lookup k ≡ ok issue
      → is_pull issue ≡ false
      → is_open issue ≡ true
      → contains numbers k ≡ true
      → closable issue_lookup numbers ≡ ok closed
      → contains closed k ≡ true
  unfolding closable
  closable-contains issue_lookup k issue [] closed found no_pull opened has h = cc
  closable-contains issue_lookup k issue (j ∷ js) closed found no_pull opened has h =
      let (other, e1, h1) = bind-eq-ok (issue_lookup j) _ h in
      let (later, e2, h2) = bind-eq-ok (closable issue_lookup js) _ h1 in
      subst (λ l. contains l k ≡ true) (ok-injective _ closed h2)
        (elim (Bool-cases (j == k)) [
          | inl e ↦
              let same : j ≡ k = (nat_beq_iff j k).0 e in
              let is_issue : other ≡ issue =
                ok-injective other issue (sym e1 ∙ ap issue_lookup same ∙ found) in
              rw (is_issue, no_pull, opened, e) refl
          | inr e ↦
              let rest =
                closable-contains issue_lookup k issue js later found no_pull opened (rw e at has)
                  e2 in
              elim (Bool-cases (not (is_pull other) && is_open other)) [
                | inl f ↦ rw (f, e) rest
                | inr f ↦ rw f rest
              ]
        ])

  -- When a pull request was accepted for an issue, and is later merged into development with the
  -- same body while the issue is as it was, the issues that are then closed include this one.
  pub issues_to_close-validate_pull_request :
      (find_all : Text → List ℕ) (event later pull merged issue : Items n)
      (before : ℕ → Result GovernanceError (Items n)) (after : ℕ → Result ClosureError (Items n))
      (k : ℕ) (closed : List ℕ)
      → validate_pull_request find_all event before ≡ ok k
      → as_items (get (codes "pull_request") event) ≡ some pull
      → as_items (get (codes "pull_request") later) ≡ some merged
      → get (codes "body") merged ≡ get (codes "body") pull
      → is_merged merged (as_items (get (codes "base") merged)) ≡ true
      → before k ≡ ok issue
      → after k ≡ ok issue
      → issues_to_close find_all later after ≡ ok closed
      → contains closed k ≡ true
  unfolding issues_to_close close_merged close_from
  issues_to_close-validate_pull_request find_all event later pull merged issue before after k closed
        h is_pull_item is_merged_item same_body on_base was now h2 =
      let a = validate_pull_request-IsAccepted find_all event pull before k is_pull_item h in
      let is_issue : a.issue ≡ issue = ok-injective a.issue issue (sym a.found ∙ was) in
      let finds : closing_numbers find_all (get (codes "body") merged) ≡ some a.closing =
        ap (closing_numbers find_all) same_body ∙ a.finds in
      let run = rw (is_merged_item, close_merged, on_base, finds) at h2 in
      closable-contains after k issue a.closing closed now
        (subst (λ i. is_pull i ≡ false) is_issue a.no_pull)
        (subst (λ i. is_open i ≡ true) is_issue a.is_open_issue) a.has run
