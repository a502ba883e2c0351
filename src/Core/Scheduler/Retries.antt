-- ===== src/Core/Scheduler/Retries.antt =====
-- `_execute_with_retries`: what one execution does, as the list of its actions.
use web_checker_py.Prelude.{
  ℕ, zero, suc, ◌+◌, ◌≤◌, ◌<◌, List, [], ◌∷◌, ◌++◌, Text, ◌≡◌, refl, arith,
}

-- What an attempt ends with: the result of the check, or the exception, other than a cancellation.
pub data Attempt (R : Type 0) : Type 0 where
  succeeded : R → Attempt R
  raised : Text → Attempt R

-- The calls that an execution makes: `check`, the sleep before the next attempt, and at its end
-- `check_failed` or `delivery_backlog` of the operational alerts.
pub data Action : Type 0 where
  checks sleeps : ℕ → Action
  reports_failure : Text → Action
  reviews_backlog : Action

-- What follows the last attempt, and an attempt that is not the last.
abbrev pub last : {R : Type 0} → Attempt R → List Action
last (succeeded r) = reviews_backlog ∷ []
last (raised e) = reports_failure e ∷ []

abbrev pub again : {R : Type 0} → Attempt R → ℕ → List Action → List Action
again (succeeded r) number later = reviews_backlog ∷ []
again (raised e) number later = sleeps number ∷ later

-- The loop from an attempt on, with the number of attempts that are left after it.
unfoldable pub attempts : {R : Type 0} → (ℕ → Attempt R) → ℕ → ℕ → List Action
attempts outcome number zero = checks number ∷ last (outcome number)
attempts outcome number (suc left) =
    checks number ∷ again (outcome number) number (attempts outcome (suc number) left)

-- `_execute_with_retries`
unfoldable pub execute : {R : Type 0} → (ℕ → Attempt R) → ℕ → List Action
execute outcome zero = []
execute outcome (suc left) = attempts outcome 1 left

-- `count` attempts that fail, each followed by a sleep.
unfoldable pub tries : ℕ → ℕ → List Action
tries number zero = []
tries number (suc count) = checks number ∷ sleeps number ∷ tries (suc number) count

abbrev pub Fails : {R : Type 0} → (ℕ → Attempt R) → ℕ → Type 0
Fails outcome number = (e : Text) × (outcome number ≡ raised e)

module _ {R : Type 0} (outcome : ℕ → Attempt R) where
  attempts-succeeded :
      (count left number : ℕ) (r : R)
      → count ≤ left
      → ((i : ℕ) → number ≤ i → i < number + count → Fails outcome i)
      → outcome (number + count) ≡ succeeded r
      → attempts outcome number left
        ≡ tries number count ++ checks (number + count) ∷ reviews_backlog ∷ []
  unfolding attempts tries
  attempts-succeeded zero zero number r le f h =
      let same : number + 0 ≡ number = omega arith in
      let now : outcome number ≡ succeeded r = rw same at h in rw (now, same) refl
  attempts-succeeded zero (suc left) number r le f h =
      let same : number + 0 ≡ number = omega arith in
      let now : outcome number ≡ succeeded r = rw same at h in rw (now, same) refl
  attempts-succeeded (suc count) zero number r le f h = ground arith
  attempts-succeeded (suc count) (suc left) number r le f h =
      let (e, failed) = f number (omega arith) (omega arith) in
      let shift : suc number + count ≡ number + suc count = omega arith in
      let later =
        attempts-succeeded count left (suc number) r (omega arith)
          (λ i a b. f i (omega arith) (omega arith)) (rw shift h) in
      rw (failed, later, shift) refl

  attempts-failed :
      (left number : ℕ) (e : Text)
      → ((i : ℕ) → number ≤ i → i < number + left → Fails outcome i)
      → outcome (number + left) ≡ raised e
      → attempts outcome number left
        ≡ tries number left ++ checks (number + left) ∷ reports_failure e ∷ []
  unfolding attempts tries
  attempts-failed zero number e f h =
      let same : number + 0 ≡ number = omega arith in
      let now : outcome number ≡ raised e = rw same at h in rw (now, same) refl
  attempts-failed (suc left) number e f h =
      let (x, failed) = f number (omega arith) (omega arith) in
      let shift : suc number + left ≡ number + suc left = omega arith in
      let later =
        attempts-failed left (suc number) e (λ i a b. f i (omega arith) (omega arith))
          (rw shift h) in
      rw (failed, later, shift) refl

  -- When the attempts before number `count + 1` raise and that one succeeds, within the limit, the
  -- execution makes those attempts with a sleep after each that raised, then looks at the delivery
  -- backlog, and reports no failure.
  pub execute-succeeded :
      (count max_attempts : ℕ) (r : R)
      → count < max_attempts
      → ((i : ℕ) → 1 ≤ i → i < 1 + count → Fails outcome i)
      → outcome (1 + count) ≡ succeeded r
      → execute outcome max_attempts ≡ tries 1 count ++ checks (1 + count) ∷ reviews_backlog ∷ []
  unfolding execute
  execute-succeeded count zero r le f h = ground arith
  execute-succeeded count (suc left) r le f h = attempts-succeeded count left 1 r (omega arith) f h

  -- When all allowed attempts raise, the execution makes exactly them, with a sleep between two,
  -- and reports the last exception once.
  pub execute-failed :
      (left : ℕ) (e : Text)
      → ((i : ℕ) → 1 ≤ i → i < 1 + left → Fails outcome i)
      → outcome (1 + left) ≡ raised e
      → execute outcome (suc left) ≡ tries 1 left ++ checks (1 + left) ∷ reports_failure e ∷ []
  unfolding execute
  execute-failed left e f h = attempts-failed left 1 e f h
