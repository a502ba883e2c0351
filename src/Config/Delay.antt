-- ===== src/Config/Delay.antt =====
-- `RetryPolicy.delay_after_failure` of web_checker/config.py, for attempts that are not negative,
-- and its
-- bounds. No value stands for `OverflowError`, which a float times an int raises where the int is too
-- large for a float.
use web_checker_py.Prelude.{
  ℕ, zero, suc, ◌^◌, ◌≤◌, arith, refl, Bool, true, false, not, ◌&&◌, Option, none, some, leb, ltb,
  not-false, ok, raise_if-eq-ok, bind-eq-ok, ok-injective, ◌≡◌, subst, if◌then◌else◌, Bool-cases,
  inl, inr,
}
use web_checker_py.Config.Values.{Numbers, Value, null, boolean, number, text, sequence, mapping}
use web_checker_py.Config.Definitions.{
  RetryPolicy, out_of_range, bad_attempts, delays_reversed, zero_delay, check_finite,
  validate_number, attempts_of, make_retry,
}

-- The arithmetic of Python on ints and floats, where `half` is 0.5. A product by an int, `scale`,
-- may have
-- no value; one by a power of two that a float holds has one. The other products and sums are of
-- numbers
-- that a float holds, and do not raise. What is less is at most as large, and a number that is
-- compared
-- at all is at most itself: only NaN is not.
pub record Arithmetic (n : Numbers) : Type 0 where
  pub add : n.Number → n.Number → n.Number
  pub subtract : n.Number → n.Number → n.Number
  pub multiply : n.Number → n.Number → n.Number
  pub half : n.Number
  pub scale : n.Number → ℕ → Option n.Number
  pub scale-power : (x : n.Number) (k : ℕ) → k ≤ 1023 → (y : n.Number) × (scale x (2 ^ k) ≡ some y)
  pub less-leq : (a b : n.Number) → n.less a b ≡ true → n.leq a b ≡ true
  pub leq-itself : (a b : n.Number) → n.leq a b ≡ true → (n.leq a a ≡ true) × (n.leq b b ≡ true)

-- `min(a, b)` and `max(a, b)`, which keep the first unless the second is less, or greater
unfoldable pub minimum : (n : Numbers) → n.Number → n.Number → n.Number
minimum n a b = if n.less b a then b else a

unfoldable pub maximum : (n : Numbers) → n.Number → n.Number → n.Number
maximum n a b = if n.less a b then b else a

-- Between zero and a maximum
abbrev pub IsWithin : (n : Numbers) → n.Number → n.Number → Type 0
IsWithin n top x = (n.leq (n.of_nat 0) x ≡ true) × (n.leq x top ≡ true)

check_finite-leq :
    (n : Numbers) (least y : n.Number) (o : Option Bool) (x : n.Number)
    → check_finite n least true none y o ≡ ok x
    → n.leq least x ≡ true
unfolding check_finite
check_finite-leq n least y none x h = cc
check_finite-leq n least y (some false) x h = cc
check_finite-leq n least y (some true) x h =
    let (inside, h1) = raise_if-eq-ok (not (n.leq least y)) out_of_range _ h in
    subst (λ z. n.leq least z ≡ true) (ok-injective y x h1) (not-false _ inside)

module _ {n : Numbers} where
  -- `self.initial_delay_seconds * (2 ** (failed_attempt - 1))`
  unfoldable pub scaled_delay : Arithmetic n → n.Number → ℕ → Option n.Number
  scaled_delay a initial zero = some (a.multiply initial a.half)
  scaled_delay a initial (suc k) = a.scale initial (2 ^ k)

  -- The delay from the scaled one: capped, and with jitter
  abbrev jittered : Arithmetic n → RetryPolicy n → n.Number → n.Number → n.Number
  jittered a retry random_unit scaled =
      let base_delay = minimum n scaled retry.max_delay_seconds in
      let jitter_multiplier = a.add (n.of_nat 1) (
        a.multiply retry.jitter_fraction
          (a.subtract (a.multiply (n.of_nat 2) random_unit) (n.of_nat 1))) in
      minimum n retry.max_delay_seconds
        (maximum n (n.of_nat 0) (a.multiply base_delay jitter_multiplier))

  -- `delay_after_failure`
  unfoldable pub delay_after_failure : Arithmetic n → RetryPolicy n → ℕ → n.Number → Option n.Number
  delay_after_failure a retry failed_attempt random_unit =
      elim (scaled_delay a retry.initial_delay_seconds failed_attempt) [
        | none ↦ none
        | some scaled ↦ some (jittered a retry random_unit scaled)
      ]

  scaled_delay-some :
      (a : Arithmetic n) (initial : n.Number) (failed_attempt : ℕ)
      → failed_attempt ≤ 1024
      → (y : n.Number) × (scaled_delay a initial failed_attempt ≡ some y)
  unfolding scaled_delay
  scaled_delay-some a initial zero h = (a.multiply initial a.half, refl)
  scaled_delay-some a initial (suc k) h = a.scale-power initial k (omega arith)

  minimum-IsWithin :
      (a : Arithmetic n) (top x : n.Number)
      → n.leq (n.of_nat 0) top ≡ true
      → IsWithin n top (minimum n top (maximum n (n.of_nat 0) x))
  unfolding minimum maximum
  minimum-IsWithin a top x h = elim (Bool-cases (n.less (n.of_nat 0) x)) [
    | inl e ↦ rw e (elim (Bool-cases (n.less x top)) [
      | inl f ↦ rw f (a.less-leq (n.of_nat 0) x e, a.less-leq x top f)
      | inr f ↦ rw f (h, (a.leq-itself (n.of_nat 0) top h).1)
    ])
    | inr e ↦ rw e (elim (Bool-cases (n.less (n.of_nat 0) top)) [
      | inl f ↦ rw f ((a.leq-itself (n.of_nat 0) top h).0, h)
      | inr f ↦ rw f (h, (a.leq-itself (n.of_nat 0) top h).1)
    ])
  ]

  validate_number-leq :
      (least : n.Number) (v : Value n) (x : n.Number)
      → validate_number n least true none v ≡ ok x
      → n.leq least x ≡ true
  unfolding validate_number
  validate_number-leq least (number y) x h = check_finite-leq n least y (n.is_finite y) x h
  validate_number-leq least null x h = cc
  validate_number-leq least (boolean b) x h = cc
  validate_number-leq least (text s) x h = cc
  validate_number-leq least (sequence vs) x h = cc
  validate_number-leq least (mapping is) x h = cc

  make_retry-leq :
      (attempts initial maximum jitter : Value n) (r : RetryPolicy n)
      → make_retry n attempts initial maximum jitter ≡ ok r
      → n.leq (n.of_nat 0) r.max_delay_seconds ≡ true
  unfolding make_retry
  make_retry-leq attempts initial maximum jitter r h =
      let (a, e1, h1) = bind-eq-ok (attempts_of n attempts) _ h in
      let (good, h2) = raise_if-eq-ok (not (leb 1 a && leb a 10)) bad_attempts _ h1 in
      let (i, e3, h3) = bind-eq-ok (validate_number n (n.of_nat 0) true none initial) _ h2 in
      let (m, e4, h4) = bind-eq-ok (validate_number n (n.of_nat 0) true none maximum) _ h3 in
      let (j, e5, h5) =
        bind-eq-ok (validate_number n (n.of_nat 0) true (some (n.of_nat 1)) jitter) _ h4 in
      let (ordered, h6) = raise_if-eq-ok (not (n.leq i m)) delays_reversed _ h5 in
      let (positive, h7) = raise_if-eq-ok (ltb 1 a && n.leq i (n.of_nat 0)) zero_delay _ h6 in
      subst (λ p. n.leq (n.of_nat 0) p.max_delay_seconds ≡ true) (ok-injective _ r h7)
        (validate_number-leq (n.of_nat 0) maximum m e4)

  -- For the first 1024 attempts, and a scheduler makes at most 10, a retry policy that was accepted
  -- gives a delay, which is not negative and not above its maximum, whatever the random number, and
  -- even if the product is no number.
  pub delay_after_failure-IsWithin :
      (a : Arithmetic n) (attempts initial longest jitter : Value n) (retry : RetryPolicy n)
      (failed_attempt : ℕ) (random_unit : n.Number)
      → make_retry n attempts initial longest jitter ≡ ok retry
      → failed_attempt ≤ 1024
      → (delay : n.Number) × (delay_after_failure a retry failed_attempt random_unit ≡ some delay)
        × IsWithin n retry.max_delay_seconds delay
  unfolding delay_after_failure
  delay_after_failure-IsWithin a attempts initial longest jitter retry failed_attempt random_unit h
        few =
      let (scaled, e) = scaled_delay-some a retry.initial_delay_seconds failed_attempt few in
      (
        jittered a retry random_unit scaled,
        rw (e, delay_after_failure) refl,
        minimum-IsWithin a retry.max_delay_seconds _
            (make_retry-leq attempts initial longest jitter retry h),
      )
