-- ===== src/Tests/Delays.antt =====
-- The bounds on a retry's delay, over whole numbers.
use web_checker_py.Prelude.{ℕ, ◌+◌, ◌-◌, ◌*◌, ◌^◌, some, true, leb, ltb, ok, ◌≡◌, refl, arith}
use web_checker_py.Config.Values.{number}
use web_checker_py.Config.Definitions.{
  RetryPolicy, as_whole, validate_number, check_finite, make_retry,
}
use web_checker_py.Config.Delay.{
  Arithmetic, IsWithin, delay_after_failure, delay_after_failure-IsWithin,
}
use web_checker_py.Tests.Documents.{whole_numbers}

less-leq_whole : (a b : ℕ) → ltb a b ≡ true → leb a b ≡ true
less-leq_whole a b h = ground (arith, h)

leq-itself_whole : (a b : ℕ) → leb a b ≡ true → (leb a a ≡ true) × (leb b b ≡ true)
leq-itself_whole a b h = (ground arith, ground arith)

abbrev arithmetic : Arithmetic whole_numbers
arithmetic = record {
  add = λ a b. a + b;
  subtract = λ a b. a - b;
  multiply = λ a b. a * b;
  half = 0;
  scale = λ a k. some (a * k);
  scale-power = λ a k h. (a * 2 ^ k, refl);
  less-leq = less-leq_whole;
  leq-itself = leq-itself_whole;
}

abbrev retry : RetryPolicy whole_numbers
retry = record {
  max_attempts = 3;
  initial_delay_seconds = 5;
  max_delay_seconds = 60;
  jitter_fraction = 1;
}

makes : make_retry whole_numbers (number 3) (number 5) (number 60) (number 1) ≡ ok retry
unfolding make_retry validate_number check_finite as_whole
makes = refl

delay_after_failure-IsWithin_example :
    (delay : ℕ) × (delay_after_failure arithmetic retry 5 1 ≡ some delay)
    × IsWithin whole_numbers 60 delay
delay_after_failure-IsWithin_example =
    delay_after_failure-IsWithin arithmetic (number 3) (number 5) (number 60) (number 1) retry 5 1
      makes (omega arith)
