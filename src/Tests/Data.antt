-- ===== src/Tests/Data.antt =====
-- Sample values.
use web_checker_py.Prelude.{
  ℕ, false, none, some, List, [], ◌∷◌, Text, codes, strip, decimal, refl, ◌≡◌, ok,
}
use web_checker_py.Time.{DateTime, in_range, isoformat}
use web_checker_py.Core.Models.{
  Availability, available, unavailable, Opportunity, CheckResult, text, number, make_opportunity,
  make_check_result,
}
use web_checker_py.Core.Transitions.{appeared, became_available, initially_available}
use web_checker_py.Notifications.Models.{NotificationPlan}
use web_checker_py.Storage.Success.Snapshot.{IsComplete}
use web_checker_py.Storage.Success.Contract.{IsSound}
use web_checker_py.Storage.Tables.{empty}
use web_checker_py.Storage.Alerting.{IsJustified}
use web_checker_py.Storage.Failure.Episodes.{CheckFailure}
use web_checker_py.Tests.Codec.{codec}

-- The second `n` of the minute 03:04 on 2026-01-02, in UTC.
abbrev pub at_second : ℕ → DateTime
at_second n = record {
  year = 2026;
  month = 1;
  day = 2;
  hour = 3;
  minute = 4;
  second = n;
  microsecond = 0;
  utcoffset = some (record { negative = false; hours = 0; minutes = 0; seconds = 0 });
}

abbrev pub spot : Text → Availability → Opportunity
spot id a = record {
  id = id;
  title = codes "Golden Ears";
  availability = a;
  starts_at = none;
  booking_url = some (codes "https://example.test/");
  attributes = (codes "slot", text (codes "AM")) ∷ (codes "max", number 4) ∷ [];
}

abbrev pub first_check : CheckResult
first_check = record {
  checked_at = at_second 5;
  opportunities = spot (codes "a") unavailable ∷ spot (codes "b") available ∷ [];
}

abbrev pub second_check : CheckResult
second_check = record {
  checked_at = at_second 6;
  opportunities = spot (codes "c") unavailable ∷ spot (codes "a") available ∷ [];
}

abbrev pub job : Text
job = codes "golden-ears"

abbrev pub plan : NotificationPlan
plan = record {
  channels = codes "console" ∷ codes "email" ∷ [];
  on = appeared ∷ became_available ∷ initially_available ∷ [];
}

iso_first : isoformat (at_second 5) ≡ codes "2026-01-02T03:04:05+00:00"
unfolding isoformat
iso_first = refl

decimal_120 : decimal 120 ≡ codes "120"
unfolding decimal
decimal_120 = refl

first_valid : make_check_result first_check ≡ ok first_check
unfolding make_check_result
first_valid = refl

spot_valid : make_opportunity (spot (codes "a") unavailable) ≡ ok (spot (codes "a") unavailable)
unfolding make_opportunity strip
spot_valid = refl

pub first_check-IsComplete : IsComplete first_check
unfolding make_check_result make_opportunity strip in_range
first_check-IsComplete = record {
  valid = refl;
  time = refl;
  opportunities = (
    record { valid = refl; starts = tt; keys = refl },
    (record { valid = refl; starts = tt; keys = refl }, tt),
  );
}

pub second_check-IsComplete : IsComplete second_check
unfolding make_check_result make_opportunity strip in_range
second_check-IsComplete = record {
  valid = refl;
  time = refl;
  opportunities = (
    record { valid = refl; starts = tt; keys = refl },
    (record { valid = refl; starts = tt; keys = refl }, tt),
  );
}

pub empty-IsSound : IsSound codec empty
empty-IsSound = record {
  references = record { observations = tt; transitions = tt; outbox = tt };
  readable = record { runs = tt };
}

pub empty-IsJustified : IsJustified empty
empty-IsJustified = record { jobs = refl; alerts = tt }

-- Three failures in a row.
abbrev pub three_failures : List CheckFailure
three_failures =
    record { error = codes "timeout"; occurred_at = at_second 1 }
    ∷ record { error = codes "timeout"; occurred_at = at_second 2 }
    ∷ record { error = codes "refused"; occurred_at = at_second 3 }
    ∷ []
