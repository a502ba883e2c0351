-- ===== src/Tests/Checks.antt =====
-- The theorem on a whole check at a job whose driver returns the first sample.
use web_checker_py.Prelude.{true, none, some, [], ◌∷◌, Text, codes, ok, ◌≡◌, refl}
use web_checker_py.Config.Values.{no_items}
use web_checker_py.Config.Definitions.{JobDefinition}
use web_checker_py.Notifications.Registry.{get}
use web_checker_py.Core.Service.{Drivers, check}
use web_checker_py.Core.Service.Recorded.{get_latest-check}
use web_checker_py.Storage.Tables.{empty}
use web_checker_py.Storage.Success.Snapshot.{stored_result}
use web_checker_py.Storage.Latest.{get_latest}
use web_checker_py.Tests.Codec.{codec, codec-IsFaithful}
use web_checker_py.Tests.Data.{first_check, job, plan, first_check-IsComplete, empty-IsSound}
use web_checker_py.Tests.Documents.{whole_numbers}

abbrev drivers : Drivers whole_numbers
drivers = record {
  Driver = Text;
  drivers = (codes "fake", codes "fake") ∷ [];
  check = λ driver config. ok first_check;
}

abbrev fake_job : JobDefinition whole_numbers
fake_job = record {
  id = job;
  driver = codes "fake";
  config = no_items;
  enabled = true;
  notifications = plan;
  schedule = none;
}

get_latest-check_example :
    get_latest codec job (check codec none drivers fake_job empty).1
    ≡ ok (some (stored_result first_check))
unfolding get
get_latest-check_example =
    get_latest-check codec codec-IsFaithful none drivers fake_job empty (codes "fake") first_check
      refl refl empty-IsSound first_check-IsComplete refl
