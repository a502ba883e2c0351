-- ===== src/Core/Service.antt =====
-- `CheckService.check` of web_checker/core/service.py, with the drivers as a parameter. A service
-- without a notification service has no `Channels`.
pub mod Recorded
use web_checker_py.Prelude.{ℕ, Bool, Option, none, some, List, Text, Result, ok, err}
use web_checker_py.Core.Models.{CheckResult}
use web_checker_py.Core.Transitions.{OpportunityTransition}
use web_checker_py.Config.Values.{Numbers, Items}
use web_checker_py.Config.Definitions.{JobDefinition}
use web_checker_py.Notifications.Models.{DeliverySummary}
use web_checker_py.Notifications.Registry.{RegistryError, get}
use web_checker_py.Notifications.Service.{Channels, no_deliveries, dispatch_pending}
use web_checker_py.Storage.Encoding.{JsonCodec}
use web_checker_py.Storage.Tables.{Db}
use web_checker_py.Storage.Latest.{StorageError}
use web_checker_py.Storage.Success.{RecordOutcome, record_success}

pub record CheckExecution : Type 0 where
  pub result : CheckResult
  pub baseline_created : Bool
  pub transitions : List OpportunityTransition
  pub delivery : DeliverySummary

-- What `check` raises.
pub data CheckError : Type 0 where
  unknown_driver : RegistryError → CheckError
  driver_raised : Text → CheckError
  storage : StorageError → CheckError

-- The registered drivers, and what their `check` returns or raises.
pub record Drivers (n : Numbers) : Type 1 where
  pub Driver : Type 0
  pub drivers : List (Text × Driver)
  pub check : Driver → Items n → Result Text CheckResult

-- The limit of `dispatch_pending`
abbrev pub default_limit : ℕ
default_limit = 100

unfoldable pub deliver : Option Channels → Db → Result StorageError DeliverySummary × Db
deliver none db = (ok no_deliveries, db)
deliver (some c) db = dispatch_pending c default_limit db

unfoldable pub finish :
    CheckResult
    → RecordOutcome
    → Result StorageError DeliverySummary × Db
    → Result CheckError CheckExecution × Db
finish result outcome (err e, db) = (err (storage e), db)
finish result outcome (ok delivery, db) = (
  ok (record {
    result = result;
    baseline_created = outcome.baseline_created;
    transitions = outcome.transitions;
    delivery = delivery;
  }),
  db,
)

-- What follows `record_success`.
unfoldable pub deliver_recorded :
    Option Channels
    → CheckResult
    → Result StorageError RecordOutcome × Db
    → Result CheckError CheckExecution × Db
deliver_recorded channels result (err e, db) = (err (storage e), db)
deliver_recorded channels result (ok outcome, db) = finish result outcome (deliver channels db)

module _ {n : Numbers} (json : JsonCodec) (channels : Option Channels) where
  unfoldable pub record_checked :
      JobDefinition n → Result Text CheckResult → Db → Result CheckError CheckExecution × Db
  record_checked job (err e) db = (err (driver_raised e), db)
  record_checked job (ok result) db =
      deliver_recorded channels result (record_success json job.id result job.notifications db)

  unfoldable pub check_with :
      (d : Drivers n)
      → JobDefinition n
      → Result RegistryError d.Driver
      → Db
      → Result CheckError CheckExecution × Db
  check_with d job (err e) db = (err (unknown_driver e), db)
  check_with d job (ok driver) db = record_checked job (d.check driver job.config) db

  -- `check`
  unfoldable pub check : Drivers n → JobDefinition n → Db → Result CheckError CheckExecution × Db
  check d job db = check_with d job (get job.driver d.drivers) db
