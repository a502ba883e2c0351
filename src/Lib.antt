-- ===== src/Lib.antt =====
-- Verification of web-checker, a worker that checks provider pages for availability on a schedule,
-- keeps the snapshots in SQLite, and notifies of changes.
--
-- The parts and the files that model them:
--   web_checker/core/models.py: Core/Models. `Opportunity` and `CheckResult` are records, and
--     `make_opportunity` and `make_check_result` their constructors with `__post_init__`.
--   web_checker/core/transitions.py: Core/Transitions. `change` is the body of the loop over the
--     current snapshot and `disappearances` the loop over the previous one; Spec, Replay and Valid
--     below it have the proofs.
--   web_checker/storage.py: Storage. The state is `Db` (Storage/Tables), the tables of schema
--     version 3 as lists of rows; a method is a function to its result, or the `StorageError` that
--     it raises, and the tables after it. Encoding has the columns, Latest has `get_latest`, Insert
--     and Success have `record_success`, Failure has `record_check_failure`, Backlog has
--     `raise_delivery_backlog_alerts`, Pending and Alerts have the methods of the two outboxes,
--     Prune has `prune`, Status has `status` and `list_job_statuses`, and Initialize has `_initialize`
--     on a file of any schema version.
--   web_checker/notifications: Notifications. Models has the values; Registry has the registry of
--     notifiers, which is also the code of web_checker/drivers/registry.py; Service has
--     `dispatch_pending`, with what `send` does as a parameter; Operational has the service for
--     operational alerts, with the events that it emits; Defaults has the shipped notifiers.
--   web_checker/core/service.py: Core/Service, with the drivers as a parameter.
--   web_checker/core/scheduler.py: Core/Scheduler. The state is the dict of due times and that of
--     tasks; `tick` visits the jobs in order, Retries has one execution with its retries, and Run has
--     `shutdown` and `wait_for_idle`; Visits, Advances, Seen, Overlap, Turns and Stopped have the
--     proofs.
--   web_checker/config.py: Config. Values has the document that the YAML parser returns, Definitions
--     the dataclasses with `__post_init__`, Parse has `load_config`, and Delay the retry delay.
--   web_checker/drivers/bcparks_dayuse: Drivers/BcParks. Models has the values and errors, Parser,
--     Parser/Facilities and Parser/Reservations the parsers, Config the driver's configuration,
--     Responses `_get_json`, Windows and Slots `_build_opportunities`, and Driver has `check`.
--   web_checker/drivers/generic_html: Drivers/GenericHtml. Rules has `ValueSource` and `ParserConfig`,
--     Parser the parser, and Driver the driver's configuration and `check`.
--   web_checker/notifications/email.py and console.py: Notifications/Email. Settings has
--     `from_environment`, Message `_build_message` and the line of the console, and Transport the
--     calls of smtplib.
--   mock_site/bcparks.py: MockSite. State has `BCParksMockState`, Defaults what `reset` sets, and
--     Controls and Routes have the routes.
--   scripts/check_pr_governance.py and close_linked_issues.py: Scripts. Governance has
--     `validate_pull_request`, and Closing `issues_to_close`.
-- The service records the result of a check through the store, which compares it with the newest
-- snapshot of the job and enqueues a notification for each change that the job selects; delivery
-- works off the outbox later. Prelude has what the parts share: lists and texts over the native
-- numbers, and results; Tests has sample values.
--
-- What the model takes for granted:
--   A text is a list of code points. SQLite is what its statements document: keys and foreign keys
--   are checked, a transaction that fails is rolled back, and a new INTEGER PRIMARY KEY is one more
--   than the largest in the table. The failures of the disk or of a locked database are left out.
--   Times are ISO 8601 texts; Time has `isoformat` and `fromisoformat` of Python's datetime, as far
--   as the code uses them. `json.dumps` and `json.loads` are a parameter, `JsonCodec`, with the one
--   law that loading a mapping that was dumped gives its items in the order of their keys.
--   The ints and floats of a configuration are a parameter, `Numbers`. httpx, the reading of ISO
--   texts and the time zone of the provider are parameters of the BC Parks driver; httpx, bs4,
--   `bytes.decode`, `urljoin` and the reading of ISO texts are parameters of the generic driver.
--   The times of the scheduler are floats, by their place in the order of the floats, and what the
--   arithmetic of floats gives is a parameter; so is, for the retry delay, which products raise
--   `OverflowError`. A dispatch is run with no other writer on the store. No definition has fuel: all
--   loops are over lists, or over a number of attempts.
--
-- Not modelled: the loop of `run` in the scheduler, the WelcomeBC driver, mock_site/app.py and the
-- pages of the mock site, smtplib and Flask themselves, file maintenance, the command line, the other
-- scripts, and the YAML parser.
pub mod Prelude
pub mod Time
pub mod Core
pub mod Notifications
pub mod Config
pub mod Storage
pub mod Drivers
pub mod MockSite
pub mod Scripts
mod Tests
