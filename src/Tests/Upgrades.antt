-- ===== src/Tests/Upgrades.antt =====
-- A file of schema version 2 with three runs of two jobs.
use web_checker_py.Prelude.{some, List, [], ◌∷◌, codes, ok, ◌≡◌, refl}
use web_checker_py.Storage.Tables.{Run, Db}
use web_checker_py.Storage.Failure.{job_row}
use web_checker_py.Storage.Initialize.{initialize, group_runs, group_run, succeeded_at, later_text}
use web_checker_py.Storage.Initialize.Upgraded.{
  Older, second, file_of, current, IsUpgraded, initialize-IsUpgraded,
}

abbrev three_runs : List Run
three_runs =
    record { id = 1; job_id = codes "a"; checked_at = codes "2026-01-02" }
    ∷ record { id = 2; job_id = codes "b"; checked_at = codes "2026-01-03" }
    ∷ record { id = 3; job_id = codes "a"; checked_at = codes "2026-01-04" }
    ∷ []

abbrev old_file : Older
old_file = second three_runs [] [] []

latest_of_a :
    job_row (codes "a") (group_runs three_runs)
    ≡ some (succeeded_at (codes "a") (codes "2026-01-04"))
unfolding group_runs group_run succeeded_at later_text
latest_of_a = refl

initialize-IsUpgraded_example :
    (db : Db) × (initialize (file_of old_file) ≡ (ok tt, current db))
    × (initialize (current db) ≡ (ok tt, current db))
    × IsUpgraded old_file db
initialize-IsUpgraded_example = initialize-IsUpgraded old_file
