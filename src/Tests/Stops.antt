-- ===== src/Tests/Stops.antt =====
-- A scheduler of two jobs that ticks, and that is shut down while one of its executions still runs.
use web_checker_py.Prelude.{List, Bool, [], ◌∷◌, codes, ◌==◌, text_eq, ◌≡◌}
use web_checker_py.Core.Scheduler.{Task}
use web_checker_py.Core.Scheduler.Turns.{Turn}
use web_checker_py.Core.Scheduler.Run.{shutdown}
use web_checker_py.Core.Scheduler.Stopped.{shutdown-cancelled}
use web_checker_py.Tests.Deliveries.{ticked}

-- The execution of the first job ends.
abbrev first_ends : Task → Bool
first_ends t = t.job_id == codes "a"

shutdown-cancelled_example :
    ((shutdown first_ends ticked).0.tasks ≡ []) × ((shutdown first_ends ticked).1 ≡ codes "b" ∷ [])
shutdown-cancelled_example = shutdown-cancelled first_ends ticked

-- Two ticks; the execution of the first job ends in between.
abbrev two_turns : List Turn
two_turns = record { ends = first_ends; now = 250 } ∷ record { ends = first_ends; now = 300 } ∷ []
