-- ===== src/Core/Scheduler/Run.antt =====
-- `wait_for_idle` and `shutdown` of `Scheduler` in web_checker/core/scheduler.py.
use web_checker_py.Prelude.{Bool, true, List, [], ◌∷◌, Text, if◌then◌else◌}
use web_checker_py.Core.Scheduler.{State, Task, discard_completed}

-- The executions after a wait in which those of some jobs end
unfoldable pub ended : (Task → Bool) → List Task → List Task
ended ends [] = []
ended ends (t ∷ ts) = (if ends t then record t { done = true } else t) ∷ ended ends ts

-- The jobs of the executions that are cancelled: those that still run after the wait
unfoldable pub cancelled : List Task → List Text
cancelled [] = []
cancelled (t ∷ ts) = let rest = cancelled ts in if t.done then rest else t.job_id ∷ rest

-- A cancelled execution is done.
unfoldable pub all_done : List Task → List Task
all_done [] = []
all_done (t ∷ ts) = record t { done = true } ∷ all_done ts

-- `shutdown`, with the executions that end within its timeout: the state after it, and the jobs
-- for which it emits "shutdown_cancelled"
unfoldable pub shutdown : (Task → Bool) → State → State × List Text
shutdown ends s =
    let waited = ended ends s.tasks in
    (record s { tasks = discard_completed (all_done waited) }, cancelled waited)

-- `wait_for_idle`: all executions end.
unfoldable pub wait_for_idle : State → State
wait_for_idle s = record s { tasks = discard_completed (all_done s.tasks) }
