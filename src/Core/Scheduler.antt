-- ===== src/Core/Scheduler.antt =====
-- `Scheduler` of web_checker/core/scheduler.py: its state, `tick`, and the retries of one execution.
-- A time, an interval or a number of intervals is a float, given by its place among the floats that
-- are
-- not negative, in their order: comparisons are exact. What arithmetic on floats returns is a
-- parameter.
pub mod Visits
pub mod Advances
pub mod Seen
pub mod Overlap
pub mod Retries
pub mod Run
pub mod Turns
pub mod Stopped
use web_checker_py.Prelude.{
  ℕ, zero, suc, ◌+◌, Bool, true, false, not, ◌&&◌, Option, none, some, List, [], ◌∷◌, ◌++◌, map,
  find, filter, any, Text, ◌==◌, text_eq, nat_eq, ltb, Result, ok, err, ◌>>=◌, if◌then◌else◌,
}

-- The arithmetic of the floats; `int` is of a float, and `times` of an integer and a float.
pub record Floats : Type 0 where
  pub plus : ℕ → ℕ → ℕ
  pub minus : ℕ → ℕ → ℕ
  pub floor_divide : ℕ → ℕ → ℕ
  pub int : ℕ → ℕ
  pub times : ℕ → ℕ → ℕ

-- What the scheduler reads of a `ScheduleDefinition` and its `RetryPolicy`.
pub record Schedule : Type 0 where
  pub interval_seconds : ℕ
  pub max_attempts : ℕ

-- What it reads of a `JobDefinition`.
pub record Job : Type 0 where
  pub id : Text
  pub enabled : Bool
  pub schedule : Option Schedule

-- An entry of `self._jobs`, whose schedule is there.
pub record ScheduledJob : Type 0 where
  pub id : Text
  pub schedule : Schedule

-- An execution, told apart by the time of its tick; `done` is what `task.done()` says.
pub record Task : Type 0 where
  pub job_id : Text
  pub started_at : ℕ
  pub done : Bool

pub record State : Type 0 where
  pub jobs : List ScheduledJob
  pub next_due : List (Text × ℕ)
  pub tasks : List Task
  pub skipped : List Text

-- `KeyError` of `self._next_due[job.id]`
pub data SchedulerError : Type 0 where
  missing_job : Text → SchedulerError

-- `job for job in jobs if job.enabled and job.schedule is not None`
unfoldable pub scheduled : List Job → List ScheduledJob
scheduled [] = []
scheduled (job ∷ rest) = elim job.schedule [
  | none ↦ scheduled rest
  | some s ↦
      if job.enabled then record { id = job.id; schedule = s } ∷ scheduled rest else scheduled rest
]

-- `d[key] = value`
unfoldable pub set_due : Text → ℕ → List (Text × ℕ) → List (Text × ℕ)
set_due key value [] = (key, value) ∷ []
set_due key value ((k, v) ∷ rest) =
    let later = set_due key value rest in if k == key then (key, value) ∷ rest else (k, v) ∷ later

-- `{job.id: startup_time for job in self._jobs}`
unfoldable pub startup : List ScheduledJob → ℕ → List (Text × ℕ) → List (Text × ℕ)
startup [] now due = due
startup (job ∷ rest) now due = startup rest now (set_due job.id now due)

-- `__init__`
unfoldable pub make_scheduler : List Job → ℕ → State
make_scheduler jobs startup_time = record {
  jobs = scheduled jobs;
  next_due = startup (scheduled jobs) startup_time [];
  tasks = [];
  skipped = [];
}

abbrev pub get_due : Text → List (Text × ℕ) → Option ℕ
get_due key [] = none
get_due key ((k, v) ∷ rest) = if k == key then some v else get_due key rest

-- `asyncio.create_task(self._execute_with_retries(job))`
abbrev pub new_task : ℕ → Text → Task
new_task now job_id = record { job_id = job_id; started_at = now; done = false }

-- `self._tasks[job.id] = task`
unfoldable pub set_task : Task → List Task → List Task
set_task task [] = task ∷ []
set_task task (t ∷ rest) =
    let later = set_task task rest in if t.job_id == task.job_id then task ∷ rest else t ∷ later

abbrev pub is_running : Text → List Task → Bool
is_running key tasks = any (λ t. t.job_id == key && not t.done) tasks

-- `running_job_ids`
abbrev pub running_job_ids : State → List Text
running_job_ids s = map (λ t. t.job_id) (filter (λ t. not t.done) s.tasks)

-- `_discard_completed_tasks`
abbrev pub discard_completed : List Task → List Task
discard_completed tasks = filter (λ t. not t.done) tasks

-- The next due time of a job that is due: the float that the code computes.
abbrev pub due_after : Floats → ℕ → ℕ → ℕ → ℕ
due_after floats now due_at interval =
    let elapsed_intervals =
      floats.int (floats.floor_divide (floats.minus now due_at) interval) + 1 in
    floats.plus due_at (floats.times elapsed_intervals interval)

-- The rest of the body of the loop, for a job that is due.
unfoldable pub start : Floats → ScheduledJob → ℕ → ℕ → State → State
start floats job now due_at s =
    let due =
      set_due job.id (due_after floats now due_at job.schedule.interval_seconds) s.next_due in
    if is_running job.id s.tasks
    then record s { next_due = due; skipped = s.skipped ++ job.id ∷ [] }
    else record s { next_due = due; tasks = set_task (new_task now job.id) s.tasks }

unfoldable pub visit_due :
    Floats → ScheduledJob → ℕ → Option ℕ → State → Result SchedulerError State
visit_due floats job now none s = err (missing_job job.id)
visit_due floats job now (some due_at) s =
    ok (if ltb now due_at then s else start floats job now due_at s)

-- The body of the loop of `tick`.
unfoldable pub visit : Floats → ScheduledJob → ℕ → State → Result SchedulerError State
visit floats job now s = visit_due floats job now (get_due job.id s.next_due) s

unfoldable pub visit_all : Floats → List ScheduledJob → ℕ → State → Result SchedulerError State
visit_all floats [] now s = ok s
visit_all floats (job ∷ rest) now s = do
  visited ← visit floats job now s
  visit_all floats rest now visited

-- `tick`
unfoldable pub tick : Floats → ℕ → State → Result SchedulerError State
tick floats now s = visit_all floats s.jobs now (record s { tasks = discard_completed s.tasks })
