-- ===== src/Core/Scheduler/Turns.antt =====
-- Ticks of `Scheduler` in web_checker/core/scheduler.py one after the other, from its start.
use web_checker_py.Prelude.{
  ℕ, ◌+◌, Bool, some, List, [], ◌∷◌, text_eq, Result, ok, ◌>>=◌, ◌≡◌, if◌then◌else◌, ltb,
}
use web_checker_py.Core.Scheduler.{Floats, ScheduledJob, State, Task, SchedulerError, get_due, tick}
use web_checker_py.Core.Scheduler.Run.{ended}

-- A job before and after a tick: one whose time has not come keeps it, and that of another is moved
-- by a
-- positive whole number of intervals, as floats are added.
pub record Moved (floats : Floats) (now : ℕ) (s after : State) (job : ScheduledJob) : Type 0 where
  pub due : ℕ
  pub intervals : ℕ
  pub was_due : get_due job.id s.next_due ≡ some due
  pub is_due :
      get_due job.id after.next_due
      ≡ some (
          if ltb now due
          then due
          else floats.plus due (floats.times (intervals + 1) job.schedule.interval_seconds))

-- What happens between two ticks: executions end. Then a tick follows, at a time.
pub record Turn : Type 0 where
  pub ends : Task → Bool
  pub now : ℕ

unfoldable pub ticks : Floats → List Turn → State → Result SchedulerError State
ticks floats [] s = ok s
ticks floats (turn ∷ rest) s = do
  after ← tick floats turn.now (record s { tasks = ended turn.ends s.tasks })
  ticks floats rest after
