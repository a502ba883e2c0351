-- ===== src/Core/Scheduler/Seen.antt =====
-- What the visit of one job changes in the executions.
use web_checker_py.Prelude.{
  ℕ, Bool, true, false, not, ◌&&◌, Option, none, some, List, [], ◌∷◌, ◌++◌, append-nil, map, filter,
  All, Text, ◌==◌, text_eq, ltb, ok, err, ◌≡◌, refl, sym, subst, arith, Bool-cases, Option-cases,
  inl, inr,
}
use web_checker_py.Core.Scheduler.{
  Floats, ScheduledJob, State, Task, missing_job, get_due, new_task, set_task, is_running, start,
  visit, visit_due,
}
use web_checker_py.Core.Scheduler.Visits.{get_due_other}

unfoldable pub has_come : ℕ → Option ℕ → Bool
has_come now none = false
has_come now (some due) = not (ltb now due)

abbrev pub is_due : ℕ → List (Text × ℕ) → ScheduledJob → Bool
is_due now table job = has_come now (get_due job.id table)

-- The jobs that a tick starts, and those that it skips.
abbrev pub starts : ℕ → State → ScheduledJob → Bool
starts now s job = is_due now s.next_due job && not (is_running job.id s.tasks)

abbrev pub skips : ℕ → State → ScheduledJob → Bool
skips now s job = is_due now s.next_due job && is_running job.id s.tasks

abbrev pub to_start : ℕ → State → List ScheduledJob → List ScheduledJob
to_start now s jobs = filter (starts now s) jobs

abbrev pub to_skip : ℕ → State → List ScheduledJob → List ScheduledJob
to_skip now s jobs = filter (skips now s) jobs

abbrev pub AllRunning : List Task → Type 0
AllRunning tasks = All (λ t. t.done ≡ false) tasks

-- Among running executions, one for a new job stands behind.
set_task_new :
    (task : Task) (tasks : List Task)
    → AllRunning tasks
    → is_running task.job_id tasks ≡ false
    → set_task task tasks ≡ tasks ++ task ∷ []
unfolding set_task
set_task_new task [] h e = refl
set_task_new task (t ∷ tasks) h e = ground (arith, set_task_new task tasks h.1, h.0)

is_running_other :
    (job : ScheduledJob) (now : ℕ) (other : Text) (tasks : List Task)
    → (job.id == other) ≡ false
    → is_running other (tasks ++ new_task now job.id ∷ []) ≡ is_running other tasks
is_running_other job now other [] ne = rw ne
is_running_other job now other (t ∷ tasks) ne = rw (is_running_other job now other tasks ne)

append-AllRunning :
    (job : ScheduledJob) (now : ℕ) (tasks : List Task)
    → AllRunning tasks
    → AllRunning (tasks ++ new_task now job.id ∷ [])
append-AllRunning job now [] h = (refl, tt)
append-AllRunning job now (t ∷ tasks) h = (h.0, append-AllRunning job now tasks h.1)

-- What a visit of a job does to what other jobs see.
pub record Seen (now : ℕ) (job : ScheduledJob) (s after : State) : Type 0 where
  pub running : AllRunning after.tasks
  pub due :
      (other : Text)
      → (job.id == other) ≡ false
      → get_due other after.next_due ≡ get_due other s.next_due
  pub same :
      (other : Text)
      → (job.id == other) ≡ false
      → is_running other after.tasks ≡ is_running other s.tasks
  pub tasks : after.tasks ≡ s.tasks ++ map (λ j. new_task now j.id) (to_start now s (job ∷ []))
  pub passed : after.skipped ≡ s.skipped ++ map (λ j. j.id) (to_skip now s (job ∷ []))

start-Seen :
    (floats : Floats) (now due : ℕ) (job : ScheduledJob) (s : State)
    → AllRunning s.tasks
    → get_due job.id s.next_due ≡ some due
    → ltb now due ≡ false
    → Seen now job s (start floats job now due s)
unfolding start has_come
start-Seen floats now due job s h g l =
    let there : is_due now s.next_due job ≡ true = rw (g, l) in
    elim (Bool-cases (is_running job.id s.tasks)) [
      | inl e ↦ rw e (record {
        running = h;
        due = λ other ne. get_due_other job.id other _ s.next_due ne;
        same = λ other ne. refl;
        tasks = rw (there, e) (sym (append-nil s.tasks));
        passed = rw (there, e);
      })
      | inr e ↦
          rw (e, set_task_new (new_task now job.id) s.tasks h e)
            (record {
              running = append-AllRunning job now s.tasks h;
              due = λ other ne. get_due_other job.id other _ s.next_due ne;
              same = λ other ne. is_running_other job now other s.tasks ne;
              tasks = rw (there, e);
              passed = rw (there, e) (sym (append-nil s.skipped));
            })
    ]

-- A job that is not due is passed over.
wait-Seen :
    (now due : ℕ) (job : ScheduledJob) (s : State)
    → AllRunning s.tasks
    → get_due job.id s.next_due ≡ some due
    → ltb now due ≡ true
    → Seen now job s s
unfolding has_come
wait-Seen now due job s h g l =
    let there : is_due now s.next_due job ≡ false = rw (g, l) in
    record {
      running = h;
      due = λ other ne. refl;
      same = λ other ne. refl;
      tasks = rw there (sym (append-nil s.tasks));
      passed = rw there (sym (append-nil s.skipped));
    }

pub visit-Seen :
    (floats : Floats) (now : ℕ) (job : ScheduledJob) (s after : State)
    → AllRunning s.tasks
    → visit floats job now s ≡ ok after
    → Seen now job s after
unfolding visit visit_due
visit-Seen floats now job s after h e = elim (Option-cases (get_due job.id s.next_due)) [
  | inl g ↦ let impossible : err (missing_job job.id) ≡ ok after = rw g at e in cc
  | inr (due, g) ↦ elim (Bool-cases (ltb now due)) [
    | inl l ↦
        let returned : ok s ≡ ok after = rw (g, l) at e in
        let same : s ≡ after = cc in subst (Seen now job s) same (wait-Seen now due job s h g l)
    | inr l ↦
        let returned : ok (start floats job now due s) ≡ ok after = rw (g, l) at e in
        let same : start floats job now due s ≡ after = cc in
        subst (Seen now job s) same (start-Seen floats now due job s h g l)
  ]
]
