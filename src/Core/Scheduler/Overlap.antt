-- ===== src/Core/Scheduler/Overlap.antt =====
-- Executions of one job do not overlap: a tick leaves every running execution in place, and starts
-- one
-- only for a job that has none.
use web_checker_py.Prelude.{
  ℕ, Bool, true, false, not, ◌&&◌, List, [], ◌∷◌, ◌++◌, append_assoc, append-nil, map, filter,
  contains, is_distinct, All, All-map, ◌==◌, text_eq, text_beq_iff, ok, ◌≡◌, refl, sym, ap, ◌∙◌,
  arith, Bool-cases, inl, inr, bind-eq-ok,
}
use web_checker_py.Core.Scheduler.{
  Floats, ScheduledJob, State, Task, new_task, is_running, discard_completed, visit, visit_all,
  tick,
}
use web_checker_py.Core.Scheduler.Visits.{job_ids}
use web_checker_py.Core.Scheduler.Seen.{
  has_come, is_due, starts, skips, to_start, to_skip, AllRunning, Seen, visit-Seen,
}

-- The other jobs see the same of the state after the visit.
filter_same :
    {A : Type 0} (p q : A → Bool) (xs : List A)
    → All (λ x. p x ≡ q x) xs
    → filter p xs ≡ filter q xs
filter_same p q [] h = refl
filter_same p q (x ∷ xs) h = rw (h.0, filter_same p q xs h.1)

module _ (now : ℕ) (job : ScheduledJob) (s after : State) (v : Seen now job s after) where
  sees :
      (jobs : List ScheduledJob)
      → contains (job_ids jobs) job.id ≡ false
      → All
          (λ j.
            (is_due now after.next_due j ≡ is_due now s.next_due j)
            × (is_running j.id after.tasks ≡ is_running j.id s.tasks))
          jobs
  sees [] d = tt
  sees (j ∷ jobs) d =
      let ne : (job.id == j.id) ≡ false =
        ground (arith, text_beq_iff job.id j.id, text_beq_iff j.id job.id) in
      ((ap (has_come now) (v.due j.id ne), v.same j.id ne), sees jobs (ground arith))

  same_start :
      (jobs : List ScheduledJob)
      → contains (job_ids jobs) job.id ≡ false
      → to_start now after jobs ≡ to_start now s jobs
  same_start jobs d = filter_same _ _ jobs (All-map jobs (λ j e. rw (e.0, e.1) refl) (sees jobs d))

  same_skip :
      (jobs : List ScheduledJob)
      → contains (job_ids jobs) job.id ≡ false
      → to_skip now after jobs ≡ to_skip now s jobs
  same_skip jobs d = filter_same _ _ jobs (All-map jobs (λ j e. rw (e.0, e.1) refl) (sees jobs d))

join_filter :
    {A B : Type 0} (f : A → B) (p : A → Bool) (x : A) (xs : List A)
    → map f (filter p (x ∷ [])) ++ map f (filter p xs) ≡ map f (filter p (x ∷ xs))
join_filter f p x xs = elim (Bool-cases (p x)) [ inl e ↦ rw e | inr e ↦ rw e ]

visit_all-tasks :
    (floats : Floats) (now : ℕ) (jobs : List ScheduledJob) (s after : State)
    → AllRunning s.tasks
    → is_distinct (job_ids jobs) ≡ true
    → visit_all floats jobs now s ≡ ok after
    → (after.tasks ≡ s.tasks ++ map (λ j. new_task now j.id) (to_start now s jobs))
      × (after.skipped ≡ s.skipped ++ map (λ j. j.id) (to_skip now s jobs))
unfolding visit_all
visit_all-tasks floats now [] s after h d e =
    let same : s ≡ after = cc in
    rw (sym same) (sym (append-nil s.tasks), sym (append-nil s.skipped))
visit_all-tasks floats now (job ∷ jobs) s after h d e =
    let (mid, e1, e2) = bind-eq-ok (visit floats job now s) (visit_all floats jobs now) e in
    let v = visit-Seen floats now job s mid h e1 in
    let fresh : contains (job_ids jobs) job.id ≡ false = ground arith in
    let (started, skipped) =
      visit_all-tasks floats now jobs mid after v.running (ground arith) e2 in
    (
      started
          ∙ rw (same_start now job s mid v jobs fresh, v.tasks)
              (append_assoc s.tasks _ _
                ∙ ap (λ ts. s.tasks ++ ts)
                    (join_filter (λ j. new_task now j.id) (starts now s) job jobs)),
      skipped
          ∙ rw (same_skip now job s mid v jobs fresh, v.passed)
              (append_assoc s.skipped _ _
                ∙ ap (λ ts. s.skipped ++ ts) (join_filter (λ j. j.id) (skips now s) job jobs)),
    )

all_discarded : (tasks : List Task) → AllRunning (discard_completed tasks)
all_discarded [] = tt
all_discarded (t ∷ tasks) = elim (Bool-cases t.done) [
  | inl e ↦ rw e (all_discarded tasks)
  | inr e ↦ rw e (refl, all_discarded tasks)
]

-- When the jobs are distinct, a tick leaves every running execution in place, drops those that are
-- over, starts one execution of each job that is due and has none running, in the order of the
-- jobs, and skips each that is due and has one.
pub tick-tasks :
    (floats : Floats) (now : ℕ) (s after : State)
    → is_distinct (job_ids s.jobs) ≡ true
    → tick floats now s ≡ ok after
    → (after.tasks
        ≡ discard_completed s.tasks
          ++ map
              (λ j. new_task now j.id)
              (filter
                (λ j. is_due now s.next_due j && not (is_running j.id (discard_completed s.tasks)))
                s.jobs))
      × (after.skipped
          ≡ s.skipped
            ++ map
                (λ j. j.id)
                (filter
                  (λ j. is_due now s.next_due j && is_running j.id (discard_completed s.tasks))
                  s.jobs))
unfolding tick
tick-tasks floats now s after d e =
    visit_all-tasks floats now s.jobs (record s { tasks = discard_completed s.tasks }) after
      (all_discarded s.tasks) d e
