-- ===== src/Core/Scheduler/Stopped.antt =====
-- What `shutdown` of web_checker/core/scheduler.py leaves behind.
use web_checker_py.Prelude.{
  Bool, not, ◌&&◌, List, [], ◌∷◌, map, filter, ◌≡◌, refl, ap, Bool-cases, inl, inr,
}
use web_checker_py.Core.Scheduler.{State, Task, discard_completed}
use web_checker_py.Core.Scheduler.Run.{ended, cancelled, all_done, shutdown}

discard-all_done : (ts : List Task) → discard_completed (all_done ts) ≡ []
unfolding all_done
discard-all_done [] = refl
discard-all_done (t ∷ ts) = discard-all_done ts

-- Whether an execution is cancelled
abbrev pub is_cut : (Task → Bool) → Task → Bool
is_cut ends t = not t.done && not (ends t)

cancelled-ended :
    (ends : Task → Bool) (ts : List Task)
    → cancelled (ended ends ts) ≡ map (λ t. t.job_id) (filter (is_cut ends) ts)
unfolding cancelled ended
cancelled-ended ends [] = refl
cancelled-ended ends (t ∷ ts) = elim (Bool-cases (ends t)) [
  | inl e ↦ elim (Bool-cases t.done) [
    | inl f ↦ rw (e, f) (cancelled-ended ends ts)
    | inr f ↦ rw (e, f) (cancelled-ended ends ts)
  ]
  | inr e ↦ elim (Bool-cases t.done) [
    | inl f ↦ rw (e, f) (cancelled-ended ends ts)
    | inr f ↦ rw (e, f) (ap (λ l. t.job_id ∷ l) (cancelled-ended ends ts))
  ]
]

-- A shutdown leaves no execution, and reports as cancelled, once each and in the order of their
-- start, exactly those that were running and did not end within the timeout.
pub shutdown-cancelled :
    (ends : Task → Bool) (s : State)
    → ((shutdown ends s).0.tasks ≡ [])
      × ((shutdown ends s).1 ≡ map (λ t. t.job_id) (filter (is_cut ends) s.tasks))
unfolding shutdown
shutdown-cancelled ends s = (discard-all_done (ended ends s.tasks), cancelled-ended ends s.tasks)
