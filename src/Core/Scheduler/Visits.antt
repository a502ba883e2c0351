-- ===== src/Core/Scheduler/Visits.antt =====
-- The due times of the jobs that a tick does not change.
use web_checker_py.Prelude.{
  ℕ, false, List, [], ◌∷◌, map, Text, ◌==◌, text_eq, text_beq_iff, ◌≡◌, arith,
}
use web_checker_py.Core.Scheduler.{ScheduledJob, set_due, get_due}

abbrev pub job_ids : List ScheduledJob → List Text
job_ids = map (λ j. j.id)

pub get_due_other :
    (key other : Text) (v : ℕ) (table : List (Text × ℕ))
    → (key == other) ≡ false
    → get_due other (set_due key v table) ≡ get_due other table
unfolding set_due
get_due_other key other v [] ne = rw ne
get_due_other key other v (item ∷ table) ne = ground (
  arith,
  get_due_other key other v table ne,
  text_beq_iff item.0 key,
  text_beq_iff item.0 other,
  ne,
)
