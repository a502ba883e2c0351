-- ===== src/Core/Scheduler/Advances.antt =====
-- What a tick does to the due times, job by job.
use web_checker_py.Prelude.{
  ℕ, true, false, some, List, [], ◌∷◌, contains, is_distinct, All, All-map, Text, ◌==◌, text_eq,
  text_beq_iff, beq_refl, ltb, ok, if◌then◌else◌, ◌≡◌, refl, sym, ◌∙◌, arith, Bool-cases, inl, inr,
}
use web_checker_py.Core.Scheduler.{
  Floats, ScheduledJob, State, set_due, get_due, is_running, discard_completed, due_after, start,
  visit, visit_due, visit_all, tick,
}
use web_checker_py.Core.Scheduler.Visits.{job_ids, get_due_other}

pub get_due_same :
    (key : Text) (v : ℕ) (table : List (Text × ℕ)) → get_due key (set_due key v table) ≡ some v
unfolding set_due
get_due_same key v [] = rw (beq_refl key)
get_due_same key v (item ∷ table) = elim (Bool-cases (item.0 == key)) [
  | inl e ↦ rw e (rw (beq_refl key))
  | inr e ↦ rw (e, e) (get_due_same key v table)
]

-- The due time of a job after a visit.
abbrev pub next_of : Floats → ℕ → ScheduledJob → ℕ → ℕ
next_of floats now job due =
    if ltb now due then due else due_after floats now due job.schedule.interval_seconds

-- What a visit does to the due times.
record Visited (floats : Floats) (job : ScheduledJob) (now due : ℕ) (s after : State) : Type 0 where
  visits : visit floats job now s ≡ ok after
  own : get_due job.id after.next_due ≡ some (next_of floats now job due)
  others :
      (other : Text)
      → (job.id == other) ≡ false
      → get_due other after.next_due ≡ get_due other s.next_due

started :
    (floats : Floats) (job : ScheduledJob) (now due : ℕ) (s : State)
    → (start floats job now due s).next_due
      ≡ set_due job.id (due_after floats now due job.schedule.interval_seconds) s.next_due
unfolding start
started floats job now due s = elim (Bool-cases (is_running job.id s.tasks)) [
  | inl e ↦ rw e
  | inr e ↦ rw e
]

visit-Visited :
    (floats : Floats) (job : ScheduledJob) (now due : ℕ) (s : State)
    → get_due job.id s.next_due ≡ some due
    → (after : State) × Visited floats job now due s after
unfolding visit visit_due
visit-Visited floats job now due s h = elim (Bool-cases (ltb now due)) [
  | inl e ↦ (s, record { visits = rw (h, e); own = rw e h; others = λ other ne. refl })
  | inr e ↦ (
    start floats job now due s,
    record {
      visits = rw (h, e);
      own = rw (e, started floats job now due s) (get_due_same job.id _ s.next_due);
      others = λ other ne.
          rw (started floats job now due s) (get_due_other job.id other _ s.next_due ne);
    },
  )
]

-- The due time of a job before and after a tick.
pub record Advanced (floats : Floats) (now : ℕ) (s after : State) (job : ScheduledJob)
    : Type 0 where
  pub due : ℕ
  pub was_due : get_due job.id s.next_due ≡ some due
  pub is_due : get_due job.id after.next_due ≡ some (next_of floats now job due)

abbrev pub HasDue : State → ScheduledJob → Type 0
HasDue s job = (due : ℕ) × (get_due job.id s.next_due ≡ some due)

module _ (floats : Floats) (now : ℕ) where
  keep_due :
      (job : ScheduledJob) (due : ℕ) (jobs : List ScheduledJob) (s after : State)
      → Visited floats job now due s after
      → contains (job_ids jobs) job.id ≡ false
      → All (HasDue s) jobs
      → All (HasDue after) jobs
  keep_due job due [] s after v d h = tt
  keep_due job due (j ∷ jobs) s after v d h =
      let (x, e) = h.0 in
      (
        (x, v.others j.id (ground (arith, text_beq_iff job.id j.id, text_beq_iff j.id job.id)) ∙ e),
        keep_due job due jobs s after v (ground arith) h.1,
      )

  -- Visits of other jobs leave the due time of a job.
  record Toured (jobs : List ScheduledJob) (s after : State) : Type 0 where
    visits : visit_all floats jobs now s ≡ ok after
    advanced : All (Advanced floats now s after) jobs
    others :
        (other : Text)
        → contains (job_ids jobs) other ≡ false
        → get_due other after.next_due ≡ get_due other s.next_due

  from_later :
      (job : ScheduledJob) (due : ℕ) (jobs : List ScheduledJob) (s mid after : State)
      → Visited floats job now due s mid
      → contains (job_ids jobs) job.id ≡ false
      → All (Advanced floats now mid after) jobs
      → All (Advanced floats now s after) jobs
  from_later job due [] s mid after v d h = tt
  from_later job due (j ∷ jobs) s mid after v d h =
      let a = h.0 in
      (
        record {
          due = a.due;
          was_due =
              sym
                (v.others j.id (ground (arith, text_beq_iff job.id j.id, text_beq_iff j.id job.id)))
              ∙ a.was_due;
          is_due = a.is_due;
        },
        from_later job due jobs s mid after v (ground arith) h.1,
      )

  tour :
      (jobs : List ScheduledJob) (s : State)
      → is_distinct (job_ids jobs) ≡ true
      → All (HasDue s) jobs
      → (after : State) × Toured jobs s after
  unfolding visit_all
  tour [] s d h = (s, record { visits = refl; advanced = tt; others = λ other ne. refl })
  tour (job ∷ jobs) s d h =
      let (due, e) = h.0 in
      let (mid, v) = visit-Visited floats job now due s e in
      let fresh : contains (job_ids jobs) job.id ≡ false = ground arith in
      let (after, t) = tour jobs mid (ground arith) (keep_due job due jobs s mid v fresh h.1) in
      (
        after,
        record {
          visits = rw v.visits t.visits;
          advanced = (
            record { due = due; was_due = e; is_due = t.others job.id fresh ∙ v.own },
            from_later job due jobs s mid after v fresh t.advanced,
          );
          others = λ other ne. t.others other (ground arith) ∙ v.others other (ground arith);
        },
      )

  pub tick-Advanced :
      (s : State)
      → is_distinct (job_ids s.jobs) ≡ true
      → All (HasDue s) s.jobs
      → (after : State) × (tick floats now s ≡ ok after) × All (Advanced floats now s after) s.jobs
  unfolding tick
  tick-Advanced s d h =
      let quiet = record s { tasks = discard_completed s.tasks } in
      let (after, t) = tour s.jobs quiet d h in
      (
        after,
        t.visits,
        All-map s.jobs (λ j a. record { due = a.due; was_due = a.was_due; is_due = a.is_due })
            t.advanced,
      )
