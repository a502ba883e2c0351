-- ===== src/Storage/Initialize/Backfill.antt =====
-- The rows of `job_status` that an upgrade in web_checker/storage.py makes from the runs.
use web_checker_py.Prelude.{
  true, false, Option, none, some, List, [], ◌∷◌, map, filter, contains, is_distinct, Text,
  text_beq_iff, beq_sym, ◌==◌, text_eq, ◌≡◌, refl, arith, Bool-cases, inl, inr, beq_refl,
  some-injective, subst, sym, ◌∙◌, ◌||◌,
}
use web_checker_py.Storage.Tables.{Run, JobRow}
use web_checker_py.Storage.Failure.{job_row}
use web_checker_py.Storage.Alerting.{job_ids}
use web_checker_py.Storage.Initialize.{later_text, succeeded_at, group_run, group_runs}

-- The greatest text
abbrev pub greatest : List Text → Option Text
greatest [] = none
greatest (s ∷ rest) = some (later_text (greatest rest) s)

-- The times of the runs of a job
abbrev pub times_of : Text → List Run → List Text
times_of job runs = map (λ r. r.checked_at) (filter (λ r. r.job_id == job) runs)

-- A job that has runs has a row with the time of the latest.
abbrev pub expected_row : Text → Option Text → Option JobRow
expected_row job none = none
expected_row job (some at) = some (succeeded_at job at)

group_run-other :
    (job : Text) (r : Run) (js : List JobRow)
    → (r.job_id == job) ≡ false
    → job_row job (group_run r js) ≡ job_row job js
unfolding group_run succeeded_at
group_run-other job r [] h = rw h refl
group_run-other job r (j ∷ js) h = elim (Bool-cases (j.job_id == r.job_id)) [
  | inl e ↦
      let same : j.job_id ≡ r.job_id = (text_beq_iff j.job_id r.job_id).0 e in rw (e, same, h) refl
  | inr e ↦ elim (Bool-cases (j.job_id == job)) [
    | inl d ↦ rw (e, d) refl
    | inr d ↦ rw (e, d) (group_run-other job r js h)
  ]
]

group_run-same :
    (r : Run) (js : List JobRow) (o : Option Text)
    → job_row r.job_id js ≡ expected_row r.job_id o
    → job_row r.job_id (group_run r js) ≡ some (succeeded_at r.job_id (later_text o r.checked_at))
unfolding group_run succeeded_at later_text
group_run-same r [] none h = rw (beq_refl r.job_id) refl
group_run-same r [] (some at) h = cc
group_run-same r (j ∷ js) o h = elim (Bool-cases (j.job_id == r.job_id)) [
  | inr e ↦ rw e (rw e (group_run-same r js o (rw e at h)))
  | inl e ↦ rw e (rw (beq_refl r.job_id) (found o (rw e at h)))
]
  where
    found :
        (p : Option Text)
        → some j ≡ expected_row r.job_id p
        → some (succeeded_at r.job_id (later_text j.last_success_at r.checked_at))
          ≡ some (succeeded_at r.job_id (later_text p r.checked_at))
    found none g = cc
    found (some at) g = let row : j ≡ succeeded_at r.job_id at = some-injective _ _ g in rw row refl

-- A job has a row exactly if it has runs, and then with the greatest of their times.
pub group_runs-row :
    (job : Text) (runs : List Run)
    → job_row job (group_runs runs) ≡ expected_row job (greatest (times_of job runs))
unfolding group_runs
group_runs-row job [] = refl
group_runs-row job (r ∷ runs) = elim (Bool-cases (r.job_id == job)) [
  | inr e ↦ rw e (group_run-other job r (group_runs runs) e ∙ group_runs-row job runs)
  | inl e ↦
      let same : r.job_id ≡ job = (text_beq_iff r.job_id job).0 e in
      rw e (
        subst
          (λ k.
            job_row k (group_run r (group_runs runs))
            ≡ some (succeeded_at k (later_text (greatest (times_of k runs)) r.checked_at)))
          same
          (group_run-same r (group_runs runs) (greatest (times_of r.job_id runs))
            (group_runs-row r.job_id runs)))
]

contains-group_run :
    (job : Text) (r : Run) (js : List JobRow)
    → contains (job_ids (group_run r js)) job ≡ (r.job_id == job || contains (job_ids js) job)
unfolding group_run succeeded_at
contains-group_run job r [] = refl
contains-group_run job r (j ∷ js) = elim (Bool-cases (j.job_id == r.job_id)) [
  | inl e ↦
      let same : j.job_id ≡ r.job_id = (text_beq_iff j.job_id r.job_id).0 e in
      rw e (rw same (ground arith))
  | inr e ↦ rw (e, contains-group_run job r js) (ground arith)
]

group_run-is_distinct :
    (r : Run) (js : List JobRow)
    → is_distinct (job_ids js) ≡ true
    → is_distinct (job_ids (group_run r js)) ≡ true
unfolding group_run succeeded_at
group_run-is_distinct r [] h = refl
group_run-is_distinct r (j ∷ js) h = elim (Bool-cases (j.job_id == r.job_id)) [
  | inl e ↦
      let same : j.job_id ≡ r.job_id = (text_beq_iff j.job_id r.job_id).0 e in
      rw e (rw (sym same) h)
  | inr e ↦
      rw (e, contains-group_run j.job_id r js, beq_sym r.job_id j.job_id, e)
        (ground (arith, h, group_run-is_distinct r js))
]

pub group_runs-is_distinct : (runs : List Run) → is_distinct (job_ids (group_runs runs)) ≡ true
unfolding group_runs
group_runs-is_distinct [] = refl
group_runs-is_distinct (r ∷ runs) =
    group_run-is_distinct r (group_runs runs) (group_runs-is_distinct runs)
