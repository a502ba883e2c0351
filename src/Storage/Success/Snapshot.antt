-- ===== src/Storage/Success/Snapshot.antt =====
-- The snapshot that `record_success` writes is the one that `get_latest` reads back, with the
-- attributes of
-- each opportunity in the order of their keys, which is how `json.dumps(..., sort_keys=True)`
-- writes them.
use web_checker_py.Prelude.{
  ℕ, suc, ◌<◌, true, false, Option, none, some, List, [], ◌∷◌, ◌++◌, append-nil, All, All-map,
  All-filter, filter, filter-append, filter-eq-nil, filter-All, ◌==◌, beq_refl, nat_beq_iff, nat_eq,
  text_eq, ok, ◌≡◌, refl, arith, ap, map, not, is_none, is_distinct, order_by, text_lt,
  ok-injective, raise_if-eq-ok,
}
use web_checker_py.Time.{DateTime, in_range, isoformat}
use web_checker_py.Time.RoundTrip.{fromisoformat-isoformat}
use web_checker_py.Core.Models.{
  Attributes, Opportunity, CheckResult, make_opportunity, make_check_result, is_blank, is_blank_url,
  blank_id, blank_title, blank_url, naive_time, duplicate_ids, ids,
}
use web_checker_py.Storage.Encoding.{JsonCodec, read_availability-availability_value}
use web_checker_py.Storage.Tables.{Run, Observation, next_id, run_ids}
use web_checker_py.Storage.Tables.Ids.{All-lt-next_id}
use web_checker_py.Storage.Tables.Order.{IsAscending, order_by-IsAscending, latest_by-snoc}
use web_checker_py.Storage.Latest.{
  read_time, read_opportunity, read_opportunities, read_run, latest_run,
}
use web_checker_py.Storage.Insert.{iso_or_null, observation_row}
use web_checker_py.Storage.Insert.Observations.{observation_rows}

abbrev pub IsTime : Option DateTime → Type 0
IsTime none = Unit
IsTime (some d) = in_range d ≡ true

-- An opportunity that its constructor returned, with a time in the range of `datetime`; the
-- attributes are
-- a mapping.
pub record IsStorable (o : Opportunity) : Type 0 where
  pub valid : make_opportunity o ≡ ok o
  pub starts : IsTime o.starts_at
  pub keys : is_distinct (map (λ p. p.0) o.attributes) ≡ true

-- A result that its constructor returned.
pub record IsComplete (r : CheckResult) : Type 0 where
  pub valid : make_check_result r ≡ ok r
  pub time : in_range r.checked_at ≡ true
  pub opportunities : All IsStorable r.opportunities

abbrev pub sorted_attributes : Attributes → Attributes
sorted_attributes = order_by (λ p q. text_lt p.0 q.0)

-- An opportunity, and a result, with the attributes in the order of their keys.
abbrev pub stored : Opportunity → Opportunity
stored o = record o { attributes = sorted_attributes o.attributes }

abbrev pub stored_result : CheckResult → CheckResult
stored_result r = record r { opportunities = map stored r.opportunities }

-- `json.loads` reads the mapping that `json.dumps` wrote, in the order of the keys.
abbrev pub IsFaithful : JsonCodec → Type 0
IsFaithful json =
    (a : Attributes)
    → is_distinct (map (λ p. p.0) a) ≡ true
    → json.loads (json.dumps a) ≡ some (sorted_attributes a)

-- The constructors do not look at the attributes.
make_opportunity-stored :
    (o : Opportunity) → make_opportunity o ≡ ok o → make_opportunity (stored o) ≡ ok (stored o)
unfolding make_opportunity
make_opportunity-stored o h =
    let (id, h1) = raise_if-eq-ok (is_blank o.id) blank_id _ h in
    let (title, h2) = raise_if-eq-ok (is_blank o.title) blank_title _ h1 in
    let (url, h3) = raise_if-eq-ok (is_blank_url o.booking_url) blank_url _ h2 in
    rw (id, title, url) (ap (λ x. ok (stored x)) (ok-injective _ o h3))

ids-stored : (os : List Opportunity) → ids (map stored os) ≡ ids os
ids-stored [] = refl
ids-stored (o ∷ os) = rw (ids-stored os)

make_check_result-stored :
    (r : CheckResult)
    → make_check_result r ≡ ok r
    → make_check_result (stored_result r) ≡ ok (stored_result r)
unfolding make_check_result
make_check_result-stored r h =
    let (time, h1) = raise_if-eq-ok (is_none r.checked_at.utcoffset) naive_time _ h in
    let (distinct, h2) =
      raise_if-eq-ok (not (is_distinct (ids r.opportunities))) duplicate_ids _ h1 in
    rw (ids-stored r.opportunities, time, distinct) refl

module _ (json : JsonCodec) (faithful : IsFaithful json) where
  read_time-iso_or_null : (t : Option DateTime) → IsTime t → read_time (iso_or_null t) ≡ ok t
  unfolding read_time
  read_time-iso_or_null none h = refl
  read_time-iso_or_null (some d) h = rw (fromisoformat-isoformat d h)

  read_opportunity-observation_row :
      (run_id position : ℕ) (o : Opportunity)
      → IsStorable o
      → read_opportunity json (observation_row json run_id position o) ≡ ok (stored o)
  unfolding read_opportunity observation_row
  read_opportunity-observation_row run_id position o h =
      rw
        (
          read_availability-availability_value o.availability,
          read_time-iso_or_null o.starts_at h.starts,
          faithful o.attributes h.keys,
        )
        (make_opportunity-stored o h.valid)

  read_opportunities-observation_rows :
      (run_id position : ℕ) (os : List Opportunity)
      → All IsStorable os
      → read_opportunities json (observation_rows json run_id position os) ≡ ok (map stored os)
  unfolding read_opportunities
  read_opportunities-observation_rows run_id position [] h = refl
  read_opportunities-observation_rows run_id position (o ∷ rest) h = rw (
    read_opportunity-observation_row run_id position o h.0,
    read_opportunities-observation_rows run_id (suc position) rest h.1,
  )

pub observation_rows-run :
    (json : JsonCodec) (run_id position : ℕ) (os : List Opportunity)
    → All (λ r. r.run_id ≡ run_id) (observation_rows json run_id position os)
unfolding observation_row
observation_rows-run json run_id position [] = tt
observation_rows-run json run_id position (o ∷ rest) =
    (refl, observation_rows-run json run_id (suc position) rest)

observation_rows-IsAscending :
    (json : JsonCodec) (run_id position : ℕ) (os : List Opportunity)
    → IsAscending (λ r. r.position) (observation_rows json run_id position os)
unfolding observation_row
observation_rows-IsAscending json run_id position [] = tt
observation_rows-IsAscending json run_id position (o ∷ []) = tt
observation_rows-IsAscending json run_id position (o ∷ p ∷ rest) =
    (omega arith, observation_rows-IsAscending json run_id (suc position) (p ∷ rest))

-- The rows that a `SELECT` by the new run finds are the new ones.
select_new :
    (json : JsonCodec) (run_id : ℕ) (os : List Opportunity) (table : List Observation)
    → All (λ r. (r.run_id == run_id) ≡ false) table
    → filter (λ r. r.run_id == run_id) (table ++ observation_rows json run_id 0 os)
      ≡ observation_rows json run_id 0 os
select_new json run_id os table old =
    let rows = observation_rows json run_id 0 os in
    rw
      (
        filter-append (λ r. r.run_id == run_id) table rows,
        filter-eq-nil (λ r. r.run_id == run_id) table old,
      )
      (filter-All (λ r. r.run_id == run_id) rows
        (All-map rows (λ r e. (nat_beq_iff r.run_id run_id).1 e)
          (observation_rows-run json run_id 0 os)))

-- A `SELECT` by another run finds what it found before.
pub select_other :
    (json : JsonCodec) (run_id other : ℕ) (os : List Opportunity) (table : List Observation)
    → (run_id == other) ≡ false
    → filter (λ r. r.run_id == other) (table ++ observation_rows json run_id 0 os)
      ≡ filter (λ r. r.run_id == other) table
select_other json run_id other os table h =
    let rows = observation_rows json run_id 0 os in
    rw (
      filter-append (λ r. r.run_id == other) table rows,
      filter-eq-nil (λ r. r.run_id == other) rows
          (All-map rows (λ r e. rw e h) (observation_rows-run json run_id 0 os)),
      append-nil,
    )

module _ (json : JsonCodec) (faithful : IsFaithful json) where
  pub read_run-new :
      (run : Run) (result : CheckResult) (table : List Observation)
      → IsComplete result
      → run.checked_at ≡ isoformat result.checked_at
      → All (λ r. (r.run_id == run.id) ≡ false) table
      → read_run json (table ++ observation_rows json run.id 0 result.opportunities) run
        ≡ ok (stored_result result)
  unfolding read_run
  read_run-new run result table h e old =
      rw
        (
          select_new json run.id result.opportunities table old,
          order_by-IsAscending (λ r. r.position)
              (observation_rows json run.id 0 result.opportunities)
              (observation_rows-IsAscending json run.id 0 result.opportunities),
          read_opportunities-observation_rows json faithful run.id 0 result.opportunities
              h.opportunities,
          e,
          fromisoformat-isoformat result.checked_at h.time,
        )
        (make_check_result-stored result h.valid)

-- The run that was added last is the newest run of its job.
pub latest_run-snoc :
    (runs : List Run) (new : Run)
    → new.id ≡ next_id (run_ids runs)
    → latest_run new.job_id (runs ++ new ∷ []) ≡ some new
latest_run-snoc runs new e =
    rw (filter-append (λ r. r.job_id == new.job_id) runs (new ∷ []), beq_refl new.job_id)
      (latest_by-snoc (λ r. r.id) (filter (λ r. r.job_id == new.job_id) runs) new
        (All-filter (λ r. r.id < new.id) (λ r. r.job_id == new.job_id) runs
          (All-map runs (λ r h. rw e h) (All-lt-next_id (λ r. r.id) runs))))
