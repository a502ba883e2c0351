-- ===== src/Storage/Insert/Observations.antt =====
-- Inserting the observations of a new run appends one row for each, at positions that go up.
use web_checker_py.Prelude.{
  ℕ, suc, Bool, true, false, ◌&&◌, ◌||◌, List, [], ◌∷◌, ◌++◌, append_assoc, append-nil, ap, ◌∙◌,
  any, All, All-append, All-map, contains, is_distinct, ◌==◌, nat_eq, text_eq, text_beq_iff, leb,
  ok, ◌≡◌, refl, arith,
}
use web_checker_py.Core.Models.{Opportunity, ids}
use web_checker_py.Storage.Encoding.{JsonCodec}
use web_checker_py.Storage.Tables.{Observation}
use web_checker_py.Storage.Insert.{observation_row, same_observation, insert_observations}

-- The rows of a run, from a position on.
abbrev pub observation_rows : JsonCodec → ℕ → ℕ → List Opportunity → List Observation
observation_rows json run_id position [] = []
observation_rows json run_id position (o ∷ rest) =
    observation_row json run_id position o ∷ observation_rows json run_id (suc position) rest

-- A row could stand in the way of rows for these opportunities, from a position on.
abbrev pub clashes : ℕ → ℕ → List Opportunity → Observation → Bool
clashes run_id position os r =
    r.run_id == run_id && (contains (ids os) r.opportunity_id || leb position r.position)

module _ (json : JsonCodec) (run_id : ℕ) where
  no_clash :
      (position : ℕ) (o : Opportunity) (rest : List Opportunity) (table : List Observation)
      → All (λ r. clashes run_id position (o ∷ rest) r ≡ false) table
      → any (same_observation (observation_row json run_id position o)) table ≡ false
  unfolding observation_row
  no_clash position o rest [] h = refl
  no_clash position o rest (r ∷ table) h = ground (
    arith,
    no_clash position o rest table h.1,
    h.0,
    text_beq_iff o.id r.opportunity_id,
    text_beq_iff r.opportunity_id o.id,
  )

  clash_later :
      (position : ℕ) (o : Opportunity) (rest : List Opportunity) (r : Observation)
      → clashes run_id position (o ∷ rest) r ≡ false
      → clashes run_id (suc position) rest r ≡ false
  clash_later position o rest r h = ground arith

  own_row :
      (position : ℕ) (o : Opportunity) (rest : List Opportunity)
      → is_distinct (ids (o ∷ rest)) ≡ true
      → clashes run_id (suc position) rest (observation_row json run_id position o) ≡ false
  unfolding observation_row
  own_row position o rest d = ground arith

  pub insert_observations-eq :
      (position : ℕ) (os : List Opportunity) (table : List Observation)
      → is_distinct (ids os) ≡ true
      → All (λ r. clashes run_id position os r ≡ false) table
      → insert_observations json run_id position os table
        ≡ ok (table ++ observation_rows json run_id position os)
  unfolding insert_observations
  insert_observations-eq position [] table d h = rw append-nil
  insert_observations-eq position (o ∷ rest) table d h =
      let row = observation_row json run_id position o in
      let later =
        All-append (λ r. clashes run_id (suc position) rest r ≡ false) table (row ∷ [])
          (All-map table (clash_later position o rest) h) (own_row position o rest d, tt) in
      rw (no_clash position o rest table h) (
        insert_observations-eq (suc position) rest (table ++ row ∷ []) (ground arith) later
        ∙ ap ok (append_assoc table (row ∷ []) (observation_rows json run_id (suc position) rest)))
