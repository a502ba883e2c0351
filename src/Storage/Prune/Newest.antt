-- ===== src/Storage/Prune/Newest.antt =====
-- The newest snapshot of every job survives a prune.
use web_checker_py.Prelude.{
  ℕ, ◌≤◌, Bool, true, false, not, none, some, List, [], ◌∷◌, filter, contains, All, All-map,
  All-filter, Text, beq_refl, Option-cases, ltb, ◌==◌, nat_eq, text_eq, text_beq_iff, ◌≡◌, refl,
  sym, ap, ◌∙◌, or_right, arith, Bool-cases, inl, inr, if◌then◌else◌, subst,
}
use web_checker_py.Time.{DateTime}
use web_checker_py.Storage.Tables.{Run, Observation, Db, run_ids, latest_by}
use web_checker_py.Storage.Tables.Order.{latest_by-All}
use web_checker_py.Storage.Encoding.{JsonCodec}
use web_checker_py.Storage.Latest.{latest_run, read_run, get_latest}
use web_checker_py.Storage.Prune.{is_newest, kept, prune}
use web_checker_py.Storage.Prune.Deliveries.{expired}

abbrev older : Run → Run → Bool
older a b = ltb a.id b.id

-- Why a run is the latest of a list.
data IsLatest (a : Run) (runs : List Run) (m : Run) : Type 0 where
  alone : latest_by older runs ≡ none → m ≡ a → IsLatest a runs m
  behind : (b : Run) → latest_by older runs ≡ some b → older a b ≡ true → m ≡ b → IsLatest a runs m
  ahead : (b : Run) → latest_by older runs ≡ some b → older a b ≡ false → m ≡ a → IsLatest a runs m

latest_by-IsLatest :
    (a : Run) (runs : List Run) (m : Run) → latest_by older (a ∷ runs) ≡ some m → IsLatest a runs m
unfolding latest_by
latest_by-IsLatest a runs m h = elim (Option-cases (latest_by older runs)) [
  | inl e ↦ let found : some a ≡ some m = rw e at h in alone e cc
  | inr (b, e) ↦ elim (Bool-cases (older a b)) [
    | inl o ↦ let found : some b ≡ some m = rw (e, o) at h in behind b e o cc
    | inr o ↦ let found : some a ≡ some m = rw (e, o) at h in ahead b e o cc
  ]
]

latest-eq-none : (runs : List Run) → latest_by older runs ≡ none → runs ≡ []
unfolding latest_by
latest-eq-none [] h = refl
latest-eq-none (a ∷ runs) h = elim (Option-cases (latest_by older runs)) [
  | inl e ↦ let found : some a ≡ none = rw e at h in cc
  | inr (b, e) ↦ let found : some (if older a b then b else a) ≡ none = rw e at h in cc
]

-- The latest run has the largest id.
latest-le :
    (runs : List Run) (m : Run) → latest_by older runs ≡ some m → All (λ r. r.id ≤ m.id) runs
unfolding latest_by
latest-le [] m h = cc
latest-le (a ∷ runs) m h = elim (latest_by-IsLatest a runs m h) [
  | alone e same ↦ rw (latest-eq-none runs e, same) (ground arith, tt)
  | behind b e o same ↦
      subst (λ x. All (λ r. r.id ≤ x.id) (a ∷ runs)) (sym same) (ground arith, latest-le runs b e)
  | ahead b e o same ↦
      subst (λ x. All (λ r. r.id ≤ x.id) (a ∷ runs)) (sym same)
        (ground arith, All-map runs (λ r le. ground arith) (latest-le runs b e))
]

-- A filter that keeps the latest run does not change which one it is.
latest-filter :
    (keep : Run → Bool) (runs : List Run) (m : Run)
    → latest_by older runs ≡ some m
    → keep m ≡ true
    → latest_by older (filter keep runs) ≡ some m
unfolding latest_by
latest-filter keep [] m h k = cc
latest-filter keep (a ∷ runs) m h k = elim (latest_by-IsLatest a runs m h) [
  | alone e same ↦
      let kept_a : keep a ≡ true = rw (sym same) k in rw (latest-eq-none runs e, same, kept_a) refl
  | behind b e o same ↦
      let kept_b : keep b ≡ true = rw (sym same) k in
      let later = latest-filter keep runs b e kept_b in
      elim (Bool-cases (keep a)) [
        | inl x ↦ rw (x, later, o, same) refl
        | inr x ↦ rw (x, later, same) refl
      ]
  | ahead b e o same ↦
      let kept_a : keep a ≡ true = rw (sym same) k in
      elim (Option-cases (latest_by older (filter keep runs))) [
        | inl none_left ↦ rw (kept_a, none_left, same) refl
        | inr (c, found) ↦
            let le : c.id ≤ b.id =
              latest_by-All (λ r. r.id ≤ b.id) older (filter keep runs) c
                (All-filter (λ r. r.id ≤ b.id) keep runs (latest-le runs b e)) found in
            let newer : older a c ≡ false = ground arith in rw (kept_a, found, newer, same) refl
      ]
]

filter-swap :
    (p q : Run → Bool) (runs : List Run) → filter p (filter q runs) ≡ filter q (filter p runs)
filter-swap p q [] = refl
filter-swap p q (r ∷ runs) = elim (Bool-cases (p r)) [
  | inl a ↦ elim (Bool-cases (q r)) [
    | inl b ↦ rw (b, a, b, filter-swap p q runs)
    | inr b ↦ rw (b, a, b, filter-swap p q runs)
  ]
  | inr a ↦ elim (Bool-cases (q r)) [
    | inl b ↦ rw (b, a, filter-swap p q runs)
    | inr b ↦ rw (b, a, filter-swap p q runs)
  ]
]

rows_kept :
    (ids : List ℕ) (id : ℕ) (rows : List Observation)
    → contains ids id ≡ true
    → filter (λ o. o.run_id == id) (kept (λ o. o.run_id) ids rows)
      ≡ filter (λ o. o.run_id == id) rows
rows_kept ids id [] h = refl
rows_kept ids id (o ∷ rows) h = elim (Bool-cases (o.run_id == id)) [
  | inl e ↦
      let same : o.run_id ≡ id = ground arith in
      let there : contains ids o.run_id ≡ true = rw same h in
      rw (there, e, rows_kept ids id rows h) refl
  | inr e ↦ elim (Bool-cases (contains ids o.run_id)) [
    | inl c ↦ rw (c, e, rows_kept ids id rows h) refl
    | inr c ↦ rw (c, e, rows_kept ids id rows h) refl
  ]
]

ids_kept :
    (p : Run → Bool) (runs : List Run)
    → All (λ r. p r ≡ true → contains (run_ids (filter p runs)) r.id ≡ true) runs
ids_kept p [] = tt
ids_kept p (x ∷ runs) =
    let Q : List Run → Run → Type 0 = λ l r. p r ≡ true → contains (run_ids l) r.id ≡ true in
    elim (Bool-cases (p x)) [
      | inl e ↦
          let keeps : x ∷ filter p runs ≡ filter p (x ∷ runs) = rw e in
          subst (λ l. All (Q l) (x ∷ runs)) keeps
            (
              λ k. rw (beq_refl x.id) refl,
              All-map runs (λ r f k. or_right (x.id == r.id) _ (f k)) (ids_kept p runs),
            )
      | inr e ↦
          let drops : filter p runs ≡ filter p (x ∷ runs) = rw e in
          subst (λ l. All (Q l) (x ∷ runs)) drops (λ k. cc, ids_kept p runs)
    ]

passing : (p : Run → Bool) (runs : List Run) → All (λ r. p r ≡ true) (filter p runs)
passing p [] = tt
passing p (x ∷ runs) = elim (Bool-cases (p x)) [
  | inl e ↦
      let keeps : x ∷ filter p runs ≡ filter p (x ∷ runs) = rw e in
      subst (All (λ r. p r ≡ true)) keeps (e, passing p runs)
  | inr e ↦
      let drops : filter p runs ≡ filter p (x ∷ runs) = rw e in
      subst (All (λ r. p r ≡ true)) drops (passing p runs)
]

module _ (observations_before notifications_before : DateTime) (db : Db) where
  abbrev keep : Run → Bool
  keep r = not (expired observations_before notifications_before db r)

  abbrev left_ids : List ℕ
  left_ids = run_ids (filter keep db.check_runs)

  newest_kept : (job : Text) (m : Run) → latest_run job db.check_runs ≡ some m → keep m ≡ true
  newest_kept job m h =
      let of_job : List Run = filter (λ r. r.job_id == job) db.check_runs in
      let own : (m.job_id == job) ≡ true =
        latest_by-All (λ r. (r.job_id == job) ≡ true) older of_job m
          (passing (λ r. r.job_id == job) db.check_runs) h in
      let same : m.job_id ≡ job = (text_beq_iff m.job_id job).0 own in
      let here : latest_run m.job_id db.check_runs ≡ some m =
        subst (λ k. latest_run k db.check_runs ≡ some m) (sym same) h in
      let newest : is_newest db.check_runs m ≡ true = rw (here, is_newest) (beq_refl m.id) in
      rw newest (ground arith)

  latest_run-prune :
      (job : Text) → latest_run job (filter keep db.check_runs) ≡ latest_run job db.check_runs
  latest_run-prune job = elim (Option-cases (latest_run job db.check_runs)) [
    | inl e ↦
        ap (latest_by older) (filter-swap (λ r. r.job_id == job) keep db.check_runs)
        ∙ rw (latest-eq-none (filter (λ r. r.job_id == job) db.check_runs) e) refl
    | inr (m, e) ↦
        ap (latest_by older) (filter-swap (λ r. r.job_id == job) keep db.check_runs)
        ∙ latest-filter keep (filter (λ r. r.job_id == job) db.check_runs) m e (newest_kept job m e)
        ∙ sym e
  ]

  id_kept :
      (job : Text) (m : Run) → latest_run job db.check_runs ≡ some m → contains left_ids m.id ≡ true
  id_kept job m h =
      latest_by-All (λ r. keep r ≡ true → contains left_ids r.id ≡ true) older
        (filter (λ r. r.job_id == job) db.check_runs) m
        (All-filter (λ r. keep r ≡ true → contains left_ids r.id ≡ true) (λ r. r.job_id == job)
          db.check_runs (ids_kept keep db.check_runs))
        h (newest_kept job m h)

  -- A prune, whatever its cutoffs, loses no baseline: the newest snapshot of every job reads as it
  -- did.
  pub get_latest-prune :
      (json : JsonCodec) (job : Text)
      → get_latest json job (prune observations_before notifications_before db).1
        ≡ get_latest json job db
  unfolding prune get_latest read_run
  get_latest-prune json job = elim (Option-cases (latest_run job db.check_runs)) [
    | inl e ↦ rw (latest_run-prune job, e) refl
    | inr (m, e) ↦
        rw (latest_run-prune job, e, rows_kept left_ids m.id db.observations (id_kept job m e)) refl
  ]
