-- ===== src/Storage/Status/Totals.antt =====
-- The counts of `list_job_statuses` and of `status` in web_checker/storage.py agree.
use web_checker_py.Prelude.{
  ℕ, suc, ◌+◌, Bool, true, false, List, [], ◌∷◌, map, filter, length, contains, is_distinct, All,
  Text, text_lt, ◌==◌, text_eq, nat_eq, beq_sym, order_by, insert_by, ok, bind-eq-ok, map_err-eq-ok,
  ok-injective, ◌≡◌, refl, sym, subst, ap, ◌∙◌, arith, if◌then◌else◌, Bool-cases, inl, inr,
}
use web_checker_py.Storage.Tables.{OutboxRow, JobRow, Db}
use web_checker_py.Storage.Latest.{unreadable, read_time}
use web_checker_py.Storage.Pending.{is_pending}
use web_checker_py.Storage.Backlog.{pending_of}
use web_checker_py.Storage.Status.{
  JobStatus, StorageStatus, pending_count, read_time_or_none, job_status_of, job_statuses_of,
  list_job_statuses, status, least_text,
}

-- `sum(f(x) for x in xs)`
abbrev pub sum_of {ℓ} : {A : Type ℓ} → (A → ℕ) → List A → ℕ
sum_of f [] = 0
sum_of f (x ∷ xs) = f x + sum_of f xs

abbrev one_if : Bool → ℕ
one_if b = if b then 1 else 0

sum_of-none :
    (k : Text) (ids : List Text) → contains ids k ≡ false → sum_of (λ id. one_if (k == id)) ids ≡ 0
sum_of-none k [] h = refl
sum_of-none k (id ∷ ids) h = elim (Bool-cases (id == k)) [
  | inl e ↦ let clash = rw e at h in cc
  | inr e ↦ rw (beq_sym k id ∙ e) (omega (arith, sum_of-none k ids (rw e at h)))
]

-- A key is one of distinct ones.
sum_of-one :
    (k : Text) (ids : List Text)
    → is_distinct ids ≡ true
    → contains ids k ≡ true
    → sum_of (λ id. one_if (k == id)) ids ≡ 1
sum_of-one k [] d h = cc
sum_of-one k (id ∷ ids) d h = elim (Bool-cases (id == k)) [
  | inl e ↦
      let same : id ≡ k = (text_eq.equal_iff id k).0 e in
      let absent : contains ids k ≡ false =
        subst (λ x. contains ids x ≡ false) same (ground (arith, d)) in
      rw (beq_sym k id ∙ e) (omega (arith, sum_of-none k ids absent))
  | inr e ↦ rw (beq_sym k id ∙ e) (omega (arith, sum_of-one k ids (ground (arith, d)) (rw e at h)))
]

module _ {ℓ} {A : Type ℓ} where
  sum_of-eq : (f g : A → ℕ) (xs : List A) → ((x : A) → f x ≡ g x) → sum_of f xs ≡ sum_of g xs
  sum_of-eq f g [] h = refl
  sum_of-eq f g (x ∷ xs) h = omega (arith, h x, sum_of-eq f g xs h)

  sum_of-add : (f g : A → ℕ) (xs : List A) → sum_of (λ x. f x + g x) xs ≡ sum_of f xs + sum_of g xs
  sum_of-add f g [] = omega arith
  sum_of-add f g (x ∷ xs) = omega (arith, sum_of-add f g xs)

  sum_of-zero : (xs : List A) → sum_of (λ x. 0) xs ≡ 0
  sum_of-zero [] = refl
  sum_of-zero (x ∷ xs) = omega (arith, sum_of-zero xs)

sum_of-map :
    {A B : Type 0} (f : B → ℕ) (g : A → B) (xs : List A)
    → sum_of f (map g xs) ≡ sum_of (λ x. f (g x)) xs
sum_of-map f g [] = refl
sum_of-map f g (x ∷ xs) = omega (arith, sum_of-map f g xs)

module _ {A : Type 0} (before : A → A → Bool) (f : A → ℕ) where
  sum_of-insert_by : (a : A) (xs : List A) → sum_of f (insert_by before a xs) ≡ f a + sum_of f xs
  unfolding insert_by
  sum_of-insert_by a [] = refl
  sum_of-insert_by a (b ∷ xs) = elim (Bool-cases (before b a)) [
    | inl e ↦ rw e (omega (arith, sum_of-insert_by a xs))
    | inr e ↦ rw e refl
  ]

  sum_of-order_by : (xs : List A) → sum_of f (order_by before xs) ≡ sum_of f xs
  unfolding order_by
  sum_of-order_by [] = refl
  sum_of-order_by (a ∷ xs) =
      omega (arith, sum_of-insert_by a (order_by before xs), sum_of-order_by xs)

pending_of-cons :
    (n : OutboxRow) (ns : List OutboxRow) (id : Text)
    → is_pending n ≡ true
    → length (pending_of id (n ∷ ns)) ≡ one_if (n.job_id == id) + length (pending_of id ns)
pending_of-cons n ns id h = elim (Bool-cases (n.job_id == id)) [
  | inl e ↦ rw (e, h) (omega arith)
  | inr e ↦ rw e (omega arith)
]

pending_of-delivered :
    (n : OutboxRow) (ns : List OutboxRow) (id : Text)
    → is_pending n ≡ false
    → length (pending_of id (n ∷ ns)) ≡ length (pending_of id ns)
pending_of-delivered n ns id h = elim (Bool-cases (n.job_id == id)) [
  | inl e ↦ rw (e, h) refl
  | inr e ↦ rw e refl
]

-- The undelivered rows of distinct jobs, to which all rows belong, are all undelivered rows.
sum_of-pending_of :
    (ids : List Text) (outbox : List OutboxRow)
    → is_distinct ids ≡ true
    → All (λ n. contains ids n.job_id ≡ true) outbox
    → sum_of (λ id. length (pending_of id outbox)) ids ≡ length (filter is_pending outbox)
sum_of-pending_of ids [] d h = sum_of-zero ids
sum_of-pending_of ids (n ∷ ns) d h =
    let rest = sum_of-pending_of ids ns d h.1 in
    elim (Bool-cases (is_pending n)) [
      | inl e ↦
          let one_more : length (filter is_pending (n ∷ ns)) ≡ suc (length (filter is_pending ns)) =
            rw e refl in
          omega (
            arith,
            rest,
            one_more,
            sum_of-eq (λ id. length (pending_of id (n ∷ ns)))
                (λ id. one_if (n.job_id == id) + length (pending_of id ns)) ids
                (λ id. pending_of-cons n ns id e),
            sum_of-add (λ id. one_if (n.job_id == id)) (λ id. length (pending_of id ns)) ids,
            sum_of-one n.job_id ids d h.0,
          )
      | inr e ↦
          let as_many : length (filter is_pending (n ∷ ns)) ≡ length (filter is_pending ns) =
            rw e refl in
          sum_of-eq (λ id. length (pending_of id (n ∷ ns))) (λ id. length (pending_of id ns)) ids
            (λ id. pending_of-delivered n ns id e)
          ∙ (rest ∙ sym as_many)
    ]

job_statuses_of-sum :
    (db : Db) (rows : List JobRow) (statuses : List JobStatus)
    → job_statuses_of db rows ≡ ok statuses
    → sum_of (λ s. s.pending_deliveries) statuses
      ≡ sum_of (λ r. length (pending_of r.job_id db.outbox)) rows
unfolding job_statuses_of job_status_of
job_statuses_of-sum db [] statuses h =
    subst (λ l. sum_of (λ s. s.pending_deliveries) l ≡ 0) (ok-injective [] statuses h) refl
job_statuses_of-sum db (row ∷ rows) statuses h =
    let (first, e1, h1) = bind-eq-ok (job_status_of db row) _ h in
    let (later, e2, h2) = bind-eq-ok (job_statuses_of db rows) _ h1 in
    let (success, e3, h3) = bind-eq-ok (read_time_or_none row.last_success_at) _ e1 in
    let (failure, e4, h4) = bind-eq-ok (read_time_or_none row.last_failure_at) _ h3 in
    let is_count : length (pending_of row.job_id db.outbox) ≡ first.pending_deliveries =
      ap (λ s. s.pending_deliveries) (ok-injective _ first h4) in
    subst
      (λ l.
        sum_of (λ s. s.pending_deliveries) l
        ≡ length (pending_of row.job_id db.outbox)
          + sum_of (λ r. length (pending_of r.job_id db.outbox)) rows)
      (ok-injective (first ∷ later) statuses h2)
      (omega (arith, is_count, job_statuses_of-sum db rows later e2))

-- When every notification belongs to a job that has a status, and the statuses to distinct jobs,
-- the pending deliveries that are listed job by job add up to the pending notifications of the
-- store's status.
pub list_job_statuses-status :
    (database_bytes : ℕ) (db : Db) (statuses : List JobStatus) (total : StorageStatus)
    → is_distinct (map (λ r. r.job_id) db.job_status) ≡ true
    → All (λ n. contains (map (λ r. r.job_id) db.job_status) n.job_id ≡ true) db.outbox
    → list_job_statuses db ≡ ok statuses
    → status database_bytes db ≡ ok total
    → sum_of (λ s. s.pending_deliveries) statuses ≡ total.pending_notifications
unfolding list_job_statuses status pending_count
list_job_statuses-status database_bytes db statuses total distinct belong h h2 =
    let before : JobRow → JobRow → Bool = λ a b. text_lt a.job_id b.job_id in
    let listed = map_err-eq-ok unreadable _ h in
    let counted = map_err-eq-ok unreadable _ h2 in
    let (oldest, e, last) =
      bind-eq-ok (read_time (least_text (map (λ r. r.checked_at) db.check_runs))) _ counted in
    let is_total : length (filter is_pending db.outbox) ≡ total.pending_notifications =
      ap (λ s. s.pending_notifications) (ok-injective _ total last) in
    let per_job : JobRow → ℕ = λ r. length (pending_of r.job_id db.outbox) in
    job_statuses_of-sum db (order_by before db.job_status) statuses listed
    ∙ (sum_of-order_by before per_job db.job_status
        ∙ (sym (sum_of-map (λ id. length (pending_of id db.outbox)) (λ r. r.job_id) db.job_status)
            ∙ (sum_of-pending_of (map (λ r. r.job_id) db.job_status) db.outbox distinct belong
                ∙ is_total)))
