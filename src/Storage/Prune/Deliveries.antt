-- ===== src/Storage/Prune/Deliveries.antt =====
-- The pending deliveries survive a prune, with the transitions and runs that they belong to.
use web_checker_py.Prelude.{
  ℕ, Bool, true, false, not, ◌&&◌, List, [], ◌∷◌, filter, any, contains, All, All-map, All-zip,
  All-filter, Text, or_right, beq_refl, Option-cases, ◌==◌, nat_eq, text_eq, ◌≡◌, refl, ◌∙◌, arith,
  Bool-cases, inl, inr,
}
use web_checker_py.Time.{DateTime, isoformat}
use web_checker_py.Storage.Tables.{Run, TransitionRow, OutboxRow, Db, run_ids, transition_ids}
use web_checker_py.Storage.Tables.References.{HasReferences}
use web_checker_py.Storage.Pending.{is_pending}
use web_checker_py.Storage.Prune.{is_completed_before, has_pending, is_expired, kept, prune}

-- What holds of an element and itself holds of it and some element of its list.
pub All-any_self :
    {A : Type 0} (c : A → Bool) (q : A → A → Bool)
    → ((x : A) → c x ≡ true → q x x ≡ true)
    → (xs : List A) → All (λ x. c x ≡ true → any (q x) xs ≡ true) xs
All-any_self c q h [] = tt
All-any_self c q h (x ∷ xs) = (
  λ e. rw (h x e) refl,
  All-map xs (λ y f e. or_right (q y x) (any (q y) xs) (f e)) (All-any_self c q h xs),
)

-- A run that is not expired is left.
pub run_kept :
    (expired : Run → Bool) (id : ℕ) (runs : List Run)
    → ((r : Run) → (r.id == id) ≡ true → expired r ≡ false)
    → contains (run_ids runs) id ≡ true
    → contains (run_ids (filter (λ r. not (expired r)) runs)) id ≡ true
run_kept expired id [] h e = cc
run_kept expired id (r ∷ runs) h e = elim (Bool-cases (r.id == id)) [
  | inl same ↦ rw (h r same, same) refl
  | inr other ↦ elim (Bool-cases (expired r)) [
    | inl x ↦ rw x (run_kept expired id runs h (ground arith))
    | inr x ↦ rw (x, other) (run_kept expired id runs h (ground arith))
  ]
]

transition_kept :
    (runs : List ℕ) (id : ℕ) (ts : List TransitionRow)
    → All (λ t. (t.id == id) ≡ true → contains runs t.run_id ≡ true) ts
    → contains (transition_ids ts) id ≡ true
    → contains (transition_ids (kept (λ t. t.run_id) runs ts)) id ≡ true
transition_kept runs id [] h e = cc
transition_kept runs id (t ∷ ts) h e = elim (Bool-cases (t.id == id)) [
  | inl same ↦ rw (h.0 same, same) refl
  | inr other ↦ elim (Bool-cases (contains runs t.run_id)) [
    | inl x ↦ rw (x, other) (transition_kept runs id ts h.1 (ground arith))
    | inr x ↦ rw x (transition_kept runs id ts h.1 (ground arith))
  ]
]

filter-kept :
    (ids : List ℕ) (rows : List OutboxRow)
    → All (λ n. is_pending n ≡ true → contains ids n.transition_id ≡ true) rows
    → filter is_pending (kept (λ n. n.transition_id) ids rows) ≡ filter is_pending rows
filter-kept ids [] h = refl
filter-kept ids (n ∷ rows) h = elim (Bool-cases (is_pending n)) [
  | inl p ↦ rw (h.0 p, p, filter-kept ids rows h.1) refl
  | inr p ↦ elim (Bool-cases (contains ids n.transition_id)) [
    | inl c ↦ rw (c, p, filter-kept ids rows h.1) refl
    | inr c ↦ rw (c, p, filter-kept ids rows h.1) refl
  ]
]

pending_not_completed :
    (cutoff : Text) (n : OutboxRow) → is_pending n ≡ true → is_completed_before cutoff n ≡ false
pending_not_completed cutoff n p = elim (Option-cases n.delivered_at) [
  | inl e ↦ rw e
  | inr (at, e) ↦ let impossible : false ≡ true = rw e at p in cc
]

filter-not_completed :
    (cutoff : Text) (rows : List OutboxRow)
    → filter is_pending (filter (λ n. not (is_completed_before cutoff n)) rows)
      ≡ filter is_pending rows
filter-not_completed cutoff [] = refl
filter-not_completed cutoff (n ∷ rows) = elim (Bool-cases (is_pending n)) [
  | inl p ↦ rw (pending_not_completed cutoff n p, p, filter-not_completed cutoff rows) refl
  | inr p ↦ elim (Bool-cases (is_completed_before cutoff n)) [
    | inl c ↦ rw (c, p, filter-not_completed cutoff rows) refl
    | inr c ↦ rw (c, p, filter-not_completed cutoff rows) refl
  ]
]

-- The deliveries after the first statement of a prune, and the runs that the second one deletes.
module _ (observations_before notifications_before : DateTime) (db : Db) where
  abbrev pub outbox : List OutboxRow
  outbox = filter (λ n. not (is_completed_before (isoformat notifications_before) n)) db.outbox

  abbrev pub expired : Run → Bool
  expired = is_expired (isoformat observations_before) db.check_runs db.transitions outbox

  abbrev pub runs : List Run
  runs = filter (λ r. not (expired r)) db.check_runs

module _ (observations_before notifications_before : DateTime) (db : Db)
    (references : HasReferences db) where
  abbrev left : List OutboxRow
  left = outbox observations_before notifications_before db

  abbrev old : Run → Bool
  old = expired observations_before notifications_before db

  abbrev newer : List Run
  newer = runs observations_before notifications_before db

  abbrev waits : ℕ → Bool
  waits id = any (λ n. n.transition_id == id && is_pending n) left

  not_expired :
      (id : ℕ) (r : Run)
      → has_pending db.transitions left id ≡ true
      → (r.id == id) ≡ true
      → old r ≡ false
  not_expired id r h e =
      let same : r.id ≡ id = ground arith in
      let pending : has_pending db.transitions left r.id ≡ true = rw same h in
      rw pending (ground arith)

  own_transition :
      (id : ℕ)
      → waits id ≡ true
      → (t : TransitionRow) → (t.id == id) ≡ true
      → (t.run_id == t.run_id && waits t.id) ≡ true
  own_transition id h t e =
      let same : t.id ≡ id = ground arith in rw (beq_refl t.run_id) (rw same h)

  own_delivery :
      (n : OutboxRow)
      → is_pending n ≡ true
      → (n.transition_id == n.transition_id && is_pending n) ≡ true
  own_delivery n p = rw (beq_refl n.transition_id) p

  -- A transition with a pending delivery keeps its run.
  kept_runs :
      (id : ℕ)
      → waits id ≡ true
      → All (λ t. (t.id == id) ≡ true → contains (run_ids newer) t.run_id ≡ true) db.transitions
  kept_runs id h =
      let among : TransitionRow → TransitionRow → Bool =
        λ x t. t.run_id == x.run_id && waits t.id in
      All-zip db.transitions
        (λ t known used same.
          run_kept old t.run_id db.check_runs (λ r. not_expired t.run_id r (used same)) known)
        references.transitions
        (All-any_self (λ t. t.id == id) among (own_transition id h) db.transitions)

  kept_transitions :
      All
        (λ n.
          is_pending n ≡ true
          → contains
              (transition_ids (kept (λ t. t.run_id) (run_ids newer) db.transitions))
              n.transition_id
            ≡ true)
        left
  kept_transitions =
      let among : OutboxRow → OutboxRow → Bool =
        λ x n. n.transition_id == x.transition_id && is_pending n in
      All-zip left
        (λ n known used p.
          transition_kept (run_ids newer) n.transition_id db.transitions
            (kept_runs n.transition_id (used p)) known)
        (All-filter _ _ db.outbox references.outbox)
        (All-any_self is_pending among own_delivery left)

  -- No pending delivery is lost: where the references are in place, the deliveries that await after
  -- a prune are those that awaited before it, in their order.
  pub prune-pending :
      filter is_pending (prune observations_before notifications_before db).1.outbox
      ≡ filter is_pending db.outbox
  unfolding prune
  prune-pending =
      filter-kept _ left kept_transitions
      ∙ filter-not_completed (isoformat notifications_before) db.outbox
