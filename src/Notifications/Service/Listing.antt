-- ===== src/Notifications/Service/Listing.antt =====
-- The notifications that a dispatch lists: each is one of the pending rows, and none is listed twice.
use web_checker_py.Prelude.{
  ℕ, zero, suc, beq_refl, or_right, Bool, true, false, ◌||◌, List, [], ◌∷◌, map, filter, any, take,
  contains, is_distinct, All, All-map, ◌==◌, nat_eq, ◌≡◌, refl, sym, ◌∙◌, ap, arith, Bool-cases,
  inl, inr, Result, ok, err, map_err-eq-ok, bind-eq-ok, ltb, subst,
}
use web_checker_py.Storage.Tables.{OutboxRow, Db, outbox_ids, insert_by, order_by}
use web_checker_py.Storage.Latest.{unreadable, decoded}
use web_checker_py.Time.{fromisoformat}
use web_checker_py.Core.Models.{ValueError}
use web_checker_py.Storage.Encoding.{read_transition}
use web_checker_py.Notifications.Models.{PendingNotification}
use web_checker_py.Storage.Pending.{
  read_optional_availability, read_notification, read_notifications, is_pending, pending_rows,
  list_pending_notifications, is_pending_id,
}

contains-filter :
    (p : OutboxRow → Bool) (rows : List OutboxRow) (id : ℕ)
    → contains (outbox_ids rows) id ≡ false
    → contains (outbox_ids (filter p rows)) id ≡ false
contains-filter p [] id h = refl
contains-filter p (r ∷ rows) id h = ground (arith, contains-filter p rows id)

is_distinct-filter :
    (p : OutboxRow → Bool) (rows : List OutboxRow)
    → is_distinct (outbox_ids rows) ≡ true
    → is_distinct (outbox_ids (filter p rows)) ≡ true
is_distinct-filter p [] h = refl
is_distinct-filter p (r ∷ rows) h =
    ground (arith, is_distinct-filter p rows, contains-filter p rows r.id)

contains-take :
    (n : ℕ) (rows : List OutboxRow) (id : ℕ)
    → contains (outbox_ids rows) id ≡ false
    → contains (outbox_ids (take n rows)) id ≡ false
contains-take zero rows id h = ground arith
contains-take (suc n) [] id h = refl
contains-take (suc n) (r ∷ rows) id h = ground (arith, contains-take n rows id)

is_distinct-take :
    (n : ℕ) (rows : List OutboxRow)
    → is_distinct (outbox_ids rows) ≡ true
    → is_distinct (outbox_ids (take n rows)) ≡ true
is_distinct-take zero rows h = ground arith
is_distinct-take (suc n) [] h = refl
is_distinct-take (suc n) (r ∷ rows) h =
    ground (arith, is_distinct-take n rows, contains-take n rows r.id)

All-take :
    (P : OutboxRow → Type 0) (n : ℕ) (rows : List OutboxRow) → All P rows → All P (take n rows)
All-take P zero rows h = tt
All-take P (suc n) [] h = tt
All-take P (suc n) (r ∷ rows) h = (h.0, All-take P n rows h.1)

abbrev earlier : OutboxRow → OutboxRow → Bool
earlier a b = ltb a.id b.id

contains-insert_by :
    (r : OutboxRow) (rows : List OutboxRow) (id : ℕ)
    → contains (outbox_ids (insert_by earlier r rows)) id
      ≡ (r.id == id || contains (outbox_ids rows) id)
unfolding insert_by
contains-insert_by r [] id = refl
contains-insert_by r (x ∷ rows) id = ground (arith, contains-insert_by r rows id)

is_distinct-insert_by :
    (r : OutboxRow) (rows : List OutboxRow)
    → is_distinct (outbox_ids rows) ≡ true
    → contains (outbox_ids rows) r.id ≡ false
    → is_distinct (outbox_ids (insert_by earlier r rows)) ≡ true
unfolding insert_by
is_distinct-insert_by r [] d h = refl
is_distinct-insert_by r (x ∷ rows) d h =
    ground (arith, is_distinct-insert_by r rows, contains-insert_by r rows x.id)

contains-order_by :
    (rows : List OutboxRow) (id : ℕ)
    → contains (outbox_ids (order_by earlier rows)) id ≡ contains (outbox_ids rows) id
unfolding order_by
contains-order_by [] id = refl
contains-order_by (r ∷ rows) id =
    contains-insert_by r (order_by earlier rows) id
    ∙ ap (λ b. r.id == id || b) (contains-order_by rows id)

is_distinct-order_by :
    (rows : List OutboxRow)
    → is_distinct (outbox_ids rows) ≡ true
    → is_distinct (outbox_ids (order_by earlier rows)) ≡ true
unfolding order_by
is_distinct-order_by [] h = refl
is_distinct-order_by (r ∷ rows) h =
    is_distinct-insert_by r (order_by earlier rows) (is_distinct-order_by rows (ground arith))
      (contains-order_by rows r.id ∙ ground arith)

All-insert_by :
    (P : OutboxRow → Type 0) (r : OutboxRow) (rows : List OutboxRow)
    → P r
    → All P rows
    → All P (insert_by earlier r rows)
unfolding insert_by
All-insert_by P r [] h hs = (h, tt)
All-insert_by P r (x ∷ rows) h hs = elim (Bool-cases (earlier x r)) [
  | inl e ↦ rw e (hs.0, All-insert_by P r rows h hs.1)
  | inr e ↦ rw e (h, hs)
]

All-order_by :
    (P : OutboxRow → Type 0) (rows : List OutboxRow) → All P rows → All P (order_by earlier rows)
unfolding order_by
All-order_by P [] h = tt
All-order_by P (r ∷ rows) h =
    All-insert_by P r (order_by earlier rows) h.0 (All-order_by P rows h.1)

own :
    (r : OutboxRow) (rows : List OutboxRow)
    → is_pending r ≡ true
    → any (is_pending_id r.id) (r ∷ rows) ≡ true
own r rows e = ground (arith, beq_refl r.id, e)

pending_in :
    (rows : List OutboxRow)
    → All (λ r. any (is_pending_id r.id) rows ≡ true) (filter is_pending rows)
pending_in [] = tt
pending_in (r ∷ rows) =
    let Q : OutboxRow → Type 0 = λ x. any (is_pending_id x.id) (r ∷ rows) ≡ true in
    let later : All Q (filter is_pending rows) =
      All-map (filter is_pending rows) (λ x h. or_right (is_pending_id x.id r) _ h)
        (pending_in rows) in
    elim (Bool-cases (is_pending r)) [
      | inl e ↦
          let keeps : r ∷ filter is_pending rows ≡ filter is_pending (r ∷ rows) = rw e in
          subst (All Q) keeps (own r rows e, later)
      | inr e ↦
          let drops : filter is_pending rows ≡ filter is_pending (r ∷ rows) = rw e in
          subst (All Q) drops later
    ]

id_or : ℕ → Result ValueError PendingNotification → ℕ
id_or id (err e) = id
id_or id (ok n) = n.id

read_notification-id :
    (row : OutboxRow) (n : PendingNotification) → read_notification row ≡ ok n → n.id ≡ row.id
unfolding read_notification id_or
read_notification-id row n h =
    let (kind, e1, h1) = bind-eq-ok (decoded (read_transition row.transition_type)) _ h in
    let (availability, e2, h2) =
      bind-eq-ok (read_optional_availability row.current_availability) _ h1 in
    let (at, e3, h3) = bind-eq-ok (decoded (fromisoformat row.checked_at)) _ h2 in
    ap (λ (r : Result ValueError PendingNotification). id_or row.id r) (sym h3)

-- What is known of the rows holds of the notifications that are read from them.
read_notifications-ids :
    (P : ℕ → Type 0) (rows : List OutboxRow) (ns : List PendingNotification)
    → read_notifications rows ≡ ok ns
    → All (λ r. P r.id) rows
    → (map (λ n. n.id) ns ≡ outbox_ids rows) × All (λ n. P n.id) ns
unfolding read_notifications
read_notifications-ids P [] ns h all = let same : [] ≡ ns = cc in rw (sym same) (refl, tt)
read_notifications-ids P (r ∷ rows) ns h all =
    let (n, e1, h1) = bind-eq-ok _ _ h in
    let (rest, e2, h2) = bind-eq-ok _ _ h1 in
    let same : n ∷ rest ≡ ns = cc in
    let id : n.id ≡ r.id = read_notification-id r n e1 in
    let (ids, ps) = read_notifications-ids P rows rest e2 all.1 in
    rw (sym same) (rw (id, ids) refl, (subst P (sym id) all.0, ps))

-- Every listed notification is a pending row, and none is listed twice.
pub listed :
    (limit : ℕ) (db : Db) (ns : List PendingNotification)
    → is_distinct (outbox_ids db.outbox) ≡ true
    → list_pending_notifications limit db ≡ ok ns
    → (is_distinct (map (λ n. n.id) ns) ≡ true)
      × All (λ n. any (is_pending_id n.id) db.outbox ≡ true) ns
unfolding list_pending_notifications pending_rows
listed limit db ns d h =
    let pending = filter is_pending db.outbox in
    let read : read_notifications (pending_rows limit db) ≡ ok ns = map_err-eq-ok unreadable _ h in
    let P : ℕ → Type 0 = λ id. any (is_pending_id id) db.outbox ≡ true in
    let Q : OutboxRow → Type 0 = λ r. P r.id in
    let (ids, ps) = read_notifications-ids P (pending_rows limit db) ns read (
      All-take Q limit (order_by earlier pending)
        (All-order_by Q pending (pending_in db.outbox))) in
    (
      rw ids (
          is_distinct-take limit (order_by earlier pending)
            (is_distinct-order_by pending (is_distinct-filter is_pending db.outbox d))),
      ps,
    )
