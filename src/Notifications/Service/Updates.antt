-- ===== src/Notifications/Service/Updates.antt =====
-- What a statement on one pending row does to a table whose ids are distinct.
use web_checker_py.Prelude.{
  ℕ, true, false, List, [], ◌∷◌, map, any, contains, is_distinct, nat_eq, ◌≡◌, refl, arith,
  if◌then◌else◌, Bool-cases, inl, inr, ok,
}
use web_checker_py.Storage.Tables.{OutboxRow, Db, outbox_ids}
use web_checker_py.Storage.Pending.{is_pending_id, update_where, update_notification}

-- A row after a change of the pending row with an id.
abbrev pub changed_at : ℕ → (OutboxRow → OutboxRow) → OutboxRow → OutboxRow
changed_at id change row = if is_pending_id id row then change row else row

module _ (id : ℕ) (change : OutboxRow → OutboxRow) where
  update_where-map :
      (rows : List OutboxRow)
      → (update_where (is_pending_id id) change rows).1 ≡ map (changed_at id change) rows
  unfolding update_where
  update_where-map [] = refl
  update_where-map (r ∷ rows) = elim (Bool-cases (is_pending_id id r)) [
    | inl e ↦ rw (e, update_where-map rows)
    | inr e ↦ rw (e, update_where-map rows)
  ]

  none_changed :
      (rows : List OutboxRow)
      → contains (outbox_ids rows) id ≡ false
      → (update_where (is_pending_id id) change rows).0 ≡ 0
  unfolding update_where
  none_changed [] h = refl
  none_changed (r ∷ rows) h = ground (arith, none_changed rows)

  one_changed :
      (rows : List OutboxRow)
      → is_distinct (outbox_ids rows) ≡ true
      → any (is_pending_id id) rows ≡ true
      → (update_where (is_pending_id id) change rows).0 ≡ 1
  unfolding update_where
  one_changed [] d h = cc
  one_changed (r ∷ rows) d h = ground (arith, none_changed rows, one_changed rows)

  -- The statement succeeds, and changes that row only.
  pub update_notification-eq :
      (db : Db)
      → is_distinct (outbox_ids db.outbox) ≡ true
      → any (is_pending_id id) db.outbox ≡ true
      → update_notification id change db
        ≡ (ok tt, record db { outbox = map (changed_at id change) db.outbox })
  unfolding update_notification
  update_notification-eq db d h = rw (one_changed db.outbox d h, update_where-map db.outbox)
