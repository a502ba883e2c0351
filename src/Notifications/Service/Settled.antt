-- ===== src/Notifications/Service/Settled.antt =====
-- The outcome of a dispatch: every listed notification is attempted once, and its row says how.
use web_checker_py.Prelude.{
  ℕ, ◌+◌, Bool, true, false, not, Option, none, some, List, [], ◌∷◌, map, filter, find, any,
  contains, length, is_distinct, All, ◌==◌, nat_eq, ◌≡◌, refl, sym, ◌∙◌, ap, arith, Bool-cases,
  Option-cases, inl, inr, is_none, ok, Text, take,
}
use web_checker_py.Time.{isoformat}
use web_checker_py.Notifications.Models.{PendingNotification, DeliverySummary}
use web_checker_py.Notifications.Service.{
  Channels, attempt, keep_outcome, counted, dispatch, no_deliveries, dispatch_pending,
}
use web_checker_py.Notifications.Service.Updates.{changed_at, update_notification-eq}
use web_checker_py.Notifications.Service.Listing.{listed}
use web_checker_py.Storage.Tables.{OutboxRow, Db, outbox_ids}
use web_checker_py.Storage.Pending.{
  is_pending_id, list_pending_notifications, mark_notification_delivered,
  record_notification_failure,
}

module _ (c : Channels) where
  -- A row after an attempt with an outcome: all columns, the four that change at the end.
  abbrev pub with_outcome : PendingNotification → Option Text → OutboxRow → OutboxRow
  with_outcome n none row = record {
    id = row.id;
    transition_id = row.transition_id;
    channel = row.channel;
    job_id = row.job_id;
    transition_type = row.transition_type;
    opportunity_id = row.opportunity_id;
    opportunity_title = row.opportunity_title;
    current_availability = row.current_availability;
    booking_url = row.booking_url;
    checked_at = row.checked_at;
    attempts = row.attempts + 1;
    last_attempt_at = some (isoformat (c.attempted_at n));
    last_error = none;
    delivered_at = some (isoformat (c.attempted_at n));
  }
  with_outcome n (some e) row = record {
    id = row.id;
    transition_id = row.transition_id;
    channel = row.channel;
    job_id = row.job_id;
    transition_type = row.transition_type;
    opportunity_id = row.opportunity_id;
    opportunity_title = row.opportunity_title;
    current_availability = row.current_availability;
    booking_url = row.booking_url;
    checked_at = row.checked_at;
    attempts = row.attempts + 1;
    last_attempt_at = some (isoformat (c.attempted_at n));
    last_error = some (take 2000 e);
    delivered_at = row.delivered_at;
  }

  abbrev pub attempted : PendingNotification → OutboxRow → OutboxRow
  attempted n row = with_outcome n (attempt c n) row

  abbrev picked : List PendingNotification → ℕ → OutboxRow → OutboxRow
  picked ns key row = elim (find (λ n. n.id == key) ns) [
    | none ↦ row
    | some n ↦ changed_at n.id (attempted n) row
  ]

  -- A row after a dispatch: the listed notification with its id was attempted.
  unfoldable pub settled : List PendingNotification → OutboxRow → OutboxRow
  settled ns row = picked ns row.id row

  -- The deliveries that went through, and those that did not.
  abbrev pub is_sent : PendingNotification → Bool
  is_sent n = is_none (attempt c n)

  abbrev pub tally : List PendingNotification → DeliverySummary → DeliverySummary
  tally ns s = record {
    delivered = s.delivered + length (filter is_sent ns);
    failed = s.failed + length (filter (λ n. not (is_sent n)) ns);
  }

  keep_outcome-eq :
      (n : PendingNotification) (o : Option Text) (db : Db)
      → is_distinct (outbox_ids db.outbox) ≡ true
      → any (is_pending_id n.id) db.outbox ≡ true
      → keep_outcome c n o db
        ≡ (ok tt, record db { outbox = map (changed_at n.id (with_outcome n o)) db.outbox })
  unfolding keep_outcome mark_notification_delivered record_notification_failure
  keep_outcome-eq n none db d h = update_notification-eq n.id (with_outcome n none) db d h
  keep_outcome-eq n (some e) db d h = update_notification-eq n.id (with_outcome n (some e)) db d h

  with_outcome-id :
      (n : PendingNotification) (o : Option Text) (row : OutboxRow)
      → (with_outcome n o row).id ≡ row.id
  with_outcome-id n none row = refl
  with_outcome-id n (some e) row = refl

  attempted-id :
      (n : PendingNotification) (row : OutboxRow) → (changed_at n.id (attempted n) row).id ≡ row.id
  attempted-id n row = elim (Bool-cases (is_pending_id n.id row)) [
    | inr p ↦ rw p
    | inl p ↦ rw p (with_outcome-id n (attempt c n) row)
  ]

  outbox_ids-attempted :
      (n : PendingNotification) (rows : List OutboxRow)
      → outbox_ids (map (changed_at n.id (attempted n)) rows) ≡ outbox_ids rows
  outbox_ids-attempted n [] = refl
  outbox_ids-attempted n (r ∷ rows) = rw (attempted-id n r, outbox_ids-attempted n rows)

  -- An attempt leaves the other notifications pending.
  still_pending :
      (n : PendingNotification) (id : ℕ) (rows : List OutboxRow)
      → (n.id == id) ≡ false
      → any (is_pending_id id) rows ≡ true
      → any (is_pending_id id) (map (changed_at n.id (attempted n)) rows) ≡ true
  still_pending n id [] ne h = cc
  still_pending n id (r ∷ rows) ne h = elim (Bool-cases (is_pending_id n.id r)) [
    | inl p ↦ ground (arith, still_pending n id rows ne, attempted-id n r)
    | inr p ↦ rw p (ground (arith, still_pending n id rows ne))
  ]

  still_listed :
      (n : PendingNotification) (ns : List PendingNotification) (rows : List OutboxRow)
      → contains (map (λ m. m.id) ns) n.id ≡ false
      → All (λ m. any (is_pending_id m.id) rows ≡ true) ns
      → All (λ m. any (is_pending_id m.id) (map (changed_at n.id (attempted n)) rows) ≡ true) ns
  still_listed n [] rows d h = tt
  still_listed n (m ∷ ns) rows d h =
      (still_pending n m.id rows (ground arith) h.0, still_listed n ns rows (ground arith) h.1)

  not_found :
      (id : ℕ) (ns : List PendingNotification)
      → contains (map (λ m. m.id) ns) id ≡ false
      → find (λ m. m.id == id) ns ≡ none
  not_found id [] d = refl
  not_found id (m ∷ ns) d = ground (arith, not_found id ns)

  other_row :
      (n : PendingNotification) (row : OutboxRow)
      → (n.id == row.id) ≡ false
      → changed_at n.id (attempted n) row ≡ row
  other_row n row e = let apart : is_pending_id n.id row ≡ false = ground arith in rw apart

  module _ (n : PendingNotification) (ns : List PendingNotification) (key : ℕ)
      (row : OutboxRow) where
    nothing_picked : find (λ m. m.id == key) ns ≡ none → picked ns key row ≡ row
    nothing_picked e =
        ap
          (λ (o : Option PendingNotification). elim o [
            | none ↦ row
            | some m ↦ changed_at m.id (attempted m) row
          ])
          e

    first_picked :
        (n.id == key) ≡ true → picked (n ∷ ns) key row ≡ changed_at n.id (attempted n) row
    first_picked e = rw (e, picked)

    other_picked : (n.id == key) ≡ false → picked (n ∷ ns) key row ≡ picked ns key row
    other_picked e = rw (e, picked)

  -- The first attempt and the later ones make one change of a row.
  settled-attempted :
      (n : PendingNotification) (ns : List PendingNotification) (row : OutboxRow)
      → contains (map (λ m. m.id) ns) n.id ≡ false
      → settled ns (changed_at n.id (attempted n) row) ≡ settled (n ∷ ns) row
  unfolding settled
  settled-attempted n ns row d = elim (Bool-cases (n.id == row.id)) [
    | inl e ↦
        let same : n.id ≡ row.id = ground arith in
        let missing : find (λ m. m.id == row.id) ns ≡ none =
          not_found row.id ns (rw (sym same) d) in
        ap (λ key. picked ns key (changed_at n.id (attempted n) row)) (attempted-id n row)
        ∙ nothing_picked n ns row.id (changed_at n.id (attempted n) row) missing
        ∙ sym (first_picked n ns row.id row e)
    | inr e ↦ ap (settled ns) (other_row n row e) ∙ sym (other_picked n ns row.id row e)
  ]

  map-settled :
      (n : PendingNotification) (ns : List PendingNotification) (rows : List OutboxRow)
      → contains (map (λ m. m.id) ns) n.id ≡ false
      → map (settled ns) (map (changed_at n.id (attempted n)) rows) ≡ map (settled (n ∷ ns)) rows
  map-settled n ns [] d = refl
  map-settled n ns (r ∷ rows) d = rw (settled-attempted n ns r d, map-settled n ns rows d)

  settled_none : (rows : List OutboxRow) → map (settled []) rows ≡ rows
  unfolding settled
  settled_none [] = refl
  settled_none (r ∷ rows) = rw (settled_none rows)

  tally-counted :
      (n : PendingNotification) (ns : List PendingNotification) (s : DeliverySummary)
      → tally ns (counted c (attempt c n) s) ≡ tally (n ∷ ns) s
  tally-counted n ns s = elim (Option-cases (attempt c n)) [
    | inl e ↦ rw e (
        ap
          (λ k. record {
            delivered = k;
            failed = s.failed + length (filter (λ m. not (is_sent m)) ns);
          })
          (omega arith))
    | inr (text, e) ↦ rw e (
        ap (λ k. record { delivered = s.delivered + length (filter is_sent ns); failed = k })
          (omega arith))
  ]

  tally_none : (s : DeliverySummary) → tally [] s ≡ s
  tally_none s =
      let d : s.delivered + 0 ≡ s.delivered = omega arith in
      let f : s.failed + 0 ≡ s.failed = omega arith in rw (d, f) refl

  dispatch-eq :
      (ns : List PendingNotification) (s : DeliverySummary) (db : Db)
      → is_distinct (outbox_ids db.outbox) ≡ true
      → is_distinct (map (λ n. n.id) ns) ≡ true
      → All (λ n. any (is_pending_id n.id) db.outbox ≡ true) ns
      → dispatch c ns s db ≡ (ok (tally ns s), record db { outbox = map (settled ns) db.outbox })
  unfolding dispatch
  dispatch-eq [] s db d dn h = rw (settled_none db.outbox, tally_none s) refl
  dispatch-eq (n ∷ ns) s db d dn h =
      let outbox = map (changed_at n.id (attempted n)) db.outbox in
      let after = record db { outbox = outbox } in
      let fresh : contains (map (λ m. m.id) ns) n.id ≡ false = ground arith in
      rw (keep_outcome-eq n (attempt c n) db d h.0, dispatch)
        (dispatch-eq ns (counted c (attempt c n) s) after (rw (outbox_ids-attempted n db.outbox) d)
            (ground arith) (still_listed n ns db.outbox fresh h.1)
          ∙ rw (tally-counted n ns s, map-settled n ns db.outbox fresh) refl)

  -- On a store whose outbox ids are distinct, and whose pending rows can be read, a dispatch
  -- succeeds. It attempts each listed notification once: the summary counts the attempts that went
  -- through and those that did not, and the outbox after it has one attempt more on every listed
  -- row, with the time of the attempt: after a delivery the row has that time as `delivered_at` and
  -- no error, and after a failure its `delivered_at` is what it was and its error is the first 2000
  -- characters of the error text. Every other column and row is as it was.
  pub dispatch_pending-settled :
      (limit : ℕ) (db : Db) (ns : List PendingNotification)
      → is_distinct (outbox_ids db.outbox) ≡ true
      → list_pending_notifications limit db ≡ ok ns
      → dispatch_pending c limit db
        ≡ (ok (tally ns no_deliveries), record db { outbox = map (settled ns) db.outbox })
  unfolding dispatch_pending
  dispatch_pending-settled limit db ns d h =
      let (dn, all) = listed limit db ns d h in
      rw (h, dispatch_pending) (dispatch-eq ns no_deliveries db d dn all)
