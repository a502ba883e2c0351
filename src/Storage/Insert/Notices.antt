-- ===== src/Storage/Insert/Notices.antt =====
-- Enqueueing a notice appends one row for each channel, with ids that go up.
use web_checker_py.Prelude.{
  ℕ, suc, max, Bool, true, false, ◌&&◌, List, [], ◌∷◌, ◌++◌, append_assoc, append-nil, map-append,
  ap, ◌∙◌, any, All, All-append, All-map, contains, is_distinct, Text, ◌==◌, nat_eq, text_eq,
  text_beq_iff, ok, ◌≡◌, refl, arith,
}
use web_checker_py.Storage.Tables.{OutboxRow, max_of, next_id, outbox_ids}
use web_checker_py.Storage.Insert.{Notice, outbox_row, same_notice, enqueue}

-- The rows of a notice for these channels, from an id on.
abbrev pub outbox_rows : Notice → List Text → ℕ → List OutboxRow
outbox_rows n [] id = []
outbox_rows n (channel ∷ rest) id = outbox_row n channel id ∷ outbox_rows n rest (suc id)

abbrev clashes : ℕ → List Text → OutboxRow → Bool
clashes transition_id channels r = r.transition_id == transition_id && contains channels r.channel

max_of-snoc : (ns : List ℕ) (n : ℕ) → max_of (ns ++ n ∷ []) ≡ max (max_of ns) n
max_of-snoc [] n = omega arith
max_of-snoc (m ∷ ns) n = omega (arith, max_of-snoc ns n)

pub next_id-snoc : (ns : List ℕ) → next_id (ns ++ next_id ns ∷ []) ≡ suc (next_id ns)
next_id-snoc ns = omega (arith, max_of-snoc ns (next_id ns))

module _ (n : Notice) where
  no_clash :
      (channel : Text) (rest : List Text) (table : List OutboxRow)
      → All (λ r. clashes n.transition_id (channel ∷ rest) r ≡ false) table
      → any (same_notice n.transition_id channel) table ≡ false
  no_clash channel rest [] h = refl
  no_clash channel rest (r ∷ table) h = ground (
    arith,
    no_clash channel rest table h.1,
    h.0,
    text_beq_iff channel r.channel,
    text_beq_iff r.channel channel,
  )

  clash_later :
      (channel : Text) (rest : List Text) (r : OutboxRow)
      → clashes n.transition_id (channel ∷ rest) r ≡ false
      → clashes n.transition_id rest r ≡ false
  clash_later channel rest r h = ground arith

  own_row :
      (channel : Text) (rest : List Text) (id : ℕ)
      → is_distinct (channel ∷ rest) ≡ true
      → clashes n.transition_id rest (outbox_row n channel id) ≡ false
  unfolding outbox_row
  own_row channel rest id d = ground arith

  next_row :
      (channel : Text) (table : List OutboxRow)
      → next_id (outbox_ids (table ++ outbox_row n channel (next_id (outbox_ids table)) ∷ []))
        ≡ suc (next_id (outbox_ids table))
  unfolding outbox_row
  next_row channel table = rw map-append (next_id-snoc (outbox_ids table))

  pub enqueue-eq :
      (channels : List Text) (table : List OutboxRow)
      → is_distinct channels ≡ true
      → All (λ r. clashes n.transition_id channels r ≡ false) table
      → enqueue n channels table ≡ ok (table ++ outbox_rows n channels (next_id (outbox_ids table)))
  unfolding enqueue
  enqueue-eq [] table d h = rw append-nil
  enqueue-eq (channel ∷ rest) table d h =
      let row = outbox_row n channel (next_id (outbox_ids table)) in
      let later =
        All-append (λ r. clashes n.transition_id rest r ≡ false) table (row ∷ [])
          (All-map table (clash_later channel rest) h) (own_row channel rest _ d, tt) in
      rw (no_clash channel rest table h) (
        enqueue-eq rest (table ++ row ∷ []) (ground arith) later
        ∙ rw (next_row channel table) (ap ok (append_assoc table (row ∷ []) _)))
