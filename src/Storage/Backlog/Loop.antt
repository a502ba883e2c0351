-- ===== src/Storage/Backlog/Loop.antt =====
-- What the loop of `raise_delivery_backlog_alerts` of web_checker/storage.py leaves of its state.
use web_checker_py.Prelude.{
  ℕ, Bool, true, false, not, ◌&&◌, none, some, List, [], ◌∷◌, ◌++◌, map, filter, contains,
  is_distinct, All, All-map, All-zip, append_assoc, append-nil, Text, codes, decimal, ◌==◌, text_eq,
  text_beq_iff, beq_sym, ok, ◌≡◌, refl, sym, ap, ◌∙◌, arith, if◌then◌else◌, length,
}
use web_checker_py.Time.{DateTime, isoformat}
use web_checker_py.Storage.Tables.{OutboxRow, JobRow, AlertRow}
use web_checker_py.Storage.Failure.{AlertDraft, alert_row}
use web_checker_py.Storage.Backlog.Notices.{rows_of, content, Turned, backlog_alerts-Turned}
use web_checker_py.Storage.Alerting.{job_ids}
use web_checker_py.Storage.Backlog.Flags.{flag_all, flag_all-none, flag_all-set_delivery_active}
use web_checker_py.Storage.Backlog.{
  backlog_key, backlog_draft, pending_of, max_attempts, is_backlog, set_delivery_active, Alerting,
  backlog_loop,
}

-- A job whose flag is down has no backlog alert.
abbrev pub HasNoStale : List JobRow → List AlertRow → Type 0
HasNoStale rows alerts =
    All (λ r. r.delivery_alert_active ≡ false → rows_of (backlog_key r.job_id) alerts ≡ []) rows

-- The job has come to a backlog.
abbrev pub is_new : ℕ → List OutboxRow → JobRow → Bool
is_new alert_after outbox r =
    is_backlog alert_after (pending_of r.job_id outbox) && not r.delivery_alert_active

-- The alerts for the backlog of a job after the call, whatever their ids, from those for it before.
abbrev pub backlog_rows :
    (Text → DateTime) → ℕ → List Text → List OutboxRow → JobRow → List AlertRow → List AlertRow
backlog_rows clock alert_after channels outbox r own =
    let pending = pending_of r.job_id outbox in
    if is_backlog alert_after pending
    then (if r.delivery_alert_active
        then map content own
        else map
            (λ channel. record {
              id = 0;
              alert_key = codes "delivery-backlog:" ++ r.job_id;
              channel = channel;
              job_id = some r.job_id;
              title = codes "Notification delivery backlog: " ++ r.job_id;
              detail =
                  decimal (length pending)
                  ++ (codes " deliveries remain pending; the oldest has failed "
                      ++ (decimal (max_attempts pending) ++ codes " times. Check worker logs."));
              created_at = isoformat (clock r.job_id);
              attempts = 0;
              last_error = none;
              delivered_at = none;
            })
            channels)
    else []

backlog_key-differ : (a b : Text) → (a == b) ≡ false → (backlog_key a == backlog_key b) ≡ false
backlog_key-differ a b h = h

-- The keys of the other jobs differ.
apart :
    (job : Text) (rows : List JobRow)
    → contains (job_ids rows) job ≡ false
    → All (λ r. (backlog_key job == backlog_key r.job_id) ≡ false) rows
apart job [] h = tt
apart job (r ∷ rows) h =
    let other : (job == r.job_id) ≡ false =
      ground (arith, h, text_beq_iff job r.job_id, text_beq_iff r.job_id job) in
    (backlog_key-differ job r.job_id other, apart job rows (ground (arith, h)))

snoc_if :
    (b : Bool) (raised : List Text) (r : JobRow) (rest : List JobRow) (p : JobRow → Bool)
    → p r ≡ b
    → (if b then raised ++ r.job_id ∷ [] else raised) ++ job_ids (filter p rest)
      ≡ raised ++ job_ids (filter p (r ∷ rest))
snoc_if true raised r rest p e =
    rw e (append_assoc raised (r.job_id ∷ []) (job_ids (filter p rest)))
snoc_if false raised r rest p e = rw e

module _ (clock : Text → DateTime) (alert_after : ℕ) (channels : List Text)
    (outbox : List OutboxRow) where
  abbrev pub HasRows : List AlertRow → List AlertRow → JobRow → Type 0
  HasRows before after r =
      map content (rows_of (backlog_key r.job_id) after)
      ≡ backlog_rows clock alert_after channels outbox r (rows_of (backlog_key r.job_id) before)

  -- What the loop leaves of the state.
  pub record Looped (rows : List JobRow) (state after : Alerting) : Type 0 where
    pub raised : after.raised ≡ state.raised ++ job_ids (filter (is_new alert_after outbox) rows)
    pub flags : after.job_status ≡ flag_all alert_after outbox (job_ids rows) state.job_status
    pub own : All (HasRows state.alerts after.alerts) rows
    pub others :
        (key : Text)
        → All (λ r. (backlog_key r.job_id == key) ≡ false) rows
        → rows_of key after.alerts ≡ rows_of key state.alerts

  abbrev draft_of : JobRow → AlertDraft
  draft_of row =
      let pending = pending_of row.job_id outbox in
      backlog_draft row.job_id (isoformat (clock row.job_id)) (length pending)
        (max_attempts pending)

  abbrev turn : JobRow → List AlertRow → Alerting → Alerting
  turn row alerts state =
      let active = is_backlog alert_after (pending_of row.job_id outbox) in
      record {
        raised =
            if active && not row.delivery_alert_active
            then state.raised ++ row.job_id ∷ []
            else state.raised;
        job_status = set_delivery_active row.job_id active state.job_status;
        alerts = alerts;
      }

  abbrev IsTurned : JobRow → List AlertRow → List AlertRow → Type 0
  IsTurned row alerts later =
      Turned (is_backlog alert_after (pending_of row.job_id outbox)) row.delivery_alert_active
        (draft_of row) channels alerts later

  own_rows :
      (row : JobRow) (alerts later : List AlertRow)
      → IsTurned row alerts later
      → HasRows alerts later row
  unfolding backlog_draft alert_row
  own_rows row alerts later t = t.own

  turn-HasNoStale :
      (row : JobRow) (rows : List JobRow) (alerts later : List AlertRow)
      → IsTurned row alerts later
      → contains (job_ids rows) row.job_id ≡ false
      → HasNoStale rows alerts
      → HasNoStale rows later
  unfolding backlog_draft
  turn-HasNoStale row rows alerts later t fresh h =
      All-zip rows (λ r ne none_of down. t.others (backlog_key r.job_id) ne ∙ none_of down)
        (apart row.job_id rows fresh) h

  -- The first turn, and then the others.
  turned-Looped :
      (row : JobRow) (rest : List JobRow) (state after : Alerting) (alerts : List AlertRow)
      → contains (job_ids rest) row.job_id ≡ false
      → IsTurned row state.alerts alerts
      → Looped rest (turn row alerts state) after
      → Looped (row ∷ rest) state after
  unfolding backlog_draft
  turned-Looped row rest state after alerts fresh t l =
      let away = apart row.job_id rest fresh in
      let key = backlog_key row.job_id in
      record {
        raised =
            l.raised
            ∙ snoc_if (is_new alert_after outbox row) state.raised row rest
                (is_new alert_after outbox) refl;
        flags =
            l.flags
            ∙ flag_all-set_delivery_active alert_after outbox row.job_id (job_ids rest)
                state.job_status;
        own = (
          ap (map content)
                (l.others key (All-map rest (λ r e. beq_sym (backlog_key r.job_id) key ∙ e) away))
              ∙ own_rows row state.alerts alerts t,
          All-zip rest
              (λ r ne has.
                has
                ∙ ap (backlog_rows clock alert_after channels outbox r)
                    (t.others (backlog_key r.job_id) ne))
              away l.own,
        );
        others = λ k ne. l.others k ne.1 ∙ t.others k ne.0;
      }

  pub backlog_loop-Looped :
      (rows : List JobRow) (state : Alerting)
      → is_distinct channels ≡ true
      → is_distinct (job_ids rows) ≡ true
      → HasNoStale rows state.alerts
      → (after : Alerting) × (backlog_loop clock alert_after channels outbox rows state ≡ ok after)
        × Looped rows state after
  unfolding backlog_loop backlog_draft
  backlog_loop-Looped [] state d dj h = (
    state,
    refl,
    record {
      raised = sym (append-nil state.raised);
      flags = sym (flag_all-none alert_after outbox state.job_status);
      own = tt;
      others = λ key ne. refl;
    },
  )
  backlog_loop-Looped (row ∷ rest) state d dj h =
      let active = is_backlog alert_after (pending_of row.job_id outbox) in
      let (alerts, t) =
        backlog_alerts-Turned (draft_of row) channels state.alerts active row.delivery_alert_active
          d h.0 in
      let fresh : contains (job_ids rest) row.job_id ≡ false = ground (arith, dj) in
      let (after, e, l) =
        backlog_loop-Looped rest (turn row alerts state) d (ground (arith, dj))
          (turn-HasNoStale row rest state.alerts alerts t fresh h.1) in
      (after, rw t.done e, turned-Looped row rest state after alerts fresh t l)
