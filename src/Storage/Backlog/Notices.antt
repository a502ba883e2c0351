-- ===== src/Storage/Backlog/Notices.antt =====
-- The alerts that one turn of the loop of `raise_delivery_backlog_alerts` of web_checker/storage.py
-- leaves.
use web_checker_py.Prelude.{
  ℕ, suc, Bool, true, false, List, [], ◌∷◌, ◌++◌, map, filter, filter-append, filter-eq-nil,
  filter-All, append-nil, is_distinct, All, All-map, Text, ◌==◌, text_eq, text_beq_iff, ok, ◌≡◌,
  refl, ap, Bool-cases, inl, inr, if◌then◌else◌,
}
use web_checker_py.Storage.Tables.{AlertRow, next_id, alert_ids}
use web_checker_py.Storage.Failure.{AlertDraft, alert_row}
use web_checker_py.Storage.Failure.Rows.{alert_rows, alert_rows-key, enqueue_alert-eq}
use web_checker_py.Storage.Backlog.{without_key, backlog_alerts}

-- The alerts with a key.
abbrev pub rows_of : Text → List AlertRow → List AlertRow
rows_of key alerts = filter (λ a. a.alert_key == key) alerts

-- An alert whatever its id.
abbrev pub content : AlertRow → AlertRow
content a = record a { id = 0 }

-- The alerts of a draft, one for each channel.
abbrev pub drafted : AlertDraft → List Text → List AlertRow
drafted draft channels = map (λ channel. alert_row draft channel 0) channels

-- The alerts with the key of the draft, from those before.
abbrev pub turned : Bool → Bool → AlertDraft → List Text → List AlertRow → List AlertRow
turned active flag draft channels own =
    if active then (if flag then map content own else drafted draft channels) else []

content-alert_rows :
    (draft : AlertDraft) (channels : List Text) (id : ℕ)
    → map content (alert_rows draft channels id) ≡ drafted draft channels
unfolding alert_row
content-alert_rows draft [] id = refl
content-alert_rows draft (c ∷ cs) id =
    ap (λ rows. content (alert_row draft c 0) ∷ rows) (content-alert_rows draft cs (suc id))

no_rows :
    (key : Text) (alerts : List AlertRow)
    → rows_of key alerts ≡ []
    → All (λ a. (a.alert_key == key) ≡ false) alerts
no_rows key [] h = tt
no_rows key (a ∷ alerts) h = elim (Bool-cases (a.alert_key == key)) [
  | inl e ↦ let impossible : a ∷ rows_of key alerts ≡ [] = rw e at h in cc
  | inr e ↦ (e, no_rows key alerts (rw e at h))
]

without_own : (key : Text) (alerts : List AlertRow) → rows_of key (without_key key alerts) ≡ []
without_own key [] = refl
without_own key (a ∷ alerts) = elim (Bool-cases (a.alert_key == key)) [
  | inl e ↦ rw e (without_own key alerts)
  | inr e ↦ rw (e, e) (without_own key alerts)
]

without_other :
    (key other : Text) (alerts : List AlertRow)
    → (key == other) ≡ false
    → rows_of other (without_key key alerts) ≡ rows_of other alerts
without_other key other [] h = refl
without_other key other (a ∷ alerts) h = elim (Bool-cases (a.alert_key == key)) [
  | inl e ↦
      let same : a.alert_key ≡ key = (text_beq_iff a.alert_key key).0 e in
      let not_it : (a.alert_key == other) ≡ false = rw same h in
      rw (e, not_it) (without_other key other alerts h)
  | inr e ↦ rw e (elim (Bool-cases (a.alert_key == other)) [
    | inl f ↦ rw f (ap (λ rows. a ∷ rows) (without_other key other alerts h))
    | inr f ↦ rw f (without_other key other alerts h)
  ])
]

-- What a turn leaves: the alerts with the key of the draft, and those with other keys.
pub record Turned (active flag : Bool) (draft : AlertDraft) (channels : List Text)
    (alerts later : List AlertRow) : Type 0 where
  pub done : backlog_alerts active flag draft channels alerts ≡ ok later
  pub own :
      map content (rows_of draft.key later)
      ≡ turned active flag draft channels (rows_of draft.key alerts)
  pub others : (key : Text) → (draft.key == key) ≡ false → rows_of key later ≡ rows_of key alerts

module _ (draft : AlertDraft) (channels : List Text) (alerts : List AlertRow) where
  abbrev new_rows : List AlertRow
  new_rows = alert_rows draft channels (next_id (alert_ids alerts))

  raised-Turned :
      is_distinct channels ≡ true
      → rows_of draft.key alerts ≡ []
      → Turned true false draft channels alerts (alerts ++ new_rows)
  unfolding backlog_alerts
  raised-Turned d h = record {
    done = enqueue_alert-eq draft channels alerts d (no_rows draft.key alerts h);
    own =
        rw
          (
            filter-append (λ a. a.alert_key == draft.key) alerts new_rows,
            h,
            filter-All (λ a. a.alert_key == draft.key) new_rows
                (All-map new_rows (λ a e. (text_beq_iff a.alert_key draft.key).1 e)
                  (alert_rows-key draft channels (next_id (alert_ids alerts)))),
          )
          (content-alert_rows draft channels (next_id (alert_ids alerts)));
    others = λ key ne.
        rw
          (
            filter-append (λ a. a.alert_key == key) alerts new_rows,
            filter-eq-nil (λ a. a.alert_key == key) new_rows
                (All-map new_rows (λ a e. rw e ne)
                  (alert_rows-key draft channels (next_id (alert_ids alerts)))),
            append-nil (rows_of key alerts),
          )
          refl;
  }

  -- A turn goes through where a job without a raised flag has no alert.
  pub backlog_alerts-Turned :
      (active flag : Bool)
      → is_distinct channels ≡ true
      → (flag ≡ false → rows_of draft.key alerts ≡ [])
      → (later : List AlertRow) × Turned active flag draft channels alerts later
  unfolding backlog_alerts
  backlog_alerts-Turned true false d h = (alerts ++ new_rows, raised-Turned d (h refl))
  backlog_alerts-Turned false true d h = (
    without_key draft.key alerts,
    record {
      done = refl;
      own = ap (map content) (without_own draft.key alerts);
      others = λ key ne. without_other draft.key key alerts ne;
    },
  )
  backlog_alerts-Turned true true d h =
      (alerts, record { done = refl; own = refl; others = λ key ne. refl })
  backlog_alerts-Turned false false d h =
      (alerts, record { done = refl; own = ap (map content) (h refl); others = λ key ne. refl })
