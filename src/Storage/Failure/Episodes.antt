-- ===== src/Storage/Failure/Episodes.antt =====
-- An episode of consecutive failures of one job, and when it raises its alert.
use web_checker_py.Prelude.{
  ℕ, suc, ◌+◌, Bool, true, false, not, ◌&&◌, ◌||◌, List, [], ◌∷◌, ◌++◌, append-nil, is_distinct,
  Text, ◌==◌, nat_eq, text_eq, Result, ok, ◌≡◌, refl, sym, subst, ◌∙◌, ap, leb, arith, ◌≤◌,
  Bool-cases, inl, inr, if◌then◌else◌,
}
use web_checker_py.Time.{DateTime, isoformat}
use web_checker_py.Storage.Tables.{AlertRow, Db, next_id, alert_ids}
use web_checker_py.Storage.Latest.{StorageError}
use web_checker_py.Storage.Failure.{record_check_failure}
use web_checker_py.Storage.Failure.Rows.{failures, is_active}
use web_checker_py.Storage.Failure.Steps.{episode_alerts, passes, record_check_failure_lem}
use web_checker_py.Storage.Alerting.{IsJustified}

-- One terminal failure of a scheduled check.
pub record CheckFailure : Type 0 where
  pub error : Text
  pub occurred_at : DateTime

-- What `record_check_failure` returns for each failure of a list, in order.
unfoldable pub returned :
    Text → ℕ → List Text → List CheckFailure → Db → List (Result StorageError Bool)
returned job alert_after channels [] db = []
returned job alert_after channels (f ∷ fs) db =
    let (result, after) = record_check_failure job f.error f.occurred_at alert_after channels db in
    result ∷ returned job alert_after channels fs after

-- Only the failure with the number of the threshold raises an alert.
unfoldable pub only_at : ℕ → ℕ → List CheckFailure → List (Result StorageError Bool)
only_at alert_after count [] = []
only_at alert_after count (f ∷ fs) =
    ok (suc count == alert_after) ∷ only_at alert_after (suc count) fs

-- The store after these failures.
unfoldable pub after_failures : Text → ℕ → List Text → List CheckFailure → Db → Db
after_failures job alert_after channels [] db = db
after_failures job alert_after channels (f ∷ fs) db =
    after_failures job alert_after channels fs
      (record_check_failure job f.error f.occurred_at alert_after channels db).1

-- The alerts of the failure with the number of the threshold, where it is among the failures.
unfoldable pub alerts_at : Text → ℕ → List Text → ℕ → List CheckFailure → ℕ → List AlertRow
alerts_at job alert_after channels count [] id = []
alerts_at job alert_after channels count (f ∷ fs) id =
    let later = alerts_at job alert_after channels (suc count) fs id in
    if suc count == alert_after
    then episode_alerts job f.error (isoformat f.occurred_at) (count + 1) channels id
    else later

raises_at : (a n : ℕ) → (leb a (n + 1) && not (leb a n)) ≡ (suc n == a)
raises_at a n = ground arith

stays : (a n : ℕ) → (leb a n || (suc n == a)) ≡ leb a (n + 1)
stays a n = ground arith

zero_below : (a : ℕ) → 1 ≤ a → false ≡ leb a 0
zero_below a h = ground arith

past : (a n : ℕ) → a ≤ n → (suc n == a) ≡ false
past a n h = ground arith

module _ (job : Text) (alert_after : ℕ) (channels : List Text)
    (d : is_distinct channels ≡ true) where
  no_more_alerts :
      (count : ℕ) (fs : List CheckFailure) (id : ℕ)
      → alert_after ≤ count
      → alerts_at job alert_after channels count fs id ≡ []
  unfolding alerts_at
  no_more_alerts count [] id h = refl
  no_more_alerts count (f ∷ fs) id h =
      rw (past alert_after count h) (no_more_alerts (suc count) fs id (omega arith))

  -- What holds of a whole episode, from a count on.
  abbrev IsEpisode : ℕ → List CheckFailure → Db → Type 0
  IsEpisode count fs db =
      (returned job alert_after channels fs db ≡ only_at alert_after count fs)
      × ((after_failures job alert_after channels fs db).alerts
          ≡ db.alerts
            ++ alerts_at job alert_after channels count fs (next_id (alert_ids db.alerts)))

  -- The alerts of the first failure, then those of the others.
  join_alerts :
      (count : ℕ) (f : CheckFailure) (fs : List CheckFailure) (db after : Db)
      (final : List AlertRow)
      → after.alerts
        ≡ db.alerts
          ++ (if suc count == alert_after
              then episode_alerts job f.error
                  (isoformat f.occurred_at)
                  (count + 1)
                  channels
                  (next_id (alert_ids db.alerts))
              else [])
      → final
        ≡ after.alerts
          ++ alerts_at job alert_after channels (suc count) fs (next_id (alert_ids after.alerts))
      → final
        ≡ db.alerts
          ++ alerts_at job alert_after channels count (f ∷ fs) (next_id (alert_ids db.alerts))
  unfolding alerts_at
  join_alerts count f fs db after final h rest = elim (Bool-cases (suc count == alert_after)) [
    | inl e ↦
        let none_left =
          no_more_alerts (suc count) fs (next_id (alert_ids after.alerts)) (ground (arith, e)) in
        rw e
          (rest ∙ ap (λ rows. after.alerts ++ rows) none_left ∙ append-nil after.alerts ∙ rw e at h)
    | inr e ↦
        let same : after.alerts ≡ db.alerts = (rw e at h) ∙ append-nil db.alerts in
        rw e (
          rest
          ∙ ap
              (λ rows.
                rows
                ++ alerts_at job alert_after channels (suc count) fs (next_id (alert_ids rows)))
              same)
  ]

  returned-only_at_count :
      (fs : List CheckFailure) (db : Db)
      → IsJustified db
      → is_active job db.job_status ≡ leb alert_after (failures job db.job_status)
      → IsEpisode (failures job db.job_status) fs db
  unfolding returned only_at after_failures alerts_at
  returned-only_at_count [] db h flag = (refl, sym (append-nil db.alerts))
  returned-only_at_count (f ∷ fs) db h flag =
      let n = failures job db.job_status in
      let (result, failed) =
        record_check_failure_lem job f.error f.occurred_at alert_after channels db h d in
      let after = (record_check_failure job f.error f.occurred_at alert_after channels db).1 in
      let same : passes job f.error f.occurred_at alert_after channels db ≡ (suc n == alert_after) =
        rw flag (raises_at alert_after n) in
      let next : is_active job after.job_status ≡ leb alert_after (failures job after.job_status) =
        rw (failed.flagged, failed.counted, same, flag) (stays alert_after n) in
      let count : failures job after.job_status ≡ suc n = failed.counted ∙ omega arith in
      let rest : IsEpisode (suc n) fs after =
        subst (λ k. IsEpisode k fs after) count
          (returned-only_at_count fs after failed.justified next) in
      (
        rw (result, same, rest.0) refl,
        join_alerts n f fs db after (after_failures job alert_after channels fs after).alerts
            (rw same at failed.alerts) rest.1,
      )

  -- In an episode of consecutive failures of one job that starts with none counted and its flag
  -- down, with distinct channels and a threshold of at least 1, on a store whose jobs are distinct
  -- and whose alerts all have a reason, every failure is recorded, and exactly the failure with the
  -- number of the threshold returns that it raised an alert. After the episode the alerts are those
  -- there were and, if it reached the threshold, one undelivered row for each channel, with the
  -- threshold as the count, and the error and the time of that failure.
  pub returned-only_at :
      (fs : List CheckFailure) (db : Db)
      → IsJustified db
      → failures job db.job_status ≡ 0
      → is_active job db.job_status ≡ false
      → 1 ≤ alert_after
      → (returned job alert_after channels fs db ≡ only_at alert_after 0 fs)
        × ((after_failures job alert_after channels fs db).alerts
            ≡ db.alerts ++ alerts_at job alert_after channels 0 fs (next_id (alert_ids db.alerts)))
  returned-only_at fs db h none_yet off positive =
      subst (λ k. IsEpisode k fs db) none_yet
        (returned-only_at_count fs db h (rw (none_yet, off) (zero_below alert_after positive)))
