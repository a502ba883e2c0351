-- ===== src/Storage/Success/Keeps.antt =====
-- What `record_success` leaves behind: sound references, readable runs, the new snapshot of its job
-- and the old snapshots of the others.
use web_checker_py.Prelude.{
  ℕ, true, false, some, List, All-map, All-append, All-filter, All-zip, All-contains-key, filter,
  filter-append, append-nil, contains, contains-append_left, contains_last, Text, ◌==◌, text_eq,
  nat_eq, ok, ◌≡◌, refl, sym, subst, ◌∙◌, arith, Option-cases, inl, inr, map-append, [], ◌∷◌,
}
use web_checker_py.Time.{isoformat}
use web_checker_py.Core.Models.{CheckResult}
use web_checker_py.Core.Transitions.{OpportunityTransition}
use web_checker_py.Notifications.Models.{NotificationPlan}
use web_checker_py.Storage.Encoding.{JsonCodec}
use web_checker_py.Storage.Tables.{Run, Db, next_id, run_ids, transition_ids}
use web_checker_py.Storage.Tables.Ids.{le-max_of, ne-next_id}
use web_checker_py.Storage.Tables.References.{HasReferences}
use web_checker_py.Storage.Tables.Order.{latest_by-All}
use web_checker_py.Storage.Latest.{read_run, latest_run, get_latest}
use web_checker_py.Storage.Insert.Observations.{observation_rows}
use web_checker_py.Storage.Success.Snapshot.{
  IsComplete, IsFaithful, stored_result, observation_rows-run, select_other, read_run-new,
  latest_run-snoc,
}
use web_checker_py.Storage.Success.Writes.{
  recorded, transition_rows, transition_rows-run, notices_after-Refers,
}
use web_checker_py.Storage.Success.Commits.{IsReadable, IsReadableRun}

module _ (json : JsonCodec) (job_id : Text) (result : CheckResult) (plan : NotificationPlan)
    (ts : List OpportunityTransition) (db : Db) where
  abbrev pub new_run : Run
  new_run = record {
    id = next_id (run_ids db.check_runs);
    job_id = job_id;
    checked_at = isoformat result.checked_at;
  }

  abbrev pub after : Db
  after = recorded json job_id result plan ts db

  abbrev Known : ℕ → Type 0
  Known id = contains (run_ids after.check_runs) id ≡ true

  old-Known : (id : ℕ) → contains (run_ids db.check_runs) id ≡ true → Known id
  old-Known id h =
      rw map-append (contains-append_left (run_ids db.check_runs) (new_run.id ∷ []) id h)

  new-Known : (id : ℕ) → id ≡ new_run.id → Known id
  new-Known id e =
      subst Known (sym e) (rw map-append (contains_last (run_ids db.check_runs) new_run.id))

  pub recorded-HasReferences : HasReferences db → HasReferences after
  recorded-HasReferences h = record {
    observations =
        All-append (λ o. Known o.run_id) db.observations
          (observation_rows json new_run.id 0 result.opportunities)
          (All-map db.observations (λ o. old-Known o.run_id) h.observations)
          (All-map (observation_rows json new_run.id 0 result.opportunities)
            (λ o. new-Known o.run_id)
            (observation_rows-run json new_run.id 0 result.opportunities));
    transitions =
        let rows = transition_rows (next_id (transition_ids db.transitions)) new_run.id ts in
        All-append (λ t. Known t.run_id) db.transitions rows
          (All-map db.transitions (λ t. old-Known t.run_id) h.transitions)
          (All-map rows (λ t. new-Known t.run_id) (transition_rows-run _ new_run.id ts));
    outbox =
        notices_after-Refers plan job_id (isoformat result.checked_at) new_run.id ts db.transitions
          db.outbox h.outbox;
  }

  new_run-ne : (id : ℕ) → contains (run_ids db.check_runs) id ≡ true → (new_run.id == id) ≡ false
  new_run-ne id h = ground (arith, le-max_of (run_ids db.check_runs) id)

  -- A run of before reads as it did.
  read_run-old :
      (run : Run)
      → contains (run_ids db.check_runs) run.id ≡ true
      → read_run json after.observations run ≡ read_run json db.observations run
  unfolding read_run
  read_run-old run h = rw (
      select_other json new_run.id run.id result.opportunities db.observations
        (new_run-ne run.id h))

  read_run-added :
      IsFaithful json
      → IsComplete result
      → HasReferences db
      → read_run json after.observations new_run ≡ ok (stored_result result)
  read_run-added faithful c h = read_run-new json faithful new_run result db.observations c refl (
      All-map db.observations (λ o q. ne-next_id (run_ids db.check_runs) o.run_id q) h.observations)

  pub recorded-IsReadable :
      IsFaithful json
      → IsComplete result
      → HasReferences db
      → IsReadable json db
      → IsReadable json after
  recorded-IsReadable faithful c h readable = record {
    runs =
        All-append (IsReadableRun json after.observations) db.check_runs (new_run ∷ [])
          (All-zip db.check_runs (λ run known (r, reads). (r, read_run-old run known ∙ reads))
            (All-contains-key (λ r. r.id) db.check_runs) readable.runs)
          ((stored_result result, read_run-added faithful c h), tt);
  }

  -- The newest run of the job is the new one.
  pub get_latest-recorded :
      IsFaithful json
      → IsComplete result
      → HasReferences db
      → get_latest json job_id after ≡ ok (some (stored_result result))
  unfolding get_latest
  get_latest-recorded faithful c h =
      rw (latest_run-snoc db.check_runs new_run refl, read_run-added faithful c h)

  known-latest :
      (other : Text) (run : Run)
      → latest_run other db.check_runs ≡ some run
      → contains (run_ids db.check_runs) run.id ≡ true
  known-latest other run e =
      latest_by-All (λ r. contains (run_ids db.check_runs) r.id ≡ true) _
        (filter (λ r. r.job_id == other) db.check_runs) run
        (All-filter (λ r. contains (run_ids db.check_runs) r.id ≡ true) (λ r. r.job_id == other)
          db.check_runs (All-contains-key (λ r. r.id) db.check_runs))
        e

  -- The newest run of another job is the one that it was.
  latest_run-other :
      (other : Text)
      → (job_id == other) ≡ false
      → latest_run other after.check_runs ≡ latest_run other db.check_runs
  latest_run-other other ne =
      rw (filter-append (λ r. r.job_id == other) db.check_runs (new_run ∷ []), ne, append-nil)

  pub get_latest-other :
      (other : Text)
      → (job_id == other) ≡ false
      → get_latest json other after ≡ get_latest json other db
  unfolding get_latest
  get_latest-other other ne =
      rw (latest_run-other other ne) (elim (Option-cases (latest_run other db.check_runs)) [
        | inl e ↦ rw e
        | inr (run, e) ↦ rw (e, read_run-old run (known-latest other run e))
      ])
