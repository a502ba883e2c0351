-- ===== src/Storage/Success/Told.antt =====
-- What the outcome of `record_success` of web_checker/storage.py tells of an opportunity, from the
-- snapshots before and after alone.
use web_checker_py.Prelude.{
  true, false, not, Option, none, some, List, [], ◌∷◌, filter, map, contains, is_distinct, is_none,
  Text, ◌==◌, text_eq, text_beq_iff, ok, ◌≡◌, refl, ◌∙◌, ap, subst, arith, Bool-cases, inl, inr,
  if◌then◌else◌, ok-injective, some-injective, bind-eq-ok, raise_if-eq-ok, map_err-eq-ok, order_by,
  ltb, nat_eq, ◌>>=◌,
}
use web_checker_py.Core.Models.{
  available, Opportunity, CheckResult, ids, make_check_result, naive_time, duplicate_ids,
}
use web_checker_py.Core.Transitions.{
  OpportunityTransition, initially_available, availability_beq, availability_eq, get_by_id,
  detect_initial_transitions,
}
use web_checker_py.Core.Transitions.Spec.{about, expected, detect_transitions-expected}
use web_checker_py.Time.{fromisoformat}
use web_checker_py.Storage.Encoding.{JsonCodec}
use web_checker_py.Storage.Tables.{Run, Observation, Db}
use web_checker_py.Storage.Latest.{
  unreadable, decoded, read_opportunities, read_run, read_latest, latest_run, get_latest,
}
use web_checker_py.Storage.Success.{compare_with, RecordOutcome}

-- What a first check tells of an opportunity: that it is available.
unfoldable pub first_seen : Option Opportunity → List OpportunityTransition
first_seen none = []
first_seen (some o) =
    if availability_beq o.availability available
    then record {
      type = initially_available;
      opportunity_id = o.id;
      previous = none;
      current = some o;
    }
      ∷ []
    else []

-- The outcome of a check, id by id: of a first check, or of one with a snapshot before it.
unfoldable pub Tells : Option CheckResult → CheckResult → RecordOutcome → Type 0
Tells none result outcome =
    (outcome.baseline_created ≡ true)
    × ((key : Text)
        → about key outcome.transitions ≡ first_seen (get_by_id key result.opportunities))
Tells (some previous) result outcome =
    (outcome.baseline_created ≡ false)
    × ((key : Text)
        → about key outcome.transitions
          ≡ expected (get_by_id key previous.opportunities) (get_by_id key result.opportunities))

get-eq-none :
    (key : Text) (items : List Opportunity)
    → contains (ids items) key ≡ false
    → get_by_id key items ≡ none
get-eq-none key [] h = refl
get-eq-none key (o ∷ rest) h = ground (arith, get-eq-none key rest)

abbrev initial : List Opportunity → List OpportunityTransition
initial os =
    map
      (λ o. record {
        type = initially_available;
        opportunity_id = o.id;
        previous = none;
        current = some o;
      })
      (filter (λ o. o.availability == available) os)

about-initial :
    (key : Text) (items : List Opportunity)
    → is_distinct (ids items) ≡ true
    → about key (initial items) ≡ first_seen (get_by_id key items)
unfolding first_seen
about-initial key [] h = refl
about-initial key (o ∷ rest) h = elim (Bool-cases (o.id == key)) [
  | inl same ↦
      let e : o.id ≡ key = (text_beq_iff o.id key).0 same in
      ground (arith, about-initial key rest, get-eq-none o.id rest, e)
  | inr other ↦ ground (arith, about-initial key rest)
]

make_check_result-distinct :
    (c r : CheckResult) → make_check_result c ≡ ok r → is_distinct (ids r.opportunities) ≡ true
unfolding make_check_result
make_check_result-distinct c r h =
    let (time, h1) = raise_if-eq-ok (is_none c.checked_at.utcoffset) naive_time _ h in
    let (distinct, h2) =
      raise_if-eq-ok (not (is_distinct (ids c.opportunities))) duplicate_ids _ h1 in
    let same : c ≡ r = ok-injective c r h2 in
    subst (λ x. is_distinct (ids x.opportunities) ≡ true) same (ground (arith, distinct))

read_run-distinct :
    (json : JsonCodec) (observations : List Observation) (run : Run) (r : CheckResult)
    → read_run json observations run ≡ ok r
    → is_distinct (ids r.opportunities) ≡ true
unfolding read_run
read_run-distinct json observations run r h =
    let rows =
      order_by (λ a b. ltb a.position b.position) (filter (λ o. o.run_id == run.id) observations) in
    let (os, e1, h1) =
      bind-eq-ok (read_opportunities json rows)
        (λ os. do
          at ← decoded (fromisoformat run.checked_at)
          make_check_result (record { checked_at = at; opportunities = os }))
        h in
    let (at, e2, h2) =
      bind-eq-ok (decoded (fromisoformat run.checked_at))
        (λ at. make_check_result (record { checked_at = at; opportunities = os })) h1 in
    make_check_result-distinct (record { checked_at = at; opportunities = os }) r h2

read_latest-distinct :
    (json : JsonCodec) (observations : List Observation) (run : Option Run) (r : CheckResult)
    → read_latest json observations run ≡ ok (some r)
    → is_distinct (ids r.opportunities) ≡ true
read_latest-distinct json observations none r h = cc
read_latest-distinct json observations (some run) r h =
    let (x, e, h1) = bind-eq-ok (read_run json observations run) (λ x. ok (some x)) h in
    let same : x ≡ r = some-injective x r (ok-injective (some x) (some r) h1) in
    read_run-distinct json observations run r (e ∙ ap ok same)

-- A snapshot that is read back has distinct ids.
get_latest-distinct :
    (json : JsonCodec) (job_id : Text) (db : Db) (r : CheckResult)
    → get_latest json job_id db ≡ ok (some r)
    → is_distinct (ids r.opportunities) ≡ true
unfolding get_latest
get_latest-distinct json job_id db r h =
    read_latest-distinct json db.observations (latest_run job_id db.check_runs) r (
      map_err-eq-ok unreadable (read_latest json db.observations (latest_run job_id db.check_runs))
        h)

-- The outcome of a recorded check tells of every opportunity what the snapshots do.
pub compare_with-Tells :
    (json : JsonCodec) (job_id : Text) (db : Db) (previous : Option CheckResult)
    (result : CheckResult)
    → get_latest json job_id db ≡ ok previous
    → is_distinct (ids result.opportunities) ≡ true
    → Tells previous result
        (record { baseline_created = is_none previous; transitions = compare_with previous result })
unfolding Tells detect_initial_transitions
compare_with-Tells json job_id db none result e d =
    (refl, λ key. about-initial key result.opportunities d)
compare_with-Tells json job_id db (some previous) result e d = (
  refl,
  λ key.
      detect_transitions-expected previous result key
        (get_latest-distinct json job_id db previous e) d,
)
