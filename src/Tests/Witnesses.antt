-- ===== src/Tests/Witnesses.antt =====
-- Each theorem at an input that meets its hypotheses.
use web_checker_py.Prelude.{
  true, false, Option, none, some, [], ◌∷◌, ◌++◌, map, Text, codes, text_eq, refl, ◌≡◌, ◌↔◌, ok,
  All, arith,
}
use web_checker_py.Core.Models.{CheckResult}
use web_checker_py.Core.Transitions.{get_by_id, detect_transitions}
use web_checker_py.Core.Transitions.Spec.{about, expected, detect_transitions-expected}
use web_checker_py.Core.Transitions.Replay.{
  view, replay, replay-detect_transitions, detect_transitions-eq-nil,
}
use web_checker_py.Core.Transitions.Valid.{IsValid, detect_transitions-IsValid}
use web_checker_py.Storage.Tables.{empty, latest_by}
use web_checker_py.Storage.Latest.{get_latest}
use web_checker_py.Storage.Success.{RecordOutcome, compare_with, record_success}
use web_checker_py.Storage.Success.Snapshot.{stored_result}
use web_checker_py.Storage.Success.Told.{Tells}
use web_checker_py.Storage.Success.Queue.{delivery, all_asked, outbox-record_success}
use web_checker_py.Storage.Success.Contract.{
  IsSound, record_success-IsSound, get_latest-record_success, get_latest-record_success_other,
}
use web_checker_py.Storage.Failure.{record_check_failure}
use web_checker_py.Storage.Failure.Steps.{Failed, record_check_failure_lem}
use web_checker_py.Storage.Failure.Episodes.{
  returned, only_at, after_failures, alerts_at, returned-only_at,
}
use web_checker_py.Tests.Codec.{codec, codec-IsFaithful}
use web_checker_py.Tests.Data.{
  first_check, second_check, job, plan, first_check-IsComplete, empty-IsSound, empty-IsJustified,
  three_failures, at_second,
}

detect_transitions-expected_example :
    about (codes "a") (detect_transitions first_check second_check)
    ≡ expected
        (get_by_id (codes "a") first_check.opportunities)
        (get_by_id (codes "a") second_check.opportunities)
detect_transitions-expected_example =
    detect_transitions-expected first_check second_check (codes "a") refl refl

replay-detect_transitions_example :
    replay (detect_transitions first_check second_check) (view first_check) (codes "b")
    ≡ view second_check (codes "b")
replay-detect_transitions_example =
    replay-detect_transitions first_check second_check (codes "b") refl refl

detect_transitions-eq-nil_example :
    (detect_transitions first_check second_check ≡ [])
    ↔ ((key : Text) → view first_check key ≡ view second_check key)
detect_transitions-eq-nil_example = detect_transitions-eq-nil first_check second_check refl refl

detect_transitions-IsValid_example : All IsValid (detect_transitions first_check second_check)
detect_transitions-IsValid_example = detect_transitions-IsValid first_check second_check

record_success-IsSound_example :
    (previous : Option CheckResult) × (get_latest codec job empty ≡ ok previous)
    × (outcome : RecordOutcome) × ((record_success codec job first_check plan empty).0 ≡ ok outcome)
    × Tells previous first_check outcome
    × IsSound codec (record_success codec job first_check plan empty).1
record_success-IsSound_example =
    record_success-IsSound codec codec-IsFaithful job first_check plan empty empty-IsSound
      first_check-IsComplete refl

get_latest-record_success_example :
    get_latest codec job (record_success codec job first_check plan empty).1
    ≡ ok (some (stored_result first_check))
get_latest-record_success_example =
    get_latest-record_success codec codec-IsFaithful job first_check plan empty empty-IsSound
      first_check-IsComplete refl

get_latest-record_success_other_example :
    get_latest codec (codes "other") (record_success codec job first_check plan empty).1
    ≡ get_latest codec (codes "other") empty
get_latest-record_success_other_example =
    get_latest-record_success_other codec codec-IsFaithful job first_check plan empty empty-IsSound
      first_check-IsComplete refl (codes "other") refl

outbox-record_success_example :
    map delivery (record_success codec job first_check plan empty).1.outbox
    ≡ map delivery [] ++ all_asked plan job (compare_with none first_check)
unfolding get_latest latest_by
outbox-record_success_example =
    outbox-record_success codec job first_check plan empty none empty-IsSound.references
      first_check-IsComplete refl refl

record_check_failure_lem_example :
    ((record_check_failure job (codes "timeout") (at_second 1) 1 plan.channels empty).0 ≡ ok true)
    × Failed job
        (codes "timeout")
        (at_second 1)
        plan.channels
        empty
        (record_check_failure job (codes "timeout") (at_second 1) 1 plan.channels empty).1
        true
record_check_failure_lem_example =
    record_check_failure_lem job (codes "timeout") (at_second 1) 1 plan.channels empty
      empty-IsJustified refl

returned-only_at_example :
    (returned job 2 plan.channels three_failures empty ≡ ok false ∷ ok true ∷ ok false ∷ [])
    × ((after_failures job 2 plan.channels three_failures empty).alerts
        ≡ alerts_at job 2 plan.channels 0 three_failures 1)
unfolding only_at
returned-only_at_example =
    returned-only_at job 2 plan.channels refl three_failures empty empty-IsJustified refl refl
      (omega arith)
