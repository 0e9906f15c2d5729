-- ===== src/TaskJournal/Tests.antt =====
-- Histories of a small journal, and each property at one of them.
use ln_church_agent.Common.{arith, List, some, true, ◌∷◌, ◌≡◌, [], none, ◌⊎◌, refl, ◌≢◌}
use ln_church_agent.TaskJournal.Store.{
  Checks, run_calls, Fault, update, dispatch, Call, read_locked, after_replace, no_fault, result,
  commit, offer, freeze, write_locked, attempt, fetch, mutate, valid, before_replace, bind,
  acknowledge,
}
use ln_church_agent.TaskJournal.Types.{
  Target, Payload, TargetState, State, TargetOutcome, new_payload, ManifestOutcome,
}
use ln_church_agent.TaskJournal.Validate.{
  validate_payload, targets_ok, target_ok, progress_ok, state_ok, attempt_progress, result_progress,
  result_prefix,
}
use ln_church_agent.TaskJournal.Atomic.{run_calls-IsSound}
use ln_church_agent.Common.Lists.{length}
use ln_church_agent.TaskJournal.Frozen.{
  SameReport, run_calls-SameReport, run_calls-resume_disposition,
}
use ln_church_agent.TaskJournal.Mutate.{
  resume_disposition, Disposition, mark_offer_rechecked, start_manifest_attempt,
  bind_verified_manifest, new_targets, mark_target_attempt_started, record_target_result,
  freeze_report, mark_completion_dispatch_attempted,
}
use ln_church_agent.TaskJournal.Progress.{IsResult, run_calls-IsResult, run_calls_once}
use ln_church_agent.Common.Outcome.{done}

-- digests are lengths, and every check of contents passes
abbrev lenient : Checks
lenient = record {
  sha256 = λ bytes. length bytes;
  content = λ p. true;
  ack_valid = λ p ack. true;
  status_valid = λ p status. true;
}

-- a manifest of three bytes with one target, attempted
abbrev to_attempt : List (Fault × Call)
to_attempt =
    (no_fault, offer 3)
    ∷ (no_fault, fetch)
    ∷ (no_fault, bind 3 1 (1 ∷ 2 ∷ 3 ∷ []))
    ∷ (no_fault, attempt 0)
    ∷ []

abbrev to_dispatch : List (Fault × Call)
to_dispatch =
    (after_replace, result 0 TargetOutcome.http_response (some 204) (some 5))
    ∷ (no_fault, freeze (7 ∷ 7 ∷ []) 9 ManifestOutcome.retrieved)
    ∷ (no_fault, dispatch)
    ∷ []

abbrev reply : Target
reply = record {
  position = 0;
  state = TargetState.recorded;
  outcome = some TargetOutcome.http_response;
  http_status = some 204;
  elapsed_ms = some 5;
}

-- what these histories leave in a new journal
abbrev dispatched : Payload
dispatched = record {
  state = State.report_frozen;
  sequence = 7;
  manifest_sha256 = some 3;
  manifest_bytes = some (1 ∷ 2 ∷ 3 ∷ []);
  manifest_attempts_started = 1;
  manifest_fetch_outcome = some ManifestOutcome.retrieved;
  target_count = some 1;
  targets = reply ∷ [];
  submission_id = some 9;
  frozen_report_sha256 = some 2;
  frozen_report_bytes = some (7 ∷ 7 ∷ []);
  completion_dispatch_attempts = 1;
  compound_ack = none;
  terminal_status = none;
}

run_all :
    run_calls lenient to_dispatch (run_calls lenient to_attempt (some new_payload))
    ≡ some dispatched
unfolding run_calls update read_locked commit write_locked mutate mark_offer_rechecked
    start_manifest_attempt bind_verified_manifest new_targets mark_target_attempt_started
    record_target_result freeze_report mark_completion_dispatch_attempted validate_payload
    targets_ok target_ok progress_ok attempt_progress result_progress result_prefix state_ok
run_all = refl

dispatched-valid : valid lenient dispatched ≡ true
unfolding validate_payload targets_ok target_ok progress_ok state_ok
dispatched-valid = refl

new_payload-valid : valid lenient new_payload ≡ true
unfolding validate_payload targets_ok target_ok progress_ok state_ok
new_payload-valid = refl

abbrev tampering : List (Fault × Call)
tampering =
    (no_fault, attempt 0)
    ∷ (no_fault, freeze (8 ∷ []) 1 ManifestOutcome.release_timeout)
    ∷ (before_replace, dispatch)
    ∷ (no_fault, acknowledge 4)
    ∷ []

run_calls-IsSound_example :
    (run_calls lenient to_attempt none ≡ none)
    × ((p : Payload)
        → valid lenient p ≡ true
        → (p' : Payload) × (run_calls lenient to_attempt (some p) ≡ some p')
          × (valid lenient p' ≡ true))
run_calls-IsSound_example = run_calls-IsSound lenient to_attempt

run_calls-SameReport_example :
    (p' : Payload) × (run_calls lenient tampering (some dispatched) ≡ some p')
    × SameReport dispatched p'
run_calls-SameReport_example = run_calls-SameReport lenient tampering dispatched refl

run_calls-resume_disposition_example :
    (p' : Payload) × (run_calls lenient tampering (some dispatched) ≡ some p')
    × ((resume_disposition p' ≡ Disposition.completion_status_first)
        ⊎ (resume_disposition p' ≡ Disposition.status_only))
run_calls-resume_disposition_example =
    run_calls-resume_disposition lenient tampering dispatched dispatched-valid (omega arith)

run_calls-IsResult_example :
    (p' : Payload) × (run_calls lenient tampering (some dispatched) ≡ some p') × IsResult 0 reply p'
run_calls-IsResult_example = run_calls-IsResult lenient tampering dispatched 0 reply (refl, refl)

-- a journal whose one target may be attempted
abbrev fetched : Payload
fetched = record new_payload {
  state = State.manifest_verified;
  sequence = 3;
  manifest_sha256 = some 3;
  manifest_bytes = some (1 ∷ 2 ∷ 3 ∷ []);
  manifest_attempts_started = 1;
  manifest_fetch_outcome = some ManifestOutcome.retrieved;
  target_count = some 1;
  targets =
      record {
        position = 0;
        state = TargetState.unstarted;
        outcome = none;
        http_status = none;
        elapsed_ms = none;
      }
      ∷ [];
}

abbrev started : Payload
started = record fetched {
  state = State.attempt_started;
  sequence = 4;
  targets =
      record {
        position = 0;
        state = TargetState.attempted;
        outcome = none;
        http_status = none;
        elapsed_ms = none;
      }
      ∷ [];
}

attempt-started : (update lenient no_fault (attempt 0) (some fetched)).0 ≡ done started
unfolding update read_locked commit write_locked mutate mark_target_attempt_started validate_payload
    targets_ok target_ok progress_ok attempt_progress result_progress result_prefix state_ok
attempt-started = refl

run_calls_once_example :
    let disk = (update lenient no_fault (attempt 0) (some fetched)).1 in
    (update lenient no_fault (attempt 0) (run_calls lenient to_dispatch disk)).0 ≢ done started
run_calls_once_example =
    run_calls_once lenient no_fault (some fetched) started 0 to_dispatch no_fault started
      attempt-started
