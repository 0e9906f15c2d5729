-- ===== src/Batch/Tests.antt =====
-- Executions of a manifest of two targets, and each property at one history of them.
use ln_church_agent.Common.{
  List, true, false, some, ◌≤◌, if◌then◌else◌, [], ◌-◌, ◌==◌, ◌∷◌, refl, ◌≡◌,
}
use ln_church_agent.Batch.Types.{
  Site, ExecutionContext, Surroundings, World, urls, manifest_failed, NetError, manifest_response,
  target_response, target_failed, journal, load, request, target_request, manifest_request,
}
use ln_church_agent.TaskJournal.Types.{Payload, new_payload, State}
use ln_church_agent.Batch.Execute.{
  run_executions, Run, execute, start_run, execute_payload, execute_from, after_fetch,
  resume_manifest, execute_manifest, freeze_report_of, freeze_bound_report,
}
use ln_church_agent.Batch.Once.{target_requests, run_executions_once}
use ln_church_agent.Batch.Attempts.{manifest_requests, run_executions_manifest_bound}
use ln_church_agent.Common.Lists.{length}
use ln_church_agent.TaskJournal.Store.{
  write_locked, Fault, no_fault, before_replace, update, read_locked, commit, write_locked, mutate,
}
use ln_church_agent.Batch.Manifest.{
  fetch_manifest, fetch_loop, attempt_fetch, settle_reply, check_body, bind_manifest,
}
use ln_church_agent.Batch.Targets.{
  execute_targets, close_interrupted, run_targets, target_loop, execute_target, attempt_target,
  journal_results, interrupted,
}
use ln_church_agent.TaskJournal.Mutate.{
  start_manifest_attempt, bind_verified_manifest, new_targets, mark_target_attempt_started,
  record_target_result, freeze_report,
}
use ln_church_agent.TaskJournal.Validate.{
  validate_payload, targets_ok, target_ok, progress_ok, attempt_progress, result_progress,
  result_prefix, state_ok,
}

-- digests are lengths, a manifest of n bytes has n - 1 URLs, and every check of contents passes
abbrev site : Site
site = record {
  checks = record {
    sha256 = λ bytes. length bytes;
    content = λ p. true;
    ack_valid = λ p ack. true;
    status_valid = λ p status. true;
  };
  check_manifest = λ bytes digest. urls (length bytes - 1);
  encode = λ submission outcome results. submission ∷ [];
}

abbrev context : ExecutionContext
context = record { manifest_sha256 = 3; execution_available = true }

-- the first attempt at the manifest fails, the second succeeds; target 1 does not answer
abbrev calm : Surroundings
calm = record {
  out_of_time = λ i. false;
  just_released = λ i. false;
  manifest_reply = λ i.
      if i == 0 then manifest_failed NetError.timeout else manifest_response 200 (1 ∷ 2 ∷ 3 ∷ []);
  past_cutoff = λ i. false;
  target_reply = λ i. if i == 0 then target_response 204 else target_failed NetError.dns_error;
  elapsed = λ i. 7;
  submission_id = 9;
}

abbrev offered : Payload
offered = record new_payload { state = State.offer_rechecked; manifest_sha256 = some 3 }

-- the write after the request of target 0 fails, so that the first execution stops there
abbrev interrupting : List Fault
interrupting = no_fault ∷ no_fault ∷ no_fault ∷ no_fault ∷ before_replace ∷ []

abbrev started : World
started = record { disk = some offered; faults = interrupting; requests = [] }

abbrev runs : List Run
runs = start_run context calm ∷ start_run context calm ∷ start_run context calm ∷ []

-- the second execution takes target 0 for indeterminate, requests target 1 and freezes the report
runs_requests :
    (run_executions site runs started).requests
    ≡ target_request 1 ∷ target_request 0 ∷ manifest_request ∷ manifest_request ∷ []
unfolding run_executions execute execute_payload execute_from fetch_manifest fetch_loop
    attempt_fetch settle_reply check_body bind_manifest after_fetch resume_manifest execute_manifest
    execute_targets close_interrupted run_targets target_loop execute_target attempt_target
    journal_results interrupted freeze_report_of freeze_bound_report journal load request update
    read_locked commit write_locked mutate start_manifest_attempt bind_verified_manifest new_targets
    mark_target_attempt_started record_target_result freeze_report validate_payload targets_ok
    target_ok progress_ok attempt_progress result_progress result_prefix state_ok
runs_requests = refl

run_executions_once_example : target_requests 0 (run_executions site runs started).requests ≤ 1
run_executions_once_example = run_executions_once site runs (some offered) interrupting 0

run_executions_manifest_bound_example :
    manifest_requests (run_executions site runs started).requests ≤ 3
run_executions_manifest_bound_example =
    run_executions_manifest_bound site runs interrupting offered refl
