-- ===== src/Trial/Journal.antt =====
-- The methods of `PaidServiceTrialJournal` (ln_church_agent/paid_service_trial_journal.py).
use ln_church_agent.Common.{
  ℕ, Option, if◌then◌else◌, Bool, none, true, leb, not, false, some, ◌&&◌, is_none, ◌==◌, opt_eq,
  ◌||◌, ◌+◌,
}
use ln_church_agent.Trial.Types.{
  TrialClaim, TrialFile, TrialReport, HttpOutcome, Evaluation, TrialResult, TrialState, is_claimed,
  TrialError, TrialWorld, TrialMethod, evaluated, has_result, is_prepared, is_dispatch_reserved,
  is_final, RejectionCode, unlisted,
}
use ln_church_agent.Common.Outcome.{
  Outcome, done, raised, when◌run◌otherwise◌, ◌>>=◌, ◌>>◌, raise, raise_if,
}
use ln_church_agent.TaskJournal.Store.{Fault, no_fault, before_replace, after_replace}
use ln_church_agent.Batch.Types.{later_faults, next_fault}

abbrev status_ok : Option ℕ → Bool
status_ok none = true
status_ok (some n) = leb 100 n && leb n 599

abbrev result_ok : TrialClaim → TrialState → TrialReport → Option TrialResult → Bool
result_ok claim st r none = not (has_result st)
result_ok claim st r (some result) = claim.result_bound result r.report_sha256

-- the conditions on the report and what depends on it
abbrev report_ok : TrialClaim → TrialFile → Option TrialReport → Bool
report_ok claim d none =
    is_claimed d.state
    && not d.paid_dispatch_reserved
    && is_none d.report_sha256
    && is_none d.payload_digest
    && is_none d.transaction_hash
    && is_none d.result
    && d.completion_attempts == 0
report_ok claim d (some r) =
    claim.report_bound r
    && not (is_none d.payload_digest)
    && opt_eq d.report_sha256 (some r.report_sha256)
    && is_none r.transaction_hash
    && not (is_claimed d.state)
    && (is_prepared d.state || d.paid_dispatch_reserved)
    && result_ok claim d.state r d.result

abbrev code_ok : Option RejectionCode → Bool
code_ok (some (unlisted _)) = false
code_ok _ = true

-- `_validate`
unfoldable pub validate : TrialClaim → TrialFile → Bool
validate claim d =
    leb d.completion_attempts 3
    && status_ok d.http_status
    && code_ok d.rejection
    && report_ok claim d d.report

abbrev pub Update : Type 0
Update = TrialFile → Outcome TrialError TrialFile

abbrev pub conflict : Outcome TrialError TrialFile
conflict = raised TrialError.trial_conflict

-- `_write` of the file, with the fault that it meets
abbrev pub write_file : Fault → TrialFile → TrialWorld → Outcome TrialError (Unit {0}) × TrialWorld
write_file no_fault d w = (done tt, record w { file = d; faults = later_faults w.faults })
write_file before_replace d w =
    (raised TrialError.trial_persistence, record w { faults = later_faults w.faults })
write_file after_replace d w =
    (raised TrialError.trial_persistence, record w { file = d; faults = later_faults w.faults })

-- the rest of `_change`, on the updated object
unfoldable pub write_changed : TrialClaim → Outcome TrialError TrialFile → TrialMethod (Unit {0})
unfolding validate
write_changed claim (raised e) w = (raised e, w)
write_changed claim (done d) w =
    if not (validate claim d)
    then (raised TrialError.trial_invalid, w)
    else write_file (next_fault w.faults) d w

-- `_change`
unfoldable pub change : TrialClaim → Update → TrialMethod (Unit {0})
unfolding validate write_changed
change claim update w =
    if not (validate claim w.file)
    then (raised TrialError.trial_invalid, w)
    else write_changed claim (update w.file) w

-- `snapshot`
unfoldable pub snapshot : TrialClaim → TrialMethod TrialFile
unfolding validate
snapshot claim w =
    if not (validate claim w.file) then (raised TrialError.trial_invalid, w) else (done w.file, w)

-- the update of `prepare`
unfoldable pub prepare_update : TrialReport → ℕ → Update
prepare_update r digest d =
    if not (is_none d.report)
    then (if not (opt_eq d.report_sha256 (some r.report_sha256))
          || not (opt_eq d.payload_digest (some digest))
        then conflict
        else done d)
    else done (record d {
      state = TrialState.prepared;
      report = some (record { report_sha256 = r.report_sha256; transaction_hash = none });
      report_sha256 = some r.report_sha256;
      payload_digest = some digest;
    })

-- `prepare`
unfoldable pub prepare : TrialClaim → TrialReport → ℕ → TrialMethod (Unit {0})
unfolding change prepare_update
prepare claim r digest =
    when not (claim.report_bound r)
    run raise TrialError.trial_stopped
    otherwise change claim (prepare_update r digest)

unfoldable pub reserve_update : Update
reserve_update d =
    if not (is_prepared d.state) || d.paid_dispatch_reserved
    then conflict
    else done (record d {
      state = TrialState.dispatch_reserved;
      paid_dispatch_reserved = true;
      http_outcome = HttpOutcome.unknown;
    })

-- `reserve_paid_dispatch`
unfoldable pub reserve_paid_dispatch : TrialClaim → TrialMethod (Unit {0})
unfolding change reserve_update
reserve_paid_dispatch claim = change claim reserve_update

unfoldable pub outcome_update : HttpOutcome → Option ℕ → Option ℕ → Update
outcome_update outcome status locator d =
    if not (is_dispatch_reserved d.state)
    then conflict
    else done (record d {
      state = TrialState.outcome_captured;
      http_outcome = outcome;
      http_status = status;
      transaction_hash = locator;
    })

-- `save_outcome`
unfoldable pub save_outcome :
    TrialClaim → HttpOutcome → Option ℕ → Option ℕ → TrialMethod (Unit {0})
unfolding change outcome_update
save_outcome claim outcome status locator = change claim (outcome_update outcome status locator)

abbrev pub require_saved : TrialClaim → TrialReport → TrialFile → TrialMethod (Unit {0})
require_saved claim r d =
    when not d.paid_dispatch_reserved || not (opt_eq d.report_sha256 (some r.report_sha256))
    run raise TrialError.trial_conflict
    otherwise raise_if (not (claim.report_bound r)) TrialError.trial_stopped

-- `require_report`
unfoldable pub require_report : TrialClaim → TrialReport → TrialMethod (Unit {0})
unfolding snapshot
require_report claim r = snapshot claim >>= require_saved claim r

unfoldable pub reserve_report_update : Bool → Update
reserve_report_update explicit d =
    if not (is_none d.rejection) || (not explicit && leb 3 d.completion_attempts)
    then conflict
    else done (record d {
      completion_attempts = if explicit then d.completion_attempts else d.completion_attempts + 1;
      state = if is_none d.result then TrialState.report_reserved else d.state;
    })

-- `reserve_report`
unfoldable pub reserve_report : TrialClaim → TrialReport → Bool → TrialMethod (Unit {0})
unfolding require_report change reserve_report_update
reserve_report claim r explicit =
    require_report claim r >> change claim (reserve_report_update explicit)

abbrev pub same_evaluation : Evaluation → Evaluation → Bool
same_evaluation Evaluation.receipt_only Evaluation.receipt_only = true
same_evaluation Evaluation.pending Evaluation.pending = true
same_evaluation (evaluated a) (evaluated b) = a == b
same_evaluation _ _ = false

abbrev pub is_receipt : Evaluation → Bool
is_receipt Evaluation.receipt_only = true
is_receipt _ = false

abbrev pub is_evaluated : Evaluation → Bool
is_evaluated (evaluated a) = true
is_evaluated _ = false

-- a result with other times than the saved one
abbrev pub other_times : TrialResult → Option TrialResult → Bool
other_times new none = false
other_times new (some old) =
    not (old.received_at == new.received_at)
    || not (old.verification_deadline == new.verification_deadline)

-- a status with another evaluation than the saved one
abbrev pub other_evaluation : TrialResult → Option TrialResult → Bool
other_evaluation new none = true
other_evaluation new (some old) = not (same_evaluation old.evaluation new.evaluation)

abbrev pub known_locator : Option ℕ → Option ℕ → Option ℕ
known_locator none old = old
known_locator (some locator) old = some locator

unfoldable pub result_update : TrialReport → TrialResult → Update
result_update r new d =
    if not (opt_eq d.report_sha256 (some r.report_sha256)) || other_times new d.result
    then conflict
    else if is_final d.state && is_receipt new.evaluation
    then done d
    else if is_final d.state && other_evaluation new d.result
    then conflict
    else done (record d {
      result = some new;
      state = if is_evaluated new.evaluation then TrialState.final else TrialState.accepted;
      transaction_hash = known_locator r.transaction_hash d.transaction_hash;
    })

-- `save_result`
unfoldable pub save_result : TrialClaim → TrialResult → TrialReport → TrialMethod (Unit {0})
unfolding change result_update
save_result claim new r =
    when not (claim.report_bound r) || not (claim.result_bound new r.report_sha256)
    run raise TrialError.trial_stopped
    otherwise change claim (result_update r new)

abbrev pub rejection_update : RejectionCode → Update
rejection_update code d = done (record d { rejection = some code })

-- `save_rejection`
unfoldable pub save_rejection : TrialClaim → RejectionCode → TrialMethod (Unit {0})
unfolding change
save_rejection claim code = change claim (rejection_update code)
