-- ===== src/TaskJournal/Mutate.antt =====
-- The transitions of `TaskJournal` (ln_church_agent/task_journal.py): the `mutate` of each method,
-- with the checks of its arguments that stand before it.
use Prim.Native.Nat.{ℕ, suc, zero}
use ln_church_agent.TaskJournal.Types.{
  Payload, State, Target, TargetOutcome, JournalError, TargetState, ManifestOutcome, is_unstarted,
  is_attempted, is_retrieved, is_recorded,
}
use ln_church_agent.Common.Outcome.{Outcome, raised, done}
use ln_church_agent.Common.{
  List, Option, if◌then◌else◌, Bool, [], is_none, true, not, none, false, ltb, ◌||◌, ◌∷◌, leb, some,
  ◌&&◌, ◌+◌, ◌==◌, opt_eq,
}
use ln_church_agent.Common.Lists.{length, all, get_elem?, set, take}
use ln_church_agent.TaskJournal.Validate.{is_http_status, is_elapsed_ms}

abbrev pub Mutation : Type 0
Mutation = Payload → Outcome JournalError Payload

abbrev pub conflict : Outcome JournalError Payload
conflict = raised JournalError.state_conflict

-- `mark_offer_rechecked`
unfoldable pub mark_offer_rechecked : ℕ → Mutation
mark_offer_rechecked digest p = elim p.state [
  | State.init ↦
      if is_none p.manifest_sha256
      then done (record p { manifest_sha256 = some digest; state = State.offer_rechecked })
      else conflict
  | _ ↦ conflict
]

abbrev may_fetch : State → Bool
may_fetch State.offer_rechecked = true
may_fetch State.manifest_fetch_started = true
may_fetch _ = false

-- `start_manifest_attempt`
unfoldable pub start_manifest_attempt : Mutation
start_manifest_attempt p =
    if not (may_fetch p.state) || leb 3 p.manifest_attempts_started
    then conflict
    else done (record p {
      manifest_attempts_started = p.manifest_attempts_started + 1;
      state = State.manifest_fetch_started;
    })

-- `{"position": position, "state": …}`
abbrev pub bare_target : ℕ → TargetState → Target
bare_target i st = record {
  position = i;
  state = st;
  outcome = none;
  http_status = none;
  elapsed_ms = none;
}

unfoldable pub new_targets : ℕ → ℕ → List Target
new_targets i zero = []
new_targets i (suc n) = bare_target i TargetState.unstarted ∷ new_targets (i + 1) n

abbrev is_fetching : State → Bool
is_fetching State.manifest_fetch_started = true
is_fetching _ = false

-- `bind_verified_manifest`
unfoldable pub bind_verified_manifest : (List ℕ → ℕ) → ℕ → ℕ → List ℕ → Mutation
unfolding new_targets
bind_verified_manifest sha256 digest count bytes p =
    if not (leb 1 count && leb count 10)
      || length bytes == 0
      || ltb 32768 (length bytes)
      || not (sha256 bytes == digest)
    then raised JournalError.invalid
    else if not (is_fetching p.state) || not (opt_eq p.manifest_sha256 (some digest))
    then conflict
    else done (record p {
      manifest_bytes = some bytes;
      manifest_fetch_outcome = some ManifestOutcome.retrieved;
      target_count = some count;
      targets = new_targets 0 count;
      state = State.manifest_verified;
    })

abbrev may_start_target : State → Bool
may_start_target State.manifest_verified = true
may_start_target State.result_recorded = true
may_start_target _ = false

-- the target at the position, if it is one, has the property
abbrev pub at_position : (Target → Bool) → Option Target → Bool
at_position f none = false
at_position f (some t) = f t

-- `mark_target_attempt_started`
unfoldable pub mark_target_attempt_started : ℕ → Mutation
mark_target_attempt_started i p =
    if not (may_start_target p.state)
      || not (all is_recorded (take i p.targets))
      || not (at_position is_unstarted (get_elem? p.targets i))
    then conflict
    else done (record p {
      targets = set p.targets i (bare_target i TargetState.attempted);
      state = State.attempt_started;
    })

abbrev may_record : State → Bool
may_record State.attempt_started = true
may_record State.manifest_verified = true
may_record State.result_recorded = true
may_record _ = false

abbrev pub is_not_attempted : TargetOutcome → Bool
is_not_attempted TargetOutcome.not_attempted_interrupted = true
is_not_attempted TargetOutcome.not_attempted_deadline = true
is_not_attempted _ = false

-- the state that the target must be in for the outcome
abbrev pub prior_ok : TargetOutcome → Target → Bool
prior_ok outcome t = if is_not_attempted outcome then is_unstarted t else is_attempted t

abbrev pub given_status_ok : TargetOutcome → Option ℕ → Bool
given_status_ok TargetOutcome.http_response none = false
given_status_ok TargetOutcome.http_response (some n) = is_http_status n
given_status_ok _ status = is_none status

abbrev pub given_elapsed_ok : Option ℕ → Bool
given_elapsed_ok none = true
given_elapsed_ok (some n) = is_elapsed_ms n

-- `record_target_result`
unfoldable pub record_target_result : ℕ → TargetOutcome → Option ℕ → Option ℕ → Mutation
record_target_result i outcome status elapsed p =
    if not (may_record p.state) || not (at_position (prior_ok outcome) (get_elem? p.targets i))
    then conflict
    else if not (given_status_ok outcome status) || not (given_elapsed_ok elapsed)
    then raised JournalError.invalid
    else done (record p {
      targets = set p.targets i (record {
        position = i;
        state = TargetState.recorded;
        outcome = some outcome;
        http_status = status;
        elapsed_ms = elapsed;
      });
      state = State.result_recorded;
    })

abbrev may_freeze : State → Bool
may_freeze State.offer_rechecked = true
may_freeze State.manifest_fetch_started = true
may_freeze State.manifest_verified = true
may_freeze State.result_recorded = true
may_freeze _ = false

-- `freeze_report`
unfoldable pub freeze_report : (List ℕ → ℕ) → List ℕ → ℕ → ManifestOutcome → Mutation
freeze_report sha256 bytes submission outcome p =
    if ltb 65536 (length bytes)
    then raised JournalError.invalid
    else if not (may_freeze p.state)
        || (is_retrieved (some outcome) && not (all is_recorded p.targets))
    then conflict
    else done (record p {
      manifest_fetch_outcome = some outcome;
      submission_id = some submission;
      frozen_report_sha256 = some (sha256 bytes);
      frozen_report_bytes = some bytes;
      state = State.report_frozen;
    })

abbrev is_frozen : State → Bool
is_frozen State.report_frozen = true
is_frozen _ = false

-- `mark_completion_dispatch_attempted`
unfoldable pub mark_completion_dispatch_attempted : Mutation
mark_completion_dispatch_attempted p =
    if not (is_frozen p.state) || leb 2 p.completion_dispatch_attempts
    then conflict
    else done (record p { completion_dispatch_attempts = p.completion_dispatch_attempts + 1 })

-- `mark_compound_completion_acked`; `valid` is `_validate_compound_ack`
unfoldable pub mark_compound_completion_acked : (Payload → ℕ → Bool) → ℕ → Mutation
mark_compound_completion_acked valid ack p =
    if not (is_frozen p.state) || ltb p.completion_dispatch_attempts 1
    then conflict
    else if not (valid p ack)
    then raised JournalError.invalid
    else done (record p { compound_ack = some ack; state = State.compound_completion_acked })

abbrev is_acked : State → Bool
is_acked State.compound_completion_acked = true
is_acked _ = false

-- `mark_terminal_status`; `valid` is `_validate_terminal_status`
unfoldable pub mark_terminal_status : (Payload → ℕ → Bool) → ℕ → Mutation
mark_terminal_status valid status p =
    if not (is_acked p.state)
    then conflict
    else if not (valid p status)
    then raised JournalError.invalid
    else done (record p { terminal_status = some status; state = State.terminal_status })

-- What an interrupted process may do next.
pub data Disposition : Type 0 where
  release_interrupted target_interrupted_indeterminate completion_status_first : Disposition
  status_only completion_dispatch resume_checkpoint : Disposition

-- `resume_disposition`
unfoldable pub resume_disposition : Payload → Disposition
resume_disposition p = elim p.state [
  | State.manifest_fetch_started ↦ Disposition.release_interrupted
  | State.attempt_started ↦ Disposition.target_interrupted_indeterminate
  | State.report_frozen ↦
      if ltb 0 p.completion_dispatch_attempts
      then Disposition.completion_status_first
      else Disposition.completion_dispatch
  | State.compound_completion_acked ↦ Disposition.status_only
  | State.terminal_status ↦ Disposition.status_only
  | _ ↦ Disposition.resume_checkpoint
]
