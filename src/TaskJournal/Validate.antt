-- ===== src/TaskJournal/Validate.antt =====
-- `_validate_payload` (ln_church_agent/task_journal.py), by the groups of its conditions. The
-- shape of texts, the secret scan and the decoding of the report and of the acknowledgement are
-- the parameter `content`.
use Prim.Native.Nat.{ℕ}
use ln_church_agent.Common.{
  Option, List, Bool, leb, some, true, not, ◌==◌, false, is_none, if◌then◌else◌, ◌&&◌, ◌∷◌, ◌||◌,
  none, [], ◌+◌,
}
use ln_church_agent.TaskJournal.Types.{
  TargetState, State, Payload, TargetOutcome, Target, is_unstarted, is_retrieved, is_recorded,
  is_attempted,
}
use ln_church_agent.Common.Lists.{all, length}

-- 200 to 599, and 0 to 12000
abbrev pub is_http_status : ℕ → Bool
is_http_status n = leb 200 n && leb n 599

abbrev pub is_elapsed_ms : ℕ → Bool
is_elapsed_ms n = leb n 12000

abbrev status_ok : Option TargetOutcome → Option ℕ → Bool
status_ok (some TargetOutcome.http_response) none = false
status_ok (some TargetOutcome.http_response) (some n) = is_http_status n
status_ok _ status = is_none status

abbrev elapsed_ok : Option ℕ → Bool
elapsed_ok none = true
elapsed_ok (some n) = is_elapsed_ms n

-- a target that has no result has its position and its state only; the outcome of a recorded one
-- may be null
abbrev fields_ok : TargetState → Target → Bool
fields_ok TargetState.recorded t = true
fields_ok _ t = is_none t.outcome && is_none t.http_status && is_none t.elapsed_ms

unfoldable pub target_ok : ℕ → Target → Bool
target_ok i t =
    t.position == i
    && fields_ok t.state t
    && status_ok t.outcome t.http_status
    && elapsed_ok t.elapsed_ms

unfoldable pub targets_ok : ℕ → List Target → Bool
unfolding target_ok
targets_ok i [] = true
targets_ok i (t ∷ ts) = target_ok i t && targets_ok (i + 1) ts

-- results, then one attempt, then targets that are not started
unfoldable pub attempt_progress : List Target → Bool
attempt_progress [] = false
attempt_progress (t ∷ ts) =
    (is_recorded t && attempt_progress ts) || (is_attempted t && all is_unstarted ts)

-- results, then targets that are not started
unfoldable pub result_prefix : List Target → Bool
result_prefix [] = true
result_prefix (t ∷ ts) = (is_recorded t && result_prefix ts) || all is_unstarted (t ∷ ts)

-- at least one result
unfoldable pub result_progress : List Target → Bool
unfolding result_prefix
result_progress [] = false
result_progress (t ∷ ts) = is_recorded t && result_prefix ts

unfoldable pub progress_ok : State → List Target → Bool
unfolding attempt_progress result_progress
progress_ok State.manifest_verified ts = all is_unstarted ts
progress_ok State.attempt_started ts = attempt_progress ts
progress_ok State.result_recorded ts = result_progress ts
progress_ok _ ts = true

abbrev is_empty : List Target → Bool
is_empty [] = true
is_empty (_ ∷ _) = false

abbrev in_range : ℕ → ℕ → Option ℕ → Bool
in_range lo hi none = false
in_range lo hi (some n) = leb lo n && leb n hi

-- no manifest has been bound
abbrev no_manifest : Payload → Bool
no_manifest p =
    is_none p.manifest_bytes
    && is_none p.manifest_fetch_outcome
    && is_none p.target_count
    && is_empty p.targets

-- a manifest has been bound
abbrev bound_manifest : Payload → Bool
bound_manifest p =
    leb 1 p.manifest_attempts_started
    && not (is_none p.manifest_sha256)
    && not (is_none p.manifest_bytes)
    && in_range 1 10 p.target_count

-- a report that was frozen with, or without, a retrieved manifest
abbrev report_basis : Payload → Bool
report_basis p =
    if is_retrieved p.manifest_fetch_outcome
    then bound_manifest p && all is_recorded p.targets
    else not (is_none p.manifest_sha256)
      && is_none p.manifest_bytes
      && is_none p.target_count
      && is_empty p.targets

unfoldable pub state_ok : State → Payload → Bool
state_ok State.init p =
    is_none p.manifest_sha256 && no_manifest p && p.manifest_attempts_started == 0
state_ok State.offer_rechecked p =
    not (is_none p.manifest_sha256) && no_manifest p && p.manifest_attempts_started == 0
state_ok State.manifest_fetch_started p =
    leb 1 p.manifest_attempts_started && not (is_none p.manifest_sha256) && no_manifest p
state_ok State.manifest_verified p = bound_manifest p && is_retrieved p.manifest_fetch_outcome
state_ok State.attempt_started p = bound_manifest p && is_retrieved p.manifest_fetch_outcome
state_ok State.result_recorded p = bound_manifest p && is_retrieved p.manifest_fetch_outcome
state_ok _ p = report_basis p && not (is_none p.manifest_fetch_outcome)

abbrev pub has_report_state : State → Bool
has_report_state State.report_frozen = true
has_report_state State.compound_completion_acked = true
has_report_state State.terminal_status = true
has_report_state _ = false

abbrev pub has_ack_state : State → Bool
has_ack_state State.compound_completion_acked = true
has_ack_state State.terminal_status = true
has_ack_state _ = false

abbrev pub is_terminal_state : State → Bool
is_terminal_state State.terminal_status = true
is_terminal_state _ = false

-- the report fields stand together, in the states after the freeze and in no other
abbrev report_fields : Payload → Bool
report_fields p =
    if has_report_state p.state
    then not (is_none p.submission_id)
      && not (is_none p.frozen_report_sha256)
      && not (is_none p.frozen_report_bytes)
    else is_none p.submission_id && is_none p.frozen_report_sha256 && is_none p.frozen_report_bytes

abbrev digest_ok : (List ℕ → ℕ) → ℕ → Option ℕ → Option (List ℕ) → Bool
digest_ok sha256 limit digest none = true
digest_ok sha256 limit none (some bytes) = false
digest_ok sha256 limit (some d) (some bytes) =
    leb 1 (length bytes) && leb (length bytes) limit && sha256 bytes == d

abbrev count_ok : Option ℕ → List Target → Bool
count_ok none ts = true
count_ok (some n) ts = leb n 10 && length ts == n

abbrev ack_ok : Payload → Bool
ack_ok p =
    if has_ack_state p.state
    then leb 1 p.completion_dispatch_attempts && not (is_none p.compound_ack)
    else is_none p.compound_ack

abbrev terminal_ok : Payload → Bool
terminal_ok p =
    if is_terminal_state p.state then not (is_none p.terminal_status) else is_none p.terminal_status

abbrev attempts_ok : Payload → Bool
attempts_ok p =
    leb p.manifest_attempts_started 3
    && leb p.completion_dispatch_attempts 2
    && (has_report_state p.state || p.completion_dispatch_attempts == 0)

module _ (sha256 : List ℕ → ℕ) (content : Payload → Bool) where
  unfoldable pub validate_payload : Payload → Bool
  unfolding targets_ok progress_ok state_ok
  validate_payload p =
      attempts_ok p
      && digest_ok sha256 32768 p.manifest_sha256 p.manifest_bytes
      && count_ok p.target_count p.targets
      && targets_ok 0 p.targets
      && state_ok p.state p
      && progress_ok p.state p.targets
      && report_fields p
      && digest_ok sha256 65536 p.frozen_report_sha256 p.frozen_report_bytes
      && ack_ok p
      && terminal_ok p
      && content p
