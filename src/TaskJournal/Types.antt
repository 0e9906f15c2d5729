-- ===== src/TaskJournal/Types.antt =====
-- The payload of a journal file (ln_church_agent/task_journal.py, `_new_payload`).
--
-- Digests, submission ids, acknowledgements and statuses are only compared or kept, so they are
-- numbers. Bytes are stored as themselves, not in base64. The identity fields of the payload never
-- change and are left out. A key of a target is there exactly when it holds a value, but
-- that a recorded target has its outcome, which may be null.
use Prim.Native.Nat.{ℕ}
use ln_church_agent.Common.{none, Bool, Option, List, [], true, some, false}

pub data State : Type 0 where
  init offer_rechecked manifest_fetch_started manifest_verified attempt_started : State
  result_recorded report_frozen compound_completion_acked terminal_status : State

pub data TargetState : Type 0 where
  unstarted attempted recorded : TargetState

pub data TargetOutcome : Type 0 where
  http_response dns_error tls_error connection_error timeout protocol_error : TargetOutcome
  interrupted_indeterminate not_attempted_interrupted not_attempted_deadline : TargetOutcome

pub data ManifestOutcome : Type 0 where
  retrieved release_http_unexpected_status release_timeout release_dns_error : ManifestOutcome
  release_tls_error release_connection_error release_protocol_error : ManifestOutcome
  release_response_too_large release_encoding_unsupported release_invalid_json : ManifestOutcome
  release_schema_invalid release_digest_mismatch release_interrupted : ManifestOutcome

pub record Target : Type 0 where
  pub position : ℕ
  pub state : TargetState
  pub outcome : Option TargetOutcome
  pub http_status : Option ℕ
  pub elapsed_ms : Option ℕ

pub record Payload : Type 0 where
  pub state : State
  pub sequence : ℕ
  pub manifest_sha256 : Option ℕ
  pub manifest_bytes : Option (List ℕ)
  pub manifest_attempts_started : ℕ
  pub manifest_fetch_outcome : Option ManifestOutcome
  pub target_count : Option ℕ
  pub targets : List Target
  pub submission_id : Option ℕ
  pub frozen_report_sha256 : Option ℕ
  pub frozen_report_bytes : Option (List ℕ)
  pub completion_dispatch_attempts : ℕ
  pub compound_ack : Option ℕ
  pub terminal_status : Option ℕ

-- `_new_payload`
abbrev pub new_payload : Payload
new_payload = record {
  state = State.init;
  sequence = 0;
  manifest_sha256 = none;
  manifest_bytes = none;
  manifest_attempts_started = 0;
  manifest_fetch_outcome = none;
  target_count = none;
  targets = [];
  submission_id = none;
  frozen_report_sha256 = none;
  frozen_report_bytes = none;
  completion_dispatch_attempts = 0;
  compound_ack = none;
  terminal_status = none;
}

-- `JournalError` by its code, and `JournalPersistenceError`
pub data JournalError : Type 0 where
  invalid state_conflict missing persistence : JournalError

abbrev pub is_unstarted : Target → Bool
is_unstarted t = elim t.state [ TargetState.unstarted ↦ true | _ ↦ false ]

abbrev pub is_attempted : Target → Bool
is_attempted t = elim t.state [ TargetState.attempted ↦ true | _ ↦ false ]

abbrev pub is_recorded : Target → Bool
is_recorded t = elim t.state [ TargetState.recorded ↦ true | _ ↦ false ]

abbrev pub is_retrieved : Option ManifestOutcome → Bool
is_retrieved (some ManifestOutcome.retrieved) = true
is_retrieved _ = false
