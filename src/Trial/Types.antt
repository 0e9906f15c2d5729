-- ===== src/Trial/Types.antt =====
-- The data of `PaidServiceTrialJournal` (ln_church_agent/paid_service_trial_journal.py) and of one
-- purchase (ln_church_agent/paid_service_trial.py). Digests, times and amounts are only compared
-- and added, so they are numbers; the fields that identify the Claim never change and are left out.
use ln_church_agent.Common.{ℕ, Option, none, List, Bool, false, true}
use ln_church_agent.Common.Dict.{Dict}
use ln_church_agent.Common.Outcome.{Method}
use ln_church_agent.TaskJournal.Store.{Fault}

pub data TrialState : Type 0 where
  claimed prepared dispatch_reserved outcome_captured report_reserved accepted final : TrialState

pub data HttpOutcome : Type 0 where
  not_observed response_received failed unknown : HttpOutcome

-- the evaluation of a result: a receipt has none
pub data Evaluation : Type 0 where
  receipt_only pending : Evaluation
  evaluated : ℕ → Evaluation

pub record TrialResult : Type 0 where
  pub received_at : ℕ
  pub verification_deadline : ℕ
  pub evaluation : Evaluation

-- `FrozenPaidServiceTrialReport`: its digest is that of the fields without the transaction hash
pub record TrialReport : Type 0 where
  pub report_sha256 : ℕ
  pub transaction_hash : Option ℕ

-- the code of a refusal of the server: the six that the file may hold, or another one
pub data RejectionCode : Type 0 where
  report_conflict idempotency_conflict report_binding_invalid : RejectionCode
  claim_expired claim_not_active report_already_accepted : RejectionCode
  unlisted : ℕ → RejectionCode

-- the file's object
pub record TrialFile : Type 0 where
  pub operation_id : ℕ
  pub state : TrialState
  pub report : Option TrialReport
  pub report_sha256 : Option ℕ
  pub payload_digest : Option ℕ
  pub paid_dispatch_reserved : Bool
  pub http_outcome : HttpOutcome
  pub http_status : Option ℕ
  pub transaction_hash : Option ℕ
  pub completion_attempts : ℕ
  pub result : Option TrialResult
  pub rejection : Option RejectionCode

-- `_initial`
abbrev pub initial : ℕ → TrialFile
initial operation_id = record {
  operation_id = operation_id;
  state = TrialState.claimed;
  report = none;
  report_sha256 = none;
  payload_digest = none;
  paid_dispatch_reserved = false;
  http_outcome = HttpOutcome.not_observed;
  http_status = none;
  transaction_hash = none;
  completion_attempts = 0;
  result = none;
  rejection = none;
}

-- the part of `PaymentPolicy` that a purchase uses: the limits, what else is spent and reserved,
-- and the operations reserved for this kind of Task
pub record TrialPolicy : Type 0 where
  pub max_spend_per_tx_usd : ℕ
  pub max_spend_per_session_usd : ℕ
  pub spent_elsewhere : ℕ
  pub operations : Dict ℕ
  pub session_ledger_version : ℕ

-- a `JournalError` by its code, and the other errors of an execution
pub data TrialError : Type 0 where
  trial_invalid trial_conflict trial_persistence trial_stopped : TrialError

-- the file, the faults that its next writes meet, the policy, and how many paid requests were sent
pub record TrialWorld : Type 0 where
  pub file : TrialFile
  pub faults : List Fault
  pub policy : TrialPolicy
  pub paid_requests : ℕ

-- What the model takes from the code that it calls: whether a report is one of the Claim, and
-- whether a result is one of a report.
pub record TrialClaim : Type 0 where
  pub report_bound : TrialReport → Bool
  pub result_bound : TrialResult → ℕ → Bool

abbrev pub TrialMethod : Type 0 → Type 0
TrialMethod A = Method TrialWorld TrialError A

abbrev pub is_claimed : TrialState → Bool
is_claimed TrialState.claimed = true
is_claimed _ = false

abbrev pub is_prepared : TrialState → Bool
is_prepared TrialState.prepared = true
is_prepared _ = false

abbrev pub is_dispatch_reserved : TrialState → Bool
is_dispatch_reserved TrialState.dispatch_reserved = true
is_dispatch_reserved _ = false

abbrev pub is_final : TrialState → Bool
is_final TrialState.final = true
is_final _ = false

abbrev pub has_result : TrialState → Bool
has_result TrialState.accepted = true
has_result TrialState.final = true
has_result _ = false
