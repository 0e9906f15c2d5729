-- ===== src/Budget/Types.antt =====
-- The facts of one payment operation, the policy that owns them and the execution context that
-- acts on them: `_PaymentOperation`, `ExecutionContext` and `PaymentPolicy` of
-- ln_church_agent/models.py.
--
-- Amounts are whole numbers of a fixed decimal unit of a US dollar. Session ids, owners and
-- fingerprints are only compared, so they are numbers. The operation objects live in the policy;
-- a context holds references to them, so it is modelled by the fingerprints that it refers to.
use ln_church_agent.Common.{ℕ, Bool, true, false, Option, none, some, List}
use ln_church_agent.Common.Dict.{Dict}

pub data Phase : Type 0 where
  not_started in_progress completed credential_reused ambiguous : Phase
  settlement_unknown confirmed_not_paid validation_failed : Phase

pub data BudgetState : Type 0 where
  reserved confirmed released : BudgetState

pub record Operation : Type 0 where
  pub phase : Phase
  pub amount : ℕ
  pub budget_state : Option BudgetState
  pub owner : Option ℕ
  pub revision : ℕ
  pub known_settled : Bool

-- `_PaymentOperation()`
abbrev pub new_operation : Operation
new_operation = record {
  phase = Phase.not_started;
  amount = 0;
  budget_state = none;
  owner = none;
  revision = 0;
  known_settled = false;
}

pub record Policy : Type 0 where
  pub max_spend_per_session_usd : ℕ
  pub session_baseline_usd : ℕ
  pub session_ledger_version : ℕ
  pub restored_session_ids : List ℕ
  pub session_operations : Dict (Dict Operation)

pub record Context : Type 0 where
  pub session_id : ℕ
  pub operation_owner : ℕ
  pub operations : List ℕ
  pub payment_identities : Dict ℕ
  pub session_budget_restored : Bool

-- What a method of the client works on: its policy and the context of the call.
pub record Session : Type 0 where
  pub policy : Policy
  pub context : Context

-- `PaymentExecutionError`, one constructor for each message.
pub data Error : Type 0 where
  session_limit negative_reservation already_reserved conflicting_amount already_confirmed : Error
  released_not_confirmable not_owner ambiguous_conflict : Error
  irreversible : Phase → Error
  not_awaiting_recovery known_settled_not_paid recovery_conflict resolved_elsewhere : Error
  identity_reused : Error

-- `Decimal(str(x))` of a caller's value that is no NaN
pub data Quoted : Type 0 where
  amount : ℕ → Quoted
  negative : ℕ → Quoted
  infinite : Quoted

-- `operation.budget_state == state`
abbrev pub same_state : BudgetState → BudgetState → Bool
same_state BudgetState.reserved BudgetState.reserved = true
same_state BudgetState.confirmed BudgetState.confirmed = true
same_state BudgetState.released BudgetState.released = true
same_state _ _ = false

abbrev pub in_state : BudgetState → Option BudgetState → Bool
in_state s none = false
in_state s (some t) = same_state s t
