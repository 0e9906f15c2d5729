-- ===== src/Budget/Ledger.antt =====
-- Reading and writing the operations of a policy, and the sums over them:
-- `PaymentPolicy._budget_total`, `_get_session_spend`, `Payment402Client._init_context_state`,
-- `_payment_operation` and `_set_budget_fact`.
use ln_church_agent.Common.{ℕ, ◌+◌, Option, none, some, List, [], ◌∷◌, if◌then◌else◌}
use ln_church_agent.Common.Lists.{contains}
use ln_church_agent.Common.Dict.{Dict, get, put, total}
use ln_church_agent.Common.Outcome.{Method, done}
use ln_church_agent.Budget.Types.{
  BudgetState, reserved, confirmed, Operation, new_operation, Policy, Session, Error, in_state,
}

-- `operation.amount` where the operation is in the state, and 0 elsewhere
abbrev pub weight : BudgetState → Operation → ℕ
weight s o = if in_state s o.budget_state then o.amount else 0

unfoldable pub budget_total : BudgetState → Policy → ℕ
budget_total s p = total (total (weight s)) p.session_operations

unfoldable pub session_spent_usd : Policy → ℕ
session_spent_usd p = p.session_baseline_usd + budget_total confirmed p

unfoldable pub session_reserved_usd : Policy → ℕ
session_reserved_usd p = budget_total reserved p

abbrev pub or_empty : Option (Dict Operation) → Dict Operation
or_empty none = []
or_empty (some d) = d

abbrev pub or_new : Option Operation → Operation
or_new none = new_operation
or_new (some o) = o

-- `self.policy._session_operations[session_id].get(fingerprint)`
unfoldable pub find_operation : Policy → ℕ → ℕ → Option Operation
find_operation p sid fp = get fp (or_empty (get sid p.session_operations))

-- an operation object after a write to its fields
unfoldable pub save : ℕ → ℕ → Operation → Policy → Policy
save sid fp o p = record p {
  session_operations =
      put sid (put fp o (or_empty (get sid p.session_operations))) p.session_operations;
}

-- `self.policy._session_operations.setdefault(session_id, {})`
unfoldable pub init_context_state : Session → Session
init_context_state s = record s {
  policy = record s.policy {
    session_operations =
        put s.context.session_id (or_empty (get s.context.session_id s.policy.session_operations))
          s.policy.session_operations;
  };
}

-- `context._operations[fingerprint] = operation`
abbrev pub refer : ℕ → List ℕ → List ℕ
refer fp known = if contains fp known then known else fp ∷ known

unfoldable pub payment_operation : ℕ → Method Session Error Operation
payment_operation fp s =
    let o = or_new (find_operation s.policy s.context.session_id fp) in
    (
      done o,
      record s {
        policy = save s.context.session_id fp o s.policy;
        context = record s.context { operations = refer fp s.context.operations };
      },
    )
