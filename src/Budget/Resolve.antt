-- ===== src/Budget/Resolve.antt =====
-- The recovery of an ambiguous payment, `_resolve_ambiguous_payment_state`, and the registration
-- of payment identities, `_register_payment_identity` (ln_church_agent/client.py).
use ln_church_agent.Common.{
  ℕ, Bool, true, false, not, ◌&&◌, ◌||◌, Option, none, some, List, [], ◌∷◌, ◌==◌, is_none,
  if◌then◌else◌,
}
use ln_church_agent.Common.Lists.{contains, any}
use ln_church_agent.Common.Dict.{Dict, get, put}
use ln_church_agent.Common.Outcome.{
  Method, done, pure, raise, gets, ◌>>=◌, ◌>>◌, when◌run◌otherwise◌,
}
use ln_church_agent.Budget.Types.{Phase, BudgetState, Operation, Context, Session, Error, in_state}
use ln_church_agent.Budget.Ledger.{init_context_state, payment_operation}
use ln_church_agent.Budget.Reserve.{write, set_budget_fact, owned}
use ln_church_agent.Budget.States.{awaits_recovery, same_phase}

-- The two outcomes that a caller may report.
pub data Recovery : Type 0 where
  confirmed_paid confirmed_not_paid : Recovery

abbrev pub recovered_phase : Recovery → Phase
recovered_phase Recovery.confirmed_paid = Phase.completed
recovered_phase Recovery.confirmed_not_paid = Phase.confirmed_not_paid

abbrev pub recovered_state : Recovery → BudgetState
recovered_state Recovery.confirmed_paid = BudgetState.confirmed
recovered_state Recovery.confirmed_not_paid = BudgetState.released

-- The budget fields of the `PaymentEvidenceRecord` that a recovery exports.
pub record RecoveryRecord : Type 0 where
  pub event : BudgetState
  pub operation_id : ℕ
  pub amount : ℕ
  pub payment_performed : Bool

abbrev pub is_paid : Recovery → Bool
is_paid Recovery.confirmed_paid = true
is_paid Recovery.confirmed_not_paid = false

abbrev pub is_settled : Operation → Bool
is_settled o =
    in_state BudgetState.confirmed o.budget_state || in_state BudgetState.released o.budget_state

-- the amount that is still reserved
abbrev pub reservation : Operation → ℕ
reservation o = if in_state BudgetState.reserved o.budget_state then o.amount else 0

abbrev Reply : Type 0
Reply = Phase × Option RecoveryRecord

-- the record of a recovery that settles a reservation
abbrev pub recovery_record : ℕ → Recovery → ℕ → Option RecoveryRecord
recovery_record fp outcome amt =
    if amt == 0
    then none
    else some (record {
      event = recovered_state outcome;
      operation_id = fp;
      amount = amt;
      payment_performed = is_paid outcome;
    })

-- a recovery of an operation whose budget is already settled
unfoldable pub resolve_settled : ℕ → Recovery → Operation → Method Session Error Reply
resolve_settled fp outcome o = do
  mine ← gets (owned o)
  when not (in_state (recovered_state outcome) o.budget_state)
      run raise Error.recovery_conflict
      otherwise when not (is_none o.owner) && not mine
      run raise Error.resolved_elsewhere
      otherwise do
        write fp (record o { phase = recovered_phase outcome; known_settled = false })
        pure (recovered_phase outcome, none)

-- The last writes are to the operation as `_set_budget_fact` left it.
unfoldable pub close_recovery : ℕ → Recovery → ℕ → Method Session Error Reply
close_recovery fp outcome settled = do
  o ← payment_operation fp
  write fp (record o { known_settled = false; phase = recovered_phase outcome })
  pure (recovered_phase outcome, recovery_record fp outcome settled)

unfoldable pub resolve_open : ℕ → Recovery → Operation → Method Session Error Reply
unfolding close_recovery
resolve_open fp outcome o = do
  owner ← gets (λ s. s.context.operation_owner)
  when reservation o == 0 run close_recovery fp outcome 0 otherwise do
    set_budget_fact fp o (recovered_state outcome) (reservation o) (some owner)
    close_recovery fp outcome (reservation o)

unfoldable pub resolve_operation : ℕ → Recovery → Operation → Method Session Error Reply
unfolding resolve_settled resolve_open same_phase
resolve_operation fp outcome o =
    when o.known_settled && not (is_paid outcome)
    run raise Error.known_settled_not_paid
    otherwise when is_settled o
    run resolve_settled fp outcome o
    otherwise when not (awaits_recovery o.phase)
    run (when same_phase o.phase (recovered_phase outcome)
        run pure (recovered_phase outcome, none)
        otherwise raise Error.not_awaiting_recovery)
    otherwise resolve_open fp outcome o

-- `context._payment_identities.get(id, id)`
abbrev pub identified : ℕ → Option ℕ → ℕ
identified i none = i
identified i (some fp) = fp

-- An operation that the context does not refer to is not awaiting recovery.
unfoldable pub resolve_known : ℕ → Recovery → Bool → Method Session Error Reply
unfolding resolve_operation
resolve_known fp outcome false = raise Error.not_awaiting_recovery
resolve_known fp outcome true = do o ← payment_operation fp; resolve_operation fp outcome o

-- `_resolve_ambiguous_payment_state`, of one of the two outcomes
unfoldable pub resolve_ambiguous_payment : ℕ → Recovery → Method Session Error Reply
unfolding resolve_known
resolve_ambiguous_payment i outcome s =
    let s' = init_context_state s in
    let fp = identified i (get i s'.context.payment_identities) in
    resolve_known fp outcome (contains fp s'.context.operations) s'

-- `identities.get(value) not in (None, fingerprint)`
abbrev pub is_taken : ℕ → Option ℕ → Bool
is_taken fp none = false
is_taken fp (some other) = not (other == fp)

unfoldable pub bind_all : ℕ → List ℕ → Dict ℕ → Dict ℕ
bind_all fp [] d = d
bind_all fp (i ∷ rest) d = bind_all fp rest (put i fp d)

-- `_register_payment_identity`, of the requirement's identities that are texts
unfoldable pub register_payment_identity : ℕ → List ℕ → Method Context Error (Unit {0})
unfolding bind_all
register_payment_identity fp identities c =
    if any (λ i. is_taken fp (get i c.payment_identities)) identities
    then raise Error.identity_reused c
    else (done tt, record c { payment_identities = bind_all fp identities c.payment_identities })
