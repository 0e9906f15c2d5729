-- ===== src/Execution/Attempt.antt =====
-- One payment: the `try` statement of `_execute_detailed_internal`, and `_payment_failure`, of a
-- client without an evidence repository (ln_church_agent/client.py).
use ln_church_agent.Common.{
  ℕ, Bool, true, false, not, ◌&&◌, ◌||◌, ◌+◌, Option, none, some, if◌then◌else◌,
}
use ln_church_agent.Common.Dict.{Dict, get, put}
use ln_church_agent.Common.Outcome.{
  Outcome, Method, done, raised, pure, raise, raise_if, gets, ◌>>=◌, ◌>>◌, when◌run◌otherwise◌,
}
use ln_church_agent.Budget.Types.{Phase, Session, Error}
use ln_church_agent.Budget.Reserve.{
  reserve_session_budget, confirm_session_budget, release_session_budget,
  mark_session_budget_unknown, reserve_ambiguous_spend,
}
use ln_church_agent.Budget.States.{update_payment_state, mark_known_settled_ambiguity}
use ln_church_agent.Execution.Types.{
  Demand, Receipt, Agent, Stop, Frame, Run, Attempt, new_attempt, Paying,
}

abbrev from_ledger : {A : Type 0} → Outcome Error A → Outcome Stop A
from_ledger (done a) = done a
from_ledger (raised e) = raised (Stop.ledger_error e)

-- a method of the ledger, in the execution
abbrev pub ledger : {A : Type 0} → Method Session Error A → Method Agent Stop A
ledger m w = (from_ledger (m w.session).0, record w { session = (m w.session).1 })

-- a method of the client, in the `try` statement
abbrev pub on : {A : Type 0} → Method Agent Stop A → Method Paying Stop A
on m x = ((m x.agent).0, record x { agent = (m x.agent).1 })

abbrev pub note : (Attempt → Attempt) → Method Paying Stop (Unit {0})
note f x = (done tt, record x { attempt = f x.attempt })

abbrev pub find_receipt : Option ℕ → Agent → Option Receipt
find_receipt none w = none
find_receipt (some r) w = get r w.receipts

abbrev pub rewritten : ℕ → (Receipt → Receipt) → Option Receipt → Dict Receipt → Dict Receipt
rewritten i f none d = d
rewritten i f (some x) d = put i (f x) d

-- `receipt.field = value`, where there is a receipt
unfoldable pub write_receipt : Option ℕ → (Receipt → Receipt) → Run
write_receipt none f w = (done tt, w)
write_receipt (some r) f w =
    (done tt, record w { receipts = rewritten r f (get r w.receipts) w.receipts })

-- `attempt_tracker.mark_irreversible()`; an attempt counts once
unfoldable pub mark_irreversible : Method Paying Stop (Unit {0})
mark_irreversible x =
    let a = record x.attempt { irreversible_attempt_started = true } in
    let new = if x.attempt.irreversible_attempt_started then 0 else 1 in
    let w = record x.agent { attempts = x.agent.attempts + new } in
    (done tt, record { agent = w; attempt = a })

-- `parsed.scheme == "exact" and canonical_requirement["rail"] == "x402"`
abbrev pub only_credential : Demand → Bool
only_credential d = d.is_exact && d.is_x402

-- `_process_payment`
unfoldable pub process_payment : Demand → Method Paying Stop (Unit {0})
process_payment d = do
  when d.is_irreversible run mark_irreversible otherwise pure tt
  raise_if (not d.is_processed) Stop.not_processed

-- `_new_settlement_receipt`, whose result becomes `last_receipt`
unfoldable pub make_receipt : Demand → Method Paying Stop (Unit {0})
make_receipt d x =
    let r : Receipt = record {
      is_exact_scheme = d.is_exact;
      payment_performed = d.is_performed && not (only_credential d);
      settlement_verified = d.is_verified;
    } in
    let i = x.agent.next_receipt in
    let w = record x.agent { receipts = put i r x.agent.receipts; next_receipt = i + 1 } in
    let made : Paying = record { agent = w; attempt = record x.attempt { receipt = some i } } in
    if d.is_receipted then (done tt, made) else (raised Stop.no_receipt, x)

-- the ledger after a credential: reused, or paid for
unfoldable pub record_payment : ℕ → Demand → Method Paying Stop (Unit {0})
record_payment fp d =
    when only_credential d
    run pure tt
    otherwise when not d.is_performed
    run (do
      note (λ a. record a { credential_reused = true })
      on (ledger (release_session_budget fp))
      on (ledger (update_payment_state fp Phase.credential_reused)))
    otherwise do
      on (ledger (confirm_session_budget fp))
      on (ledger (update_payment_state fp Phase.completed))
      note (λ a. record a { payment_completed = true })

-- the ledger after the paid request returned, of a credential that is no payment by itself
unfoldable pub confirm_credential : ℕ → Demand → Method Paying Stop (Unit {0})
confirm_credential fp d = when not (only_credential d) run pure tt otherwise do
  on (ledger (confirm_session_budget fp))
  on (ledger (update_payment_state fp Phase.completed))
  note (λ a. record a { payment_completed = true })
  r ← gets (λ x. x.attempt.receipt)
  on (write_receipt r (λ x. record x { payment_performed = true }))

-- the `try` statement up to the reservation and the payment
unfoldable pub begin_payment : (ℕ → ℕ) → ℕ → Demand → Method Paying Stop (Unit {0})
unfolding process_payment
begin_payment float_str fp d = do
  raise_if (not d.is_approved) Stop.not_approved
  on (ledger (reserve_session_budget float_str fp d.usd_value))
  note (λ a. record a { session_budget_reserved = true })
  process_payment d
  raise_if (not d.is_unchanged) Stop.snapshot_changed
  note (λ a. record a { credential_generated = true; credential_only = only_credential d })

-- the body of the `try` statement; `again` is the paid request
unfoldable pub try_payment :
    (ℕ → ℕ) → ℕ → (Frame → Run) → Frame → Demand → Method Paying Stop (Unit {0})
unfolding begin_payment record_payment make_receipt mark_irreversible confirm_credential
try_payment float_str fp again f d = do
  begin_payment float_str fp d
  record_payment fp d
  make_receipt d
  when only_credential d run mark_irreversible otherwise pure tt
  r ← gets (λ x. x.attempt.receipt)
  on (again (record f { retry = f.retry + 1; current_receipt = r }))
  confirm_credential fp d

abbrev pub is_verified_receipt : Option Receipt → Bool
is_verified_receipt none = false
is_verified_receipt (some r) = r.settlement_verified

-- an attempt whose settlement a receipt proves
abbrev pub is_settled : Attempt → Agent → Bool
is_settled a w =
    a.credential_only && not a.payment_completed && is_verified_receipt (find_receipt a.receipt w)

unfoldable pub record_failure : (ℕ → ℕ) → ℕ → Demand → Attempt → Run
record_failure float_str fp d a =
    when a.credential_reused
    run (do
      ledger (release_session_budget fp)
      ledger (update_payment_state fp Phase.credential_reused))
    otherwise when a.credential_only
        && a.credential_generated
        && a.irreversible_attempt_started
        && not a.payment_completed
    run (do
      ledger (mark_session_budget_unknown fp)
      ledger (update_payment_state fp Phase.settlement_unknown))
    otherwise when a.payment_completed
    run ledger (mark_known_settled_ambiguity fp)
    otherwise when a.irreversible_attempt_started
    run (do
      ledger (reserve_ambiguous_spend float_str fp d.usd_value)
      ledger (update_payment_state fp Phase.ambiguous))
    otherwise when a.session_budget_reserved
    run (do
      ledger (release_session_budget fp)
      ledger (update_payment_state fp Phase.validation_failed))
    otherwise ledger (update_payment_state fp Phase.validation_failed)

-- The error that the caller gets; an error of the payment itself keeps its type.
unfoldable pub failure_error : Attempt → Stop → Stop
failure_error a Stop.server_code = Stop.server_code
failure_error a e =
    if a.credential_reused
    then Stop.credential_delivery_failed
    else if not (a.irreversible_attempt_started || a.payment_completed)
    then e
    else if a.credential_only && not a.payment_completed
    then Stop.settlement_unknown
    else Stop.ambiguous_result

-- the confirmation of a payment that the receipt proves
unfoldable pub confirm_settled : ℕ → Attempt → Method Agent Stop Attempt
unfolding write_receipt
confirm_settled fp a = do
  settled ← gets (is_settled a)
  when not settled run pure a otherwise do
    ledger (confirm_session_budget fp)
    write_receipt a.receipt (λ x. record x { payment_performed = true })
    pure (record a { payment_completed = true })

-- `_payment_failure`, and the raise of the error that it returns
unfoldable pub payment_failure : (ℕ → ℕ) → ℕ → Demand → Attempt → Stop → Run
unfolding confirm_settled record_failure failure_error
payment_failure float_str fp d a e = do
  a' ← confirm_settled fp a
  record_failure float_str fp d a'
  raise (failure_error a' e)

unfoldable pub after_try :
    (ℕ → ℕ) → ℕ → Demand → Outcome Stop (Unit {0}) × Paying → Outcome Stop (Unit {0}) × Agent
unfolding payment_failure
after_try float_str fp d (done _, x) = (done tt, x.agent)
after_try float_str fp d (raised e, x) = payment_failure float_str fp d x.attempt e x.agent

-- the whole statement
unfoldable pub attempt_payment : (ℕ → ℕ) → ℕ → (Frame → Run) → Frame → Demand → Run
unfolding try_payment after_try
attempt_payment float_str fp again f d w =
    after_try float_str fp d
      (try_payment float_str fp again f d (record { agent = w; attempt = new_attempt }))
