-- ===== src/Budget/States.antt =====
-- The phase of an operation in `Payment402Client` (ln_church_agent/client.py):
-- `_assert_payment_state_allows_402`, `_check_and_set_payment_state`, `_update_payment_state`,
-- `_mark_known_settled_ambiguity`, `_register_payment_identity` and
-- `_resolve_ambiguous_payment_state`.
use ln_church_agent.Common.{
  ℕ, Bool, true, false, not, ◌&&◌, Option, none, some, is_none, ◌≡◌, arith,
}
use ln_church_agent.Common.Outcome.{
  Method, pure, raise_if, gets, modify, ◌>>=◌, ◌>>◌, when◌run◌otherwise◌,
}
use ln_church_agent.Budget.Types.{Phase, Operation, Session, Error}
use ln_church_agent.Budget.Ledger.{find_operation, init_context_state, payment_operation}
use ln_church_agent.Budget.Reserve.{write, owned}

-- the phases after which a 402 is not answered by another payment
abbrev pub blocks_402 : Phase → Bool
blocks_402 Phase.in_progress = true
blocks_402 Phase.completed = true
blocks_402 Phase.credential_reused = true
blocks_402 Phase.ambiguous = true
blocks_402 Phase.settlement_unknown = true
blocks_402 _ = false

-- the phases that `_update_payment_state` does not overwrite
abbrev pub is_terminal : Phase → Bool
is_terminal Phase.completed = true
is_terminal Phase.credential_reused = true
is_terminal Phase.ambiguous = true
is_terminal Phase.settlement_unknown = true
is_terminal Phase.confirmed_not_paid = true
is_terminal _ = false

abbrev pub awaits_recovery : Phase → Bool
awaits_recovery Phase.ambiguous = true
awaits_recovery Phase.settlement_unknown = true
awaits_recovery _ = false

-- `p == q`
unfoldable pub same_phase : Phase → Phase → Bool
same_phase Phase.not_started Phase.not_started = true
same_phase Phase.in_progress Phase.in_progress = true
same_phase Phase.completed Phase.completed = true
same_phase Phase.credential_reused Phase.credential_reused = true
same_phase Phase.ambiguous Phase.ambiguous = true
same_phase Phase.settlement_unknown Phase.settlement_unknown = true
same_phase Phase.confirmed_not_paid Phase.confirmed_not_paid = true
same_phase Phase.validation_failed Phase.validation_failed = true
same_phase _ _ = false

-- An operation that the policy does not hold is not started: what the context's own table may hold
-- of it from elsewhere, by another policy or `set_payment_state`, is left out.
abbrev pub phase_of : Option Operation → Phase
phase_of none = Phase.not_started
phase_of (some o) = o.phase

unfoldable pub assert_payment_state_allows_402 : ℕ → Method Session Error (Unit {0})
assert_payment_state_allows_402 fp s =
    let s' = init_context_state s in
    let p = phase_of (find_operation s'.policy s'.context.session_id fp) in
    raise_if (blocks_402 p) (Error.irreversible p) s'

unfoldable pub check_and_set_payment_state : ℕ → Method Session Error (Unit {0})
unfolding assert_payment_state_allows_402
check_and_set_payment_state fp = do
  modify init_context_state
  assert_payment_state_allows_402 fp
  o ← payment_operation fp
  owner ← gets (λ s. s.context.operation_owner)
  write fp (record o { phase = Phase.in_progress; owner = some owner })

unfoldable pub update_operation : ℕ → Phase → Operation → Method Session Error (Unit {0})
unfolding same_phase
update_operation fp p o = do
  mine ← gets (owned o)
  when not (is_none o.owner) && not mine
      run pure tt
      otherwise when is_terminal o.phase && not (same_phase o.phase p)
      run pure tt
      otherwise write fp (record o { phase = p })

-- `_update_payment_state`
unfoldable pub update_payment_state : ℕ → Phase → Method Session Error (Unit {0})
unfolding update_operation
update_payment_state fp p = do
  modify init_context_state
  o ← payment_operation fp
  update_operation fp p o

-- `_mark_known_settled_ambiguity`
unfoldable pub mark_known_settled_ambiguity : ℕ → Method Session Error (Unit {0})
mark_known_settled_ambiguity fp = do
  modify init_context_state
  o ← payment_operation fp
  write fp (record o { known_settled = true; phase = Phase.ambiguous })

pub same_phase-eq : (p q : Phase) → same_phase p q ≡ true → p ≡ q
unfolding same_phase
same_phase-eq p q h = ground arith
