-- ===== src/Budget/Sessions.antt =====
-- What a call of the ledger leaves of the sessions: the one of its context, and those whose past
-- events are imported.
use ln_church_agent.Budget.Run.{
  perform, Call, reserve, reserve_ambiguous, confirm, release, mark_unknown, check_and_set,
  mark_known_settled, update, resolve,
}
use ln_church_agent.Budget.Reserve.{
  reserve_session_budget, check_session_budget, reserve_ambiguous_spend,
  reserve_ambiguous_operation, mark_ambiguous, confirm_session_budget, release_session_budget,
  mark_session_budget_unknown, write, set_budget_fact,
}
use ln_church_agent.Budget.States.{
  check_and_set_payment_state, assert_payment_state_allows_402, mark_known_settled_ambiguity,
  update_payment_state,
}
use ln_church_agent.Budget.Resolve.{resolve_ambiguous_payment}
use ln_church_agent.Budget.Ledger.{payment_operation, init_context_state, save}
use Prim.Native.Nat.{ℕ}
use ln_church_agent.Budget.Types.{Session}
use ln_church_agent.Common.{◌≡◌, arith}

-- No method of the ledger moves a context to another session.
pub perform-session :
    (float_str : ℕ → ℕ) (call : Call) (s : Session)
    → (perform float_str call s).context.session_id ≡ s.context.session_id
unfolding perform reserve_session_budget check_session_budget reserve_ambiguous_spend
    reserve_ambiguous_operation mark_ambiguous confirm_session_budget release_session_budget
    mark_session_budget_unknown check_and_set_payment_state assert_payment_state_allows_402
    mark_known_settled_ambiguity update_payment_state resolve_ambiguous_payment payment_operation
    init_context_state write set_budget_fact
perform-session float_str (reserve fp q) s = ground arith
perform-session float_str (reserve_ambiguous fp q) s = ground arith
perform-session float_str (confirm fp) s = ground arith
perform-session float_str (release fp) s = ground arith
perform-session float_str (mark_unknown fp) s = ground arith
perform-session float_str (check_and_set fp) s = ground arith
perform-session float_str (mark_known_settled fp) s = ground arith
perform-session float_str (update fp p) s = ground arith
perform-session float_str (resolve i outcome) s = ground arith

-- No method of the ledger forgets or adds a session whose events are imported.
pub perform-restored :
    (float_str : ℕ → ℕ) (call : Call) (s : Session)
    → (perform float_str call s).policy.restored_session_ids ≡ s.policy.restored_session_ids
unfolding perform reserve_session_budget check_session_budget reserve_ambiguous_spend
    reserve_ambiguous_operation mark_ambiguous confirm_session_budget release_session_budget
    mark_session_budget_unknown check_and_set_payment_state assert_payment_state_allows_402
    mark_known_settled_ambiguity update_payment_state resolve_ambiguous_payment payment_operation
    init_context_state write set_budget_fact save
perform-restored float_str (reserve fp q) s = ground arith
perform-restored float_str (reserve_ambiguous fp q) s = ground arith
perform-restored float_str (confirm fp) s = ground arith
perform-restored float_str (release fp) s = ground arith
perform-restored float_str (mark_unknown fp) s = ground arith
perform-restored float_str (check_and_set fp) s = ground arith
perform-restored float_str (mark_known_settled fp) s = ground arith
perform-restored float_str (update fp p) s = ground arith
perform-restored float_str (resolve i outcome) s = ground arith
