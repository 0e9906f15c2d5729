-- ===== src/Budget/Run.antt =====
-- The ledger's methods as atomic steps of many contexts on one policy: each runs under the
-- policy's lock, so a history is a sequence of calls by contexts that interleave in any order.
use Prim.Native.Nat.{ℕ}
use ln_church_agent.Budget.Types.{Quoted, Session, Phase, Context, Policy}
use ln_church_agent.Common.{◌∷◌, [], List}
use ln_church_agent.Budget.Reserve.{
  reserve_session_budget, reserve_ambiguous_spend, confirm_session_budget, release_session_budget,
  mark_session_budget_unknown,
}
use ln_church_agent.Budget.Resolve.{Recovery, resolve_ambiguous_payment}
use ln_church_agent.Budget.States.{
  check_and_set_payment_state, mark_known_settled_ambiguity, update_payment_state,
}
use ln_church_agent.Budget.Evidence.{Journal}
use ln_church_agent.Budget.Restore.{merge_restored}

-- A call of one of the methods, with its arguments.
pub data Call : Type 0 where
  reserve reserve_ambiguous : ℕ → Quoted → Call
  confirm release mark_unknown check_and_set mark_known_settled : ℕ → Call
  update : ℕ → Phase → Call
  resolve : ℕ → Recovery → Call

-- The session that a call leaves, whether it returns or raises.
unfoldable pub perform : (ℕ → ℕ) → Call → Session → Session
perform float_str (reserve fp q) s = (reserve_session_budget float_str fp q s).1
perform float_str (reserve_ambiguous fp q) s = (reserve_ambiguous_spend float_str fp q s).1
perform float_str (confirm fp) s = (confirm_session_budget fp s).1
perform float_str (release fp) s = (release_session_budget fp s).1
perform float_str (mark_unknown fp) s = (mark_session_budget_unknown fp s).1
perform float_str (check_and_set fp) s = (check_and_set_payment_state fp s).1
perform float_str (mark_known_settled fp) s = (mark_known_settled_ambiguity fp s).1
perform float_str (update fp p) s = (update_payment_state fp p s).1
perform float_str (resolve i outcome) s = (resolve_ambiguous_payment i outcome s).1

-- What happens to the ledger: a call, or `_merge_restored_session_budget` of folded events.
pub data Event : Type 0 where
  called : Call → Event
  restored : ℕ → Journal → ℕ → ℕ → Event

unfoldable pub happen : (ℕ → ℕ) → Event → Session → Session
unfolding perform
happen float_str (called call) s = perform float_str call s
happen float_str (restored legacy journal version baseline) s =
    merge_restored legacy journal version baseline s

-- A history: to whom what happens. The contexts share the policy and nothing else.
unfoldable pub run_history : (ℕ → ℕ) → List (Context × Event) → Policy → Policy
unfolding happen
run_history float_str [] p = p
run_history float_str ((c, event) ∷ rest) p =
    run_history float_str rest (happen float_str event (record { policy = p; context = c })).policy
