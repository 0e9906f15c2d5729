-- ===== src/Budget/Restore.antt =====
-- `_merge_restored_session_budget` of `Payment402Client` (ln_church_agent/client.py): the events of
-- a repository merged into the live operations.
use Prim.Native.Nat.{ℕ}
use ln_church_agent.Budget.Types.{Phase, BudgetState, Operation, Session, same_state, in_state}
use ln_church_agent.Common.Dict.{Dict, get, put}
use ln_church_agent.Common.{
  Bool, some, List, not, true, none, if◌then◌else◌, is_none, false, ◌||◌, ◌&&◌, ◌+◌, ltb, ◌-◌, ◌∷◌,
  [],
}
use ln_church_agent.Budget.Ledger.{or_new, or_empty, init_context_state, refer}
use ln_church_agent.Budget.Evidence.{Journal}
use ln_church_agent.Common.Lists.{contains}
use ln_church_agent.Budget.States.{same_phase}

-- A live fact keeps its payer: the import leaves it alone.
abbrev pub is_live : ℕ → Operation → Bool
is_live start_version o =
    not (is_none o.owner)
    || ltb start_version o.revision
    || in_state BudgetState.confirmed o.budget_state

abbrev pub is_done : Phase → Bool
is_done Phase.completed = true
is_done Phase.confirmed_not_paid = true
is_done _ = false

-- one entry of the restored journal, merged into the operation
unfoldable pub restore_fact : BudgetState → ℕ → ℕ → Operation → Operation
restore_fact state amt version o = record o {
  budget_state = some state;
  amount = amt;
  owner = none;
  revision = version;
  phase =
      if same_state state BudgetState.reserved && not (is_done o.phase)
      then Phase.settlement_unknown
      else o.phase;
}

-- The operations of the session, and the version of the ledger.
pub record Restoring : Type 0 where
  pub version : ℕ
  pub operations : Dict Operation

unfoldable pub restore_entry : ℕ → ℕ → BudgetState → ℕ → Restoring → Restoring
unfolding restore_fact
restore_entry start_version key state amt r =
    let o = or_new (get key r.operations) in
    if is_live start_version o then record r { operations = put key o r.operations } else record {
      version = r.version + 1;
      operations = put key (restore_fact state amt (r.version + 1) o) r.operations;
    }

unfoldable pub restore_journal : ℕ → Journal → Restoring → Restoring
unfolding restore_entry
restore_journal start_version [] r = r
restore_journal start_version ((key, (state, amt)) ∷ rest) r =
    restore_journal start_version rest (restore_entry start_version key state amt r)

-- A reserved operation whose phase is not started is of unknown settlement.
unfoldable pub settle_phase : Operation → Operation
settle_phase o =
    if in_state BudgetState.reserved o.budget_state && same_phase o.phase Phase.not_started
    then record o { phase = Phase.settlement_unknown }
    else o

-- The last loop: the context refers to every reserved operation of its session.
unfoldable pub adopt : Dict Operation → List ℕ → Dict Operation × List ℕ
unfolding settle_phase
adopt [] known = ([], known)
adopt ((key, o) ∷ rest) known =
    let known' = if in_state BudgetState.reserved o.budget_state then refer key known else known in
    let (rest', known'') = adopt rest known' in ((key, settle_phase o) ∷ rest', known'')

-- What the first call for a session imports.
unfoldable pub import_events : ℕ → Journal → ℕ → ℕ → Session → Session
unfolding restore_journal
import_events legacy journal start_version start_baseline s =
    let p = s.policy in
    let sid = s.context.session_id in
    let r = restore_journal start_version journal (record {
      version = p.session_ledger_version;
      operations = or_empty (get sid p.session_operations);
    }) in
    record s {
      policy = record p {
        session_baseline_usd = legacy + (p.session_baseline_usd - start_baseline);
        session_ledger_version = r.version;
        session_operations = put sid r.operations p.session_operations;
        restored_session_ids = sid ∷ p.restored_session_ids;
      };
    }

-- the last loop, over the operations of the session
unfoldable pub adopt_session : Session → Session
unfolding adopt
adopt_session s =
    let sid = s.context.session_id in
    let (ops, known) =
      adopt (or_empty (get sid s.policy.session_operations)) s.context.operations in
    record {
      policy = record s.policy { session_operations = put sid ops s.policy.session_operations };
      context = record s.context { operations = known };
    }

-- `_merge_restored_session_budget`
unfoldable pub merge_restored : ℕ → Journal → ℕ → ℕ → Session → Session
merge_restored legacy journal start_version start_baseline s =
    let entered = init_context_state s in
    if contains entered.context.session_id entered.policy.restored_session_ids
    then adopt_session entered
    else adopt_session (import_events legacy journal start_version start_baseline entered)
