-- ===== src/Execution/Policy.antt =====
-- The client's policy along an execution: the session cap, and the hosts that requests go to.
use ln_church_agent.Budget.Ledger.{session_spent_usd, session_reserved_usd, init_context_state}
use ln_church_agent.Execution.Types.{Settings, Agent, Reply, Frame, Location}
use Prim.Native.Nat.{ℕ}
use ln_church_agent.Budget.Types.{Session, confirmed, reserved}
use ln_church_agent.Execution.Keeps.{IsKept}
use ln_church_agent.Budget.Bound.{IsWithinCap, IsExact, float_digits}
use ln_church_agent.Common.Lists.{all, contains}
use ln_church_agent.Common.{arith, ◌<◌, ◌≡◌, true, Bool, not, ◌&&◌}
use ln_church_agent.Budget.Sums.{budget_total-init}
use ln_church_agent.Budget.History.{perform-IsWithinCap, perform-SameFrame}
use ln_church_agent.Execution.Navigate.{outside}
use ln_church_agent.Execution.Rounds.{execute_detailed}
use ln_church_agent.Execution.RoundKeeps.{execute_detailed-Keeps}
use ln_church_agent.Budget.Steps.{init-SameFrame}

-- the authority that a request goes to is one that the policy allows
abbrev pub sent_allowed : Settings → Location → Bool
sent_allowed cfg t =
    not (contains t.authority cfg.blocked_hosts) && not (outside t.authority cfg.policy_hosts)

-- every request so far went where the policy allows
abbrev pub IsAllowedSent : Settings → Agent → Type 0
IsAllowedSent cfg w = all (sent_allowed cfg) w.sent ≡ true

-- the host and port are written as they are sent: a default port is not written out
abbrev pub IsWrittenAsSent : Location → Type 0
IsWrittenAsSent t = t.netloc ≡ t.authority

init-IsWithinCap : (s : Session) → IsWithinCap s.policy → IsWithinCap (init_context_state s).policy
unfolding session_spent_usd session_reserved_usd
init-IsWithinCap s c = record {
  within = omega (
    arith,
    c.within,
    budget_total-init confirmed s,
    budget_total-init reserved s,
    (init-SameFrame s).same_cap,
    (init-SameFrame s).same_baseline,
  );
}

module _ (cfg : Settings) (float_str : ℕ → ℕ) where
  -- the cap holds, and is in the range of exact floats
  abbrev IsCapped : Agent → Type 0
  IsCapped w =
      IsWithinCap w.session.policy × (w.session.policy.max_spend_per_session_usd < float_digits)

  capped : IsExact float_str → IsKept cfg float_str (λ _. Unit {0}) IsCapped
  unfolding init_context_state
  capped exact = record {
    on_call = λ call w p. (
      perform-IsWithinCap float_str exact call w.session p.1 p.0,
      omega (arith, p.1, (perform-SameFrame float_str call w.session).same_cap),
    );
    on_init = λ w p. (init-IsWithinCap w.session p.0, p.1);
    on_navigation = λ n w p. p;
    on_send = λ t w h i p. p;
    on_attempts = λ n w p. p;
    on_receipts = λ d i w p. p;
    on_starved = λ w p. p;
  }

  -- Whatever servers answer, and however the payment ends, one execution keeps the money spent and
  -- reserved within the session cap, if it is within the cap before, the cap is below 10 ^ 15 units
  -- and sums below 10 ^ 15 units survive the conversion to a float.
  pub execute_detailed-IsWithinCap :
      (replies : ℕ → Reply) (fp fuel : ℕ) (f : Frame) (w : Agent)
      → IsExact float_str
      → w.session.policy.max_spend_per_session_usd < float_digits
      → IsWithinCap w.session.policy
      → IsWithinCap (execute_detailed cfg float_str fp replies fuel f w).1.session.policy
  execute_detailed-IsWithinCap replies fp fuel f w exact small c =
      ((execute_detailed-Keeps (capped exact) (λ _. tt) replies fp fuel f tt).keeps w (c, small)).0
