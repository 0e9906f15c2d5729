-- ===== src/Execution/Orders.antt =====
-- Several executions of one operation, one after the other, by contexts of one session: the
-- operation is paid at most once (`Payment402Client._execute_detailed_internal`,
-- ln_church_agent/client.py).
use ln_church_agent.Budget.Types.{Context}
use ln_church_agent.Execution.Types.{Agent, Settings, Navigation, Reply, Frame}
use Prim.Native.Nat.{ℕ, suc}
use ln_church_agent.Common.{
  Option, List, ◌≡◌, ◌∷◌, ◌+◌, [], arith, Bool, true, ◌==◌, ◌∙◌, refl, inl, inr, ap,
}
use ln_church_agent.Execution.Rounds.{execute_detailed}
use ln_church_agent.Budget.Ledger.{init_context_state}
use ln_church_agent.Execution.Keeps.{IsKept}
use ln_church_agent.Execution.Trying.{IsBlocked}
use ln_church_agent.Execution.Spending.{IsRun, credit}
use ln_church_agent.Common.Lists.{all}
use ln_church_agent.Execution.Once.{execute_detailed-Runs, credit-bound}
use ln_church_agent.Execution.Attempted.{IsAtMostOne}
use ln_church_agent.Execution.RoundKeeps.{execute_detailed-Keeps}
use ln_church_agent.Budget.Sessions.{perform-session}

-- one execution: the context, its entry of the navigation states, and the arguments
pub record Order : Type 0 where
  pub context : Context
  pub navigation : Option Navigation
  pub frame : Frame

-- what the execution starts from: the policy of the client is shared, the context is its own
unfoldable pub begin_order : Order → Agent → Agent
begin_order o w = record w {
  session = record w.session { context = o.context };
  navigation = o.navigation;
}

module _ (cfg : Settings) (float_str : ℕ → ℕ) (fp : ℕ) (replies : ℕ → Reply) where
  -- the executions, with the fuel that is enough
  unfoldable pub run_orders : List Order → Agent → Agent
  unfolding begin_order execute_detailed
  run_orders [] w = w
  run_orders (o ∷ rest) w =
      run_orders rest
        (execute_detailed cfg float_str fp replies (cfg.max_hops + 2) o.frame (begin_order o w)).1

-- the execution belongs to the session
abbrev pub of_session : ℕ → Order → Bool
of_session sid o = o.context.session_id == sid

abbrev InSession : ℕ → Agent → Type 0
InSession sid w = w.session.context.session_id ≡ sid

in_session :
    (cfg : Settings) (float_str : ℕ → ℕ) (sid : ℕ)
    → IsKept cfg float_str (λ _. Unit {0}) (InSession sid)
unfolding init_context_state
in_session cfg float_str sid = record {
  on_call = λ call w p. perform-session float_str call w.session ∙ p;
  on_init = λ w p. p;
  on_navigation = λ n w p. p;
  on_send = λ t w h i p. p;
  on_attempts = λ n w p. p;
  on_receipts = λ d i w p. p;
  on_starved = λ w p. p;
}

begin_order-IsBlocked :
    (fp sid : ℕ) (o : Order) (w : Agent)
    → InSession sid w
    → InSession sid (begin_order o w)
    → IsBlocked fp w
    → IsBlocked fp (begin_order o w)
unfolding begin_order
begin_order-IsBlocked fp sid o w p q b = ground (arith, p, q, b)

module _ (cfg : Settings) (float_str : ℕ → ℕ) (fp sid : ℕ) (replies : ℕ → Reply) where
  abbrev after_order : Order → Agent → Agent
  after_order o w =
      (execute_detailed cfg float_str fp replies (cfg.max_hops + 2) o.frame (begin_order o w)).1

  record IsOrder (o : Order) (w : Agent) : Type 0 where
    run : IsRun cfg fp (1 + credit cfg fp (begin_order o w)) (begin_order o w) (after_order o w)
    begun : InSession sid (begin_order o w)
    ended : InSession sid (after_order o w)

  order-IsOrder : (o : Order) (w : Agent) → of_session sid o ≡ true → IsOrder o w
  unfolding begin_order
  order-IsOrder o w h =
      let u = begin_order o w in
      let e : InSession sid u = ground (arith, h) in
      record {
        run =
            (execute_detailed-Runs cfg float_str fp replies (cfg.max_hops + 2) o.frame).runs u
              (omega (arith, credit-bound cfg float_str fp replies u));
        begun = e;
        ended =
            (execute_detailed-Keeps (in_session cfg float_str sid) (λ _. tt) replies fp
                (cfg.max_hops + 2) o.frame tt).keeps
              u e;
      }

  begun-attempts : (o : Order) (w : Agent) → (begin_order o w).attempts ≡ w.attempts
  unfolding begin_order
  begun-attempts o w = refl

  run_orders-IsBlocked :
      (orders : List Order) (w : Agent)
      → InSession sid w
      → all (of_session sid) orders ≡ true
      → IsBlocked fp w
      → IsBlocked fp (run_orders cfg float_str fp replies orders w)
        × ((run_orders cfg float_str fp replies orders w).attempts ≡ w.attempts)
  unfolding run_orders
  run_orders-IsBlocked [] w p h b = (b, refl)
  run_orders-IsBlocked (o ∷ rest) w p h b =
      let i = order-IsOrder o w (ground (arith, h)) in
      let (still, same) = i.run.idle (begin_order-IsBlocked fp sid o w p i.begun b) in
      let (at_end, none_more) =
        run_orders-IsBlocked rest (after_order o w) i.ended (ground (arith, h)) still in
      (at_end, none_more ∙ same ∙ begun-attempts o w)

  -- However often an operation is executed, one execution after the other, by contexts of one
  -- session and with whatever navigation states, arguments and answers of servers: the payment is
  -- attempted irreversibly at most once, and once it was, the operation's phase blocks another.
  pub run_orders_once :
      (orders : List Order) (w : Agent)
      → w.session.context.session_id ≡ sid
      → all (of_session sid) orders ≡ true
      → IsAtMostOne fp w.attempts (run_orders cfg float_str fp replies orders w)
  unfolding run_orders
  run_orders_once [] w p h = inl refl
  run_orders_once (o ∷ rest) w p h =
      let i = order-IsOrder o w (ground (arith, h)) in
      let u = after_order o w in
      elim i.run.at_most [
        | inl e ↦
            let r : IsAtMostOne fp w.attempts (run_orders cfg float_str fp replies rest u) =
              rw (e ∙ begun-attempts o w) at (run_orders_once rest u i.ended (ground (arith, h))) in
            r
        | inr (e, b) ↦
            let (at_end, none_more) = run_orders-IsBlocked rest u i.ended (ground (arith, h)) b in
            inr (none_more ∙ e ∙ ap suc (begun-attempts o w), at_end)
      ]
