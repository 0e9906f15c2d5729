-- ===== src/Execution/RoundKeeps.antt =====
-- What the steps of an execution keep, the whole execution keeps.
use ln_church_agent.Execution.Types.{
  Settings, Agent, Location, Verb, Reply, Run, Stop, redirect, coded_error, success,
  payment_required, other_status, unreachable, Frame, Body, Demand, NextAction,
}
use Prim.Native.Nat.{ℕ, suc, zero}
use ln_church_agent.Execution.Keeps.{
  IsKept, Keeps, raise-Keeps, seq-Keeps, guard-Keeps, after-Keeps, branch-Keeps, then-Keeps,
  pure-Keeps, keeping,
}
use ln_church_agent.Execution.Navigate.{
  initialize_navigation_state, check_local_policy, resolve_navigation, is_allowed,
  canonical_location,
}
use ln_church_agent.Budget.States.{assert_payment_state_allows_402, check_and_set_payment_state}
use ln_church_agent.Budget.Run.{perform, Call}
use ln_church_agent.Common.{Bool, ◌≡◌, true, arith, Option, some, false, none, ◌+◌, subst, sym}
use ln_church_agent.Common.Outcome.{modify, ◌>>◌}
use ln_church_agent.Execution.Attempt.{ledger}
use ln_church_agent.Execution.Rounds.{
  send_request, nonpurchase_get_result, execute_nonpurchase_get, apply_server_receipt_state,
  request_loop, execute_detailed, start_execution, follow_url, follow_action, after_loop,
  follow_redirect, payment_challenge, pay_demand, respond, answer_demand,
}
use ln_church_agent.Execution.Checks.{
  resolve_navigation-IsNavigated, check_local_policy-allows, resolve_navigation-allows,
  check_local_policy-same,
}
use ln_church_agent.Budget.Ledger.{init_context_state}
use ln_church_agent.Execution.AttemptKeeps.{
  write_receipt-Keeps, update-Keeps, attempt_payment-Keeps,
}

module _ {cfg : Settings} {float_str : ℕ → ℕ} {T : Location → Type 0} {P : Agent → Type 0}
    (k : IsKept cfg float_str T P) (canon : (t : Location) → T (canonical_location t)) where
  check_local_policy-Keeps : (t : Location) → Keeps P (check_local_policy cfg t)
  check_local_policy-Keeps t = record { keeps = λ w p. rw (check_local_policy-same cfg t w) p }

  resolve_navigation-Keeps :
      (v : Verb) (r : Bool) (old new : Location) → Keeps P (resolve_navigation cfg v r old new)
  resolve_navigation-Keeps v r old new = record {
    keeps = λ w p.
        let w' = (resolve_navigation cfg v r old new w).1 in
        rw (resolve_navigation-IsNavigated cfg v r old new w) (k.on_navigation w'.navigation w p);
  }

  initialize-Keeps : (u : ℕ) → Keeps P (initialize_navigation_state u)
  unfolding initialize_navigation_state
  initialize-Keeps u = record { keeps = λ w p. k.on_navigation _ w p }

  init-Keeps :
      Keeps P (modify {E = Stop} (λ w. record w { session = init_context_state w.session }))
  init-Keeps = record { keeps = k.on_init }

  assert-Keeps : (fp : ℕ) → Keeps P (ledger (assert_payment_state_allows_402 fp))
  unfolding assert_payment_state_allows_402
  assert-Keeps fp = record { keeps = λ w p. ground (arith, k.on_init w p) }

  check_and_set-Keeps : (fp : ℕ) → Keeps P (ledger (check_and_set_payment_state fp))
  unfolding perform
  check_and_set-Keeps fp = record { keeps = k.on_call (Call.check_and_set fp) }

  receipt_state-Keeps : (r : Option ℕ) (v : Bool) → Keeps P (apply_server_receipt_state r v)
  unfolding apply_server_receipt_state
  receipt_state-Keeps r true = write_receipt-Keeps k r _
  receipt_state-Keeps r false = pure-Keeps tt

  module _ (replies : ℕ → Reply) where
    send_request-Keeps :
        (t : Location) → is_allowed cfg t ≡ true → T t → Keeps P (send_request replies t)
    unfolding send_request
    send_request-Keeps t h i = record { keeps = λ w p. k.on_send t w h i p }

    nonpurchase_get_result-Keeps : (r : Reply) → Keeps P (nonpurchase_get_result r)
    unfolding nonpurchase_get_result
    nonpurchase_get_result-Keeps unreachable = raise-Keeps _
    nonpurchase_get_result-Keeps (redirect t b) = raise-Keeps _
    nonpurchase_get_result-Keeps (coded_error _) = raise-Keeps _
    nonpurchase_get_result-Keeps (success readable _ _) = guard-Keeps _ _
    nonpurchase_get_result-Keeps (payment_required d) = raise-Keeps _
    nonpurchase_get_result-Keeps (other_status b) = raise-Keeps _

    -- what follows the check of a target may send to it
    checked-Keeps :
        (t : Location) {m : Run}
        → (is_allowed cfg t ≡ true → Keeps P m)
        → Keeps P (check_local_policy cfg t >> m)
    checked-Keeps t h =
        after-Keeps (is_allowed cfg t ≡ true) (check_local_policy-Keeps t)
          (check_local_policy-allows cfg t) (λ a _. h a)

    resolved-Keeps :
        (v : Verb) (r : Bool) (old new : Location) {m : Run}
        → (is_allowed cfg (canonical_location new) ≡ true → Keeps P m)
        → Keeps P (resolve_navigation cfg v r old new >> m)
    resolved-Keeps v r old new h =
        after-Keeps (is_allowed cfg (canonical_location new) ≡ true)
          (resolve_navigation-Keeps v r old new) (resolve_navigation-allows cfg v r old new)
          (λ a _. h a)

    execute_nonpurchase_get-Keeps :
        (t : Location) → T t → Keeps P (execute_nonpurchase_get cfg replies t)
    unfolding execute_nonpurchase_get
    execute_nonpurchase_get-Keeps t i =
        checked-Keeps t (λ a. seq-Keeps (send_request-Keeps t a i) nonpurchase_get_result-Keeps)

    -- a loop keeps the predicate from every target that the policy allows
    abbrev LoopKeeps : (Frame → Run) → Type 0
    LoopKeeps loop = (f : Frame) → is_allowed cfg f.target ≡ true → T f.target → Keeps P (loop f)

    module _ (fp : ℕ) (loop : Frame → Run) (h : LoopKeeps loop) where
      start_execution-Keeps :
          (f : Frame) → T f.target → Keeps P (start_execution cfg float_str fp replies loop f)
      unfolding start_execution
      start_execution-Keeps f i =
          search
            (
              branch-Keeps, execute_nonpurchase_get-Keeps, checked-Keeps, then-Keeps, init-Keeps,
              initialize-Keeps, guard-Keeps, h, i,
            )
            depth 20 fits 4000

      follow_url-Keeps :
          (f : Frame) (b : Body) (v : Verb) (t : Option Location)
          → Keeps P (follow_url cfg float_str fp replies loop f b v t)
      unfolding follow_url
      follow_url-Keeps f b v none = raise-Keeps _
      follow_url-Keeps f b Verb.no_method (some t) = raise-Keeps _
      follow_url-Keeps f b v (some t) = then-Keeps (resolve_navigation-Keeps v false f.target t) (
          start_execution-Keeps
            (record f { verb = v; target = canonical_location t; hop = f.hop + 1 }) (canon t))

      follow_action-Keeps :
          (f : Frame) (b : Body) (a : Option NextAction)
          → Keeps P (follow_action cfg float_str fp replies loop f b a)
      unfolding follow_action
      follow_action-Keeps f b none = raise-Keeps _
      follow_action-Keeps f b (some a) = search (keeping, follow_url-Keeps) depth 20

      after_loop-Keeps :
          (f : Frame) (b : Body) → Keeps P (after_loop cfg float_str fp replies loop f b)
      unfolding after_loop
      after_loop-Keeps f b = search (keeping, follow_action-Keeps) depth 20

      follow_redirect-Keeps :
          (f : Frame) (b : Body) (t : Option Location)
          → Keeps P (follow_redirect cfg float_str fp replies loop f b t)
      unfolding follow_redirect
      follow_redirect-Keeps f b none = after_loop-Keeps f b
      follow_redirect-Keeps f b (some t) =
          resolved-Keeps f.verb true f.target t
            (λ a. h (record f { target = canonical_location t }) a (canon t))

      payment_challenge-Keeps : (d : Demand) → Keeps P (payment_challenge fp d)
      unfolding payment_challenge
      payment_challenge-Keeps d = search (keeping, update-Keeps k) depth 20

      pay_demand-Keeps :
          (f : Frame) (d : Demand)
          → T f.target
          → Keeps P (pay_demand cfg float_str fp replies loop f d)
      unfolding pay_demand answer_demand
      pay_demand-Keeps f d i =
          search
            (
              then-Keeps,
              branch-Keeps,
              raise-Keeps,
              guard-Keeps,
              update-Keeps k,
              assert-Keeps,
              check_and_set-Keeps,
              payment_challenge-Keeps,
              attempt_payment-Keeps k,
              again-Keeps,
            )
            depth 20 fits 4000
        where
          again-Keeps :
              (g : Frame)
              → g.target ≡ f.target
              → Keeps P (start_execution cfg float_str fp replies loop g)
          again-Keeps g e = start_execution-Keeps g (subst T (sym e) i)

      respond-Keeps :
          (f : Frame) (r : Reply) → T f.target → Keeps P (respond cfg float_str fp replies loop f r)
      unfolding respond apply_server_receipt_state
      respond-Keeps f unreachable i = raise-Keeps _
      respond-Keeps f (redirect t b) i = search (keeping, follow_redirect-Keeps) depth 20
      respond-Keeps f (coded_error v) i =
          then-Keeps (receipt_state-Keeps f.current_receipt v) (raise-Keeps _)
      respond-Keeps f (success a v m) i =
          then-Keeps (guard-Keeps _ _)
            (then-Keeps (receipt_state-Keeps f.current_receipt v) (guard-Keeps _ _))
      respond-Keeps f (payment_required d) i = pay_demand-Keeps f d i
      respond-Keeps f (other_status b) i = after_loop-Keeps f b

    request_loop-Keeps : (fp fuel : ℕ) → LoopKeeps (request_loop cfg float_str fp replies fuel)
    unfolding request_loop
    request_loop-Keeps fp zero f a i = record { keeps = k.on_starved }
    request_loop-Keeps fp (suc n) f a i =
        let loop = request_loop cfg float_str fp replies n in
        seq-Keeps (send_request-Keeps f.target a i)
          (λ r. respond-Keeps fp loop (request_loop-Keeps fp n) f r i)

    -- An execution keeps what its steps keep.
    pub execute_detailed-Keeps :
        (fp fuel : ℕ) (f : Frame)
        → T f.target
        → Keeps P (execute_detailed cfg float_str fp replies fuel f)
    unfolding execute_detailed
    execute_detailed-Keeps fp fuel f i =
        start_execution-Keeps fp (request_loop cfg float_str fp replies fuel)
          (request_loop-Keeps fp fuel) f i
