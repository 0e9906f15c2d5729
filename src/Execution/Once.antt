-- ===== src/Execution/Once.antt =====
-- One execution ends, sends boundedly many requests, and attempts at most one payment.
use ln_church_agent.Execution.Types.{
  Settings, Reply, Frame, Run, Location, redirect, Body, Demand, coded_error, Verb, Agent, success,
  NextAction, payment_required, other_status, unreachable,
}
use Prim.Native.Nat.{ℕ, suc, zero}
use ln_church_agent.Execution.Rounds.{
  nonpurchase_get_result, execute_nonpurchase_get, request_loop, start_execution, follow_url,
  follow_action, after_loop, follow_redirect, pay_demand, respond, execute_detailed, answer_demand,
}
use ln_church_agent.Execution.Spending.{
  Runs, raise-Runs, quiet_then-Runs, branch-Runs, quiet-Runs, credit, IsRun, still-IsRun,
}
use ln_church_agent.Common.{arith, Option, some, ◌≡◌, false, ◌+◌, true, none, refl, ◌≤◌}
use ln_church_agent.Execution.Attempt.{ledger}
use ln_church_agent.Budget.States.{assert_payment_state_allows_402, blocks_402}
use ln_church_agent.Common.Outcome.{done, bind-keeps}
use ln_church_agent.Budget.PhaseSteps.{phase_now, assert-phase}
use ln_church_agent.Execution.QuietSteps.{
  guard-Quiets, check_local_policy-Quiets, navigate_then-Runs, gets-Quiets, assert-Quiets,
  send_then-Runs, init-Quiets, receipt_state-Quiets, initialize-Quiets,
}
use ln_church_agent.Execution.Paid.{answer_demand-Pays}
use ln_church_agent.Common.Lists.{length}
use ln_church_agent.Execution.Navigate.{canonical_location}

module _ (cfg : Settings) (float_str : ℕ → ℕ) (fp : ℕ) (replies : ℕ → Reply) where
  nonpurchase_get_result-Runs : {b k : ℕ} (r : Reply) → Runs cfg fp b k (nonpurchase_get_result r)
  unfolding nonpurchase_get_result
  nonpurchase_get_result-Runs unreachable = raise-Runs cfg fp _
  nonpurchase_get_result-Runs (redirect t b) = raise-Runs cfg fp _
  nonpurchase_get_result-Runs (coded_error _) = raise-Runs cfg fp _
  nonpurchase_get_result-Runs (success readable _ _) = quiet-Runs cfg fp (guard-Quiets cfg fp _ _)
  nonpurchase_get_result-Runs (payment_required d) = raise-Runs cfg fp _
  nonpurchase_get_result-Runs (other_status b) = raise-Runs cfg fp _

  execute_nonpurchase_get-Runs :
      {b : ℕ} (t : Location) → Runs cfg fp b 1 (execute_nonpurchase_get cfg replies t)
  unfolding execute_nonpurchase_get
  execute_nonpurchase_get-Runs t =
      quiet_then-Runs cfg fp (check_local_policy-Quiets cfg fp t)
        (λ _. send_then-Runs cfg fp replies t nonpurchase_get_result-Runs)

  module _ {b : ℕ} (loop : Frame → Run) (h : (f : Frame) → Runs cfg fp b 1 (loop f)) where
    start_execution-Runs :
        (f : Frame) → Runs cfg fp b 1 (start_execution cfg float_str fp replies loop f)
    unfolding start_execution
    start_execution-Runs f =
        search
          (
            branch-Runs, execute_nonpurchase_get-Runs, quiet_then-Runs, check_local_policy-Quiets,
            init-Quiets, initialize-Quiets, guard-Quiets, h,
          )
          depth 20 fits 4000

    follow_url-Runs :
        (f : Frame) (y : Body) (v : Verb) (t : Option Location)
        → Runs cfg fp (suc b) 0 (follow_url cfg float_str fp replies loop f y v t)
    unfolding follow_url
    follow_url-Runs f y v none = raise-Runs cfg fp _
    follow_url-Runs f y Verb.no_method (some t) = raise-Runs cfg fp _
    follow_url-Runs f y v (some t) = navigate_then-Runs cfg fp v false f.target t (
        start_execution-Runs
          (record f { verb = v; target = canonical_location t; hop = f.hop + 1 }))

    follow_action-Runs :
        (f : Frame) (y : Body) (a : Option NextAction)
        → Runs cfg fp (suc b) 0 (follow_action cfg float_str fp replies loop f y a)
    unfolding follow_action
    follow_action-Runs f y none = raise-Runs cfg fp _
    follow_action-Runs f y (some a) =
        search (branch-Runs, raise-Runs, quiet_then-Runs, guard-Quiets, follow_url-Runs) depth 20

    after_loop-Runs :
        (f : Frame) (y : Body)
        → Runs cfg fp (suc b) 0 (after_loop cfg float_str fp replies loop f y)
    unfolding after_loop
    after_loop-Runs f y =
        search (quiet_then-Runs, gets-Quiets, guard-Quiets, follow_action-Runs) depth 20

    follow_redirect-Runs :
        (f : Frame) (y : Body) (t : Option Location)
        → Runs cfg fp (suc b) 0 (follow_redirect cfg float_str fp replies loop f y t)
    unfolding follow_redirect
    follow_redirect-Runs f y none = after_loop-Runs f y
    follow_redirect-Runs f y (some t) =
        navigate_then-Runs cfg fp f.verb true f.target t
          (h (record f { target = canonical_location t }))

    pay_demand-Runs :
        (f : Frame) (d : Demand)
        → Runs cfg fp (suc b) 0 (pay_demand cfg float_str fp replies loop f d)
    unfolding pay_demand
    pay_demand-Runs f d = record {
      runs = λ w l.
          let m = ledger (assert_payment_state_allows_402 fp) in
          let c = 0 + credit cfg fp w in
          bind-keeps (IsRun cfg fp c w) m
            (λ _.
              answer_demand cfg float_str fp (start_execution cfg float_str fp replies loop) f d)
            w (still-IsRun cfg fp c ((assert-Quiets cfg fp).quiets w))
            (λ a e.
              (answer_demand-Pays cfg float_str fp w (free w a e)
                  (start_execution cfg float_str fp replies loop) start_execution-Runs l f d).pays
                (m w).1 ((refl, refl, refl), refl));
    }
      where
        free :
            (w : Agent) (a : Unit {0})
            → (ledger (assert_payment_state_allows_402 fp) w).0 ≡ done a
            → blocks_402 (phase_now fp w.session) ≡ false
        free w a e = ground (arith, e, (assert-phase fp w.session).1 a)

    respond-Runs :
        (f : Frame) (r : Reply) → Runs cfg fp (suc b) 0 (respond cfg float_str fp replies loop f r)
    unfolding respond
    respond-Runs f unreachable = raise-Runs cfg fp _
    respond-Runs f (redirect t y) =
        search (quiet_then-Runs, gets-Quiets, guard-Quiets, follow_redirect-Runs) depth 20
    respond-Runs f (coded_error v) =
        quiet_then-Runs cfg fp (receipt_state-Quiets cfg fp f.current_receipt v)
          (λ _. raise-Runs cfg fp _)
    respond-Runs f (success a v m) =
        search (quiet_then-Runs, quiet-Runs, guard-Quiets, receipt_state-Quiets) depth 20
    respond-Runs f (payment_required d) = pay_demand-Runs f d
    respond-Runs f (other_status y) = after_loop-Runs f y

  request_loop-Runs :
      (fuel : ℕ) (f : Frame) → Runs cfg fp fuel 1 (request_loop cfg float_str fp replies fuel f)
  unfolding request_loop
  request_loop-Runs zero f = record { runs = λ w l. ground (arith, l) }
  request_loop-Runs (suc n) f =
      send_then-Runs cfg fp replies f.target
        (respond-Runs (request_loop cfg float_str fp replies n) (request_loop-Runs n) f)

  pub execute_detailed-Runs :
      (fuel : ℕ) (f : Frame) → Runs cfg fp fuel 1 (execute_detailed cfg float_str fp replies fuel f)
  unfolding execute_detailed
  execute_detailed-Runs fuel f =
      start_execution-Runs (request_loop cfg float_str fp replies fuel) (request_loop-Runs fuel) f

  pub credit-bound : (w : Agent) → credit cfg fp w ≤ cfg.max_hops + 1
  unfolding credit
  credit-bound w = ground arith

  -- Whatever servers answer, and however often they redirect or demand a payment, an execution with
  -- fuel for two turns more than `max_hops` ends without using the fuel up, and sends at most two
  -- requests more than `max_hops`: one for each hop, the first one, and one after a payment.
  pub execute_detailed-requests :
      (fuel : ℕ) (f : Frame) (w : Agent)
      → cfg.max_hops + 2 ≤ fuel
      → let w' = (execute_detailed cfg float_str fp replies fuel f w).1 in
        (w'.is_starved ≡ w.is_starved) × (length w'.sent ≤ length w.sent + (cfg.max_hops + 2))
  execute_detailed-requests fuel f w enough =
      let le = credit-bound w in
      let r = (execute_detailed-Runs fuel f).runs w (omega (arith, le, enough)) in
      (r.alive, omega (arith, r.requests, le))
