-- ===== src/Execution/Rounds.antt =====
-- `Payment402Client._execute_detailed_internal` (ln_church_agent/client.py): the loop of requests
-- and redirects, the answer to a 402, the navigation to a next action, and
-- `_execute_nonpurchase_get`. The client has no evidence repository.
--
-- `replies` is what servers answer, by the number of the requests that were sent before.
use ln_church_agent.Common.{
  ℕ, zero, suc, Bool, true, false, not, ◌&&◌, ◌+◌, ◌==◌, leb, ltb, Option, none, some, ◌∷◌,
  if◌then◌else◌,
}
use ln_church_agent.Common.Lists.{length}
use ln_church_agent.Common.Outcome.{
  Method, done, raised, pure, raise, raise_if, gets, modify, ◌>>=◌, ◌>>◌, when◌run◌otherwise◌,
}
use ln_church_agent.Budget.Types.{Phase}
use ln_church_agent.Budget.Ledger.{init_context_state}
use ln_church_agent.Budget.States.{
  assert_payment_state_allows_402, check_and_set_payment_state, update_payment_state,
}
use ln_church_agent.Execution.Types.{
  Location, Verb, is_get, is_safe_method, NextAction, Body, Demand, Reply, Settings, Receipt, Agent,
  Stop, Frame, Run, unreachable, redirect, coded_error, success, payment_required, other_status,
}
use ln_church_agent.Execution.Navigate.{
  check_local_policy, initialize_navigation_state, resolve_navigation, canonical_location,
}
use ln_church_agent.Execution.Attempt.{ledger, find_receipt, write_receipt, attempt_payment}

-- one request, and its reply
unfoldable pub send_request : (ℕ → Reply) → Location → Method Agent Stop Reply
send_request replies t w = (done (replies (length w.sent)), record w { sent = t ∷ w.sent })

abbrev pub http_response_error : Body → Stop
http_response_error b = if b.has_code then Stop.server_code else Stop.http_error

-- `_nonpurchase_get_result`
unfoldable pub nonpurchase_get_result : Reply → Run
nonpurchase_get_result unreachable = raise Stop.transport_failed
nonpurchase_get_result (redirect t b) = raise (http_response_error b)
nonpurchase_get_result (coded_error _) = raise Stop.server_code
nonpurchase_get_result (success readable _ _) = raise_if (not readable) Stop.unreadable
nonpurchase_get_result (payment_required d) =
    raise (if d.demand_code then Stop.server_code else Stop.http_error)
nonpurchase_get_result (other_status b) = raise (http_response_error b)

-- `_execute_nonpurchase_get`
unfoldable pub execute_nonpurchase_get : Settings → (ℕ → Reply) → Location → Run
unfolding nonpurchase_get_result send_request
execute_nonpurchase_get cfg replies t = do
  check_local_policy cfg t
  reply ← send_request replies t
  nonpurchase_get_result reply

-- `_apply_server_receipt_state`, by what it does to the settlement
unfoldable pub apply_server_receipt_state : Option ℕ → Bool → Run
apply_server_receipt_state r verified =
    if verified then write_receipt r (λ x. record x { settlement_verified = true }) else pure tt

abbrev pub is_pending : Option Receipt → Bool
is_pending none = false
is_pending (some r) = r.is_exact_scheme && not r.payment_performed

-- a request with an exact credential that is not confirmed yet
abbrev pub is_pending_exact : Frame → Agent → Bool
is_pending_exact f w = is_pending (find_receipt f.current_receipt w)

-- `_payment_challenge`
unfoldable pub payment_challenge : ℕ → Demand → Run
payment_challenge fp d = when d.is_parsed run pure tt otherwise do
  ledger (update_payment_state fp Phase.validation_failed)
  raise Stop.challenge_refused

-- the answer to a 402 that the phase of the operation allows; `again` is the paid request
unfoldable pub answer_demand : Settings → (ℕ → ℕ) → ℕ → (Frame → Run) → Frame → Demand → Run
unfolding payment_challenge
answer_demand cfg float_str fp again f d =
    when leb cfg.max_payment_retries f.retry
    run (do ledger (update_payment_state fp Phase.ambiguous); raise Stop.retries_exceeded)
    otherwise do
      payment_challenge fp d
      raise_if (not d.is_trusted) Stop.untrusted
      ledger (check_and_set_payment_state fp)
      attempt_payment float_str fp again f d

module _ (cfg : Settings) (float_str : ℕ → ℕ) (fp : ℕ) (replies : ℕ → Reply) where
  -- the start of `_execute_detailed_internal`, up to its loop
  unfoldable pub start_execution : (Frame → Run) → Frame → Run
  unfolding execute_nonpurchase_get
  start_execution loop f =
      when is_get f.verb && f.target.is_paid_path
      run execute_nonpurchase_get cfg replies f.target
      otherwise do
        check_local_policy cfg f.target
        modify (λ w. record w { session = init_context_state w.session })
        initialize_navigation_state f.target.wire
        raise_if (cfg.max_hops == 0 && ltb 0 f.hop) Stop.redirects_disabled
        loop f

  unfoldable pub follow_url : (Frame → Run) → Frame → Body → Verb → Option Location → Run
  unfolding start_execution
  follow_url loop f b verb none = raise (http_response_error b)
  follow_url loop f b Verb.no_method (some t) = raise (http_response_error b)
  follow_url loop f b verb (some t) = do
    resolve_navigation cfg verb false f.target t
    start_execution loop (record f { verb = verb; target = canonical_location t; hop = f.hop + 1 })

  unfoldable pub follow_action : (Frame → Run) → Frame → Body → Option NextAction → Run
  unfolding follow_url
  follow_action loop f b none = raise (http_response_error b)
  follow_action loop f b (some a) =
      when not cfg.auto_navigate run raise (http_response_error b) otherwise do
        raise_if (not (is_safe_method a.verb) && not cfg.allow_unsafe_navigate)
            Stop.unsafe_navigation
        follow_url loop f b a.verb a.url

  -- the end of `_execute_detailed_internal`, after its loop
  unfoldable pub after_loop : (Frame → Run) → Frame → Body → Run
  unfolding follow_action
  after_loop loop f b = do
    pending ← gets (is_pending_exact f)
    raise_if pending Stop.exact_unconfirmed
    follow_action loop f b b.next_action

  unfoldable pub follow_redirect : (Frame → Run) → Frame → Body → Option Location → Run
  unfolding after_loop
  follow_redirect loop f b none = after_loop loop f b
  follow_redirect loop f b (some t) = do
    resolve_navigation cfg f.verb true f.target t
    loop (record f { target = canonical_location t })

  -- the answer to a 402
  unfoldable pub pay_demand : (Frame → Run) → Frame → Demand → Run
  unfolding answer_demand start_execution
  pay_demand loop f d = do
    ledger (assert_payment_state_allows_402 fp)
    answer_demand cfg float_str fp (start_execution loop) f d

  -- one turn of the loop, after its request
  unfoldable pub respond : (Frame → Run) → Frame → Reply → Run
  unfolding follow_redirect apply_server_receipt_state pay_demand
  respond loop f unreachable =
      raise (elim f.current_receipt [
        | none ↦ Stop.transport_failed
        | some _ ↦ Stop.ambiguous_transport
      ])
  respond loop f (redirect t b) = do
    pending ← gets (is_pending_exact f)
    raise_if pending Stop.exact_redirected
    raise_if (cfg.max_hops == 0) Stop.redirects_disabled
    follow_redirect loop f b t
  respond loop f (coded_error verified) = do
    apply_server_receipt_state f.current_receipt verified
    raise Stop.server_code
  respond loop f (success readable verified matched) = do
    raise_if (not readable) Stop.unreadable
    apply_server_receipt_state f.current_receipt verified
    raise_if (not matched) Stop.unmatched
  respond loop f (payment_required d) = pay_demand loop f d
  respond loop f (other_status b) = after_loop loop f b

  -- The loop, with a bound on its turns.
  unfoldable pub request_loop : ℕ → Frame → Run
  unfolding respond send_request
  request_loop zero f w = (raised Stop.out_of_fuel, record w { is_starved = true })
  request_loop (suc n) f w = (send_request replies f.target >>= respond (request_loop n) f) w

  -- `_execute_detailed_internal`
  unfoldable pub execute_detailed : ℕ → Frame → Run
  unfolding start_execution request_loop
  execute_detailed fuel f = start_execution (request_loop fuel) f
