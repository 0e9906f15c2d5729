-- ===== src/Execution/Tests.antt =====
-- Executions on concrete inputs, and the theorems about executions applied to them.
use ln_church_agent.Execution.Navigate.{
  check_local_policy, initialize_navigation_state, resolve_navigation,
}
use ln_church_agent.Common.Dict.{total, get, put}
use Prim.Native.Nat.{ℕ, suc, zero}
use ln_church_agent.Budget.Types.{Policy, Context, amount}
use ln_church_agent.Execution.Types.{
  Agent, Settings, Frame, Demand, Body, Location, Verb, Reply, payment_required, redirect, Stop,
  success,
}
use ln_church_agent.Execution.Rounds.{execute_detailed, send_request}
use ln_church_agent.Common.{
  List, [], none, true, false, ◌≡◌, ◌∷◌, arith, ◌≤◌, some, ◌+◌, refl, Option, ◌*◌, ◌==◌, map, ◌↔◌,
}
use ln_church_agent.Execution.Attempted.{IsAtMostOne}
use ln_church_agent.Execution.Policy.{execute_detailed-IsWithinCap}
use ln_church_agent.Budget.Bound.{IsWithinCap}
use ln_church_agent.Common.Lists.{length, any, all}
use ln_church_agent.Budget.Ledger.{
  session_spent_usd, budget_total, session_reserved_usd, find_operation, init_context_state,
  payment_operation, save,
}
use ln_church_agent.Execution.Orders.{Order, run_orders, run_orders_once}
use ln_church_agent.Common.Outcome.{Outcome, done, raised}
use ln_church_agent.Execution.Once.{execute_detailed-requests}
use ln_church_agent.Budget.States.{
  assert_payment_state_allows_402, check_and_set_payment_state, update_payment_state,
  mark_known_settled_ambiguity,
}
use ln_church_agent.Budget.Reserve.{
  write, reserve_session_budget, check_session_budget, set_budget_fact, confirm_session_budget,
}
use ln_church_agent.Execution.Attempt.{attempt_payment, write_receipt}
use ln_church_agent.Execution.Keys.{
  Header, extract_idempotency_key, KeyTable, initialize_keys, later_keys,
}
use ln_church_agent.Execution.KeyLaws.{
  key_for, initialize_keys-later_keys, agrees, extract_idempotency_key_iff,
}

abbrev policy : Policy
policy = record {
  max_spend_per_session_usd = 100;
  session_baseline_usd = 10;
  session_ledger_version = 0;
  restored_session_ids = [];
  session_operations = [];
}

abbrev context : ℕ → Context
context owner = record {
  session_id = 1;
  operation_owner = owner;
  operations = [];
  payment_identities = [];
  session_budget_restored = false;
}

abbrev agent : Agent
agent = record {
  session = record { policy = policy; context = context 7 };
  navigation = none;
  sent = [];
  receipts = [];
  next_receipt = 0;
  attempts = 0;
  is_starved = false;
}

abbrev settings : Settings
settings = record {
  max_hops = 2;
  max_payment_retries = 1;
  auto_navigate = true;
  allow_unsafe_navigate = false;
  blocked_hosts = 66 ∷ [];
  policy_hosts = some (80 ∷ 81 ∷ []);
  hinted_hosts = 81 ∷ [];
}

abbrev location : ℕ → ℕ → Location
location url authority = record {
  canonical = url;
  wire = url;
  host = authority;
  port = 443;
  authority = authority;
  netloc = authority;
  is_https = true;
  is_valid = true;
  is_paid_path = false;
}

abbrev frame : Frame
frame = record {
  verb = Verb.get_method;
  target = location 1 80;
  hop = 0;
  retry = 0;
  current_receipt = none;
}

-- a payment of 5 units by a rail that settles before the paid request
abbrev demand : Demand
demand = record {
  demand_code = false;
  is_parsed = true;
  is_trusted = true;
  is_approved = true;
  usd_value = amount 5;
  is_exact = false;
  is_x402 = false;
  is_irreversible = true;
  is_processed = true;
  is_performed = true;
  is_unchanged = true;
  is_receipted = true;
  is_verified = true;
}

abbrev body : Body
body = record { has_code = false; next_action = none }

-- a redirect to another allowed host, a demand, and the resource
abbrev paid : ℕ → Reply
paid zero = redirect (some (location 2 81)) body
paid (suc zero) = payment_required demand
paid (suc (suc _)) = success true true true

-- a server that demands a payment for ever
abbrev greedy : ℕ → Reply
greedy _ = payment_required demand

-- a server that redirects to a host that the policy does not name
abbrev astray : ℕ → Reply
astray _ = redirect (some (location 3 90)) body

abbrev run : (ℕ → Reply) → Outcome Stop (Unit {0}) × Agent
run replies = execute_detailed settings (λ n. n) 5 replies 4 frame agent

paid_run : (run paid).0 ≡ done tt
unfolding execute_detailed check_local_policy initialize_navigation_state resolve_navigation
    assert_payment_state_allows_402 find_operation get init_context_state put
    check_and_set_payment_state payment_operation write attempt_payment reserve_session_budget save
    check_session_budget session_spent_usd session_reserved_usd budget_total total set_budget_fact
    confirm_session_budget update_payment_state mark_known_settled_ambiguity write_receipt
    send_request
paid_run = refl

paid_once : ◌≡◌ {A = ℕ × ℕ} ((run paid).1.attempts, length (run paid).1.sent) (1, 3)
unfolding execute_detailed check_local_policy initialize_navigation_state resolve_navigation
    assert_payment_state_allows_402 find_operation get init_context_state put
    check_and_set_payment_state payment_operation write attempt_payment reserve_session_budget save
    check_session_budget session_spent_usd session_reserved_usd budget_total total set_budget_fact
    confirm_session_budget update_payment_state mark_known_settled_ambiguity write_receipt
    send_request
paid_once = refl

paid_amount : session_spent_usd (run paid).1.session.policy ≡ 15
unfolding execute_detailed check_local_policy initialize_navigation_state resolve_navigation
    assert_payment_state_allows_402 find_operation get init_context_state put
    check_and_set_payment_state payment_operation write attempt_payment reserve_session_budget save
    check_session_budget session_spent_usd session_reserved_usd budget_total total set_budget_fact
    confirm_session_budget update_payment_state mark_known_settled_ambiguity write_receipt
    send_request
paid_amount = refl

-- The second demand is refused, and the payment is ambiguous.
greedy_run : (run greedy).0 ≡ raised Stop.ambiguous_result
unfolding execute_detailed check_local_policy initialize_navigation_state resolve_navigation
    assert_payment_state_allows_402 find_operation get init_context_state put
    check_and_set_payment_state payment_operation write attempt_payment reserve_session_budget save
    check_session_budget session_spent_usd session_reserved_usd budget_total total set_budget_fact
    confirm_session_budget update_payment_state mark_known_settled_ambiguity write_receipt
    send_request
greedy_run = refl

greedy_once : ◌≡◌ {A = ℕ × ℕ} ((run greedy).1.attempts, length (run greedy).1.sent) (1, 2)
unfolding execute_detailed check_local_policy initialize_navigation_state resolve_navigation
    assert_payment_state_allows_402 find_operation get init_context_state put
    check_and_set_payment_state payment_operation write attempt_payment reserve_session_budget save
    check_session_budget session_spent_usd session_reserved_usd budget_total total set_budget_fact
    confirm_session_budget update_payment_state mark_known_settled_ambiguity write_receipt
    send_request
greedy_once = refl

astray_run : (run astray).0 ≡ raised Stop.cross_origin
unfolding execute_detailed check_local_policy initialize_navigation_state resolve_navigation
    assert_payment_state_allows_402 find_operation get init_context_state put
    check_and_set_payment_state payment_operation write attempt_payment reserve_session_budget save
    check_session_budget session_spent_usd session_reserved_usd budget_total total set_budget_fact
    confirm_session_budget update_payment_state mark_known_settled_ambiguity write_receipt
    send_request
astray_run = refl

abbrev orders : List Order
orders =
    record { context = context 7; navigation = none; frame = frame }
    ∷ record { context = context 8; navigation = none; frame = frame }
    ∷ []

run_orders_once_example : IsAtMostOne 5 0 (run_orders settings (λ n. n) 5 greedy orders agent)
run_orders_once_example = run_orders_once settings (λ n. n) 5 1 greedy orders agent refl refl

execute_detailed-requests_example :
    let w' = (execute_detailed settings (λ n. n) 5 greedy 4 frame agent).1 in
    (w'.is_starved ≡ false) × (length w'.sent ≤ 0 + (2 + 2))
execute_detailed-requests_example =
    execute_detailed-requests settings (λ n. n) 5 greedy 4 frame agent (omega arith)

execute_detailed-IsWithinCap_example : IsWithinCap (run paid).1.session.policy
unfolding session_spent_usd budget_total total session_reserved_usd
execute_detailed-IsWithinCap_example =
    execute_detailed-IsWithinCap settings (λ n. n) paid 5 4 frame agent (λ n h. refl) (omega arith)
      (record { within = omega arith })

-- digests for the tests
abbrev derive : ℕ → ℕ → ℕ
derive key origin = 1000 + 10 * key + origin

abbrev headers : List Header
headers =
    record { is_key = false; is_canonical_text = true; value = 3 }
    ∷ record { is_key = true; is_canonical_text = true; value = 7 }
    ∷ record { is_key = true; is_canonical_text = true; value = 7 }
    ∷ []

extracted : extract_idempotency_key headers ≡ done (some 7)
unfolding extract_idempotency_key
extracted = refl

abbrev no_keys : KeyTable
no_keys = record { logical_operation_id = none; idempotency_key = none; origin_keys = [] }

abbrev calls : List (ℕ × Option ℕ × ℕ)
calls = (80, none, 5) ∷ (81, some 9, 6) ∷ (80, none, 8) ∷ []

initialize_keys-later_keys_example :
    let (r, t) = initialize_keys derive (λ k. k == 0) 80 (some 7) no_keys in
    (r ≡ done (7, 7)) × (later_keys derive calls t ≡ map (λ c. (7, key_for derive 7 80 c.0)) calls)
initialize_keys-later_keys_example =
    initialize_keys-later_keys derive (λ k. k == 0) 7 80 no_keys calls refl

extract_idempotency_key_iff_example :
    (extract_idempotency_key headers ≡ done (some 7))
    ↔ ((any (λ h. h.is_key) headers ≡ true) × (all (agrees 7) headers ≡ true))
extract_idempotency_key_iff_example = extract_idempotency_key_iff 7 headers
