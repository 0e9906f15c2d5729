-- ===== src/AccessQuota/Tests.antt =====
-- Runs of a small policy, and each property at a concrete input.
use ln_church_agent.Common.{
  arith, ℕ, Option, List, ◌+◌, true, some, none, ◌∷◌, [], false, ◌≡◌, refl,
}
use ln_church_agent.AccessQuota.Types.{
  Terms, AccessOperation, AccessPolicy, Reply, Challenge, Exchange, OpState, AccessStatus,
  AccessCode,
}
use ln_church_agent.AccessQuota.PaidRun.{run_exchanges, run_exchanges-IsSettled}
use ln_church_agent.AccessQuota.Paid.{IsSettled}
use ln_church_agent.Common.Dict.{total, get, put, remove}
use ln_church_agent.AccessQuota.Spending.{
  IsSpendingEnd, IsWithinBudget, reserve_and_sign-IsWithinBudget,
}
use ln_church_agent.AccessQuota.Exchange.{
  exchange, start, begin_with, proceed, renew, renew_reply, renew_challenge, pay, replace_terms,
  dispatch, send, await_reply, settle_reply, settle_observed, forget_operation,
}
use ln_church_agent.AccessQuota.Account.{
  reserve_and_sign, observe, reserve, sign, assign, book_paid, reserved_atomic, book_failed,
  keep_receipt, set_default, spent_atomic,
}

abbrev terms_at : ℕ → Terms
terms_at pid = record { purchase_id = pid; expires_at = 300; reset_at = 3600 }

-- request 1 is challenged as purchase 5, request 2 as purchase 6
abbrev op_at : ℕ → AccessOperation
op_at r = record {
  digest = r + 1;
  terms = terms_at (r + 5);
  proof = none;
  state = OpState.challenged;
  result_error = none;
}

-- a budget for one purchase
abbrev one_purchase : AccessPolicy
one_purchase = record {
  allow = true;
  has_signer = true;
  budget_atomic = 10000;
  store = op_at;
  next = 2;
  operations = (1, 0) ∷ (2, 1) ∷ [];
  purchases = (5, 0) ∷ (6, 1) ∷ [];
  reserved = [];
  spent = [];
  receipts = [];
  signed = [];
  sent = [];
}

abbrev paid_reply : Reply
paid_reply = record {
  status = 200;
  size = 10;
  challenge = Challenge.no_challenge;
  access = false;
  purchase_id = none;
  access_status = AccessStatus.status_other;
  code = AccessCode.code_other;
  receipt = some 77;
}

-- a challenge for the purchase
abbrev challenge_reply : ℕ → Reply
challenge_reply pid = record paid_reply {
  status = 402;
  challenge = Challenge.candidate (terms_at pid);
  receipt = none;
}

abbrev call_of : ℕ → ℕ → Option Reply → Option Reply → Exchange
call_of digest now renewal final = record {
  is_eligible = true;
  is_get = true;
  digest = digest;
  readonly = false;
  read_id = none;
  maximum_body = 1000;
  late_start = false;
  late_renew = false;
  late_reserve = false;
  late_sign = false;
  late_send = false;
  now_required = now;
  now_reset = now;
  now_expired = now;
  now_sign = 0;
  first = none;
  renewal = renewal;
  final = final;
}

abbrev sign_all : AccessOperation → Option ℕ
sign_all op = some (op.terms.purchase_id + 1000)

abbrev buy_one : AccessPolicy
buy_one = run_exchanges sign_all (call_of 1 0 none (some paid_reply) ∷ []) one_purchase

buy_one-spent : (reserved_atomic buy_one ≡ 0) × (spent_atomic buy_one ≡ 10000)
unfolding run_exchanges exchange start begin_with proceed reserve_and_sign reserve sign assign pay
    dispatch await_reply settle_reply settle_observed observe book_paid book_failed keep_receipt
    set_default forget_operation get put remove total
buy_one-spent = (refl, refl)

-- a second purchase does not fit
abbrev buy_two : List Exchange
buy_two = call_of 2 0 none (some paid_reply) ∷ call_of 1 0 none none ∷ []

buy_one-Settled : IsSettled 5 10000 0 1005 buy_one
unfolding run_exchanges exchange start begin_with proceed reserve_and_sign reserve sign assign pay
    dispatch await_reply settle_reply settle_observed observe book_paid book_failed keep_receipt
    set_default forget_operation get put remove total
buy_one-Settled = record {
  known = omega arith;
  is_booked = refl;
  has_proof = refl;
  has_state = refl;
}

run_exchanges-IsSettled_example : IsSettled 5 10000 0 1005 (run_exchanges sign_all buy_two buy_one)
run_exchanges-IsSettled_example =
    run_exchanges-IsSettled sign_all 5 10000 0 1005 buy_two buy_one buy_one-Settled

one_purchase-IsWithinBudget : IsWithinBudget one_purchase
unfolding total
one_purchase-IsWithinBudget = record { within = omega arith }

reserve_and_sign-IsWithinBudget_example :
    IsSpendingEnd 0 (reserve_and_sign sign_all 0 (call_of 1 0 none none) one_purchase)
reserve_and_sign-IsWithinBudget_example =
    reserve_and_sign-IsWithinBudget sign_all 0 (call_of 1 0 none none) one_purchase refl
      one_purchase-IsWithinBudget

-- purchase 5 is reserved
abbrev reserved_one : AccessPolicy
reserved_one = record one_purchase { reserved = (5, 10000) ∷ [] }

-- Request 1 is signed for purchase 5. Request 2, whose challenge has expired, is then challenged
-- anew with purchase 5 as well, and is signed: two payments stand on one reservation.
abbrev shared_purchase : AccessPolicy
shared_purchase =
    run_exchanges sign_all
      (call_of 1 0 none none
        ∷ call_of 2 400 (some (challenge_reply 5)) none
        ∷ call_of 2 0 none none
        ∷ [])
      one_purchase

shared_purchase-signed :
    (shared_purchase.signed ≡ 1 ∷ 0 ∷ []) × (reserved_atomic shared_purchase ≡ 10000)
unfolding run_exchanges exchange start begin_with proceed renew renew_reply renew_challenge
    replace_terms send reserve_and_sign reserve sign assign pay dispatch await_reply get put remove
    total
shared_purchase-signed = (refl, refl)
