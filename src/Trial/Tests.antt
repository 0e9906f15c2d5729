-- ===== src/Trial/Tests.antt =====
-- A trial whose first execution loses the write after its paid request, and the properties there.
use ln_church_agent.Common.Dict.{get, total, put, remove}
use ln_church_agent.Trial.Types.{
  TrialClaim, TrialReport, TrialPolicy, TrialWorld, TrialState, evaluated, HttpOutcome, initial,
  RejectionCode,
}
use ln_church_agent.Trial.Purchase.{
  Purchase, execute, execute_new, reserve_and_fence, LastCheck, dispatch_paid,
}
use ln_church_agent.Common.{List, true, none, [], false, arith, some, refl, ◌∷◌, ◌≡◌}
use ln_church_agent.Trial.History.{
  run_trial, TrialCall, call_trial, run_trial-IsFenced, execution, report_attempt, result_saved,
  rejection_saved,
}
use ln_church_agent.Trial.Fence.{IsFenced}
use ln_church_agent.Trial.Final.{IsFinal, run_trial-IsFinal}
use ln_church_agent.Trial.Money.{IsSettled}
use ln_church_agent.Trial.Settled.{execute-IsSettled}
use ln_church_agent.Trial.Journal.{reserve_report}
use ln_church_agent.TaskJournal.Store.{no_fault, before_replace}

abbrev claim : TrialClaim
claim = record { report_bound = λ r. true; result_bound = λ result digest. true }

abbrev frozen : TrialReport
frozen = record { report_sha256 = 7; transaction_hash = none }

abbrev purchase : Purchase
purchase = record {
  identity_ok = true;
  late_before_terms = false;
  terms_ok = true;
  sealed_block_ready = true;
  late_before_reserve = false;
  amount = 3;
  is_allowed = true;
  signing_ok = true;
  report = frozen;
  last_check = LastCheck.goes_on;
  payload_digest = 11;
  outcome = HttpOutcome.response_received;
  http_status = some 200;
  locator = some 5;
}

abbrev policy : TrialPolicy
policy = record {
  max_spend_per_tx_usd = 5;
  max_spend_per_session_usd = 10;
  spent_elsewhere = 6;
  operations = [];
  session_ledger_version = 0;
}

-- the third write fails
abbrev opened : TrialWorld
opened = record {
  file = initial 1;
  faults = no_fault ∷ no_fault ∷ before_replace ∷ [];
  policy = policy;
  paid_requests = 0;
}

abbrev calls : List TrialCall
calls = execution purchase ∷ execution purchase ∷ report_attempt frozen false ∷ []

-- the paid request was sent, its outcome is not saved, and the second execution sends nothing
runs_once : (run_trial claim calls opened).paid_requests ≡ 1
unfolding run_trial call_trial execute execute_new reserve_and_fence dispatch_paid reserve_report
    get total
runs_once = refl

settled : (run_trial claim calls opened).policy.operations ≡ (1, 3) ∷ []
unfolding run_trial call_trial execute execute_new reserve_and_fence dispatch_paid reserve_report
    get total put
settled = refl

-- a check before the fence stops the second purchase, and its reservation is removed
stopped :
    (execute claim (record purchase { last_check = LastCheck.stops }) opened).1.policy.operations
    ≡ []
unfolding execute execute_new reserve_and_fence dispatch_paid get total remove put
stopped = refl

run_trial-IsFenced_example : IsFenced (run_trial claim calls opened)
run_trial-IsFenced_example =
    run_trial-IsFenced claim calls opened
      (record { at_most_one = omega arith; announced = λ l. absurd (omega (arith, l)) })

abbrev evaluated_once : TrialWorld
evaluated_once = record opened {
  file = record opened.file {
    state = TrialState.final;
    report = some frozen;
    report_sha256 = some 7;
    payload_digest = some 11;
    paid_dispatch_reserved = true;
    result = some (record { received_at = 2; verification_deadline = 9; evaluation = evaluated 4 });
  };
}

abbrev late_calls : List TrialCall
late_calls =
    execution purchase
    ∷ result_saved (record { received_at = 2; verification_deadline = 9; evaluation = evaluated 6 })
        frozen
    ∷ rejection_saved RejectionCode.claim_expired
    ∷ []

run_trial-IsFinal_example : IsFinal 4 (run_trial claim late_calls evaluated_once).file
run_trial-IsFinal_example =
    run_trial-IsFinal claim 4 late_calls evaluated_once
      (record { in_final = refl; reported = refl; has_evaluation = refl })

execute-IsSettled_example : IsSettled 1 opened (execute claim purchase opened).1
execute-IsSettled_example = execute-IsSettled claim purchase opened
