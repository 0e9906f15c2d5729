-- ===== src/Trial/Purchase.antt =====
-- One purchase for a Claim (ln_church_agent/paid_service_trial.py, `_reserve_policy` and
-- `_execute`). What the checks, the clock, the signer and the network answer are parameters.
use ln_church_agent.Common.{
  ℕ, Bool, if◌then◌else◌, ◌+◌, Option, not, some, is_none, none, ltb, ◌||◌,
}
use ln_church_agent.Trial.Types.{
  TrialPolicy, TrialMethod, TrialWorld, TrialClaim, TrialReport, TrialFile, HttpOutcome, TrialError,
}
use ln_church_agent.Common.Dict.{total, remove, get, put}
use ln_church_agent.Trial.Journal.{prepare, reserve_paid_dispatch, save_outcome, snapshot}
use ln_church_agent.Common.Outcome.{
  pure, ◌>>◌, ◌>>=◌, done, when◌run◌otherwise◌, modify, raised, raise,
}

-- the last check before the paid request: go on, stop, or an error
pub data LastCheck : Type 0 where
  goes_on stops fails : LastCheck

-- What one execution meets, in the order of the code.
pub record Purchase : Type 0 where
  pub identity_ok : Bool
  pub late_before_terms : Bool
  pub terms_ok : Bool
  pub sealed_block_ready : Bool
  pub late_before_reserve : Bool
  pub amount : ℕ
  pub is_allowed : Bool
  pub signing_ok : Bool
  pub report : TrialReport
  pub last_check : LastCheck
  pub payload_digest : ℕ
  pub outcome : HttpOutcome
  pub http_status : Option ℕ
  pub locator : Option ℕ

-- how an execution ends: with no paid request, or with a report to complete
pub data TrialEnd : Type 0 where
  prepared_without_dispatch report_deadline sealed_block_unavailable report_ready : TrialEnd

abbrev pub reserved_total : TrialPolicy → ℕ
reserved_total p = total (λ n. n) p.operations

-- `_reserve_policy`
unfoldable pub reserve_policy : Purchase → ℕ → TrialMethod (Unit {0})
reserve_policy x operation_id w =
    let p = w.policy in
    if not (is_none (get operation_id p.operations))
    then (done tt, w)
    else if ltb p.max_spend_per_tx_usd x.amount
        || ltb p.max_spend_per_session_usd (p.spent_elsewhere + reserved_total p + x.amount)
        || not x.is_allowed
    then (raised TrialError.trial_stopped, w)
    else (
      done tt,
      record w {
        policy = record p {
          operations = put operation_id x.amount p.operations;
          session_ledger_version = p.session_ledger_version + 1;
        };
      },
    )

-- the removal of the reservation of an operation that was not fenced
unfoldable pub unreserve : ℕ → TrialWorld → TrialWorld
unreserve operation_id w = record w {
  policy = record w.policy { operations = remove operation_id w.policy.operations };
}

-- a method whose `finally` removes the reservation unless the method returned
unfoldable pub release_unless_done : {A : Type 0} → ℕ → TrialMethod A → TrialMethod A
unfolding unreserve
release_unless_done operation_id m w =
    let o = m w in
    elim o.0 [ done a ↦ (done a, o.1) | raised e ↦ (raised e, unreserve operation_id o.1) ]

unfoldable pub send_paid : TrialWorld → TrialWorld
send_paid w = record w { paid_requests = w.paid_requests + 1 }

module _ (claim : TrialClaim) (x : Purchase) where
  -- the end of an unfenced execution, on the last check
  abbrev pub end_unfenced : LastCheck → TrialMethod (Option TrialEnd)
  end_unfenced LastCheck.goes_on = pure none
  end_unfenced LastCheck.stops = pure (some TrialEnd.report_deadline)
  end_unfenced LastCheck.fails = raise TrialError.trial_stopped

  -- signing, the last check and the write of the report; an end if the execution stops here
  unfoldable pub sign_and_prepare : TrialMethod (Option TrialEnd)
  unfolding prepare
  sign_and_prepare =
      when not x.signing_ok
      run raise TrialError.trial_stopped
      otherwise prepare claim x.report x.payload_digest >> end_unfenced x.last_check

  -- the fence
  unfoldable pub fence : ℕ → Option TrialEnd → TrialMethod (Option TrialEnd)
  unfolding unreserve reserve_paid_dispatch
  fence operation_id (some e) = modify (unreserve operation_id) >> pure (some e)
  fence operation_id none = reserve_paid_dispatch claim >> pure none

  -- from the reservation in the policy to the fence
  unfoldable pub reserve_and_fence : ℕ → TrialMethod (Option TrialEnd)
  unfolding reserve_policy release_unless_done sign_and_prepare fence
  reserve_and_fence operation_id =
      reserve_policy x operation_id
      >> release_unless_done operation_id (sign_and_prepare >>= fence operation_id)

  -- the paid request and its outcome
  unfoldable pub dispatch_paid : Option TrialEnd → TrialMethod TrialEnd
  unfolding send_paid save_outcome
  dispatch_paid (some e) = pure e
  dispatch_paid none =
      modify send_paid
      >> (save_outcome claim x.outcome x.http_status x.locator >> pure TrialEnd.report_ready)

  -- a Claim that has no report yet
  unfoldable pub execute_new : ℕ → TrialMethod TrialEnd
  unfolding reserve_and_fence dispatch_paid
  execute_new operation_id =
      when not x.identity_ok
      run raise TrialError.trial_stopped
      otherwise when x.late_before_terms
      run pure TrialEnd.report_deadline
      otherwise when not x.terms_ok
      run raise TrialError.trial_stopped
      otherwise when not x.sealed_block_ready
      run pure TrialEnd.sealed_block_unavailable
      otherwise when x.late_before_reserve
      run pure TrialEnd.report_deadline
      otherwise reserve_and_fence operation_id >>= dispatch_paid

  abbrev pub execute_saved : TrialFile → TrialMethod TrialEnd
  execute_saved d =
      when is_none d.report
      run execute_new d.operation_id
      otherwise when not d.paid_dispatch_reserved
      run pure TrialEnd.prepared_without_dispatch
      otherwise pure TrialEnd.report_ready

  -- `_execute`, up to the completion
  unfoldable pub execute : TrialMethod TrialEnd
  unfolding snapshot execute_new
  execute = snapshot claim >>= execute_saved
