-- ===== src/Trial/History.antt =====
-- Histories of a trial: executions, and the calls that complete it.
use ln_church_agent.Common.{ℕ, arith, List, Bool, ◌∷◌, Option, ◌≡◌, subst, [], sym, not, ◌||◌}
use ln_church_agent.Trial.Purchase.{Purchase, execute, reserve_and_fence, TrialEnd, dispatch_paid}
use ln_church_agent.Trial.Types.{
  TrialClaim, TrialReport, TrialWorld, TrialError, TrialResult, RejectionCode,
}
use ln_church_agent.Trial.Journal.{
  reserve_report, require_report, save_result, save_rejection, snapshot, rejection_update, change,
  reserve_report_update, result_update,
}
use ln_church_agent.Common.Outcome.{Outcome, when-keeps, ◌>>=◌, bind-keeps, done, raise}
use ln_church_agent.Trial.Fence.{
  IsFenced, change-IsFenced, rejection_update-KeepsFence, reserve_report_update-KeepsFence,
  result_update-KeepsFence,
}
use ln_church_agent.Trial.Once.{
  IsFenceEnd, reserve_and_fence-IsFenceEnd, IsFenceEnd-IsFenced, dispatch_paid-IsFenced,
}
use ln_church_agent.Trial.Lift.{execute-keeps}

-- an execution, or a call of the journal by the client that completes the Task
pub data TrialCall : Type 0 where
  execution : Purchase → TrialCall
  report_attempt : TrialReport → Bool → TrialCall
  result_saved : TrialResult → TrialReport → TrialCall
  rejection_saved : RejectionCode → TrialCall

unfoldable pub call_trial : TrialClaim → TrialCall → TrialWorld → TrialWorld
unfolding execute reserve_report save_result save_rejection
call_trial claim (execution x) w = (execute claim x w).1
call_trial claim (report_attempt r explicit) w = (reserve_report claim r explicit w).1
call_trial claim (result_saved new r) w = (save_result claim new r w).1
call_trial claim (rejection_saved code) w = (save_rejection claim code w).1

unfoldable pub run_trial : TrialClaim → List TrialCall → TrialWorld → TrialWorld
unfolding call_trial
run_trial claim [] w = w
run_trial claim (call ∷ rest) w = run_trial claim rest (call_trial claim call w)

module _ (claim : TrialClaim) where
  module _ (x : Purchase) where
    ended :
        (o : Outcome TrialError (Option TrialEnd) × TrialWorld) (a : Option TrialEnd)
        → o.0 ≡ done a
        → IsFenceEnd o
        → IsFenceEnd (done a, o.1)
    ended o a e h = subst (λ q. IsFenceEnd (q, o.1)) e h

    purchase-IsFenced :
        (i : ℕ) (w : TrialWorld)
        → IsFenced w
        → IsFenced ((reserve_and_fence claim x i >>= dispatch_paid claim x) w).1
    purchase-IsFenced i w h =
        let o = reserve_and_fence claim x i w in
        let r = reserve_and_fence-IsFenceEnd claim x i w h in
        bind-keeps IsFenced (reserve_and_fence claim x i) (dispatch_paid claim x) w
          (IsFenceEnd-IsFenced o.0 o.1 r)
          (λ a e. dispatch_paid-IsFenced claim x a o.1 (ended o a e r))

    execute-IsFenced : (w : TrialWorld) → IsFenced w → IsFenced (execute claim x w).1
    execute-IsFenced w h =
        execute-keeps claim x IsFenced w h (purchase-IsFenced w.file.operation_id w h)

  pub require_report-same : (r : TrialReport) (w : TrialWorld) → (require_report claim r w).1 ≡ w
  unfolding require_report snapshot
  require_report-same r w = ground arith

  reserve_report-IsFenced :
      (r : TrialReport) (explicit : Bool) (w : TrialWorld)
      → IsFenced w
      → IsFenced (reserve_report claim r explicit w).1
  unfolding reserve_report
  reserve_report-IsFenced r explicit w h =
      let w1 = (require_report claim r w).1 in
      let h1 : IsFenced w1 = subst IsFenced (sym (require_report-same r w)) h in
      bind-keeps IsFenced (require_report claim r)
        (λ _. change claim (reserve_report_update explicit)) w h1
        (λ _ _.
          change-IsFenced claim (reserve_report_update explicit) w1
            (reserve_report_update-KeepsFence claim explicit) h1)

  save_result-IsFenced :
      (new : TrialResult) (r : TrialReport) (w : TrialWorld)
      → IsFenced w
      → IsFenced (save_result claim new r w).1
  unfolding save_result
  save_result-IsFenced new r w h =
      when-keeps IsFenced
        (not (claim.report_bound r) || not (claim.result_bound new r.report_sha256))
        (raise TrialError.trial_stopped) (change claim (result_update r new)) w h
        (change-IsFenced claim (result_update r new) w (result_update-KeepsFence claim r new) h)

  call_trial-IsFenced :
      (call : TrialCall) (w : TrialWorld) → IsFenced w → IsFenced (call_trial claim call w)
  unfolding call_trial save_rejection
  call_trial-IsFenced (execution x) w h = execute-IsFenced x w h
  call_trial-IsFenced (report_attempt r explicit) w h = reserve_report-IsFenced r explicit w h
  call_trial-IsFenced (result_saved new r) w h = save_result-IsFenced new r w h
  call_trial-IsFenced (rejection_saved code) w h =
      change-IsFenced claim (rejection_update code) w (rejection_update-KeepsFence claim code) h

  -- Whatever executions and completions follow each other on one Claim, with whatever answers and
  -- faults of their writes, the paid request is sent at most once; and if it was sent, the file
  -- says that its dispatch was reserved.
  pub run_trial-IsFenced :
      (calls : List TrialCall) (w : TrialWorld) → IsFenced w → IsFenced (run_trial claim calls w)
  unfolding run_trial
  run_trial-IsFenced [] w h = h
  run_trial-IsFenced (call ∷ rest) w h =
      run_trial-IsFenced rest (call_trial claim call w) (call_trial-IsFenced call w h)
