-- ===== src/Trial/Final.antt =====
-- A final evaluation of a trial stands.
use ln_church_agent.Common.{
  ℕ, arith, Option, ◌≡◌, Bool, none, List, some, is_none, false, ◌∷◌, [], subst, sym, not, ◌||◌,
}
use ln_church_agent.Trial.Types.{
  TrialFile, TrialClaim, TrialResult, TrialReport, TrialWorld, Evaluation, TrialState, evaluated,
  TrialError, RejectionCode,
}
use ln_church_agent.Trial.Journal.{
  Update, reserve_report_update, result_update, rejection_update, snapshot, change, save_rejection,
  save_result, reserve_report, require_report,
}
use ln_church_agent.Trial.Purchase.{execute, Purchase}
use ln_church_agent.Trial.History.{
  call_trial, run_trial, TrialCall, execution, report_attempt, require_report-same, result_saved,
  rejection_saved,
}
use ln_church_agent.Common.Outcome.{done, bind-keeps, when-keeps, raise}
use ln_church_agent.Trial.Changes.{change-keeps}

abbrev evaluation_of : Option TrialResult → Evaluation
evaluation_of none = Evaluation.receipt_only
evaluation_of (some result) = result.evaluation

-- the file holds a report and its final evaluation
pub record IsFinal (n : ℕ) (d : TrialFile) : Type 0 where
  pub in_final : d.state ≡ TrialState.final
  pub reported : is_none d.report ≡ false
  pub has_evaluation : evaluation_of d.result ≡ evaluated n

abbrev KeepsFinal : ℕ → Update → Type 0
KeepsFinal n update = (d d' : TrialFile) → update d ≡ done d' → IsFinal n d → IsFinal n d'

reserve_report_update-KeepsFinal :
    (n : ℕ) (explicit : Bool) → KeepsFinal n (reserve_report_update explicit)
unfolding reserve_report_update
reserve_report_update-KeepsFinal n explicit d d' u h =
    ground (arith, u, h.in_final, h.reported, h.has_evaluation)

result_update-KeepsFinal :
    (n : ℕ) (r : TrialReport) (new : TrialResult) → KeepsFinal n (result_update r new)
unfolding result_update
result_update-KeepsFinal n r new d d' u h =
    ground (arith, u, h.in_final, h.reported, h.has_evaluation)

rejection_update-KeepsFinal : (n : ℕ) (code : RejectionCode) → KeepsFinal n (rejection_update code)
rejection_update-KeepsFinal n code d d' u h =
    ground (arith, u, h.in_final, h.reported, h.has_evaluation)

change-IsFinal :
    (claim : TrialClaim) (n : ℕ) (update : Update) (w : TrialWorld)
    → KeepsFinal n update
    → IsFinal n w.file
    → IsFinal n (change claim update w).1.file
change-IsFinal claim n update w k h =
    change-keeps (IsFinal n) claim update w (λ d v u. k w.file d u h) h

execute-same :
    (claim : TrialClaim) (x : Purchase) (w : TrialWorld)
    → is_none w.file.report ≡ false
    → (execute claim x w).1 ≡ w
unfolding execute snapshot
execute-same claim x w h = ground (arith, h)

module _ (claim : TrialClaim) (n : ℕ) where
  call_trial-IsFinal :
      (call : TrialCall) (w : TrialWorld)
      → IsFinal n w.file
      → IsFinal n (call_trial claim call w).file
  unfolding call_trial save_rejection save_result reserve_report
  call_trial-IsFinal (execution x) w h = rw (execute-same claim x w h.reported) (h)
  call_trial-IsFinal (report_attempt r explicit) w h =
      let w1 = (require_report claim r w).1 in
      let h1 : IsFinal n w1.file =
        subst (λ q. IsFinal n q.file) (sym (require_report-same claim r w)) h in
      bind-keeps (λ q. IsFinal n q.file) (require_report claim r)
        (λ _. change claim (reserve_report_update explicit)) w h1
        (λ _ _.
          change-IsFinal claim n (reserve_report_update explicit) w1
            (reserve_report_update-KeepsFinal n explicit) h1)
  call_trial-IsFinal (result_saved new r) w h =
      when-keeps (λ q. IsFinal n q.file)
        (not (claim.report_bound r) || not (claim.result_bound new r.report_sha256))
        (raise TrialError.trial_stopped) (change claim (result_update r new)) w h
        (change-IsFinal claim n (result_update r new) w (result_update-KeepsFinal n r new) h)
  call_trial-IsFinal (rejection_saved code) w h =
      change-IsFinal claim n (rejection_update code) w (rejection_update-KeepsFinal n code) h

  -- A final evaluation is never replaced, whatever executions, results, rejections and attempts to
  -- report follow.
  pub run_trial-IsFinal :
      (calls : List TrialCall) (w : TrialWorld)
      → IsFinal n w.file
      → IsFinal n (run_trial claim calls w).file
  unfolding run_trial
  run_trial-IsFinal [] w h = h
  run_trial-IsFinal (call ∷ rest) w h =
      run_trial-IsFinal rest (call_trial claim call w) (call_trial-IsFinal call w h)
