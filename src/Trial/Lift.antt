-- ===== src/Trial/Lift.antt =====
-- What the purchase keeps, the execution keeps: an execution buys, or leaves the world as it was.
use ln_church_agent.Common.Outcome.{
  resume, ◌>>=◌, raise, when◌run◌otherwise◌, pure, raised, when-keeps, done,
}
use ln_church_agent.Trial.Types.{TrialClaim, TrialWorld, TrialFile, TrialMethod, TrialError}
use ln_church_agent.Trial.Purchase.{
  Purchase, execute_new, execute, reserve_and_fence, dispatch_paid, execute_saved, TrialEnd,
}
use Prim.Native.Nat.{ℕ}
use ln_church_agent.Trial.Journal.{snapshot, validate}
use ln_church_agent.Common.{if-cases, not, is_none}

module _ (claim : TrialClaim) (x : Purchase) (P : TrialWorld → Type 0) (w : TrialWorld)
    (h : P w) where
  execute_new-keeps :
      (i : ℕ)
      → P ((reserve_and_fence claim x i >>= dispatch_paid claim x) w).1
      → P (execute_new claim x i w).1
  unfolding execute_new
  execute_new-keeps i k =
      let stop : TrialMethod TrialEnd = raise TrialError.trial_stopped in
      let late : TrialMethod TrialEnd = pure TrialEnd.report_deadline in
      let m1 : TrialMethod TrialEnd = reserve_and_fence claim x i >>= dispatch_paid claim x in
      let m2 : TrialMethod TrialEnd = when x.late_before_reserve run late otherwise m1 in
      let m3 : TrialMethod TrialEnd =
        when not x.sealed_block_ready run pure TrialEnd.sealed_block_unavailable otherwise m2 in
      let m4 : TrialMethod TrialEnd = when not x.terms_ok run stop otherwise m3 in
      let m5 : TrialMethod TrialEnd = when x.late_before_terms run late otherwise m4 in
      let k1 = when-keeps P x.late_before_reserve late m1 w h k in
      let k2 =
        when-keeps P (not x.sealed_block_ready) (pure TrialEnd.sealed_block_unavailable) m2 w h
          k1 in
      let k3 = when-keeps P (not x.terms_ok) stop m3 w h k2 in
      let k4 = when-keeps P x.late_before_terms late m4 w h k3 in
      when-keeps P (not x.identity_ok) stop m5 w h k4

  execute_saved-keeps :
      (d : TrialFile)
      → P ((reserve_and_fence claim x d.operation_id >>= dispatch_paid claim x) w).1
      → P (execute_saved claim x d w).1
  execute_saved-keeps d k =
      let m : TrialMethod TrialEnd =
        when not d.paid_dispatch_reserved
        run pure TrialEnd.prepared_without_dispatch
        otherwise pure TrialEnd.report_ready in
      when-keeps P (is_none d.report) (execute_new claim x d.operation_id) m w
        (execute_new-keeps d.operation_id k)
        (when-keeps P (not d.paid_dispatch_reserved) (pure TrialEnd.prepared_without_dispatch)
          (pure TrialEnd.report_ready) w h h)

  pub execute-keeps :
      P ((reserve_and_fence claim x w.file.operation_id >>= dispatch_paid claim x) w).1
      → P (execute claim x w).1
  unfolding execute snapshot
  execute-keeps k =
      if-cases (λ o. P (resume o (execute_saved claim x)).1) (not (validate claim w.file))
        (raised TrialError.trial_invalid, w) (done w.file, w) (λ _. h)
        (λ _. execute_saved-keeps w.file k)
