-- ===== src/Trial/Once.antt =====
-- Executions and histories of a trial send one paid request at most.
use ln_church_agent.Common.{ℕ, arith, Option, not, some, none}
use ln_church_agent.Common.Outcome.{
  Outcome, if-keeps, when-keeps, ◌>>=◌, done, bind-ends, raised, raise, bind-keeps, ◌>>◌, pure,
}
use ln_church_agent.Trial.Types.{TrialWorld, TrialClaim, TrialError, TrialReport, TrialMethod}
use ln_church_agent.Trial.Purchase.{
  unreserve, Purchase, reserve_policy, LastCheck, sign_and_prepare, fence, release_unless_done,
  reserve_and_fence, send_paid, dispatch_paid, TrialEnd, end_unfenced,
}
use ln_church_agent.Trial.Fence.{
  IsReady, IsFenced, change-IsFenced, outcome_update-KeepsFence, reserve_paid_dispatch-IsReady,
  prepare_update-KeepsFence, reserve_paid_dispatch-IsFenced,
}
use ln_church_agent.Trial.Journal.{
  snapshot, prepare, save_outcome, outcome_update, validate, reserve_paid_dispatch, change,
  prepare_update,
}

-- the end of the part before the paid request: where it goes on, the fence is up
abbrev pub IsFenceEnd : Outcome TrialError (Option TrialEnd) × TrialWorld → Type 0
IsFenceEnd (done none, w) = IsReady w
IsFenceEnd (done (some e), w) = IsFenced w
IsFenceEnd (raised e, w) = IsFenced w

pub IsReady-IsFenced : {w : TrialWorld} → IsReady w → IsFenced w
IsReady-IsFenced r = record {
  at_most_one = omega (arith, r.none_sent);
  announced = λ l. absurd (omega (arith, l, r.none_sent));
}

-- any end of the part is fenced
pub IsFenceEnd-IsFenced :
    (o : Outcome TrialError (Option TrialEnd)) (w : TrialWorld) → IsFenceEnd (o, w) → IsFenced w
IsFenceEnd-IsFenced (done none) w h = IsReady-IsFenced h
IsFenceEnd-IsFenced (done (some e)) w h = h
IsFenceEnd-IsFenced (raised e) w h = h

pub unreserve-IsFenced : (i : ℕ) (w : TrialWorld) → IsFenced w → IsFenced (unreserve i w)
unfolding unreserve
unreserve-IsFenced i w h = record { at_most_one = h.at_most_one; announced = h.announced }

module _ (claim : TrialClaim) (x : Purchase) where
  pub snapshot-IsFenced : (w : TrialWorld) → IsFenced w → IsFenced (snapshot claim w).1
  unfolding snapshot
  snapshot-IsFenced w h =
      if-keeps IsFenced (not (validate claim w.file)) (raised TrialError.trial_invalid, w)
        (done w.file, w) h h

  pub prepare-IsFenced :
      (r : TrialReport) (digest : ℕ) (w : TrialWorld)
      → IsFenced w
      → IsFenced (prepare claim r digest w).1
  unfolding prepare
  prepare-IsFenced r digest w h =
      when-keeps IsFenced (not (claim.report_bound r)) (raise TrialError.trial_stopped)
        (change claim (prepare_update r digest)) w h
        (change-IsFenced claim (prepare_update r digest) w
          (prepare_update-KeepsFence claim r digest) h)

  pub reserve_policy-IsFenced :
      (i : ℕ) (w : TrialWorld) → IsFenced w → IsFenced (reserve_policy x i w).1
  unfolding reserve_policy
  reserve_policy-IsFenced i w h = ground (arith, h.at_most_one, h.announced)

  pub end_unfenced-IsFenced :
      (c : LastCheck) (w : TrialWorld) → IsFenced w → IsFenced (end_unfenced claim x c w).1
  end_unfenced-IsFenced LastCheck.goes_on w h = h
  end_unfenced-IsFenced LastCheck.stops w h = h
  end_unfenced-IsFenced LastCheck.fails w h = h

  pub sign_and_prepare-IsFenced :
      (w : TrialWorld) → IsFenced w → IsFenced (sign_and_prepare claim x w).1
  unfolding sign_and_prepare
  sign_and_prepare-IsFenced w h =
      let p = prepare-IsFenced x.report x.payload_digest w h in
      when-keeps IsFenced (not x.signing_ok) (raise TrialError.trial_stopped)
        (prepare claim x.report x.payload_digest >> end_unfenced claim x x.last_check) w h
        (bind-keeps IsFenced (prepare claim x.report x.payload_digest)
          (λ _. end_unfenced claim x x.last_check) w p
          (λ u e.
            end_unfenced-IsFenced x.last_check (prepare claim x.report x.payload_digest w).1 p))

  pub fence-IsFenceEnd :
      (i : ℕ) (e : Option TrialEnd) (w : TrialWorld) → IsFenced w → IsFenceEnd (fence claim x i e w)
  unfolding fence
  fence-IsFenceEnd i (some e) w h = unreserve-IsFenced i w h
  fence-IsFenceEnd i none w h =
      let r = reserve_paid_dispatch claim in
      bind-ends IsFenceEnd r (λ _. pure none) w (λ u e. reserve_paid_dispatch-IsReady claim w u h e)
        (λ e _. reserve_paid_dispatch-IsFenced claim w h)

  pub release-IsFenceEnd :
      (i : ℕ) (m : TrialMethod (Option TrialEnd)) (w : TrialWorld)
      → IsFenceEnd (m w)
      → IsFenceEnd (release_unless_done i m w)
  unfolding release_unless_done
  release-IsFenceEnd i m w h = go (m w).0 h
    where
      go :
          (o : Outcome TrialError (Option TrialEnd))
          → IsFenceEnd (o, (m w).1)
          → IsFenceEnd
              (elim o [ done a ↦ (done a, (m w).1) | raised e ↦ (raised e, unreserve i (m w).1) ])
      go (done a) h = h
      go (raised e) h = unreserve-IsFenced i (m w).1 h

  pub reserve_and_fence-IsFenceEnd :
      (i : ℕ) (w : TrialWorld) → IsFenced w → IsFenceEnd (reserve_and_fence claim x i w)
  unfolding reserve_and_fence
  reserve_and_fence-IsFenceEnd i w h =
      let w1 = (reserve_policy x i w).1 in
      let h1 = reserve_policy-IsFenced i w h in
      let m = sign_and_prepare claim x >>= fence claim x i in
      let s = sign_and_prepare-IsFenced w1 h1 in
      bind-ends IsFenceEnd (reserve_policy x i) (λ _. release_unless_done i m) w
        (λ u e. release-IsFenceEnd i m w1 (
          bind-ends IsFenceEnd (sign_and_prepare claim x) (fence claim x i) w1
            (λ a _. fence-IsFenceEnd i a (sign_and_prepare claim x w1).1 s) (λ _ _. s)))
        (λ e _. h1)

  pub save_outcome-IsFenced :
      (w : TrialWorld)
      → IsFenced w
      → IsFenced (save_outcome claim x.outcome x.http_status x.locator w).1
  unfolding save_outcome
  save_outcome-IsFenced w h =
      change-IsFenced claim (outcome_update x.outcome x.http_status x.locator) w
        (outcome_update-KeepsFence claim x.outcome x.http_status x.locator) h

  pub send_paid-IsFenced : (w : TrialWorld) → IsReady w → IsFenced (send_paid w)
  unfolding send_paid
  send_paid-IsFenced w h = record {
    at_most_one = omega (arith, h.none_sent);
    announced = λ _. h.is_reserved;
  }

  pub dispatch_paid-IsFenced :
      (e : Option TrialEnd) (w : TrialWorld)
      → IsFenceEnd (done e, w)
      → IsFenced (dispatch_paid claim x e w).1
  unfolding dispatch_paid
  dispatch_paid-IsFenced (some e) w h = h
  dispatch_paid-IsFenced none w h =
      let s = save_outcome-IsFenced (send_paid w) (send_paid-IsFenced w h) in
      bind-keeps IsFenced (save_outcome claim x.outcome x.http_status x.locator)
        (λ _. pure TrialEnd.report_ready) (send_paid w) s (λ _ _. s)
