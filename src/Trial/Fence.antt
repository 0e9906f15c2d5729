-- ===== src/Trial/Fence.antt =====
-- The paid request is sent once at most.
use ln_church_agent.Common.{ℕ, arith, ◌≤◌, ◌≡◌, Bool, true, Option, false}
use ln_church_agent.Trial.Types.{
  TrialWorld, TrialClaim, TrialReport, HttpOutcome, TrialFile, TrialResult, RejectionCode,
}
use ln_church_agent.Trial.Journal.{
  prepare_update, reserve_update, outcome_update, reserve_report_update, result_update,
  reserve_paid_dispatch, Update, rejection_update, validate, change,
}
use ln_church_agent.Common.Outcome.{done}
use ln_church_agent.Trial.Changes.{change-IsChange, change-keeps, change-done}

-- at most one paid request was sent, and none unless the file says that it was reserved
pub record IsFenced (w : TrialWorld) : Type 0 where
  pub at_most_one : w.paid_requests ≤ 1
  pub announced : 1 ≤ w.paid_requests → w.file.paid_dispatch_reserved ≡ true

-- the fence is up, and nothing was sent
pub record IsReady (w : TrialWorld) : Type 0 where
  pub none_sent : w.paid_requests ≡ 0
  pub is_reserved : w.file.paid_dispatch_reserved ≡ true

-- an update that never lowers the fence
abbrev pub KeepsFence : TrialClaim → Update → Type 0
KeepsFence claim update =
    (d d' : TrialFile)
    → validate claim d ≡ true
    → update d ≡ done d'
    → d.paid_dispatch_reserved ≡ true
    → d'.paid_dispatch_reserved ≡ true

pub change-IsFenced :
    (claim : TrialClaim) (update : Update) (w : TrialWorld)
    → KeepsFence claim update
    → IsFenced w
    → IsFenced (change claim update w).1
change-IsFenced claim update w k h =
    let c = change-IsChange claim update w in
    record {
      at_most_one = omega (arith, h.at_most_one, c.same_paid);
      announced = λ l.
          let r = h.announced (omega (arith, l, c.same_paid)) in
          change-keeps (λ d. d.paid_dispatch_reserved ≡ true) claim update w
            (λ d v u. k w.file d v u r) r;
    }

pub prepare_update-KeepsFence :
    (claim : TrialClaim) (r : TrialReport) (digest : ℕ) → KeepsFence claim (prepare_update r digest)
unfolding prepare_update
prepare_update-KeepsFence claim r digest d d' v u h = ground (arith, u, h)

pub reserve_update-KeepsFence : (claim : TrialClaim) → KeepsFence claim reserve_update
unfolding reserve_update
reserve_update-KeepsFence claim d d' v u h = ground (arith, u, h)

pub outcome_update-KeepsFence :
    (claim : TrialClaim) (outcome : HttpOutcome) (status locator : Option ℕ)
    → KeepsFence claim (outcome_update outcome status locator)
unfolding outcome_update
outcome_update-KeepsFence claim outcome status locator d d' v u h = ground (arith, u, h)

pub reserve_report_update-KeepsFence :
    (claim : TrialClaim) (explicit : Bool) → KeepsFence claim (reserve_report_update explicit)
unfolding reserve_report_update
reserve_report_update-KeepsFence claim explicit d d' v u h = ground (arith, u, h)

pub result_update-KeepsFence :
    (claim : TrialClaim) (r : TrialReport) (new : TrialResult)
    → KeepsFence claim (result_update r new)
unfolding result_update
result_update-KeepsFence claim r new d d' v u h = ground (arith, u, h)

pub rejection_update-KeepsFence :
    (claim : TrialClaim) (code : RejectionCode) → KeepsFence claim (rejection_update code)
rejection_update-KeepsFence claim code d d' v u h = ground (arith, u, h)

pub reserve_update-raises :
    (d d' : TrialFile)
    → reserve_update d ≡ done d'
    → (d.paid_dispatch_reserved ≡ false) × (d'.paid_dispatch_reserved ≡ true)
unfolding reserve_update
reserve_update-raises d d' u = ground (arith, u)

pub reserve_paid_dispatch-IsReady :
    (claim : TrialClaim) (w : TrialWorld) (u : Unit {0})
    → IsFenced w
    → (reserve_paid_dispatch claim w).0 ≡ done u
    → IsReady (reserve_paid_dispatch claim w).1
unfolding reserve_paid_dispatch
reserve_paid_dispatch-IsReady claim w u h e =
    let c = change-IsChange claim reserve_update w in
    let d = change-done claim reserve_update w u e in
    let r = reserve_update-raises w.file (change claim reserve_update w).1.file d in
    let z : ¬ (1 ≤ w.paid_requests) = λ l. ground (arith, r.0, h.announced l) in
    record { none_sent = ground (arith, c.same_paid, z); is_reserved = r.1 }

pub reserve_paid_dispatch-IsFenced :
    (claim : TrialClaim) (w : TrialWorld) → IsFenced w → IsFenced (reserve_paid_dispatch claim w).1
unfolding reserve_paid_dispatch
reserve_paid_dispatch-IsFenced claim w h =
    change-IsFenced claim reserve_update w (reserve_update-KeepsFence claim) h
