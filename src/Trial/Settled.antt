-- ===== src/Trial/Settled.antt =====
-- An execution settles the money of its operation.
-- the money did not move since the reservation
use Prim.Native.Nat.{ℕ}
use ln_church_agent.Trial.Purchase.{
  unreserve, Purchase, reserve_and_fence, dispatch_paid, send_paid, execute, TrialEnd,
  reserve_policy, release_unless_done, sign_and_prepare, fence,
}
use ln_church_agent.Trial.Types.{TrialClaim, TrialWorld, TrialError}
use ln_church_agent.Trial.Money.{
  IsReserved, IsSettled, IsFencedEnd, IsSettled-self, reserve_policy-IsReservedEnd, IsReservedEnd,
}
use ln_church_agent.Common.Outcome.{Outcome, ◌>>=◌, bind-ends, done, raised, bind-keeps, pure}
use ln_church_agent.Trial.Reservation.{
  SameMoney, IsUnreserved, IsMoneyEnd, IsWithinSession, fenced-IsMoneyEnd,
}
use ln_church_agent.Common.{Option, ◌∙◌, ◌≡◌, subst, none, some, sym, arith, refl}
use ln_church_agent.Trial.Journal.{save_outcome, outcome_update, change}
use ln_church_agent.Trial.Lift.{execute-keeps}
use ln_church_agent.Common.Dict.{total-remove}
use ln_church_agent.Trial.Changes.{change-IsChange}

SameMoney-IsReserved :
    (i : ℕ) (w w1 w' : TrialWorld) → IsReserved i w w1 → SameMoney w1 w' → IsReserved i w w'
SameMoney-IsReserved i w w1 w' r s = record {
  same_paid = s.same_paid ∙ r.same_paid;
  within_lem = λ k. subst IsWithinSession (sym s.same_policy) (r.within_lem k);
  rest_total = rw s.same_policy (r.rest_total);
  is_present = rw s.same_policy (r.is_present);
}

-- the reservation was removed since
IsUnreserved-IsSettled :
    (i : ℕ) (w w1 w' : TrialWorld)
    → IsReserved i w w1
    → IsUnreserved i w1 w'
    → IsSettled i w w' × (w'.paid_requests ≡ w.paid_requests)
unfolding unreserve
IsUnreserved-IsSettled i w w1 w' r u =
    let t = total-remove (λ n. n) i w1.policy.operations in
    let same = u.same_paid ∙ r.same_paid in
    (
      record {
        within_lem = λ k.
            let b = (r.within_lem k).within in
            subst IsWithinSession (sym u.is_removed) (record { within = omega (arith, b, t) });
        released = λ _. rw u.is_removed (r.rest_total);
        kept = λ n. absurd (n same);
      },
      same,
    )

IsMoneyEnd-IsFencedEnd :
    (i : ℕ) (w w1 : TrialWorld) (o : Outcome TrialError (Option TrialEnd) × TrialWorld)
    → IsReserved i w w1
    → IsMoneyEnd i w1 o
    → IsFencedEnd i w o
IsMoneyEnd-IsFencedEnd i w w1 (done none, w') r h = SameMoney-IsReserved i w w1 w' r h
IsMoneyEnd-IsFencedEnd i w w1 (done (some e), w') r h = IsUnreserved-IsSettled i w w1 w' r h
IsMoneyEnd-IsFencedEnd i w w1 (raised e, w') r h = IsUnreserved-IsSettled i w w1 w' r h

module _ (claim : TrialClaim) (x : Purchase) (i : ℕ) where
  reserve_and_fence-IsFencedEnd : (w : TrialWorld) → IsFencedEnd i w (reserve_and_fence claim x i w)
  unfolding reserve_and_fence
  reserve_and_fence-IsFencedEnd w =
      let w1 = (reserve_policy x i w).1 in
      let m = release_unless_done i (sign_and_prepare claim x >>= fence claim x i) in
      let r = reserve_policy-IsReservedEnd x i w in
      bind-ends (IsFencedEnd i w) (reserve_policy x i) (λ _. m) w
        (λ u e.
          IsMoneyEnd-IsFencedEnd i w w1 (m w1) (subst (λ o. IsReservedEnd i w (o, w1)) e r)
            (fenced-IsMoneyEnd claim x i w1))
        (λ e q. refused e (subst (λ o. IsReservedEnd i w (o, w1)) q r))
    where
      refused :
          (e : TrialError) {w1 : TrialWorld}
          → w1 ≡ w
          → IsSettled i w w1 × (w1.paid_requests ≡ w.paid_requests)
      refused e {w1} h =
          subst (λ v. IsSettled i w v × (v.paid_requests ≡ w.paid_requests)) (sym h)
            (IsSettled-self i w, refl)

  -- the paid request is sent
  sent-IsSettled :
      (w w' : TrialWorld) → IsReserved i w w' → IsSettled i w (dispatch_paid claim x none w').1
  unfolding dispatch_paid send_paid save_outcome
  sent-IsSettled w w' r =
      let update = outcome_update x.outcome x.http_status x.locator in
      let c = change-IsChange claim update (send_paid w') in
      let s : IsSettled i w (change claim update (send_paid w')).1 = record {
        within_lem = λ k. subst IsWithinSession (sym c.same_policy) (r.within_lem k);
        released = λ q. absurd (omega (arith, q, c.same_paid, r.same_paid));
        kept = λ _. rw c.same_policy (r.is_present);
      } in
      bind-keeps (IsSettled i w) (change claim update) (λ _. pure TrialEnd.report_ready)
        (send_paid w') s (λ _ _. s)

  dispatch_paid-IsSettled :
      (e : Option TrialEnd) (w w' : TrialWorld)
      → IsFencedEnd i w (done e, w')
      → IsSettled i w (dispatch_paid claim x e w').1
  unfolding dispatch_paid
  dispatch_paid-IsSettled (some e) w w' h = h.0
  dispatch_paid-IsSettled none w w' h = sent-IsSettled w w' h

  purchase-IsSettled :
      (w : TrialWorld) → IsSettled i w ((reserve_and_fence claim x i >>= dispatch_paid claim x) w).1
  purchase-IsSettled w =
      let o = reserve_and_fence claim x i w in
      let r = reserve_and_fence-IsFencedEnd w in
      bind-ends (λ q. IsSettled i w q.1) (reserve_and_fence claim x i) (dispatch_paid claim x) w
        (λ a e. dispatch_paid-IsSettled a w o.1 (subst (λ q. IsFencedEnd i w (q, o.1)) e r))
        (λ e q. (subst (λ v. IsFencedEnd i w (v, o.1)) q r).0)

-- Whatever an execution meets, it settles the money of its operation. What is spent and reserved
-- stays within the session's limit, if it was. If no paid request is sent, then no more is reserved
-- than before the execution; if one is sent, then the operation stays among the reserved ones.
pub execute-IsSettled :
    (claim : TrialClaim) (x : Purchase) (w : TrialWorld)
    → IsSettled w.file.operation_id w (execute claim x w).1
execute-IsSettled claim x w =
    execute-keeps claim x (IsSettled w.file.operation_id w) w (IsSettled-self w.file.operation_id w)
      (purchase-IsSettled claim x w.file.operation_id w)
