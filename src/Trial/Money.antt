-- ===== src/Trial/Money.antt =====
-- The reservation of a purchase: within the session's limit, and kept exactly where money was sent.
use Prim.Native.Nat.{ℕ, ◌+◌}
use ln_church_agent.Trial.Purchase.{Purchase, reserve_policy, reserved_total, TrialEnd}
use ln_church_agent.Trial.Types.{TrialWorld, TrialError}
use ln_church_agent.Trial.Reservation.{IsWithinSession, total-remove-put}
use ln_church_agent.Common.{
  ◌≡◌, arith, is_none, not, Option, false, ltb, ◌≤◌, ◌||◌, refl, some, if-cases, if◌then◌else◌,
  none,
}
use ln_church_agent.Common.Outcome.{Outcome, done, raised}
use ln_church_agent.Common.Dict.{total, get, remove, total-remove, put, total-put, get-put_self}

-- what an execution of the operation does to the reserved money
pub record IsSettled (i : ℕ) (w w' : TrialWorld) : Type 0 where
  pub within_lem : IsWithinSession w.policy → IsWithinSession w'.policy
  pub released :
      w'.paid_requests ≡ w.paid_requests → reserved_total w'.policy ≤ reserved_total w.policy
  pub kept : ¬ (w'.paid_requests ≡ w.paid_requests) → is_none (get i w'.policy.operations) ≡ false

-- the world after a reservation: nothing sent, and without the operation no more is reserved
pub record IsReserved (i : ℕ) (w w' : TrialWorld) : Type 0 where
  pub same_paid : w'.paid_requests ≡ w.paid_requests
  pub within_lem : IsWithinSession w.policy → IsWithinSession w'.policy
  pub rest_total : total (λ n. n) (remove i w'.policy.operations) ≤ reserved_total w.policy
  pub is_present : is_none (get i w'.policy.operations) ≡ false

pub IsSettled-self : (i : ℕ) (w : TrialWorld) → IsSettled i w w
IsSettled-self i w = record {
  within_lem = λ h. h;
  released = λ _. omega arith;
  kept = λ n. absurd (n refl);
}

-- the end of the reservation
abbrev pub IsReservedEnd : ℕ → TrialWorld → Outcome TrialError (Unit {0}) × TrialWorld → Type 0
IsReservedEnd i w (done u, w') = IsReserved i w w'
IsReservedEnd i w (raised e, w') = w' ≡ w

-- the end of the part before the paid request
abbrev pub IsFencedEnd : ℕ → TrialWorld → Outcome TrialError (Option TrialEnd) × TrialWorld → Type 0
IsFencedEnd i w (done none, w') = IsReserved i w w'
IsFencedEnd i w (done (some e), w') = IsSettled i w w' × (w'.paid_requests ≡ w.paid_requests)
IsFencedEnd i w (raised e, w') = IsSettled i w w' × (w'.paid_requests ≡ w.paid_requests)

module _ (x : Purchase) (i : ℕ) where
  -- the operation is reserved already
  IsReserved-before :
      (w : TrialWorld) → is_none (get i w.policy.operations) ≡ false → IsReserved i w w
  IsReserved-before w h =
      let t = total-remove (λ n. n) i w.policy.operations in
      record {
        same_paid = refl;
        within_lem = λ k. k;
        rest_total = ground (arith, t);
        is_present = h;
      }

  -- the operation is reserved now
  IsReserved-now :
      (w : TrialWorld)
      → w.policy.spent_elsewhere + reserved_total w.policy + x.amount
        ≤ w.policy.max_spend_per_session_usd
      → (w' : TrialWorld) → w'.policy.operations ≡ put i x.amount w.policy.operations
      → w'.policy.spent_elsewhere ≡ w.policy.spent_elsewhere
      → w'.policy.max_spend_per_session_usd ≡ w.policy.max_spend_per_session_usd
      → w'.paid_requests ≡ w.paid_requests
      → IsReserved i w w'
  IsReserved-now w l w' o s m p =
      let d = w.policy.operations in
      let t = total-put (λ n. n) i x.amount d in
      let n : total (λ n. n) (put i x.amount d) ≤ total (λ n. n) d + x.amount = omega (arith, t) in
      record {
        same_paid = p;
        within_lem = λ k. record { within = rw (o, s, m) (omega (arith, l, n)) };
        rest_total = rw o (total-remove-put i x.amount d);
        is_present = rw (o, get-put_self i x.amount d) refl;
      }

  pub reserve_policy-IsReservedEnd : (w : TrialWorld) → IsReservedEnd i w (reserve_policy x i w)
  unfolding reserve_policy
  reserve_policy-IsReservedEnd w =
      let p = w.policy in
      let c = not (is_none (get i p.operations)) in
      let too_much =
        ltb p.max_spend_per_tx_usd x.amount
        || ltb p.max_spend_per_session_usd (p.spent_elsewhere + reserved_total p + x.amount)
        || not x.is_allowed in
      let reserved : TrialWorld = record w {
        policy = record p {
          operations = put i x.amount p.operations;
          session_ledger_version = p.session_ledger_version + 1;
        };
      } in
      let refused : Outcome TrialError (Unit {0}) × TrialWorld =
        (raised TrialError.trial_stopped, w) in
      let accepted : Outcome TrialError (Unit {0}) × TrialWorld = (done tt, reserved) in
      if-cases (IsReservedEnd i w) c (done tt, w) (if too_much then refused else accepted)
        (λ h. IsReserved-before w (ground (arith, h)))
        (λ _.
          if-cases (IsReservedEnd i w) too_much refused accepted (λ _. refl)
            (λ h. IsReserved-now w (ground (arith, h)) reserved refl refl refl refl))
