-- ===== src/Trial/Reservation.antt =====
-- The money that an execution reserves in the policy.
use ln_church_agent.Common.{
  ℕ, arith, ◌+◌, ◌≡◌, ap, ◌∷◌, [], refl, ◌≤◌, Option, ==-self, some, ◌∙◌, none, not,
}
use ln_church_agent.Trial.Types.{TrialPolicy, TrialWorld, TrialClaim, TrialError, TrialMethod}
use ln_church_agent.Trial.Purchase.{
  unreserve, Purchase, reserved_total, sign_and_prepare, fence, release_unless_done, TrialEnd,
  LastCheck, end_unfenced,
}
use ln_church_agent.Common.Dict.{remove, Dict, put, total, total-remove}
use ln_church_agent.Trial.Journal.{
  Update, change, prepare, reserve_paid_dispatch, prepare_update, reserve_update,
}
use ln_church_agent.Common.Outcome.{
  Outcome, ◌>>=◌, bind-ends, done, raised, when◌run◌otherwise◌, pure, raise, when-keeps, ◌>>◌,
  bind-keeps,
}
use ln_church_agent.Trial.Changes.{change-IsChange}

-- the session limit bounds what is spent elsewhere and reserved here
pub record IsWithinSession (p : TrialPolicy) : Type 0 where
  pub within : p.spent_elsewhere + reserved_total p ≤ p.max_spend_per_session_usd

-- no money moved
pub record SameMoney (w w' : TrialWorld) : Type 0 where
  pub same_paid : w'.paid_requests ≡ w.paid_requests
  pub same_policy : w'.policy ≡ w.policy

pub SameMoney-self : (w : TrialWorld) → SameMoney w w
SameMoney-self w = record { same_paid = refl; same_policy = refl }

pub change-SameMoney :
    (claim : TrialClaim) (update : Update) (w : TrialWorld) → SameMoney w (change claim update w).1
change-SameMoney claim update w =
    let c = change-IsChange claim update w in
    record { same_paid = c.same_paid; same_policy = c.same_policy }

-- the reservation of the operation was removed
pub record IsUnreserved (i : ℕ) (w w' : TrialWorld) : Type 0 where
  pub same_paid : w'.paid_requests ≡ w.paid_requests
  pub is_removed : w'.policy ≡ (unreserve i w).policy

SameMoney-unreserve :
    (i : ℕ) (w w' : TrialWorld) → SameMoney w w' → IsUnreserved i w (unreserve i w')
unfolding unreserve
SameMoney-unreserve i w w' h = record {
  same_paid = h.same_paid;
  is_removed =
      ap {A = TrialPolicy} {B = TrialPolicy} (λ p. record p { operations = remove i p.operations })
        h.same_policy;
}

pub unreserve_twice : (i : ℕ) (d : Dict ℕ) → remove i (remove i d) ≡ remove i d
unfolding remove
unreserve_twice i [] = refl
unreserve_twice i ((j, v) ∷ d) = ground (arith, unreserve_twice i d)

pub total-remove-put :
    (i v : ℕ) (d : Dict ℕ) → total (λ n. n) (remove i (put i v d)) ≤ total (λ n. n) d
unfolding remove put total
total-remove-put i v [] = ground (arith, ==-self i)
total-remove-put i v ((j, u) ∷ d) =
    let t = total-remove (λ n. n) i d in ground (arith, total-remove-put i v d, t)

-- the end of the part from the signature to the fence
abbrev pub IsMoneyEnd : ℕ → TrialWorld → Outcome TrialError (Option TrialEnd) × TrialWorld → Type 0
IsMoneyEnd i w (done none, w') = SameMoney w w'
IsMoneyEnd i w (done (some e), w') = IsUnreserved i w w'
IsMoneyEnd i w (raised e, w') = IsUnreserved i w w'

-- the same, before the `finally`
abbrev IsInnerEnd : ℕ → TrialWorld → Outcome TrialError (Option TrialEnd) × TrialWorld → Type 0
IsInnerEnd i w (done none, w') = SameMoney w w'
IsInnerEnd i w (done (some e), w') = IsUnreserved i w w'
IsInnerEnd i w (raised e, w') = SameMoney w w'

module _ (claim : TrialClaim) (x : Purchase) where
  sign_and_prepare-SameMoney : (w : TrialWorld) → SameMoney w (sign_and_prepare claim x w).1
  unfolding sign_and_prepare prepare
  sign_and_prepare-SameMoney w =
      let update = prepare_update x.report x.payload_digest in
      let m : TrialMethod (Unit {0}) =
        when not (claim.report_bound x.report)
        run raise TrialError.trial_stopped
        otherwise change claim update in
      let c =
        when-keeps (SameMoney w) (not (claim.report_bound x.report))
          (raise TrialError.trial_stopped) (change claim update) w (SameMoney-self w)
          (change-SameMoney claim update w) in
      when-keeps (SameMoney w) (not x.signing_ok) (raise TrialError.trial_stopped)
        (m >> end_unfenced claim x x.last_check) w (SameMoney-self w)
        (bind-keeps (SameMoney w) m (λ _. end_unfenced claim x x.last_check) w c
          (λ u e. end_same x.last_check (m w).1 c))
    where
      end_same :
          (l : LastCheck) (w' : TrialWorld)
          → SameMoney w w'
          → SameMoney w (end_unfenced claim x l w').1
      end_same LastCheck.goes_on w' h = h
      end_same LastCheck.stops w' h = h
      end_same LastCheck.fails w' h = h

  fence-IsInnerEnd :
      (i : ℕ) (e : Option TrialEnd) (w w' : TrialWorld)
      → SameMoney w w'
      → IsInnerEnd i w (fence claim x i e w')
  unfolding fence reserve_paid_dispatch
  fence-IsInnerEnd i (some e) w w' h = SameMoney-unreserve i w w' h
  fence-IsInnerEnd i none w w' h =
      let c = change-SameMoney claim reserve_update w' in
      let s : SameMoney w (change claim reserve_update w').1 = record {
        same_paid = c.same_paid ∙ h.same_paid;
        same_policy = c.same_policy ∙ h.same_policy;
      } in
      bind-ends (IsInnerEnd i w) (change claim reserve_update) (λ _. pure none) w' (λ _ _. s)
        (λ _ _. s)

  release-IsMoneyEnd :
      (i : ℕ) (m : TrialMethod (Option TrialEnd)) (w : TrialWorld)
      → IsInnerEnd i w (m w)
      → IsMoneyEnd i w (release_unless_done i m w)
  unfolding release_unless_done
  release-IsMoneyEnd i m w h = go (m w).0 h
    where
      go :
          (o : Outcome TrialError (Option TrialEnd))
          → IsInnerEnd i w (o, (m w).1)
          → IsMoneyEnd i w
              (elim o [ done a ↦ (done a, (m w).1) | raised e ↦ (raised e, unreserve i (m w).1) ])
      go (done none) h = h
      go (done (some e)) h = h
      go (raised e) h = SameMoney-unreserve i w (m w).1 h

  pub fenced-IsMoneyEnd :
      (i : ℕ) (w : TrialWorld)
      → IsMoneyEnd i w (release_unless_done i (sign_and_prepare claim x >>= fence claim x i) w)
  fenced-IsMoneyEnd i w =
      let s = sign_and_prepare-SameMoney w in
      release-IsMoneyEnd i (sign_and_prepare claim x >>= fence claim x i) w (
        bind-ends (IsInnerEnd i w) (sign_and_prepare claim x) (fence claim x i) w
          (λ a _. fence-IsInnerEnd i a w (sign_and_prepare claim x w).1 s) (λ _ _. s))
