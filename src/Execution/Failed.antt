-- ===== src/Execution/Failed.antt =====
-- How a payment that fails ends, and so the whole `try` statement.
use Prim.Native.Nat.{ℕ, suc}
use ln_church_agent.Execution.Types.{
  Agent, Paying, Frame, Stop, Run, Demand, Attempt, Receipt, new_attempt,
}
use ln_church_agent.Execution.Trying.{Other, OtherHolds, IsBlocked, IsTrying}
use ln_church_agent.Common.{◌≡◌, arith, true, refl, Option, inl, some, inr, Bool-cases, none, ◌∙◌}
use ln_church_agent.Common.Outcome.{Method, bind-keeps, done, ◌>>◌, raise, Outcome, raised}
use ln_church_agent.Execution.Keeps.{
  Keeps, branch-Keeps, pure-Keeps, gets-Keeps, then-Keeps, taken-Keeps, seq-Keeps, raise-Keeps,
  keeping,
}
use ln_church_agent.Execution.Attempt.{
  try_payment, record_failure, ledger, confirm_settled, write_receipt, payment_failure,
  attempt_payment, failure_error, after_try,
}
use ln_church_agent.Budget.Types.{Session, Phase, Quoted, Error}
use ln_church_agent.Budget.States.{blocks_402, mark_known_settled_ambiguity, update_payment_state}
use ln_church_agent.Budget.Reserve.{
  release_session_budget, mark_session_budget_unknown, reserve_ambiguous_spend,
  confirm_session_budget,
}
use ln_church_agent.Budget.PhaseSteps.{
  phase_now, release-phase, mark_unknown-phase, mark_known_settled-phase, reserve_ambiguous-phase,
  update-phase, confirm-phase,
}
use ln_church_agent.Execution.Attempted.{IsAtMostOne, Unsent, IsIdle, Within, try_payment-Leads}

-- What a failed payment keeps: whatever the ledger does where nothing irreversible was begun, and
-- otherwise the phase that blocks another payment.
module _ (float_str : ℕ → ℕ) (fp n : ℕ) (F : Other) where
  abbrev Free : Agent → Type 0
  Free w = OtherHolds F w × (w.attempts ≡ n)

  ledger-Free : {A : Type 0} (m : Method Session Error A) → Keeps Free (ledger m)
  ledger-Free m = record { keeps = λ w p. p }

  record_failure-Free : (d : Demand) (a : Attempt) → Keeps Free (record_failure float_str fp d a)
  unfolding record_failure
  record_failure-Free d a = search (keeping, ledger-Free) depth 20 fits 4000

  abbrev Spent : Agent → Type 0
  Spent w = OtherHolds F w × (w.attempts ≡ suc n) × IsBlocked fp w

  ledger-Spent :
      {A : Type 0} (m : Method Session Error A)
      → ((s : Session)
          → blocks_402 (phase_now fp s) ≡ true
          → blocks_402 (phase_now fp (m s).1) ≡ true)
      → Keeps Spent (ledger m)
  ledger-Spent m h = record { keeps = λ w p. (p.0, p.1, h w.session p.2) }

  update-Spent :
      (p : Phase) → blocks_402 p ≡ true → Keeps Spent (ledger (update_payment_state fp p))
  update-Spent p b =
      ledger-Spent (update_payment_state fp p) (λ s h. ground (arith, update-phase fp s p, h, b))

  update_reused-Spent : Keeps Spent (ledger (update_payment_state fp Phase.credential_reused))
  update_reused-Spent = update-Spent Phase.credential_reused refl

  update_unknown-Spent : Keeps Spent (ledger (update_payment_state fp Phase.settlement_unknown))
  update_unknown-Spent = update-Spent Phase.settlement_unknown refl

  update_ambiguous-Spent : Keeps Spent (ledger (update_payment_state fp Phase.ambiguous))
  update_ambiguous-Spent = update-Spent Phase.ambiguous refl

  confirm-Spent : Keeps Spent (ledger (confirm_session_budget fp))
  confirm-Spent =
      ledger-Spent (confirm_session_budget fp) (λ s h. ground (arith, confirm-phase fp s, h))

  release-Spent : Keeps Spent (ledger (release_session_budget fp))
  release-Spent =
      ledger-Spent (release_session_budget fp) (λ s h. ground (arith, release-phase fp s, h))

  unknown-Spent : Keeps Spent (ledger (mark_session_budget_unknown fp))
  unknown-Spent =
      ledger-Spent (mark_session_budget_unknown fp)
        (λ s h. ground (arith, mark_unknown-phase fp s, h))

  settled-Spent : Keeps Spent (ledger (mark_known_settled_ambiguity fp))
  settled-Spent =
      ledger-Spent (mark_known_settled_ambiguity fp)
        (λ s h. ground (arith, mark_known_settled-phase fp s, h))

  ambiguous-Spent : (q : Quoted) → Keeps Spent (ledger (reserve_ambiguous_spend float_str fp q))
  ambiguous-Spent q =
      ledger-Spent (reserve_ambiguous_spend float_str fp q)
        (λ s h. ground (arith, reserve_ambiguous-phase float_str fp q s, h))

  record_failure-Spent :
      (d : Demand) (a : Attempt)
      → a.irreversible_attempt_started ≡ true
      → Keeps Spent (record_failure float_str fp d a)
  unfolding record_failure
  record_failure-Spent d a i =
      search
        (
          then-Keeps, branch-Keeps, taken-Keeps, i, release-Spent, update_reused-Spent,
          unknown-Spent, update_unknown-Spent, settled-Spent, ambiguous-Spent,
          update_ambiguous-Spent,
        )
        depth 20 fits 8000

  write_receipt-Free : (r : Option ℕ) (f : Receipt → Receipt) → Keeps Free (write_receipt r f)
  unfolding write_receipt
  write_receipt-Free none f = record { keeps = λ w p. p }
  write_receipt-Free (some i) f = record { keeps = λ w p. p }

  write_receipt-Spent : (r : Option ℕ) (f : Receipt → Receipt) → Keeps Spent (write_receipt r f)
  unfolding write_receipt
  write_receipt-Spent none f = record { keeps = λ w p. p }
  write_receipt-Spent (some i) f = record { keeps = λ w p. p }

  confirm_settled-Free : (a : Attempt) → Keeps Free (confirm_settled fp a)
  unfolding confirm_settled
  confirm_settled-Free a =
      search
        (
          then-Keeps, seq-Keeps, branch-Keeps, pure-Keeps, gets-Keeps, ledger-Free,
          write_receipt-Free,
        )
        depth 20

  confirm_settled-Spent : (a : Attempt) → Keeps Spent (confirm_settled fp a)
  unfolding confirm_settled
  confirm_settled-Spent a =
      search
        (
          then-Keeps, seq-Keeps, branch-Keeps, pure-Keeps, gets-Keeps, confirm-Spent,
          write_receipt-Spent,
        )
        depth 20

  confirm_settled-same :
      (a a' : Attempt) (w : Agent)
      → (confirm_settled fp a w).0 ≡ done a'
      → a'.irreversible_attempt_started ≡ a.irreversible_attempt_started
  unfolding confirm_settled
  confirm_settled-same a a' w h = ground (arith, h)

  payment_failure-Free :
      (d : Demand) (a : Attempt) (e : Stop) → Keeps Free (payment_failure float_str fp d a e)
  unfolding payment_failure
  payment_failure-Free d a e =
      seq-Keeps (confirm_settled-Free a)
        (λ a'. then-Keeps (record_failure-Free d a') (raise-Keeps (failure_error a' e)))

  payment_failure-Spent :
      (d : Demand) (a : Attempt) (e : Stop)
      → a.irreversible_attempt_started ≡ true
      → Keeps Spent (payment_failure float_str fp d a e)
  unfolding payment_failure
  payment_failure-Spent d a e i = record {
    keeps = λ w p.
        let s = (confirm_settled-Spent a).keeps w p in
        bind-keeps Spent (confirm_settled fp a)
          (λ a'. record_failure float_str fp d a' >> raise (failure_error a' e)) w s
          (λ a' h.
            let k = record_failure-Spent d a' (confirm_settled-same a a' w h ∙ i) in
            (then-Keeps k (raise-Keeps (failure_error a' e))).keeps (confirm_settled fp a w).1 s);
  }

  -- A failed payment ends with no attempt, or with one and a phase that blocks another.
  payment_failure-Ends :
      (d : Demand) (a : Attempt) (e : Stop) (w : Agent)
      → IsTrying fp n F (record { agent = w; attempt = a })
      → let w' = (payment_failure float_str fp d a e w).1 in OtherHolds F w' × IsAtMostOne fp n w'
  payment_failure-Ends d a e w t = elim (Bool-cases a.irreversible_attempt_started) [
    | inl i ↦
        let p : Spent w = (t.other, ground (arith, t.tracked, i), t.blocked) in
        let k = (payment_failure-Spent d a e i).keeps w p in (k.0, inr (k.1, k.2))
    | inr i ↦
        let p : Free w = (t.other, ground (arith, t.tracked, i)) in
        let k = (payment_failure-Free d a e).keeps w p in (k.0, inl k.1)
  ]

module _ (float_str : ℕ → ℕ) (fp c : ℕ) (w : Agent) (blocked : IsBlocked fp w) (again : Frame → Run)
    (idle : (g : Frame) (u : Agent)
      → OtherHolds (Unsent w) u
      → IsBlocked fp u
      → IsIdle fp c u (again g u).1) where
  -- So does the whole statement, where the paid request leaves a blocked operation blocked.
  pub attempt_payment-Ends :
      (f : Frame) (d : Demand)
      → let w' = (attempt_payment float_str fp again f d w).1 in
        OtherHolds (Within c w) w' × IsAtMostOne fp w.attempts w'
  unfolding attempt_payment after_try
  attempt_payment-Ends f d =
      let x : Paying = record { agent = w; attempt = new_attempt } in
      let t : IsTrying fp w.attempts (Unsent w) x = record {
        other = (refl, refl, refl);
        blocked = blocked;
        tracked = omega arith;
      } in
      ended (try_payment float_str fp again f d x)
        ((try_payment-Leads float_str fp c w again idle f d).leads x t)
    where
      ended :
          (r : Outcome Stop (Unit {0}) × Paying)
          → IsTrying fp w.attempts (Within c w) r.1
          → let w' = (after_try float_str fp d r).1 in
            OtherHolds (Within c w) w' × IsAtMostOne fp w.attempts w'
      ended (done _, x) t = (t.other, ground (arith, t.tracked, t.blocked))
      ended (raised e, x) t =
          payment_failure-Ends float_str fp w.attempts (Within c w) d x.attempt e x.agent t
