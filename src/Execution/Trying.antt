-- ===== src/Execution/Trying.antt =====
-- The `try` statement around a payment: while it runs the operation's phase blocks another payment,
-- and the payment is counted where, and only where, it is marked irreversible.
use Prim.Native.Nat.{ℕ}
use ln_church_agent.Common.{
  List, if◌then◌else◌, ◌≡◌, Option, true, arith, ◌+◌, if-holds, Bool, some, none, refl,
}
use ln_church_agent.Execution.Types.{
  Agent, Attempt, Location, Paying, Stop, Demand, Navigation, Receipt,
}
use ln_church_agent.Budget.States.{blocks_402, update_payment_state}
use ln_church_agent.Common.Outcome.{Method, Outcome}
use ln_church_agent.Budget.Types.{Quoted, Phase, Session, Error}
use ln_church_agent.Execution.Attempt.{
  on, mark_irreversible, write_receipt, make_receipt, process_payment, begin_payment, ledger, note,
  record_payment, confirm_credential,
}
use ln_church_agent.Budget.PhaseSteps.{
  phase_now, reserve-phase, confirm-phase, release-phase, update-phase,
}
use ln_church_agent.Execution.Keeps.{
  Keeps, then-Keeps, branch-Keeps, guard-Keeps, pure-Keeps, seq-Keeps, gets-Keeps, keeping,
}
use ln_church_agent.Budget.Reserve.{
  reserve_session_budget, confirm_session_budget, release_session_budget,
}

abbrev pub IsBlocked : ℕ → Agent → Type 0
IsBlocked fp w = blocks_402 (phase_now fp w.session) ≡ true

-- what is said of the fields that a payment itself leaves alone
abbrev pub Other : Type 1
Other = List Location → Option Navigation → Bool → Type 0

abbrev pub OtherHolds : Other → Agent → Type 0
OtherHolds F w = F w.sent w.navigation w.is_starved

abbrev pub counted : Attempt → ℕ
counted a = if a.irreversible_attempt_started then 1 else 0

pub record IsTrying (fp start : ℕ) (F : Other) (x : Paying) : Type 0 where
  pub other : OtherHolds F x.agent
  pub blocked : IsBlocked fp x.agent
  pub tracked : x.agent.attempts ≡ start + counted x.attempt

module _ (fp start : ℕ) (F : Other) where
  abbrev pub Tries : {A : Type 0} → Method Paying Stop A → Type 0
  Tries m = Keeps (IsTrying fp start F) m

  -- a method of the ledger that leaves a blocking phase blocking
  ledger-Tries :
      {A : Type 0} (m : Method Session Error A)
      → ((s : Session)
          → blocks_402 (phase_now fp s) ≡ true
          → blocks_402 (phase_now fp (m s).1) ≡ true)
      → Tries (on (ledger m))
  ledger-Tries m h = record {
    keeps = λ x p. record {
      other = p.other;
      blocked = h x.agent.session p.blocked;
      tracked = p.tracked;
    };
  }

  reserve-Tries :
      (float_str : ℕ → ℕ) (q : Quoted) → Tries (on (ledger (reserve_session_budget float_str fp q)))
  reserve-Tries float_str q =
      ledger-Tries (reserve_session_budget float_str fp q)
        (λ s h. ground (arith, reserve-phase fp s float_str q, h))

  confirm-Tries : Tries (on (ledger (confirm_session_budget fp)))
  confirm-Tries =
      ledger-Tries (confirm_session_budget fp) (λ s h. ground (arith, confirm-phase fp s, h))

  release-Tries : Tries (on (ledger (release_session_budget fp)))
  release-Tries =
      ledger-Tries (release_session_budget fp) (λ s h. ground (arith, release-phase fp s, h))

  update-Tries : (p : Phase) → blocks_402 p ≡ true → Tries (on (ledger (update_payment_state fp p)))
  update-Tries p b =
      ledger-Tries (update_payment_state fp p) (λ s h. ground (arith, update-phase fp s p, h, b))

  completed-Tries : Tries (on (ledger (update_payment_state fp Phase.completed)))
  completed-Tries = update-Tries Phase.completed refl

  reused-Tries : Tries (on (ledger (update_payment_state fp Phase.credential_reused)))
  reused-Tries = update-Tries Phase.credential_reused refl

  note-Tries :
      (f : Attempt → Attempt) → ((a : Attempt) → counted (f a) ≡ counted a) → Tries (note f)
  note-Tries f h = record {
    keeps = λ x p. record {
      other = p.other;
      blocked = p.blocked;
      tracked = omega (arith, p.tracked, h x.attempt);
    };
  }

  pub mark_irreversible-Tries : Tries mark_irreversible
  unfolding mark_irreversible
  mark_irreversible-Tries = record {
    keeps =
        λ x p. record { other = p.other; blocked = p.blocked; tracked = ground (arith, p.tracked) };
  }

  write_receipt-Tries : (r : Option ℕ) (f : Receipt → Receipt) → Tries (on (write_receipt r f))
  unfolding write_receipt
  write_receipt-Tries none f = record { keeps = λ x p. p }
  write_receipt-Tries (some i) f = record {
    keeps = λ x p. record { other = p.other; blocked = p.blocked; tracked = p.tracked };
  }

  pub make_receipt-Tries : (d : Demand) → Tries (make_receipt d)
  unfolding make_receipt
  make_receipt-Tries d = record {
    keeps = λ x p.
        if-holds {A = Outcome Stop (Unit {0}) × Paying} (λ o. IsTrying fp start F o.1)
          d.is_receipted _ _ (record { other = p.other; blocked = p.blocked; tracked = p.tracked })
          p;
  }

  process_payment-Tries : (d : Demand) → Tries (process_payment d)
  unfolding process_payment
  process_payment-Tries d =
      then-Keeps (branch-Keeps d.is_irreversible mark_irreversible-Tries (pure-Keeps tt))
        (guard-Keeps _ _)

  pub begin_payment-Tries : (float_str : ℕ → ℕ) (d : Demand) → Tries (begin_payment float_str fp d)
  unfolding begin_payment
  begin_payment-Tries float_str d =
      search (keeping, note-Tries, reserve-Tries, process_payment-Tries) depth 20 fits 4000

  pub record_payment-Tries : (d : Demand) → Tries (record_payment fp d)
  unfolding record_payment
  record_payment-Tries d =
      search
        (
          then-Keeps, branch-Keeps, pure-Keeps, note-Tries, release-Tries, confirm-Tries,
          completed-Tries, reused-Tries,
        )
        depth 20 fits 4000

  pub confirm_credential-Tries : (d : Demand) → Tries (confirm_credential fp d)
  unfolding confirm_credential
  confirm_credential-Tries d =
      search
        (
          then-Keeps, seq-Keeps, branch-Keeps, pure-Keeps, gets-Keeps, note-Tries, confirm-Tries,
          completed-Tries, write_receipt-Tries,
        )
        depth 20 fits 4000
