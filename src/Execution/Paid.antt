-- ===== src/Execution/Paid.antt =====
-- The answer to a 402 within the credit: a payment is attempted only from a phase that allows it.
use ln_church_agent.Execution.Types.{Settings, Agent, Frame, Stop, Run, Demand}
use Prim.Native.Nat.{ℕ, suc}
use ln_church_agent.Budget.States.{blocks_402, check_and_set_payment_state}
use ln_church_agent.Budget.PhaseSteps.{phase_now, check_and_set-phase}
use ln_church_agent.Common.{◌≡◌, false, Bool, arith, inl, ◌+◌, ◌<◌, ◌∙◌}
use ln_church_agent.Execution.Trying.{OtherHolds, IsBlocked}
use ln_church_agent.Execution.Spending.{IsRun, Runs, credit}
use ln_church_agent.Common.Outcome.{
  Method, when◌run◌otherwise◌, ◌>>=◌, when-keeps, bind-keeps, ◌>>◌, done,
}
use ln_church_agent.Execution.Attempted.{Unsent, IsIdle}
use ln_church_agent.Budget.Types.{Session, Error}
use ln_church_agent.Execution.Keeps.{Keeps, then-Keeps, raise-Keeps, guard-Keeps, keeping}
use ln_church_agent.Execution.Attempt.{ledger, attempt_payment}
use ln_church_agent.Execution.Failed.{attempt_payment-Ends}
use ln_church_agent.Execution.Rounds.{payment_challenge, answer_demand}

module _ (cfg : Settings) (float_str : ℕ → ℕ) (fp : ℕ) (w : Agent)
    (free : blocks_402 (phase_now fp w.session) ≡ false) where
  -- nothing was sent or attempted, whatever the ledger did
  abbrev pub IsLoose : Agent → Type 0
  IsLoose u = OtherHolds (Unsent w) u × (u.attempts ≡ w.attempts)

  loose-IsRun : (c : ℕ) {u : Agent} → IsLoose u → IsRun cfg fp c w u
  loose-IsRun c p = record {
    requests = ground (arith, p.0.0);
    alive = p.0.2;
    idle = λ b. ground (arith, b, free);
    at_most = inl p.1;
  }

  ledger-IsLoose : {A : Type 0} (m : Method Session Error A) → Keeps IsLoose (ledger m)
  ledger-IsLoose m = record { keeps = λ u p. p }

  -- from such a state, the rest of the answer
  pub record Pays {A : Type 0} (m : Method Agent Stop A) : Type 0 where
    pub pays : (u : Agent) → IsLoose u → IsRun cfg fp (0 + credit cfg fp w) w (m u).1

  Keeps-Pays : {A : Type 0} {m : Method Agent Stop A} → Keeps IsLoose m → Pays m
  Keeps-Pays h = record { pays = λ u p. loose-IsRun (0 + credit cfg fp w) (h.keeps u p) }

  then-Pays :
      {A B : Type 0} {m : Method Agent Stop A} {f : A → Method Agent Stop B}
      → Keeps IsLoose m
      → ((a : A) → Pays (f a))
      → Pays (m >>= f)
  then-Pays {m = m} {f = f} h g = record {
    pays = λ u p.
        let c = 0 + credit cfg fp w in
        bind-keeps (IsRun cfg fp c w) m f u (loose-IsRun c (h.keeps u p))
          (λ a e. (g a).pays (m u).1 (h.keeps u p));
  }

  branch-Pays :
      {A : Type 0} (t : Bool) {m n : Method Agent Stop A}
      → Pays m
      → Pays n
      → Pays (when t run m otherwise n)
  branch-Pays t {m} {n} h g = record {
    pays =
        λ u p. when-keeps (IsRun cfg fp (0 + credit cfg fp w) w) t m n u (h.pays u p) (g.pays u p);
  }

  module _ {b : ℕ} (again : Frame → Run) (runs : (g : Frame) → Runs cfg fp b 1 (again g))
      (below : credit cfg fp w < suc b) where
    -- the credit once the payment has started
    credit-started :
        (u : Agent)
        → u.navigation ≡ w.navigation
        → IsBlocked fp u
        → suc (credit cfg fp u) ≡ credit cfg fp w
    unfolding credit
    credit-started u n i = ground (arith, n, i, free)

    IsIdle-again :
        (u : Agent)
        → IsLoose u
        → (g : Frame) (v : Agent) → OtherHolds (Unsent u) v
        → IsBlocked fp v
        → IsIdle fp (credit cfg fp w) v (again g v).1
    IsIdle-again u p g v q i =
        let e = credit-started v (q.1 ∙ p.0.1) i in
        let r = (runs g).runs v (omega (arith, e, below)) in
        let (still, same) = r.idle i in
        record {
          within = (omega (arith, r.requests, e), r.alive);
          still_blocked = still;
          same_attempts = same;
        }

    -- a payment that has started, from a state in which the phase blocks another
    started-IsRun :
        (f : Frame) (d : Demand) (u : Agent)
        → IsLoose u
        → IsBlocked fp u
        → IsRun cfg fp (0 + credit cfg fp w) w (attempt_payment float_str fp again f d u).1
    started-IsRun f d u p i =
        let c = credit cfg fp w in
        let (o, most) = attempt_payment-Ends float_str fp c u i again (IsIdle-again u p) f d in
        record {
          requests = ground (arith, o.0, p.0.0);
          alive = o.1 ∙ p.0.2;
          idle = λ i. ground (arith, i, free);
          at_most = ground (arith, most, p.1);
        }

    check_and_set-Pays :
        (f : Frame) (d : Demand)
        → Pays (ledger (check_and_set_payment_state fp) >> attempt_payment float_str fp again f d)
    check_and_set-Pays f d = record {
      pays = λ u p.
          let m = ledger (check_and_set_payment_state fp) in
          let c = 0 + credit cfg fp w in
          bind-keeps (IsRun cfg fp c w) m (λ _. attempt_payment float_str fp again f d) u
            (loose-IsRun c p) (λ a e. started-IsRun f d (m u).1 p (blocked u a e));
    }
      where
        blocked :
            (u : Agent) (a : Unit {0})
            → (ledger (check_and_set_payment_state fp) u).0 ≡ done a
            → IsBlocked fp (ledger (check_and_set_payment_state fp) u).1
        blocked u a e = ground (arith, e, (check_and_set-phase fp u.session).1 a)

    payment_challenge-Keeps : (d : Demand) → Keeps IsLoose (payment_challenge fp d)
    unfolding payment_challenge
    payment_challenge-Keeps d = search (keeping, ledger-IsLoose) depth 20

    -- the answer, after the phase has let it through
    pub answer_demand-Pays :
        (f : Frame) (d : Demand) → Pays (answer_demand cfg float_str fp again f d)
    unfolding answer_demand
    answer_demand-Pays f d =
        search
          (
            branch-Pays, Keeps-Pays, then-Pays, then-Keeps, ledger-IsLoose, raise-Keeps,
            guard-Keeps, payment_challenge-Keeps, check_and_set-Pays,
          )
          depth 20 fits 4000
