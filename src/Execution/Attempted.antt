-- ===== src/Execution/Attempted.antt =====
-- How a payment ends: with no irreversible attempt, or with one and a phase that blocks another.
use Prim.Native.Nat.{ℕ, suc}
use ln_church_agent.Execution.Types.{Agent, Paying, Frame, Stop, Run, Demand}
use ln_church_agent.Execution.Trying.{
  Other, OtherHolds, IsBlocked, IsTrying, begin_payment-Tries, record_payment-Tries,
  make_receipt-Tries, mark_irreversible-Tries, confirm_credential-Tries,
}
use ln_church_agent.Common.{◌≡◌, ◌⊎◌, arith, ◌≤◌, ◌+◌}
use ln_church_agent.Common.Outcome.{Method, ◌>>=◌, bind-keeps}
use ln_church_agent.Common.Lists.{length}
use ln_church_agent.Execution.Keeps.{Keeps, branch-Keeps, pure-Keeps, gets-Keeps}
use ln_church_agent.Execution.Attempt.{on, try_payment, only_credential}

-- the fields that a payment leaves alone, before its paid request
abbrev pub Unsent : Agent → Other
Unsent w sent n starved = (sent ≡ w.sent) × (n ≡ w.navigation) × (starved ≡ w.is_starved)

-- and after it, of a paid request that sends at most `c` requests
abbrev pub Within : ℕ → Agent → Other
Within c w sent n starved = (length sent ≤ length w.sent + c) × (starved ≡ w.is_starved)

-- The end of a payment, or of a whole execution, that begins with `n` attempts: none more, or one
-- more and a phase that blocks another.
abbrev pub IsAtMostOne : ℕ → ℕ → Agent → Type 0
IsAtMostOne fp n w = (w.attempts ≡ n) ⊎ ((w.attempts ≡ suc n) × IsBlocked fp w)

-- A method that leaves a blocked operation blocked, without an attempt, within `c` requests.
pub record IsIdle (fp c : ℕ) (w w' : Agent) : Type 0 where
  pub within : OtherHolds (Within c w) w'
  pub still_blocked : IsBlocked fp w'
  pub same_attempts : w'.attempts ≡ w.attempts

module _ (float_str : ℕ → ℕ) (fp c : ℕ) (w : Agent) where
  abbrev pub Before : Paying → Type 0
  Before = IsTrying fp w.attempts (Unsent w)

  abbrev pub After : Paying → Type 0
  After = IsTrying fp w.attempts (Within c w)

  weaken : {x : Paying} → Before x → After x
  weaken p = record {
    other = (ground (arith, p.other.0), p.other.2);
    blocked = p.blocked;
    tracked = p.tracked;
  }

  -- a method of the `try` statement leads past the paid request
  pub record Leads {A : Type 0} (m : Method Paying Stop A) : Type 0 where
    pub leads : (x : Paying) → Before x → After (m x).1

  Before-Leads :
      {A B : Type 0} {m : Method Paying Stop A} {f : A → Method Paying Stop B}
      → Keeps Before m
      → ((a : A) → Leads (f a))
      → Leads (m >>= f)
  Before-Leads {m = m} {f = f} h g = record {
    leads = λ x p.
        bind-keeps After m f x (weaken (h.keeps x p)) (λ a e. (g a).leads (m x).1 (h.keeps x p));
  }

  After-Leads :
      {A B : Type 0} {m : Method Paying Stop A} {f : A → Method Paying Stop B}
      → Leads m
      → ((a : A) → Keeps After (f a))
      → Leads (m >>= f)
  After-Leads {m = m} {f = f} h g = record {
    leads = λ x p. bind-keeps After m f x (h.leads x p) (λ a e. (g a).keeps (m x).1 (h.leads x p));
  }

  module _ (again : Frame → Run)
      (idle : (g : Frame) (u : Agent)
        → OtherHolds (Unsent w) u
        → IsBlocked fp u
        → IsIdle fp c u (again g u).1) where
    again-Leads : (g : Frame) → Leads (on (again g))
    again-Leads g = record {
      leads = λ x p.
          let i = idle g x.agent p.other p.blocked in
          record {
            other = (ground (arith, i.within.0, p.other.0), ground (arith, i.within.1, p.other.2));
            blocked = i.still_blocked;
            tracked = omega (arith, i.same_attempts, p.tracked);
          };
    }

    pub try_payment-Leads : (f : Frame) (d : Demand) → Leads (try_payment float_str fp again f d)
    unfolding try_payment
    try_payment-Leads f d =
        Before-Leads (begin_payment-Tries fp w.attempts (Unsent w) float_str d) (λ _.
          Before-Leads (record_payment-Tries fp w.attempts (Unsent w) d) (λ _.
            Before-Leads (make_receipt-Tries fp w.attempts (Unsent w) d) (λ _.
              Before-Leads
                (branch-Keeps (only_credential d) (mark_irreversible-Tries fp w.attempts (Unsent w))
                  (pure-Keeps tt))
                (λ _. Before-Leads (gets-Keeps (λ x. x.attempt.receipt)) (λ r.
                  After-Leads (again-Leads (record f { retry = f.retry + 1; current_receipt = r }))
                    (λ _. confirm_credential-Tries fp w.attempts (Within c w) d))))))
