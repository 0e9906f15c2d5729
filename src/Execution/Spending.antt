-- ===== src/Execution/Spending.antt =====
-- What a part of an execution may do: send requests within its credit, and attempt one payment.
use ln_church_agent.Execution.Types.{Settings, Agent, Stop}
use Prim.Native.Nat.{ℕ}
use ln_church_agent.Common.Outcome.{
  Method, ◌>>=◌, when◌run◌otherwise◌, raise, bind-keeps, when-keeps,
}
use ln_church_agent.Common.{Bool, ◌≡◌, arith, ◌-◌, ◌≤◌, ◌<◌, ◌+◌, ◌∙◌, inl, if◌then◌else◌, refl}
use ln_church_agent.Common.Lists.{length}
use ln_church_agent.Execution.Checks.{hops_of}
use ln_church_agent.Execution.Trying.{IsBlocked}
use ln_church_agent.Budget.PhaseSteps.{phase_now}
use ln_church_agent.Execution.Attempted.{IsAtMostOne}
use ln_church_agent.Budget.States.{blocks_402}

module _ (cfg : Settings) (fp : ℕ) where
  -- the redirects that are left, and one more request where a payment is
  unfoldable pub credit : Agent → ℕ
  credit w = (cfg.max_hops - hops_of w) + (if blocks_402 (phase_now fp w.session) then 0 else 1)

  -- What a part of an execution that sends at most `c` requests does.
  pub record IsRun (c : ℕ) (w w' : Agent) : Type 0 where
    pub requests : length w'.sent ≤ length w.sent + c
    pub alive : w'.is_starved ≡ w.is_starved
    pub idle : IsBlocked fp w → IsBlocked fp w' × (w'.attempts ≡ w.attempts)
    pub at_most : IsAtMostOne fp w.attempts w'

  -- a step that sends nothing and leaves the phase
  pub record IsQuiet (w w' : Agent) : Type 0 where
    pub same_sent : w'.sent ≡ w.sent
    pub same_life : w'.is_starved ≡ w.is_starved
    pub same_count : w'.attempts ≡ w.attempts
    pub same_phase_now : phase_now fp w'.session ≡ phase_now fp w.session
    pub more_hops : hops_of w ≤ hops_of w'

  credit-IsQuiet : {w u : Agent} → IsQuiet w u → credit u ≤ credit w
  unfolding credit
  credit-IsQuiet q = ground (arith, q.same_phase_now, q.more_hops)

  pub quiet-IsRun : (c : ℕ) {w u w' : Agent} → IsQuiet w u → IsRun c u w' → IsRun c w w'
  quiet-IsRun c {w} {u} q r = record {
    requests = ground (arith, r.requests, q.same_sent);
    alive = r.alive ∙ q.same_life;
    idle = λ b. let i = r.idle (ground (arith, b, q.same_phase_now)) in (i.0, i.1 ∙ q.same_count);
    at_most = ground (arith, r.at_most, q.same_count);
  }

  pub still-IsRun : (c : ℕ) {w u : Agent} → IsQuiet w u → IsRun c w u
  still-IsRun c q = record {
    requests = ground (arith, q.same_sent);
    alive = q.same_life;
    idle = λ b. (ground (arith, b, q.same_phase_now), q.same_count);
    at_most = inl q.same_count;
  }

  pub more-IsRun : {c c' : ℕ} {w w' : Agent} → c ≤ c' → IsRun c w w' → IsRun c' w w'
  more-IsRun le r = record {
    requests = omega (arith, r.requests, le);
    alive = r.alive;
    idle = r.idle;
    at_most = r.at_most;
  }

  pub record Quiets {A : Type 0} (m : Method Agent Stop A) : Type 0 where
    pub quiets : (w : Agent) → IsQuiet w (m w).1

  -- from a credit below `b`, at most `k` requests beside the credit
  pub record Runs (b k : ℕ) {A : Type 0} (m : Method Agent Stop A) : Type 0 where
    pub runs : (w : Agent) → credit w < b → IsRun (k + credit w) w (m w).1

  pub quiet-Runs : {b k : ℕ} {A : Type 0} {m : Method Agent Stop A} → Quiets m → Runs b k m
  quiet-Runs {b} {k} h = record { runs = λ w l. still-IsRun (k + credit w) (h.quiets w) }

  pub quiet_then-Runs :
      {b k : ℕ} {A B : Type 0} {m : Method Agent Stop A} {f : A → Method Agent Stop B}
      → Quiets m
      → ((a : A) → Runs b k (f a))
      → Runs b k (m >>= f)
  quiet_then-Runs {b} {k} {m = m} {f = f} h g = record {
    runs = λ w l.
        let q = h.quiets w in
        let le = credit-IsQuiet q in
        bind-keeps (IsRun (k + credit w) w) m f w (still-IsRun (k + credit w) q) (λ a e.
          quiet-IsRun (k + credit w) q
            (more-IsRun (omega (arith, le)) ((g a).runs (m w).1 (omega (arith, l, le)))));
  }

  pub branch-Runs :
      {b k : ℕ} {A : Type 0} (t : Bool) {m n : Method Agent Stop A}
      → Runs b k m
      → Runs b k n
      → Runs b k (when t run m otherwise n)
  branch-Runs {b} {k} t {m} {n} h g = record {
    runs = λ w l. when-keeps (IsRun (k + credit w) w) t m n w (h.runs w l) (g.runs w l);
  }

  pub raise-Runs : {b k : ℕ} {A : Type 0} (e : Stop) → Runs b k (raise {E = Stop} {A = A} e)
  raise-Runs e = quiet-Runs (record {
    quiets = λ w. record {
      same_sent = refl;
      same_life = refl;
      same_count = refl;
      same_phase_now = refl;
      more_hops = omega arith;
    };
  })
