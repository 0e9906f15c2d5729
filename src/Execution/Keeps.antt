-- ===== src/Execution/Keeps.antt =====
-- What the steps of an execution keep, the execution keeps.
use ln_church_agent.Common.{ℕ, Bool, Option, ◌∷◌, ◌≡◌, true, false, arith}
use ln_church_agent.Common.Dict.{Dict}
use ln_church_agent.Common.Outcome.{
  Method, done, raise_if, ◌>>=◌, ◌>>◌, when◌run◌otherwise◌, bind-keeps, when-keeps, raise, pure,
  gets,
}
use ln_church_agent.Budget.Ledger.{init_context_state}
use ln_church_agent.Budget.Run.{Call, perform}
use ln_church_agent.Execution.Types.{Location, Settings, Navigation, Receipt, Agent, Stop}
use ln_church_agent.Execution.Navigate.{is_allowed}

-- Each step of an execution keeps the predicate; a request is a step where the policy allows its
-- target, which is one of those that `T` says.
pub record IsKept (cfg : Settings) (float_str : ℕ → ℕ) (T : Location → Type 0) (P : Agent → Type 0)
    : Type 0 where
  pub on_call :
      (call : Call) (w : Agent) → P w → P (record w { session = perform float_str call w.session })
  pub on_init : (w : Agent) → P w → P (record w { session = init_context_state w.session })
  pub on_navigation : (n : Option Navigation) (w : Agent) → P w → P (record w { navigation = n })
  pub on_send :
      (t : Location) (w : Agent)
      → is_allowed cfg t ≡ true
      → T t
      → P w
      → P (record w { sent = t ∷ w.sent })
  pub on_attempts : (n : ℕ) (w : Agent) → P w → P (record w { attempts = n })
  pub on_receipts :
      (d : Dict Receipt) (i : ℕ) (w : Agent) → P w → P (record w { receipts = d; next_receipt = i })
  pub on_starved : (w : Agent) → P w → P (record w { is_starved = true })

-- a method keeps the predicate
pub record Keeps {S A : Type 0} (P : S → Type 0) (m : Method S Stop A) : Type 0 where
  pub keeps : (s : S) → P s → P (m s).1

module _ {S : Type 0} {P : S → Type 0} where
  pub seq-Keeps :
      {A B : Type 0} {m : Method S Stop A} {f : A → Method S Stop B}
      → Keeps P m
      → ((a : A) → Keeps P (f a))
      → Keeps P (m >>= f)
  seq-Keeps {m = m} {f = f} h g = record {
    keeps = λ s p. bind-keeps P m f s (h.keeps s p) (λ a e. (g a).keeps (m s).1 (h.keeps s p));
  }

  pub then-Keeps :
      {A B : Type 0} {m : Method S Stop A} {n : Method S Stop B}
      → Keeps P m
      → Keeps P n
      → Keeps P (m >> n)
  then-Keeps h k = seq-Keeps h (λ _. k)

  pub branch-Keeps :
      {A : Type 0} (b : Bool) {m n : Method S Stop A}
      → Keeps P m
      → Keeps P n
      → Keeps P (when b run m otherwise n)
  branch-Keeps b {m} {n} h g = record {
    keeps = λ s p. when-keeps P b m n s (h.keeps s p) (g.keeps s p);
  }

  pub taken-Keeps :
      {A : Type 0} {b : Bool} {m : Method S Stop A} (n : Method S Stop A)
      → b ≡ true
      → Keeps P m
      → Keeps P (when b run m otherwise n)
  taken-Keeps {b = true} n e h = h
  taken-Keeps {b = false} n e h = ground (arith, e)

  -- what follows a method may use what the method's return says
  pub after-Keeps :
      {A B : Type 0} {m : Method S Stop A} {f : A → Method S Stop B} (Q : Type 0)
      → Keeps P m
      → ((s : S) (a : A) → (m s).0 ≡ done a → Q)
      → (Q → (a : A) → Keeps P (f a))
      → Keeps P (m >>= f)
  after-Keeps {m = m} {f = f} Q h k g = record {
    keeps = λ s p.
        bind-keeps P m f s (h.keeps s p) (λ a e. (g (k s a e) a).keeps (m s).1 (h.keeps s p));
  }

  pub guard-Keeps : (b : Bool) (e : Stop) → Keeps P (raise_if {E = Stop} b e)
  guard-Keeps true e = record { keeps = λ s p. p }
  guard-Keeps false e = record { keeps = λ s p. p }

  pub raise-Keeps : {A : Type 0} (e : Stop) → Keeps P (raise {E = Stop} {A = A} e)
  raise-Keeps e = record { keeps = λ s p. p }

  pub pure-Keeps : {A : Type 0} (a : A) → Keeps P (pure {E = Stop} a)
  pure-Keeps a = record { keeps = λ s p. p }

  pub gets-Keeps : {A : Type 0} (f : S → A) → Keeps P (gets {E = Stop} f)
  gets-Keeps f = record { keeps = λ s p. p }

-- the rules for the statements of a method, for `search`
pub ruleset keeping =
    (then-Keeps, seq-Keeps, branch-Keeps, pure-Keeps, gets-Keeps, guard-Keeps, raise-Keeps)
