-- ===== src/Budget/Steps.antt =====
-- What the two ways to write an operation, and the look-up before them, do to the policy.
use ln_church_agent.Common.{ℕ, ◌+◌, ◌≡◌, ◌∙◌, Option, some, arith, if◌then◌else◌, refl}
use ln_church_agent.Budget.Types.{BudgetState, Operation, Session, same_state, Policy}
use ln_church_agent.Budget.Ledger.{
  weight, budget_total, or_new, find_operation, save, init_context_state, payment_operation,
}
use ln_church_agent.Budget.Sums.{
  find-save, find-init, budget_total-save, budget_total-save_same, budget_total-init,
}
use ln_church_agent.Budget.Reserve.{write, set_budget_fact, enter}
use ln_church_agent.Common.Outcome.{done}

-- The operation object that the acting context's session holds under the fingerprint.
abbrev pub IsHeld : ℕ → Operation → Session → Type 0
IsHeld fp o s = find_operation s.policy s.context.session_id fp ≡ some o

-- the object that a look-up hands out
abbrev pub held : ℕ → Session → Operation
held fp s = or_new (find_operation s.policy s.context.session_id fp)

pub payment_operation-IsHeld :
    (fp : ℕ) (s : Session) → IsHeld fp (held fp s) (payment_operation fp s).1
unfolding payment_operation
payment_operation-IsHeld fp s =
    ground (arith, find-save s.policy s.context.session_id fp (held fp s) s.context.session_id fp)

pub payment_operation-total :
    (st : BudgetState) (fp : ℕ) (s : Session)
    → budget_total st (payment_operation fp s).1.policy ≡ budget_total st s.policy
unfolding payment_operation
payment_operation-total st fp s = budget_total-save_same st s.policy s.context.session_id fp

pub enter-IsHeld : (fp : ℕ) (s : Session) → IsHeld fp (held fp s) (enter fp s).1
unfolding init_context_state
enter-IsHeld fp s =
    let e = payment_operation-IsHeld fp (init_context_state s) in
    ground (arith, e, find-init s s.context.session_id fp)

pub enter-held : (fp : ℕ) (s : Session) → (enter fp s).0 ≡ done (held fp s)
unfolding init_context_state payment_operation
enter-held fp s = ground (arith, find-init s s.context.session_id fp)

pub enter-total :
    (st : BudgetState) (fp : ℕ) (s : Session)
    → budget_total st (enter fp s).1.policy ≡ budget_total st s.policy
enter-total st fp s = payment_operation-total st fp (init_context_state s) ∙ budget_total-init st s

-- A write replaces the share of the held operation by that of the written one.
pub write-total :
    (st : BudgetState) (fp : ℕ) (o o' : Operation) (s : Session)
    → IsHeld fp o s
    → budget_total st (write fp o' s).1.policy + weight st o
      ≡ budget_total st s.policy + weight st o'
unfolding write
write-total st fp o o' s h = rw h at (budget_total-save st s.policy s.context.session_id fp o')

pub fact-total :
    (st state : BudgetState) (fp : ℕ) (o : Operation) (amt : ℕ) (owner : Option ℕ) (s : Session)
    → IsHeld fp o s
    → budget_total st (set_budget_fact fp o state amt owner s).1.policy + weight st o
      ≡ budget_total st s.policy + (if same_state st state then amt else 0)
unfolding set_budget_fact budget_total find_operation save
fact-total st state fp o amt owner s h =
    let v = s.policy.session_ledger_version + 1 in
    let o' = record o { budget_state = some state; amount = amt; owner = owner; revision = v } in
    rw h at (budget_total-save st s.policy s.context.session_id fp o')

-- The settings of the policy, which no method of the ledger changes.
pub record SameFrame (p q : Policy) : Type 0 where
  pub same_cap : q.max_spend_per_session_usd ≡ p.max_spend_per_session_usd
  pub same_baseline : q.session_baseline_usd ≡ p.session_baseline_usd

pub payment_operation-SameFrame :
    (fp : ℕ) (s : Session) → SameFrame s.policy (payment_operation fp s).1.policy
unfolding payment_operation save
payment_operation-SameFrame fp s = record { same_cap = refl; same_baseline = refl }

pub enter-SameFrame : (fp : ℕ) (s : Session) → SameFrame s.policy (enter fp s).1.policy
unfolding payment_operation init_context_state save
enter-SameFrame fp s = record { same_cap = refl; same_baseline = refl }

pub write-SameFrame :
    (fp : ℕ) (o : Operation) (s : Session) → SameFrame s.policy (write fp o s).1.policy
unfolding write save
write-SameFrame fp o s = record { same_cap = refl; same_baseline = refl }

pub fact-SameFrame :
    (fp : ℕ) (o : Operation) (state : BudgetState) (amt : ℕ) (owner : Option ℕ) (s : Session)
    → SameFrame s.policy (set_budget_fact fp o state amt owner s).1.policy
unfolding set_budget_fact save
fact-SameFrame fp o state amt owner s = record { same_cap = refl; same_baseline = refl }

pub init-SameFrame : (s : Session) → SameFrame s.policy (init_context_state s).policy
unfolding init_context_state
init-SameFrame s = record { same_cap = refl; same_baseline = refl }
