-- ===== src/Budget/Sums.antt =====
-- How a write to one operation changes the look-ups and the sums of a policy.
use ln_church_agent.Common.{ℕ, ◌+◌, ◌≡◌, refl, ◌&&◌, Option, none, some, arith, ◌==◌, if◌then◌else◌}
use ln_church_agent.Common.Dict.{Dict, get, put, total, at_key, get-put, total-put}
use ln_church_agent.Budget.Types.{BudgetState, Operation, Policy, Session}
use ln_church_agent.Budget.Ledger.{
  weight, budget_total, or_empty, or_new, find_operation, save, init_context_state,
}

-- After a write every look-up but that of the written operation is as before.
pub find-save :
    (p : Policy) (sid fp : ℕ) (o : Operation) (sid' fp' : ℕ)
    → find_operation (save sid fp o p) sid' fp'
      ≡ (if (sid' == sid) && (fp' == fp) then some o else find_operation p sid' fp')
unfolding find_operation save
find-save p sid fp o sid' fp' = ground (
  arith,
  get-put sid sid' (put fp o (or_empty (get sid p.session_operations))) p.session_operations,
  get-put fp fp' o (or_empty (get sid p.session_operations)),
)

or_empty-total :
    (s : BudgetState) (o : Option (Dict Operation))
    → total (weight s) (or_empty o) ≡ at_key (total (weight s)) o
unfolding total
or_empty-total s none = refl
or_empty-total s (some d) = refl

or_new-weight : (s : BudgetState) (o : Option Operation) → weight s (or_new o) ≡ at_key (weight s) o
or_new-weight s none = refl
or_new-weight s (some o) = refl

-- A write replaces the share of one operation in each sum.
pub budget_total-save :
    (s : BudgetState) (p : Policy) (sid fp : ℕ) (o : Operation)
    → budget_total s (save sid fp o p) + weight s (or_new (find_operation p sid fp))
      ≡ budget_total s p + weight s o
unfolding budget_total save find_operation
budget_total-save s p sid fp o =
    let old = or_empty (get sid p.session_operations) in
    omega (
      arith,
      total-put (total (weight s)) sid (put fp o old) p.session_operations,
      total-put (weight s) fp o old,
      or_empty-total s (get sid p.session_operations),
      or_new-weight s (get fp old),
    )

-- Saving an operation under its own value changes no sum.
pub budget_total-save_same :
    (s : BudgetState) (p : Policy) (sid fp : ℕ)
    → budget_total s (save sid fp (or_new (find_operation p sid fp)) p) ≡ budget_total s p
budget_total-save_same s p sid fp =
    omega (arith, budget_total-save s p sid fp (or_new (find_operation p sid fp)))

pub budget_total-init :
    (s : BudgetState) (x : Session)
    → budget_total s (init_context_state x).policy ≡ budget_total s x.policy
unfolding budget_total init_context_state
budget_total-init s x =
    let d = get x.context.session_id x.policy.session_operations in
    omega (
      arith,
      total-put (total (weight s)) x.context.session_id (or_empty d) x.policy.session_operations,
      or_empty-total s d,
    )

pub find-init :
    (x : Session) (sid fp : ℕ)
    → find_operation (init_context_state x).policy sid fp ≡ find_operation x.policy sid fp
unfolding find_operation init_context_state
find-init x sid fp =
    let d = or_empty (get x.context.session_id x.policy.session_operations) in
    ground (arith, get-put x.context.session_id sid d x.policy.session_operations)
