-- ===== src/Budget/Cap.antt =====
-- What each transition of a reservation does to the money spent and the money reserved.
use ln_church_agent.Budget.Types.{
  Policy, Error, Session, Operation, Phase, reserved, confirmed, BudgetState, in_state,
}
use ln_church_agent.Common.Outcome.{Outcome, done, raised}
use ln_church_agent.Budget.Ledger.{
  session_spent_usd, session_reserved_usd, init_context_state, payment_operation,
}
use ln_church_agent.Budget.Reserve.{
  confirm_operation, enter, write, set_budget_fact, release_operation, mark_unknown_operation,
  reserve_operation, check_session_budget, confirm_session_budget, release_session_budget,
  mark_session_budget_unknown,
}
use Prim.Native.Nat.{ℕ, ◌+◌}
use ln_church_agent.Budget.Steps.{
  SameFrame, IsHeld, enter-SameFrame, write-SameFrame, enter-total, write-total, fact-SameFrame,
  fact-total, held, payment_operation-IsHeld, payment_operation-SameFrame, payment_operation-total,
}
use ln_church_agent.Common.{◌≡◌, some, arith, if◌then◌else◌, ◌<◌, ◌≤◌, ◌∙◌, refl}

-- `s'` follows `s` with the same settings, the given money moved out of the reservations and the
-- given money added to what is spent.
pub record Moves (p : Policy) (out in' added : ℕ) (q : Policy) : Type 0 where
  pub frame : SameFrame p q
  pub reserved : session_reserved_usd q + out ≡ session_reserved_usd p + in'
  pub spent : session_spent_usd q ≡ session_spent_usd p + added

-- the amount that a call returned
abbrev pub returned : Outcome Error ℕ → ℕ
returned (done n) = n
returned (raised _) = 0

pub payment_operation-Moves :
    (fp : ℕ) (s : Session) → Moves s.policy 0 0 0 (payment_operation fp s).1.policy
unfolding session_spent_usd session_reserved_usd
payment_operation-Moves fp s =
    let f = payment_operation-SameFrame fp s in
    record {
      frame = f;
      reserved = omega (arith, payment_operation-total reserved fp s);
      spent = omega (arith, payment_operation-total confirmed fp s, f.same_baseline);
    }

pub enter-Moves : (fp : ℕ) (s : Session) → Moves s.policy 0 0 0 (enter fp s).1.policy
unfolding session_spent_usd session_reserved_usd
enter-Moves fp s = record {
  frame = enter-SameFrame fp s;
  reserved = omega (arith, enter-total reserved fp s);
  spent = omega (arith, enter-total confirmed fp s, (enter-SameFrame fp s).same_baseline);
}

-- A write that leaves the budget fields of the held operation alone moves no money.
pub write-Moves :
    (fp : ℕ) (o o' : Operation) (s : Session)
    → IsHeld fp o s
    → o'.budget_state ≡ o.budget_state
    → o'.amount ≡ o.amount
    → Moves s.policy 0 0 0 (write fp o' s).1.policy
unfolding session_spent_usd session_reserved_usd
write-Moves fp o o' s h e f =
    let b = (write-SameFrame fp o' s).same_baseline in
    record {
      frame = write-SameFrame fp o' s;
      reserved = ground (arith, write-total reserved fp o o' s h);
      spent = ground (arith, write-total confirmed fp o o' s h, b);
    }

confirm_operation-Moves :
    (fp : ℕ) (o : Operation) (s : Session)
    → IsHeld fp o s
    → let (r, s') = confirm_operation fp o s in Moves s.policy (returned r) 0 (returned r) s'.policy
unfolding confirm_operation set_budget_fact session_spent_usd session_reserved_usd
confirm_operation-Moves fp o s h =
    let w = some s.context.operation_owner in
    ground (
      arith,
      fact-SameFrame fp o confirmed o.amount w s,
      fact-total reserved confirmed fp o o.amount w s h,
      fact-total confirmed confirmed fp o o.amount w s h,
    )

release_operation-Moves :
    (fp : ℕ) (o : Operation) (s : Session)
    → IsHeld fp o s
    → let (r, s') = release_operation fp o s in Moves s.policy (returned r) 0 0 s'.policy
unfolding release_operation set_budget_fact session_spent_usd session_reserved_usd
release_operation-Moves fp o s h =
    let w = some s.context.operation_owner in
    ground (
      arith,
      fact-SameFrame fp o BudgetState.released o.amount w s,
      fact-total reserved BudgetState.released fp o o.amount w s h,
      fact-total confirmed BudgetState.released fp o o.amount w s h,
    )

mark_unknown_operation-Moves :
    (fp : ℕ) (o : Operation) (s : Session)
    → IsHeld fp o s
    → Moves s.policy 0 0 0 (mark_unknown_operation fp o s).1.policy
unfolding mark_unknown_operation write session_spent_usd session_reserved_usd
mark_unknown_operation-Moves fp o s h =
    ground (arith, write-Moves fp o (record o { phase = Phase.settlement_unknown }) s h refl refl)

-- the money that a call of `reserve_operation` newly reserves
abbrev pub newly : Operation → Outcome Error ℕ → ℕ
newly o r = if in_state reserved o.budget_state then 0 else returned r

module _ (float_str : ℕ → ℕ) where
  pub reserve_operation-Moves :
      (fp amt : ℕ) (o : Operation) (s : Session)
      → IsHeld fp o s
      → let (r, s') = reserve_operation float_str fp amt o s in
        Moves s.policy 0 (newly o r) 0 s'.policy
  unfolding reserve_operation check_session_budget set_budget_fact session_spent_usd
      session_reserved_usd
  reserve_operation-Moves fp amt o s h =
      let w = some s.context.operation_owner in
      ground (
        arith,
        fact-SameFrame fp o reserved amt w s,
        fact-total reserved reserved fp o amt w s h,
        fact-total confirmed reserved fp o amt w s h,
      )

  -- A new reservation is made only where the sums as read leave room for it.
  pub reserve_operation-room :
      (fp amt : ℕ) (o : Operation) (s : Session)
      → let (r, s') = reserve_operation float_str fp amt o s in
        0 < newly o r
        → float_str (session_spent_usd s.policy)
            + float_str (session_reserved_usd s.policy)
            + newly o r
          ≤ s.policy.max_spend_per_session_usd
  unfolding reserve_operation check_session_budget set_budget_fact
  reserve_operation-room fp amt o s h = ground arith

pub Moves-after : {p q r : Policy} {a b c : ℕ} → Moves p 0 0 0 q → Moves q a b c r → Moves p a b c r
Moves-after m n = record {
  frame = record {
    same_cap = n.frame.same_cap ∙ m.frame.same_cap;
    same_baseline = n.frame.same_baseline ∙ m.frame.same_baseline;
  };
  reserved = omega (arith, m.reserved, n.reserved);
  spent = omega (arith, m.spent, n.spent);
}

-- the operation that a method works on, and the fact that the session holds it
abbrev pub entered : ℕ → Session → Operation
entered fp s = held fp (init_context_state s)

abbrev pub entered-IsHeld : (fp : ℕ) (s : Session) → IsHeld fp (entered fp s) (enter fp s).1
entered-IsHeld fp s = payment_operation-IsHeld fp (init_context_state s)

-- Confirming moves exactly the returned amount from the reservations to what is spent, and
-- returns 0 and moves nothing where there is nothing to confirm or where it raises.
pub confirm_session_budget-Moves :
    (fp : ℕ) (s : Session)
    → let (r, s') = confirm_session_budget fp s in
      Moves s.policy (returned r) 0 (returned r) s'.policy
unfolding confirm_session_budget payment_operation
confirm_session_budget-Moves fp s =
    Moves-after (enter-Moves fp s)
      (confirm_operation-Moves fp (entered fp s) (enter fp s).1 (entered-IsHeld fp s))

-- Releasing takes exactly the returned amount out of the reservations and spends nothing.
pub release_session_budget-Moves :
    (fp : ℕ) (s : Session)
    → let (r, s') = release_session_budget fp s in Moves s.policy (returned r) 0 0 s'.policy
unfolding release_session_budget payment_operation
release_session_budget-Moves fp s =
    Moves-after (enter-Moves fp s)
      (release_operation-Moves fp (entered fp s) (enter fp s).1 (entered-IsHeld fp s))

pub mark_session_budget_unknown-Moves :
    (fp : ℕ) (s : Session) → Moves s.policy 0 0 0 (mark_session_budget_unknown fp s).1.policy
unfolding mark_session_budget_unknown payment_operation
mark_session_budget_unknown-Moves fp s =
    Moves-after (enter-Moves fp s)
      (mark_unknown_operation-Moves fp (entered fp s) (enter fp s).1 (entered-IsHeld fp s))

pub Moves-refl : (p : Policy) → Moves p 0 0 0 p
Moves-refl p = record {
  frame = record { same_cap = refl; same_baseline = refl };
  reserved = refl;
  spent = omega arith;
}

pub Moves-then : {p q r : Policy} {a b c : ℕ} → Moves p a b c q → Moves q 0 0 0 r → Moves p a b c r
Moves-then m n = record {
  frame = record {
    same_cap = n.frame.same_cap ∙ m.frame.same_cap;
    same_baseline = n.frame.same_baseline ∙ m.frame.same_baseline;
  };
  reserved = omega (arith, m.reserved, n.reserved);
  spent = omega (arith, m.spent, n.spent);
}
