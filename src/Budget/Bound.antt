-- ===== src/Budget/Bound.antt =====
-- A reservation keeps the session within its cap, and so does one of an ambiguous payment.
use Prim.Native.Nat.{ℕ, ◌^◌, ◌<◌, ◌+◌}
use ln_church_agent.Budget.Types.{Policy, Operation, Session, Quoted, amount, negative, Phase}
use ln_church_agent.Budget.Ledger.{session_spent_usd, payment_operation, session_reserved_usd}
use ln_church_agent.Budget.Cap.{
  Moves, reserve_operation-Moves, enter-Moves, reserve_operation-room, entered, entered-IsHeld,
  Moves-after, payment_operation-Moves, write-Moves,
}
use ln_church_agent.Budget.Reserve.{
  reserve_session_budget, reserve_operation, enter, mark_ambiguous, write, mark_ambiguous,
  reserve_ambiguous_operation, reserve_ambiguous_spend,
}
use ln_church_agent.Common.{◌≡◌, ◌≤◌, arith, refl}
use ln_church_agent.Budget.Steps.{IsHeld, held, payment_operation-IsHeld}

-- The money spent and the money reserved are within the cap of the session.
pub record IsWithinCap (p : Policy) : Type 0 where
  pub within : session_spent_usd p + session_reserved_usd p ≤ p.max_spend_per_session_usd

-- Fifteen significant digits survive a conversion to a Python float and back.
abbrev pub float_digits : ℕ
float_digits = 10 ^ 15

abbrev pub IsExact : (ℕ → ℕ) → Type 0
IsExact float_str = (n : ℕ) → n < float_digits → float_str n ≡ n

pub Moves-IsWithinCap :
    {p q : Policy} {a b c : ℕ} → Moves p a b c q → b + c ≤ a → IsWithinCap p → IsWithinCap q
Moves-IsWithinCap m le h = record {
  within = omega (arith, m.reserved, m.spent, m.frame.same_cap, h.within);
}

module _ (float_str : ℕ → ℕ) (exact : IsExact float_str) where
  reserve_operation-IsWithinCap :
      (fp amt : ℕ) (o : Operation) (s : Session)
      → IsHeld fp o s
      → s.policy.max_spend_per_session_usd < float_digits
      → IsWithinCap s.policy
      → IsWithinCap (reserve_operation float_str fp amt o s).1.policy
  reserve_operation-IsWithinCap fp amt o s h small c =
      let m = reserve_operation-Moves float_str fp amt o s h in
      let room = reserve_operation-room float_str fp amt o s in
      record {
        within = ground (
          arith,
          m.reserved,
          m.spent,
          m.frame.same_cap,
          c.within,
          room,
          exact (session_spent_usd s.policy),
          exact (session_reserved_usd s.policy),
        );
      }

  -- A reservation, granted or refused, keeps the session within its cap.
  pub reserve_session_budget-IsWithinCap :
      (fp : ℕ) (q : Quoted) (s : Session)
      → s.policy.max_spend_per_session_usd < float_digits
      → IsWithinCap s.policy
      → IsWithinCap (reserve_session_budget float_str fp q s).1.policy
  unfolding reserve_session_budget payment_operation
  reserve_session_budget-IsWithinCap fp (amount amt) s small c =
      let m = enter-Moves fp s in
      reserve_operation-IsWithinCap fp amt (entered fp s) (enter fp s).1 (entered-IsHeld fp s)
        (omega (arith, m.frame.same_cap)) (Moves-IsWithinCap m (omega arith) c)
  reserve_session_budget-IsWithinCap fp (negative _) s small c = c
  reserve_session_budget-IsWithinCap fp Quoted.infinite s small c = c

  -- Marking the held operation as ambiguous moves no money.
  mark_ambiguous-IsWithinCap :
      (fp : ℕ) (s : Session) → IsWithinCap s.policy → IsWithinCap (mark_ambiguous fp s).1.policy
  unfolding mark_ambiguous payment_operation write
  mark_ambiguous-IsWithinCap fp s c =
      let o = held fp s in
      let m =
        write-Moves fp o (record o { phase = Phase.ambiguous }) (payment_operation fp s).1
          (payment_operation-IsHeld fp s) refl refl in
      Moves-IsWithinCap (Moves-after (payment_operation-Moves fp s) m) (omega arith) c

  reserve_ambiguous_operation-IsWithinCap :
      (fp : ℕ) (q : Quoted) (o : Operation) (s : Session)
      → IsHeld fp o s
      → s.policy.max_spend_per_session_usd < float_digits
      → IsWithinCap s.policy
      → IsWithinCap (reserve_ambiguous_operation float_str fp q o s).1.policy
  unfolding reserve_ambiguous_operation write
  reserve_ambiguous_operation-IsWithinCap fp q o s h small c =
      let o' = record o { phase = Phase.ambiguous } in
      let c' = reserve_session_budget-IsWithinCap fp q s small c in
      ground (
        arith,
        Moves-IsWithinCap (write-Moves fp o o' s h refl refl) (omega arith) c,
        c',
        mark_ambiguous-IsWithinCap fp (reserve_session_budget float_str fp q s).1 c',
      )

  -- So does a reservation for a payment whose outcome is ambiguous.
  pub reserve_ambiguous_spend-IsWithinCap :
      (fp : ℕ) (q : Quoted) (s : Session)
      → s.policy.max_spend_per_session_usd < float_digits
      → IsWithinCap s.policy
      → IsWithinCap (reserve_ambiguous_spend float_str fp q s).1.policy
  unfolding reserve_ambiguous_spend payment_operation
  reserve_ambiguous_spend-IsWithinCap fp (negative _) s small c = c
  reserve_ambiguous_spend-IsWithinCap fp q s small c =
      let m = enter-Moves fp s in
      ground (
        arith,
        reserve_ambiguous_operation-IsWithinCap fp q (entered fp s) (enter fp s).1
            (entered-IsHeld fp s) (omega (arith, m.frame.same_cap))
            (Moves-IsWithinCap m (omega arith) c),
      )
