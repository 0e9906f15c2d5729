-- ===== src/Budget/Phases.antt =====
-- The methods that only write the phase, the owner or the paid fact move no money, and a recovery
-- moves exactly what was still reserved.
use ln_church_agent.Budget.Ledger.{
  session_spent_usd, session_reserved_usd, payment_operation, init_context_state,
}
use ln_church_agent.Budget.States.{
  check_and_set_payment_state, update_operation, update_payment_state, mark_known_settled_ambiguity,
  assert_payment_state_allows_402,
}
use ln_church_agent.Budget.Reserve.{write, enter, set_budget_fact}
use Prim.Native.Nat.{ℕ}
use ln_church_agent.Budget.Types.{Session, Phase, Operation, reserved, confirmed, Error, Policy}
use ln_church_agent.Budget.Cap.{
  Moves, Moves-after, entered, enter-Moves, write-Moves, payment_operation-Moves, Moves-refl,
  entered-IsHeld,
}
use ln_church_agent.Budget.Steps.{
  init-SameFrame, held, IsHeld, payment_operation-IsHeld, fact-SameFrame, fact-total,
}
use ln_church_agent.Common.{
  arith, some, true, refl, ◌≡◌, ◌<◌, Option, false, if◌then◌else◌, none, Bool,
}
use ln_church_agent.Budget.Sums.{budget_total-init}
use ln_church_agent.Common.Outcome.{Outcome, done, raised}
use ln_church_agent.Budget.Resolve.{
  resolve_settled, Recovery, recovered_phase, reservation, RecoveryRecord, is_paid, recovered_state,
  resolve_open, close_recovery, resolve_operation, resolve_ambiguous_payment, identified,
  resolve_known,
}
use ln_church_agent.Common.Dict.{get}
use ln_church_agent.Common.Lists.{contains}

init-Moves : (s : Session) → Moves s.policy 0 0 0 (init_context_state s).policy
unfolding session_spent_usd session_reserved_usd
init-Moves s =
    let f = init-SameFrame s in
    record {
      frame = f;
      reserved = omega (arith, budget_total-init reserved s);
      spent = omega (arith, budget_total-init confirmed s, f.same_baseline);
    }

pub check_and_set_payment_state-Moves :
    (fp : ℕ) (s : Session) → Moves s.policy 0 0 0 (check_and_set_payment_state fp s).1.policy
unfolding check_and_set_payment_state assert_payment_state_allows_402 payment_operation write
check_and_set_payment_state-Moves fp s =
    let s' = init_context_state (init_context_state s) in
    let m = Moves-after (init-Moves s) (init-Moves (init_context_state s)) in
    let o = held fp s' in
    let w = some s'.context.operation_owner in
    let o' = record o { phase = Phase.in_progress; owner = w } in
    ground (
      arith,
      m,
      Moves-after m (
          Moves-after (payment_operation-Moves fp s') (
            write-Moves fp o o' (payment_operation fp s').1 (payment_operation-IsHeld fp s') refl
              refl)),
    )

update_operation-Moves :
    (fp : ℕ) (p : Phase) (o : Operation) (s : Session)
    → IsHeld fp o s
    → Moves s.policy 0 0 0 (update_operation fp p o s).1.policy
unfolding update_operation write
update_operation-Moves fp p o s h =
    ground (arith, write-Moves fp o (record o { phase = p }) s h refl refl, Moves-refl s.policy)

pub update_payment_state-Moves :
    (fp : ℕ) (p : Phase) (s : Session) → Moves s.policy 0 0 0 (update_payment_state fp p s).1.policy
unfolding update_payment_state payment_operation
update_payment_state-Moves fp p s =
    Moves-after (enter-Moves fp s)
      (update_operation-Moves fp p (entered fp s) (enter fp s).1 (entered-IsHeld fp s))

pub mark_known_settled_ambiguity-Moves :
    (fp : ℕ) (s : Session) → Moves s.policy 0 0 0 (mark_known_settled_ambiguity fp s).1.policy
unfolding mark_known_settled_ambiguity payment_operation write
mark_known_settled_ambiguity-Moves fp s =
    let o = entered fp s in
    Moves-after (enter-Moves fp s) (
      write-Moves fp o (record o { known_settled = true; phase = Phase.ambiguous }) (enter fp s).1
        (entered-IsHeld fp s) refl refl)

-- the amount in the evidence record that a recovery returned
abbrev pub recovered : Outcome Error (Phase × Option RecoveryRecord) → ℕ
recovered (done (_, some r)) = r.amount
recovered (done (_, none)) = 0
recovered (raised _) = 0

resolve_settled-Moves :
    (fp : ℕ) (outcome : Recovery) (o : Operation) (s : Session)
    → IsHeld fp o s
    → let (r, s') = resolve_settled fp outcome o s in
      Moves s.policy 0 0 0 s'.policy × (recovered r ≡ 0)
unfolding resolve_settled write
resolve_settled-Moves fp outcome o s h =
    let o' = record o { phase = recovered_phase outcome; known_settled = false } in
    ground (arith, write-Moves fp o o' s h refl refl, Moves-refl s.policy)

-- Settling what is reserved takes it out of the reservations, and spends it if it was paid.
fact-Moves :
    (fp : ℕ) (outcome : Recovery) (o : Operation) (s : Session)
    → IsHeld fp o s
    → 0 < reservation o
    → Moves s.policy
        (reservation o)
        0
        (if is_paid outcome then reservation o else 0)
        (set_budget_fact fp o
          (recovered_state outcome)
          (reservation o)
          (some s.context.operation_owner)
          s).1.policy
unfolding session_spent_usd session_reserved_usd
fact-Moves fp outcome o s h pos =
    let w = some s.context.operation_owner in
    let st = recovered_state outcome in
    let f = fact-SameFrame fp o st (reservation o) w s in
    ground (
      arith,
      f,
      fact-total reserved st fp o (reservation o) w s h,
      fact-total confirmed st fp o (reservation o) w s h,
    )

-- The last writes of a recovery move no money.
close_recovery-Moves :
    (fp : ℕ) (outcome : Recovery) (n : ℕ) (s : Session)
    → let (r, s') = close_recovery fp outcome n s in
      Moves s.policy 0 0 0 s'.policy × (recovered r ≡ n)
unfolding close_recovery payment_operation write
close_recovery-Moves fp outcome n s =
    let o = held fp s in
    let o' = record o { known_settled = false; phase = recovered_phase outcome } in
    let m =
      Moves-after (payment_operation-Moves fp s) (
        write-Moves fp o o' (payment_operation fp s).1 (payment_operation-IsHeld fp s) refl refl) in
    (m, ground arith)

-- what a recovery of an operation with this reservation does to the policy
abbrev pub Settles : Recovery → ℕ → Policy → Policy → Type 0
Settles outcome n p q = Moves p n 0 (if is_paid outcome then n else 0) q

resolve_open-Moves :
    (fp : ℕ) (outcome : Recovery) (o : Operation) (s : Session)
    → IsHeld fp o s
    → let (r, s') = resolve_open fp outcome o s in
      Settles outcome (reservation o) s.policy s'.policy × (recovered r ≡ reservation o)
unfolding resolve_open set_budget_fact
resolve_open-Moves fp outcome o s h =
    let n = reservation o in
    let w = some s.context.operation_owner in
    let s' = (set_budget_fact fp o (recovered_state outcome) n w s).1 in
    let a = fact-Moves fp outcome o s h in
    let b = close_recovery-Moves fp outcome n s' in
    let c = close_recovery-Moves fp outcome 0 s in ground (arith, a, b, c)

resolve_operation-Moves :
    (fp : ℕ) (outcome : Recovery) (o : Operation) (s : Session)
    → IsHeld fp o s
    → let (r, s') = resolve_operation fp outcome o s in
      Settles outcome (recovered r) s.policy s'.policy
unfolding resolve_operation
resolve_operation-Moves fp outcome o s h = ground (
  arith,
  resolve_settled-Moves fp outcome o s h,
  resolve_open-Moves fp outcome o s h,
  Moves-refl s.policy,
)

resolve_known-Settles :
    (fp : ℕ) (outcome : Recovery) (known : Bool) (s : Session)
    → let (r, s') = resolve_known fp outcome known s in
      Settles outcome (recovered r) s.policy s'.policy
unfolding resolve_known payment_operation
resolve_known-Settles fp outcome false s = ground (arith, Moves-refl s.policy)
resolve_known-Settles fp outcome true s = Moves-after (payment_operation-Moves fp s) (
    resolve_operation-Moves fp outcome (held fp s) (payment_operation fp s).1
      (payment_operation-IsHeld fp s))

-- A recovery takes exactly the amount of its evidence record out of the reservations, and adds it
-- to what is spent if the payment was confirmed; with no record it moves nothing.
pub resolve_ambiguous_payment-Settles :
    (i : ℕ) (outcome : Recovery) (s : Session)
    → let (r, s') = resolve_ambiguous_payment i outcome s in
      Settles outcome (recovered r) s.policy s'.policy
unfolding resolve_ambiguous_payment
resolve_ambiguous_payment-Settles i outcome s =
    let s' = init_context_state s in
    let fp = identified i (get i s'.context.payment_identities) in
    Moves-after (init-Moves s)
      (resolve_known-Settles fp outcome (contains fp s'.context.operations) s')
