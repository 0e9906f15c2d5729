-- ===== src/Budget/PhaseSteps.antt =====
-- What the ledger's methods do to the phase of the operation that they are called for.
use Prim.Native.Nat.{ℕ}
use ln_church_agent.Budget.Reserve.{
  write, set_budget_fact, enter, confirm_session_budget, confirm_operation, reserve_operation,
  release_operation, mark_unknown_operation, check_session_budget, release_session_budget,
  mark_session_budget_unknown, reserve_session_budget, mark_ambiguous, reserve_ambiguous_spend,
  reserve_ambiguous_operation,
}
use ln_church_agent.Budget.Ledger.{init_context_state, payment_operation, find_operation}
use ln_church_agent.Budget.Types.{Session, Operation, Phase, BudgetState, Quoted, amount, negative}
use ln_church_agent.Common.{◌≡◌, arith, ◌∙◌, Option, ◌⊎◌, ◌+◌, some, sym, true, inl, refl, false}
use ln_church_agent.Budget.Steps.{held}
use ln_church_agent.Budget.Cap.{entered}
use ln_church_agent.Budget.States.{
  phase_of, update_payment_state, update_operation, mark_known_settled_ambiguity,
  assert_payment_state_allows_402, check_and_set_payment_state, blocks_402,
}
use ln_church_agent.Budget.Sums.{find-save, find-init}
use ln_church_agent.Common.Outcome.{done}

-- the phase of the operation in the session of the acting context
abbrev pub phase_now : ℕ → Session → Phase
phase_now fp s = phase_of (find_operation s.policy s.context.session_id fp)

pub write-phase : (fp : ℕ) (o : Operation) (s : Session) → phase_now fp (write fp o s).1 ≡ o.phase
unfolding write
write-phase fp o s =
    ground (arith, find-save s.policy s.context.session_id fp o s.context.session_id fp)

pub init-phase : (fp : ℕ) (s : Session) → phase_now fp (init_context_state s) ≡ phase_now fp s
unfolding init_context_state
init-phase fp s = ground (arith, find-init s s.context.session_id fp)

pub held-phase : (fp : ℕ) (s : Session) → (held fp s).phase ≡ phase_now fp s
held-phase fp s = ground arith

look_up-phase : (fp : ℕ) (s : Session) → phase_now fp (payment_operation fp s).1 ≡ phase_now fp s
unfolding payment_operation
look_up-phase fp s = ground (
  arith,
  held-phase fp s,
  find-save s.policy s.context.session_id fp (held fp s) s.context.session_id fp,
)

pub enter-phase : (fp : ℕ) (s : Session) → phase_now fp (enter fp s).1 ≡ phase_now fp s
enter-phase fp s = look_up-phase fp (init_context_state s) ∙ init-phase fp s

pub entered-phase : (fp : ℕ) (s : Session) → (entered fp s).phase ≡ phase_now fp s
entered-phase fp s = held-phase fp (init_context_state s) ∙ init-phase fp s

fact-phase :
    (fp : ℕ) (o : Operation) (b : BudgetState) (amt : ℕ) (owner : Option ℕ) (s : Session)
    → phase_now fp (set_budget_fact fp o b amt owner s).1 ≡ o.phase
unfolding set_budget_fact
fact-phase fp o b amt owner s =
    let v = s.policy.session_ledger_version + 1 in
    let o' = record o { budget_state = some b; amount = amt; owner = owner; revision = v } in
    let p = record s.policy { session_ledger_version = v } in
    ground (arith, find-save p s.context.session_id fp o' s.context.session_id fp)

-- the phase stays, or is the one that the method writes
abbrev pub IsPhaseStep : ℕ → Phase → Session → Session → Type 0
IsPhaseStep fp p s s' = (phase_now fp s' ≡ phase_now fp s) ⊎ (phase_now fp s' ≡ p)

-- the operation `o` is the one that the session holds, as far as the phase goes
module _ (fp : ℕ) (o : Operation) (s : Session) (h : phase_now fp s ≡ o.phase) where
  update_operation-phase : (p : Phase) → IsPhaseStep fp p s (update_operation fp p o s).1
  unfolding update_operation
  update_operation-phase p = ground (arith, h, write-phase fp (record o { phase = p }) s)

  reserve_operation-phase :
      (float_str : ℕ → ℕ) (amt : ℕ)
      → phase_now fp (reserve_operation float_str fp amt o s).1 ≡ phase_now fp s
  unfolding reserve_operation check_session_budget
  reserve_operation-phase float_str amt =
      ground (arith, h, fact-phase fp o BudgetState.reserved amt (some s.context.operation_owner) s)

  confirm_operation-phase : phase_now fp (confirm_operation fp o s).1 ≡ phase_now fp s
  unfolding confirm_operation
  confirm_operation-phase =
      ground (
        arith,
        h,
        fact-phase fp o BudgetState.confirmed o.amount (some s.context.operation_owner) s,
      )

  release_operation-phase : phase_now fp (release_operation fp o s).1 ≡ phase_now fp s
  unfolding release_operation
  release_operation-phase =
      ground
        (arith, h, fact-phase fp o BudgetState.released o.amount (some s.context.operation_owner) s)

  mark_unknown_operation-phase :
      IsPhaseStep fp Phase.settlement_unknown s (mark_unknown_operation fp o s).1
  unfolding mark_unknown_operation
  mark_unknown_operation-phase =
      ground (arith, h, write-phase fp (record o { phase = Phase.settlement_unknown }) s)

module _ (fp : ℕ) (s : Session) where
  pub entered-now : phase_now fp (enter fp s).1 ≡ (entered fp s).phase
  entered-now = enter-phase fp s ∙ sym (entered-phase fp s)

  pub update-phase : (p : Phase) → IsPhaseStep fp p s (update_payment_state fp p s).1
  unfolding update_payment_state payment_operation
  update-phase p = ground (
    arith,
    update_operation-phase fp (entered fp s) (enter fp s).1 entered-now p,
    enter-phase fp s,
  )

  pub confirm-phase : phase_now fp (confirm_session_budget fp s).1 ≡ phase_now fp s
  unfolding confirm_session_budget payment_operation
  confirm-phase =
      confirm_operation-phase fp (entered fp s) (enter fp s).1 entered-now ∙ enter-phase fp s

  pub release-phase : phase_now fp (release_session_budget fp s).1 ≡ phase_now fp s
  unfolding release_session_budget payment_operation
  release-phase =
      release_operation-phase fp (entered fp s) (enter fp s).1 entered-now ∙ enter-phase fp s

  pub mark_unknown-phase :
      IsPhaseStep fp Phase.settlement_unknown s (mark_session_budget_unknown fp s).1
  unfolding mark_session_budget_unknown payment_operation
  mark_unknown-phase = ground (
    arith,
    mark_unknown_operation-phase fp (entered fp s) (enter fp s).1 entered-now,
    enter-phase fp s,
  )

  pub mark_known_settled-phase :
      phase_now fp (mark_known_settled_ambiguity fp s).1 ≡ Phase.ambiguous
  unfolding mark_known_settled_ambiguity payment_operation
  mark_known_settled-phase =
      let o = record (entered fp s) { known_settled = true; phase = Phase.ambiguous } in
      write-phase fp o (enter fp s).1

  pub reserve-phase :
      (float_str : ℕ → ℕ) (q : Quoted)
      → phase_now fp (reserve_session_budget float_str fp q s).1 ≡ phase_now fp s
  unfolding reserve_session_budget payment_operation
  reserve-phase float_str (amount amt) =
      reserve_operation-phase fp (entered fp s) (enter fp s).1 entered-now float_str amt
      ∙ enter-phase fp s
  reserve-phase float_str (negative _) = refl
  reserve-phase float_str Quoted.infinite = refl

  mark_ambiguous-phase : phase_now fp (mark_ambiguous fp s).1 ≡ Phase.ambiguous
  unfolding mark_ambiguous payment_operation write
  mark_ambiguous-phase =
      write-phase fp (record (held fp s) { phase = Phase.ambiguous }) (payment_operation fp s).1

module _ (float_str : ℕ → ℕ) (fp : ℕ) (q : Quoted) where
  reserve_ambiguous_operation-phase :
      (o : Operation) (s : Session)
      → IsPhaseStep fp Phase.ambiguous s (reserve_ambiguous_operation float_str fp q o s).1
  unfolding reserve_ambiguous_operation
  reserve_ambiguous_operation-phase o s = ground (
    arith,
    reserve-phase fp s float_str q,
    mark_ambiguous-phase fp (reserve_session_budget float_str fp q s).1,
    write-phase fp (record o { phase = Phase.ambiguous }) s,
  )

pub reserve_ambiguous-phase :
    (float_str : ℕ → ℕ) (fp : ℕ) (q : Quoted) (s : Session)
    → IsPhaseStep fp Phase.ambiguous s (reserve_ambiguous_spend float_str fp q s).1
unfolding reserve_ambiguous_spend payment_operation
reserve_ambiguous-phase float_str fp (negative _) s = inl refl
reserve_ambiguous-phase float_str fp q s = ground (
  arith,
  reserve_ambiguous_operation-phase float_str fp q (entered fp s) (enter fp s).1,
  enter-phase fp s,
)

-- A 402 is answered only where the phase does not block it, and asking leaves the phase.
pub assert-phase :
    (fp : ℕ) (s : Session)
    → (phase_now fp (assert_payment_state_allows_402 fp s).1 ≡ phase_now fp s)
      × ((u : Unit {0})
          → (assert_payment_state_allows_402 fp s).0 ≡ done u
          → blocks_402 (phase_now fp s) ≡ false)
unfolding assert_payment_state_allows_402
assert-phase fp s = (ground (arith, init-phase fp s), λ u h. ground (arith, init-phase fp s, h))

-- A payment that is started is in progress; one that is refused keeps its phase.
pub check_and_set-phase :
    (fp : ℕ) (s : Session)
    → IsPhaseStep fp Phase.in_progress s (check_and_set_payment_state fp s).1
      × ((u : Unit {0})
          → (check_and_set_payment_state fp s).0 ≡ done u
          → phase_now fp (check_and_set_payment_state fp s).1 ≡ Phase.in_progress)
unfolding check_and_set_payment_state payment_operation assert_payment_state_allows_402
check_and_set-phase fp s =
    let s' = init_context_state (init_context_state s) in
    let owner = some s'.context.operation_owner in
    let o = record (held fp s') { phase = Phase.in_progress; owner = owner } in
    let w = write-phase fp o (payment_operation fp s').1 in
    let i = init-phase fp (init_context_state s) ∙ init-phase fp s in
    (ground (arith, w, i), λ u h. ground (arith, w, h))
