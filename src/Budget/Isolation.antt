-- ===== src/Budget/Isolation.antt =====
-- An operation that another context owns is left alone by a confirmation, a release, a mark as
-- unknown and an update of the phase.
use ln_church_agent.Budget.Ledger.{init_context_state, payment_operation}
use ln_church_agent.Budget.Types.{Operation, Session, Phase}
use ln_church_agent.Budget.Reserve.{
  confirm_session_budget, release_session_budget, mark_session_budget_unknown, enter, owned,
}
use Prim.Native.Nat.{ℕ}
use ln_church_agent.Common.{is_none, ◌≡◌, false, arith}
use ln_church_agent.Budget.Steps.{IsHeld}
use ln_church_agent.Budget.States.{update_payment_state}
use ln_church_agent.Budget.Cap.{entered}
use ln_church_agent.Budget.Sums.{find-init, find-save}

-- Another look-up of the entered state is that of the state before.
find-enter :
    (fp : ℕ) (s : Session) (o : Operation)
    → IsHeld fp o s
    → (entered fp s ≡ o) × IsHeld fp o (enter fp s).1
unfolding init_context_state payment_operation
find-enter fp s o h =
    let s' = init_context_state s in
    let e = find-init s s.context.session_id fp in
    let g = find-save s'.policy s.context.session_id fp o s.context.session_id fp in
    ground (arith, e, g)

-- Of an operation that has an owner other than the acting context.
abbrev pub IsForeign : Operation → Session → Type 0
IsForeign o s = (is_none o.owner ≡ false) × (owned o s ≡ false)

-- An operation owned by another context keeps every field, whether the acting context of the same
-- session confirms it, releases it, marks it unknown or updates its phase.
pub foreign_unchanged :
    (fp : ℕ) (p : Phase) (s : Session) {o : Operation}
    → IsHeld fp o s
    → IsForeign o s
    → IsHeld fp o (confirm_session_budget fp s).1
      × IsHeld fp o (release_session_budget fp s).1
      × IsHeld fp o (mark_session_budget_unknown fp s).1
      × IsHeld fp o (update_payment_state fp p s).1
unfolding confirm_session_budget release_session_budget mark_session_budget_unknown
    update_payment_state payment_operation init_context_state
foreign_unchanged fp p s {o} h f =
    let (e, k) = find-enter fp s o h in
    (
      ground (arith, e, k, f.0, f.1),
      ground (arith, e, k, f.0, f.1),
      ground (arith, e, k, f.0, f.1),
      ground (arith, e, k, f.0, f.1),
    )
