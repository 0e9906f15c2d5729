-- ===== src/Budget/SettledSteps.antt =====
-- What each method of the ledger and each restore keep of a payment that may have been made: its
-- phase, by which it is not started again.
use Prim.Native.Nat.{ℕ}
use ln_church_agent.Budget.Types.{Phase, Session, Operation, BudgetState}
use ln_church_agent.Budget.Run.{
  perform, Call, reserve, reserve_ambiguous, confirm, release, mark_unknown, check_and_set,
  mark_known_settled, update, resolve,
}
use ln_church_agent.Common.{
  ◌≡◌, ◌⊎◌, Bool, true, ◌==◌, arith, ==_iff, false, Option, subst, ◌≢◌, sym, some, ◌∷◌, [], ◌∙◌,
  if-holds, none, ◌+◌,
}
use ln_church_agent.Budget.PhaseSteps.{
  phase_now, reserve-phase, reserve_ambiguous-phase, confirm-phase, release-phase,
  mark_unknown-phase, mark_known_settled-phase, write-phase, entered-phase, init-phase, entered-now,
  enter-phase,
}
use ln_church_agent.Budget.States.{
  update_payment_state, update_operation, check_and_set_payment_state,
  assert_payment_state_allows_402, phase_of, same_phase-eq,
}
use ln_church_agent.Budget.Ledger.{
  payment_operation, find_operation, init_context_state, or_empty, or_new,
}
use ln_church_agent.Budget.Restore.{
  restore_entry, restore_journal, settle_phase, import_events, adopt_session, merge_restored,
  restore_fact, Restoring,
}
use ln_church_agent.Budget.Cap.{entered}
use ln_church_agent.Budget.Evidence.{Journal}
use ln_church_agent.Budget.RestoreLaws.{adopt_session-find, settled}
use ln_church_agent.Common.Outcome.{done}
use ln_church_agent.Common.Dict.{get, get-put_self, get-put}
use ln_church_agent.Budget.Reserve.{enter}
use ln_church_agent.Common.Lists.{contains}

-- the phases of a payment that is made, or may be
abbrev pub MayBePaid : Phase → Type 0
MayBePaid p =
    (p ≡ Phase.completed)
    ⊎ (p ≡ Phase.credential_reused)
    ⊎ (p ≡ Phase.ambiguous)
    ⊎ (p ≡ Phase.settlement_unknown)

-- a call for the operation that is no recovery
abbrev pub is_call_of : ℕ → Call → Bool
is_call_of fp (reserve fp' q) = fp' == fp
is_call_of fp (reserve_ambiguous fp' q) = fp' == fp
is_call_of fp (confirm fp') = fp' == fp
is_call_of fp (release fp') = fp' == fp
is_call_of fp (mark_unknown fp') = fp' == fp
is_call_of fp (check_and_set fp') = fp' == fp
is_call_of fp (mark_known_settled fp') = fp' == fp
is_call_of fp (update fp' p) = fp' == fp
is_call_of fp (resolve i outcome) = false

update_operation-MayBePaid :
    (fp : ℕ) (p : Phase) (o : Operation) (s : Session)
    → phase_now fp s ≡ o.phase
    → MayBePaid o.phase
    → phase_now fp (update_operation fp p o s).1 ≡ phase_now fp s
unfolding update_operation
update_operation-MayBePaid fp p o s e h =
    let w = write-phase fp (record o { phase = p }) s in
    ground (arith, e, h, w, same_phase-eq o.phase p)

update-MayBePaid :
    (fp : ℕ) (p : Phase) (s : Session)
    → MayBePaid (phase_now fp s)
    → phase_now fp (update_payment_state fp p s).1 ≡ phase_now fp s
unfolding update_payment_state payment_operation
update-MayBePaid fp p s h =
    let k : MayBePaid (entered fp s).phase = subst MayBePaid (sym (entered-phase fp s)) h in
    update_operation-MayBePaid fp p (entered fp s) (enter fp s).1 (entered-now fp s) k
    ∙ enter-phase fp s

-- A start of such an operation is refused, and leaves its phase.
pub check_and_set-refused :
    (fp : ℕ) (s : Session)
    → MayBePaid (phase_now fp s)
    → (phase_now fp (check_and_set_payment_state fp s).1 ≡ phase_now fp s)
      × ((check_and_set_payment_state fp s).0 ≢ done tt)
unfolding check_and_set_payment_state payment_operation assert_payment_state_allows_402
check_and_set-refused fp s h =
    let i = init-phase fp (init_context_state s) ∙ init-phase fp s in
    (ground (arith, h, i), ground (arith, h, i))

pub perform-MayBePaid :
    (float_str : ℕ → ℕ) (fp : ℕ) (call : Call) (s : Session)
    → is_call_of fp call ≡ true
    → MayBePaid (phase_now fp s)
    → MayBePaid (phase_now fp (perform float_str call s))
unfolding perform
perform-MayBePaid float_str fp (reserve fp' q) s e h =
    ground (arith, ==_iff fp' fp, e, h, reserve-phase fp s float_str q)
perform-MayBePaid float_str fp (reserve_ambiguous fp' q) s e h =
    ground (arith, ==_iff fp' fp, e, h, reserve_ambiguous-phase float_str fp q s)
perform-MayBePaid float_str fp (confirm fp') s e h =
    ground (arith, ==_iff fp' fp, e, h, confirm-phase fp s)
perform-MayBePaid float_str fp (release fp') s e h =
    ground (arith, ==_iff fp' fp, e, h, release-phase fp s)
perform-MayBePaid float_str fp (mark_unknown fp') s e h =
    ground (arith, ==_iff fp' fp, e, h, mark_unknown-phase fp s)
perform-MayBePaid float_str fp (check_and_set fp') s e h =
    ground (arith, ==_iff fp' fp, e, h, check_and_set-refused fp s)
perform-MayBePaid float_str fp (mark_known_settled fp') s e h =
    ground (arith, ==_iff fp' fp, e, h, mark_known_settled-phase fp s)
perform-MayBePaid float_str fp (update fp' p) s e h =
    ground (arith, ==_iff fp' fp, e, h, update-MayBePaid fp p s h)
perform-MayBePaid float_str fp (resolve i outcome) s e h = ground (arith, e)

-- what a restore makes of the phase of an entry
restore_entry-MayBePaid :
    (v key : ℕ) (st : BudgetState) (amt : ℕ) (r : Restoring) (k : ℕ)
    → MayBePaid (phase_of (get k r.operations))
    → MayBePaid (phase_of (get k (restore_entry v key st amt r).operations))
unfolding restore_entry restore_fact
restore_entry-MayBePaid v key st amt r k h =
    let o = or_new (get key r.operations) in
    ground (
      arith,
      h,
      get-put key k o r.operations,
      get-put key k (restore_fact st amt (r.version + 1) o) r.operations,
    )

restore_journal-MayBePaid :
    (v : ℕ) (j : Journal) (r : Restoring) (k : ℕ)
    → MayBePaid (phase_of (get k r.operations))
    → MayBePaid (phase_of (get k (restore_journal v j r).operations))
unfolding restore_journal
restore_journal-MayBePaid v [] r k h = h
restore_journal-MayBePaid v ((key, (st, amt)) ∷ rest) r k h =
    restore_journal-MayBePaid v rest (restore_entry v key st amt r) k
      (restore_entry-MayBePaid v key st amt r k h)

settled-MayBePaid :
    (o : Option Operation) → MayBePaid (phase_of o) → MayBePaid (phase_of (settled o))
unfolding settle_phase
settled-MayBePaid none h = h
settled-MayBePaid (some o) h = ground (arith, h, same_phase-eq o.phase Phase.not_started)

import-MayBePaid :
    (legacy : ℕ) (j : Journal) (v b : ℕ) (s : Session) (fp : ℕ)
    → MayBePaid (phase_now fp s)
    → MayBePaid (phase_now fp (import_events legacy j v b s))
unfolding import_events find_operation
import-MayBePaid legacy j v b s fp h =
    let sid = s.context.session_id in
    let r : Restoring = record {
      version = s.policy.session_ledger_version;
      operations = or_empty (get sid s.policy.session_operations);
    } in
    rw (get-put_self sid (restore_journal v j r).operations s.policy.session_operations)
      (restore_journal-MayBePaid v j r fp h)

adopt-MayBePaid :
    (fp : ℕ) (s : Session) → MayBePaid (phase_now fp s) → MayBePaid (phase_now fp (adopt_session s))
unfolding find_operation get adopt_session
adopt-MayBePaid fp s h =
    let found = find_operation s.policy s.context.session_id fp in
    rw (adopt_session-find s fp) (settled-MayBePaid found h)

pub merge_restored-MayBePaid :
    (legacy : ℕ) (j : Journal) (v b : ℕ) (s : Session) (fp : ℕ)
    → MayBePaid (phase_now fp s)
    → MayBePaid (phase_now fp (merge_restored legacy j v b s))
unfolding merge_restored
merge_restored-MayBePaid legacy j v b s fp h =
    let t = init_context_state s in
    let k : MayBePaid (phase_now fp t) = subst MayBePaid (sym (init-phase fp s)) h in
    if-holds (λ u. MayBePaid (phase_now fp u))
      (contains t.context.session_id t.policy.restored_session_ids) (adopt_session t)
      (adopt_session (import_events legacy j v b t)) (adopt-MayBePaid fp t k)
      (adopt-MayBePaid fp (import_events legacy j v b t) (import-MayBePaid legacy j v b t fp k))
