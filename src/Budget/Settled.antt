-- ===== src/Budget/Settled.antt =====
-- What histories keep of a payment that may have been made: its phase, by which it is not started
-- again.
use Prim.Native.Nat.{ℕ}
use ln_church_agent.Budget.Types.{Phase, Session, Policy, Context}
use ln_church_agent.Budget.Run.{happen, Event, run_history, called, restored}
use ln_church_agent.Common.{
  ◌≡◌, Bool, true, ◌==◌, arith, ==_iff, subst, ◌≢◌, sym, ◌∷◌, [], ◌∙◌, List, ◌&&◌,
}
use ln_church_agent.Budget.PhaseSteps.{phase_now}
use ln_church_agent.Budget.Sessions.{perform-session}
use ln_church_agent.Budget.States.{check_and_set_payment_state, phase_of}
use ln_church_agent.Budget.Ledger.{find_operation, init_context_state}
use ln_church_agent.Budget.Restore.{import_events, adopt_session, merge_restored}
use ln_church_agent.Common.Outcome.{done}
use ln_church_agent.Common.Lists.{all}
use ln_church_agent.Budget.SettledSteps.{
  MayBePaid, is_call_of, perform-MayBePaid, check_and_set-refused, merge_restored-MayBePaid,
}

-- the phase of an operation of the policy
abbrev pub phase_at : ℕ → ℕ → Policy → Phase
phase_at sid fp p = phase_of (find_operation p sid fp)

-- the event is in the session, and is a restore or a call for the operation that is no recovery
abbrev pub is_event_of : ℕ → ℕ → Context × Event → Bool
is_event_of sid fp (c, called call) = c.session_id == sid && is_call_of fp call
is_event_of sid fp (c, restored legacy j v b) = c.session_id == sid

happen-session :
    (float_str : ℕ → ℕ) (event : Event) (s : Session)
    → (happen float_str event s).context.session_id ≡ s.context.session_id
unfolding happen merge_restored import_events adopt_session init_context_state
happen-session float_str (called call) s = perform-session float_str call s
happen-session float_str (restored legacy j v b) s = ground arith

happen_now-MayBePaid :
    (float_str : ℕ → ℕ) (sid fp : ℕ) (event : Event) (s : Session)
    → is_event_of sid fp (s.context, event) ≡ true
    → MayBePaid (phase_now fp s)
    → MayBePaid (phase_now fp (happen float_str event s))
unfolding happen
happen_now-MayBePaid float_str sid fp (called call) s e h =
    perform-MayBePaid float_str fp call s (ground (arith, e)) h
happen_now-MayBePaid float_str sid fp (restored legacy j v b) s e h =
    merge_restored-MayBePaid legacy j v b s fp h

event-session :
    (sid fp : ℕ) (event : Event) (c : Context)
    → is_event_of sid fp (c, event) ≡ true
    → c.session_id ≡ sid
event-session sid fp (called call) c e = ground (arith, e, ==_iff c.session_id sid)
event-session sid fp (restored legacy j v b) c e = ground (arith, e, ==_iff c.session_id sid)

happen-MayBePaid :
    (float_str : ℕ → ℕ) (sid fp : ℕ) (event : Event) (c : Context) (p : Policy)
    → is_event_of sid fp (c, event) ≡ true
    → MayBePaid (phase_at sid fp p)
    → MayBePaid
        (phase_at sid fp (happen float_str event (record { policy = p; context = c })).policy)
happen-MayBePaid float_str sid fp event c p e h =
    let s : Session = record { policy = p; context = c } in
    let t = happen float_str event s in
    let same = event-session sid fp event c e in
    let k =
      happen_now-MayBePaid float_str sid fp event s e
        (subst (λ n. MayBePaid (phase_at n fp p)) (sym same) h) in
    subst (λ n. MayBePaid (phase_at n fp t.policy)) (happen-session float_str event s ∙ same) k

-- A payment whose phase is `completed`, `credential_reused`, `ambiguous` or `settlement_unknown` is
-- not started again without a recovery: whatever contexts of its session do with the operation, by
-- every method of the ledger but a recovery and by restores of past events, in any order, its phase
-- stays one of these four and a start by any context of the session is refused.
pub run_history-MayBePaid :
    (float_str : ℕ → ℕ) (sid fp : ℕ) (events : List (Context × Event)) (p : Policy) (c : Context)
    → all (is_event_of sid fp) events ≡ true
    → MayBePaid (phase_at sid fp p)
    → c.session_id ≡ sid
    → let p' = run_history float_str events p in
      MayBePaid (phase_at sid fp p')
      × ((check_and_set_payment_state fp (record { policy = p'; context = c })).0 ≢ done tt)
unfolding run_history
run_history-MayBePaid float_str sid fp [] p c e h i =
    let s : Session = record { policy = p; context = c } in
    (h, (check_and_set-refused fp s (subst (λ n. MayBePaid (phase_at n fp p)) (sym i) h)).1)
run_history-MayBePaid float_str sid fp ((x, event) ∷ rest) p c e h i =
    run_history-MayBePaid float_str sid fp rest
      (happen float_str event (record { policy = p; context = x })).policy c (ground (arith, e))
      (happen-MayBePaid float_str sid fp event x p (ground (arith, e)) h) i
