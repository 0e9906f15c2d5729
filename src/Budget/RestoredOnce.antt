-- ===== src/Budget/RestoredOnce.antt =====
-- A session imports its past events once, whatever happens to the ledger afterwards.
use Prim.Native.Nat.{ℕ}
use ln_church_agent.Budget.Run.{happen, run_history, Event, called, restored}
use ln_church_agent.Budget.Types.{Policy, Session, Context}
use ln_church_agent.Budget.Restore.{merge_restored, adopt_session, import_events}
use ln_church_agent.Budget.Evidence.{Journal}
use ln_church_agent.Common.Lists.{contains}
use ln_church_agent.Common.{List, ◌≡◌, arith, true, subst, ◌∷◌, [], refl, sym}
use ln_church_agent.Budget.Ledger.{init_context_state}
use ln_church_agent.Budget.Sessions.{perform-restored}

module _ (float_str : ℕ → ℕ) where
  -- the events of the session are imported
  abbrev pub IsImported : ℕ → Policy → Type 0
  IsImported sid p = contains sid p.restored_session_ids ≡ true

  happen-IsImported :
      (sid : ℕ) (event : Event) (s : Session)
      → IsImported sid s.policy
      → IsImported sid (happen float_str event s).policy
  unfolding happen merge_restored import_events adopt_session init_context_state
  happen-IsImported sid (called call) s h = rw (perform-restored float_str call s) h
  happen-IsImported sid (restored legacy j v b) s h = ground (arith, h)

  run_history-IsImported :
      (sid : ℕ) (events : List (Context × Event)) (p : Policy)
      → IsImported sid p
      → IsImported sid (run_history float_str events p)
  unfolding run_history
  run_history-IsImported sid [] p h = h
  run_history-IsImported sid ((c, event) ∷ rest) p h =
      let s : Session = record { policy = p; context = c } in
      run_history-IsImported sid rest (happen float_str event s).policy
        (happen-IsImported sid event s h)

  merge_restored-IsImported :
      (legacy : ℕ) (j : Journal) (v b : ℕ) (s : Session)
      → IsImported s.context.session_id (merge_restored legacy j v b s).policy
  unfolding merge_restored import_events adopt_session init_context_state
  merge_restored-IsImported legacy j v b s = ground arith

  imported-merge_restored :
      (legacy : ℕ) (j : Journal) (v b : ℕ) (s : Session)
      → IsImported s.context.session_id s.policy
      → merge_restored legacy j v b s ≡ adopt_session (init_context_state s)
  unfolding merge_restored init_context_state
  imported-merge_restored legacy j v b s h = ground (arith, h)

  adopt_session-same :
      (s : Session)
      → let t = adopt_session (init_context_state s) in
        (t.policy.session_baseline_usd ≡ s.policy.session_baseline_usd)
        × (t.policy.session_ledger_version ≡ s.policy.session_ledger_version)
        × (t.policy.restored_session_ids ≡ s.policy.restored_session_ids)
  unfolding adopt_session init_context_state
  adopt_session-same s = (refl, refl, refl)

  -- A session imports its past events once: after a restore of the session and whatever happens to
  -- the ledger then, by contexts of any session, restores included, another restore by a context of
  -- the session leaves the spent baseline and the version of the ledger as they are, and the sessions
  -- whose events are imported.
  pub merge_restored_once :
      (legacy legacy' : ℕ) (j j' : Journal) (v v' b b' : ℕ) (s : Session)
      (events : List (Context × Event)) (c : Context)
      → c.session_id ≡ s.context.session_id
      → let p = run_history float_str events (merge_restored legacy j v b s).policy in
        let t = merge_restored legacy' j' v' b' (record { policy = p; context = c }) in
        (t.policy.session_baseline_usd ≡ p.session_baseline_usd)
        × (t.policy.session_ledger_version ≡ p.session_ledger_version)
        × (t.policy.restored_session_ids ≡ p.restored_session_ids)
  merge_restored_once legacy legacy' j j' v v' b b' s events c e =
      let first = (merge_restored legacy j v b s).policy in
      let p = run_history float_str events first in
      let u : Session = record { policy = p; context = c } in
      let h =
        run_history-IsImported s.context.session_id events first
          (merge_restored-IsImported legacy j v b s) in
      let h' : IsImported c.session_id p = subst (λ n. IsImported n p) (sym e) h in
      rw (imported-merge_restored legacy' j' v' b' u h') (adopt_session-same u)
