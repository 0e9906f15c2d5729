-- ===== src/Budget/History.antt =====
-- The session cap along every history of calls, and of restores that fit it.
use Prim.Native.Nat.{ℕ, ◌<◌}
use ln_church_agent.Budget.Resolve.{Recovery, resolve_ambiguous_payment}
use ln_church_agent.Budget.Bound.{
  IsExact, IsWithinCap, float_digits, reserve_session_budget-IsWithinCap,
  reserve_ambiguous_spend-IsWithinCap, Moves-IsWithinCap,
}
use ln_church_agent.Budget.Types.{
  Session, Context, Policy, Quoted, amount, Operation, negative, Phase,
}
use ln_church_agent.Budget.Run.{
  perform, Call, reserve, reserve_ambiguous, confirm, release, mark_unknown, check_and_set,
  mark_known_settled, update, resolve, run_history, happen, Event, called, restored,
}
use ln_church_agent.Budget.Phases.{
  resolve_ambiguous_payment-Settles, check_and_set_payment_state-Moves,
  mark_known_settled_ambiguity-Moves, update_payment_state-Moves,
}
use ln_church_agent.Common.{[], ◌∷◌, ◌∙◌, arith, List, refl, ◌≡◌}
use ln_church_agent.Budget.Cap.{
  confirm_session_budget-Moves, release_session_budget-Moves, mark_session_budget_unknown-Moves,
  Moves-refl, reserve_operation-Moves, entered, entered-IsHeld,
}
use ln_church_agent.Budget.Steps.{SameFrame, enter-SameFrame, write-SameFrame}
use ln_church_agent.Budget.Reserve.{
  reserve_session_budget, mark_ambiguous, reserve_ambiguous_operation, reserve_ambiguous_spend,
  write, enter,
}
use ln_church_agent.Budget.Ledger.{payment_operation, save, init_context_state}
use ln_church_agent.Budget.Restore.{merge_restored, import_events, adopt_session}
use ln_church_agent.Budget.Evidence.{Journal}

resolve-IsWithinCap :
    (i : ℕ) (outcome : Recovery) (s : Session)
    → IsWithinCap s.policy
    → IsWithinCap (resolve_ambiguous_payment i outcome s).1.policy
resolve-IsWithinCap i outcome s c =
    let m = resolve_ambiguous_payment-Settles i outcome s in
    record { within = ground (arith, m.reserved, m.spent, m.frame.same_cap, c.within) }

SameFrame-trans : {p q r : Policy} → SameFrame p q → SameFrame q r → SameFrame p r
SameFrame-trans a b = record {
  same_cap = b.same_cap ∙ a.same_cap;
  same_baseline = b.same_baseline ∙ a.same_baseline;
}

module _ (float_str : ℕ → ℕ) where
  reserve-SameFrame :
      (fp : ℕ) (q : Quoted) (s : Session)
      → SameFrame s.policy (reserve_session_budget float_str fp q s).1.policy
  unfolding reserve_session_budget payment_operation
  reserve-SameFrame fp (amount amt) s =
      SameFrame-trans (enter-SameFrame fp s)
        (reserve_operation-Moves float_str fp amt (entered fp s) (enter fp s).1
          (entered-IsHeld fp s)).frame
  reserve-SameFrame fp (negative _) s = (Moves-refl s.policy).frame
  reserve-SameFrame fp Quoted.infinite s = (Moves-refl s.policy).frame

  mark_ambiguous-SameFrame :
      (fp : ℕ) (s : Session) → SameFrame s.policy (mark_ambiguous fp s).1.policy
  unfolding mark_ambiguous payment_operation write save
  mark_ambiguous-SameFrame fp s = record { same_cap = refl; same_baseline = refl }

  reserve_ambiguous_operation-SameFrame :
      (fp : ℕ) (q : Quoted) (o : Operation) (s : Session)
      → SameFrame s.policy (reserve_ambiguous_operation float_str fp q o s).1.policy
  unfolding reserve_ambiguous_operation write
  reserve_ambiguous_operation-SameFrame fp q o s =
      let r = (reserve_session_budget float_str fp q s).1 in
      ground (
        arith,
        (Moves-refl s.policy).frame,
        write-SameFrame fp (record o { phase = Phase.ambiguous }) s,
        reserve-SameFrame fp q s,
        mark_ambiguous-SameFrame fp r,
      )

  reserve_ambiguous-SameFrame :
      (fp : ℕ) (q : Quoted) (s : Session)
      → SameFrame s.policy (reserve_ambiguous_spend float_str fp q s).1.policy
  unfolding reserve_ambiguous_spend payment_operation
  reserve_ambiguous-SameFrame fp (negative _) s = (Moves-refl s.policy).frame
  reserve_ambiguous-SameFrame fp q s =
      let rest = reserve_ambiguous_operation-SameFrame fp q (entered fp s) (enter fp s).1 in
      ground (arith, (Moves-refl s.policy).frame, SameFrame-trans (enter-SameFrame fp s) rest)

  pub perform-SameFrame :
      (call : Call) (s : Session) → SameFrame s.policy (perform float_str call s).policy
  unfolding perform
  perform-SameFrame (reserve fp q) s = reserve-SameFrame fp q s
  perform-SameFrame (reserve_ambiguous fp q) s = reserve_ambiguous-SameFrame fp q s
  perform-SameFrame (confirm fp) s = (confirm_session_budget-Moves fp s).frame
  perform-SameFrame (release fp) s = (release_session_budget-Moves fp s).frame
  perform-SameFrame (mark_unknown fp) s = (mark_session_budget_unknown-Moves fp s).frame
  perform-SameFrame (check_and_set fp) s = (check_and_set_payment_state-Moves fp s).frame
  perform-SameFrame (mark_known_settled fp) s = (mark_known_settled_ambiguity-Moves fp s).frame
  perform-SameFrame (update fp p) s = (update_payment_state-Moves fp p s).frame
  perform-SameFrame (resolve i outcome) s = (resolve_ambiguous_payment-Settles i outcome s).frame

  merge_restored-cap :
      (legacy : ℕ) (j : Journal) (v b : ℕ) (s : Session)
      → (merge_restored legacy j v b s).policy.max_spend_per_session_usd
        ≡ s.policy.max_spend_per_session_usd
  unfolding merge_restored init_context_state import_events adopt_session
  merge_restored-cap legacy j v b s = ground arith

  happen-cap :
      (event : Event) (s : Session)
      → (happen float_str event s).policy.max_spend_per_session_usd
        ≡ s.policy.max_spend_per_session_usd
  unfolding happen
  happen-cap (called call) s = (perform-SameFrame call s).same_cap
  happen-cap (restored legacy j v b) s = merge_restored-cap legacy j v b s

-- a restore leaves the session within its cap
abbrev pub RestoreFits : (ℕ → ℕ) → Event → Session → Type 0
RestoreFits float_str (called call) s = Unit {0}
RestoreFits float_str (restored legacy j v b) s = IsWithinCap (merge_restored legacy j v b s).policy

-- so does each restore of a history
unfoldable pub RestoresFit : (ℕ → ℕ) → List (Context × Event) → Policy → Type 0
RestoresFit float_str [] p = Unit {0}
RestoresFit float_str ((c, event) ∷ rest) p =
    let s : Session = record { policy = p; context = c } in
    RestoreFits float_str event s × RestoresFit float_str rest (happen float_str event s).policy

module _ (float_str : ℕ → ℕ) (exact : IsExact float_str) where
  pub perform-IsWithinCap :
      (call : Call) (s : Session)
      → s.policy.max_spend_per_session_usd < float_digits
      → IsWithinCap s.policy
      → IsWithinCap (perform float_str call s).policy
  unfolding perform
  perform-IsWithinCap (reserve fp q) s small c =
      reserve_session_budget-IsWithinCap float_str exact fp q s small c
  perform-IsWithinCap (reserve_ambiguous fp q) s small c =
      reserve_ambiguous_spend-IsWithinCap float_str exact fp q s small c
  perform-IsWithinCap (confirm fp) s small c =
      Moves-IsWithinCap (confirm_session_budget-Moves fp s) (omega arith) c
  perform-IsWithinCap (release fp) s small c =
      Moves-IsWithinCap (release_session_budget-Moves fp s) (omega arith) c
  perform-IsWithinCap (mark_unknown fp) s small c =
      Moves-IsWithinCap (mark_session_budget_unknown-Moves fp s) (omega arith) c
  perform-IsWithinCap (check_and_set fp) s small c =
      Moves-IsWithinCap (check_and_set_payment_state-Moves fp s) (omega arith) c
  perform-IsWithinCap (mark_known_settled fp) s small c =
      Moves-IsWithinCap (mark_known_settled_ambiguity-Moves fp s) (omega arith) c
  perform-IsWithinCap (update fp p) s small c =
      Moves-IsWithinCap (update_payment_state-Moves fp p s) (omega arith) c
  perform-IsWithinCap (resolve i outcome) s small c = resolve-IsWithinCap i outcome s c

  happen-IsWithinCap :
      (event : Event) (s : Session)
      → RestoreFits float_str event s
      → s.policy.max_spend_per_session_usd < float_digits
      → IsWithinCap s.policy
      → IsWithinCap (happen float_str event s).policy
  unfolding happen
  happen-IsWithinCap (called call) s fits small c = perform-IsWithinCap call s small c
  happen-IsWithinCap (restored legacy j v b) s fits small c = fits

  -- Whatever contexts call, in whatever order, the money spent and reserved by a policy stays
  -- within its session cap, if it is within the cap at the start, the cap is below 10 ^ 15 units,
  -- sums below 10 ^ 15 units survive the conversion to a float, and each restore of past events,
  -- which may happen at any point of the history, does not itself exceed the cap.
  pub run_history-IsWithinCap :
      (events : List (Context × Event)) (p : Policy)
      → RestoresFit float_str events p
      → p.max_spend_per_session_usd < float_digits
      → IsWithinCap p
      → IsWithinCap (run_history float_str events p)
  unfolding run_history RestoresFit
  run_history-IsWithinCap [] p fits small c = c
  run_history-IsWithinCap ((x, event) ∷ rest) p (fit, fits) small c =
      let s : Session = record { policy = p; context = x } in
      run_history-IsWithinCap rest (happen float_str event s).policy fits
        (omega (arith, happen-cap float_str event s)) (happen-IsWithinCap event s fit small c)
