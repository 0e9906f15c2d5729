-- ===== src/TaskJournal/Progress.antt =====
-- Targets are started once, and their results are kept.
use Prim.Native.Nat.{zero, suc}
use ln_church_agent.Common.{
  arith, List, ℕ, ◌≡◌, ◌⊎◌, some, true, none, inl, ◌≢◌, ◌∷◌, inr, false, [], refl, Option-cases,
  subst, sym,
}
use ln_church_agent.TaskJournal.Validate.{validate_payload, state_ok}
use ln_church_agent.TaskJournal.Store.{
  mutate, Checks, valid, Call, offer, bind, attempt, result, freeze, acknowledge, terminate, fetch,
  dispatch, Fault, update, run_calls, Disk,
}
use ln_church_agent.TaskJournal.Types.{
  Target, Payload, is_recorded, State, TargetState, is_unstarted,
}
use ln_church_agent.TaskJournal.Mutate.{
  mark_offer_rechecked, start_manifest_attempt, bind_verified_manifest, mark_target_attempt_started,
  record_target_result, freeze_report, mark_completion_dispatch_attempted,
  mark_compound_completion_acked, mark_terminal_status, bare_target,
}
use ln_church_agent.Common.Lists.{get_elem?, set}
use ln_church_agent.Common.Outcome.{done}
use ln_church_agent.TaskJournal.Atomic.{run_calls-keeps, IsCommit, update-IsReturned}

-- a read after a write reads the old value, or the new one at the written position
get-set :
    (xs : List Target) (i j : ℕ) (v : Target)
    → (get_elem? (set xs i v) j ≡ get_elem? xs j)
      ⊎ ((get_elem? xs i ≡ get_elem? xs j) × (get_elem? (set xs i v) j ≡ some v))
      ⊎ ((get_elem? (set xs i v) j ≡ none) × (get_elem? xs j ≡ none))
get-set [] i j v = inl refl
get-set (x ∷ xs) zero zero v = inr (inl (refl, refl))
get-set (x ∷ xs) zero (suc j) v = inl refl
get-set (x ∷ xs) (suc i) zero v = inl refl
get-set (x ∷ xs) (suc i) (suc j) v = get-set xs i j v

-- the payload holds a result at the position, the target `t`
abbrev pub IsResult : ℕ → Target → Payload → Type 0
IsResult i t p = (get_elem? p.targets i ≡ some t) × (is_recorded t ≡ true)

fetching_empty :
    (k : Checks) (p : Payload) (i : ℕ) (t : Target)
    → valid k p ≡ true
    → p.state ≡ State.manifest_fetch_started
    → get_elem? p.targets i ≢ some t
unfolding validate_payload state_ok
fetching_empty k p i t v s e = ground (arith, v, s, e)

mutate-IsResult :
    (k : Checks) (call : Call) (p q : Payload) (i : ℕ) (t : Target)
    → valid k p ≡ true
    → mutate k call p ≡ done q
    → IsResult i t p
    → IsResult i t q
unfolding mutate mark_offer_rechecked start_manifest_attempt bind_verified_manifest
    mark_target_attempt_started record_target_result freeze_report
    mark_completion_dispatch_attempted mark_compound_completion_acked mark_terminal_status
mutate-IsResult k (offer digest) p q i t v m h = ground (arith, h, m)
mutate-IsResult k fetch p q i t v m h = ground (arith, h, m)
mutate-IsResult k (bind digest count bytes) p q i t v m h =
    let e = fetching_empty k p i t v in ground (arith, h, m, e)
mutate-IsResult k (attempt j) p q i t v m h =
    let g = get-set p.targets j i (bare_target j TargetState.attempted) in ground (arith, h, m, g)
mutate-IsResult k (result j outcome status elapsed) p q i t v m h =
    let r : Target = record {
      position = j;
      state = TargetState.recorded;
      outcome = some outcome;
      http_status = status;
      elapsed_ms = elapsed;
    } in
    let g = get-set p.targets j i r in ground (arith, h, m, g)
mutate-IsResult k (freeze bytes submission outcome) p q i t v m h = ground (arith, h, m)
mutate-IsResult k dispatch p q i t v m h = ground (arith, h, m)
mutate-IsResult k (acknowledge ack) p q i t v m h = ground (arith, h, m)
mutate-IsResult k (terminate status) p q i t v m h = ground (arith, h, m)

-- the target at the position has been attempted, or has a result
abbrev pub IsStarted : ℕ → Payload → Type 0
IsStarted i p = (t : Target) × (get_elem? p.targets i ≡ some t) × (is_unstarted t ≡ false)

pub starts :
    (i : ℕ) (p : Payload) (t : Target)
    → (get_elem? p.targets i ≡ some t) × (is_unstarted t ≡ false)
    → IsStarted i p
starts i p t (g, h) = (t, g, h)

mutate-IsStarted :
    (k : Checks) (call : Call) (p q : Payload) (i : ℕ)
    → valid k p ≡ true
    → mutate k call p ≡ done q
    → IsStarted i p
    → IsStarted i q
unfolding mutate mark_offer_rechecked start_manifest_attempt bind_verified_manifest
    mark_target_attempt_started record_target_result freeze_report
    mark_completion_dispatch_attempted mark_compound_completion_acked mark_terminal_status
mutate-IsStarted k (offer digest) p q i v m (t, g0, h) = starts i q t (ground (arith, g0, h, m))
mutate-IsStarted k fetch p q i v m (t, g0, h) = starts i q t (ground (arith, g0, h, m))
mutate-IsStarted k (bind digest count bytes) p q i v m (t, g0, h) =
    let e = fetching_empty k p i t v in starts i q t (ground (arith, g0, h, m, e))
mutate-IsStarted k (attempt j) p q i v m (t, g0, h) =
    let g = get-set p.targets j i (bare_target j TargetState.attempted) in
    starts i q t (ground (arith, g0, h, m, g))
mutate-IsStarted k (result j outcome status elapsed) p q i v m (t, g0, h) =
    let r : Target = record {
      position = j;
      state = TargetState.recorded;
      outcome = some outcome;
      http_status = status;
      elapsed_ms = elapsed;
    } in
    elim (get-set p.targets j i r) [
      | inl g ↦ starts i q t (ground (arith, g0, h, m, g))
      | inr (inl g) ↦ starts i q r (ground (arith, g0, h, m, g))
      | inr (inr g) ↦ starts i q t (ground (arith, g0, h, m, g))
    ]
mutate-IsStarted k (freeze bytes submission outcome) p q i v m (t, g0, h) =
    starts i q t (ground (arith, g0, h, m))
mutate-IsStarted k dispatch p q i v m (t, g0, h) = starts i q t (ground (arith, g0, h, m))
mutate-IsStarted k (acknowledge ack) p q i v m (t, g0, h) = starts i q t (ground (arith, g0, h, m))
mutate-IsStarted k (terminate status) p q i v m (t, g0, h) = starts i q t (ground (arith, g0, h, m))

-- A recorded result keeps all its fields, whatever calls and faults follow.
pub run_calls-IsResult :
    (k : Checks) (calls : List (Fault × Call)) (p : Payload) (i : ℕ) (t : Target)
    → IsResult i t p
    → (p' : Payload) × (run_calls k calls (some p) ≡ some p') × IsResult i t p'
run_calls-IsResult k calls p i t h =
    run_calls-keeps k (IsResult i t)
      (λ call q q' c s.
        let r = mutate-IsResult k call q c.next i t c.was_valid c.mutated s in
        ground (arith, r, c.written))
      calls p h

pub commit-IsStarted :
    (k : Checks) (call : Call) (i : ℕ) {p p' : Payload}
    → IsCommit k call p p'
    → IsStarted i p
    → IsStarted i p'
commit-IsStarted k call i {p} {p'} c s =
    let r = mutate-IsStarted k call p c.next i c.was_valid c.mutated s in
    starts i p' r.0 (ground (arith, r.1, r.2, c.written))

get-set_self :
    (xs : List Target) (i : ℕ) (v t : Target)
    → get_elem? xs i ≡ some t
    → get_elem? (set xs i v) i ≡ some v
get-set_self [] i v t h = ground (arith, h)
get-set_self (x ∷ xs) zero v t h = refl
get-set_self (x ∷ xs) (suc i) v t h = get-set_self xs i v t h

-- a target that can be attempted has not been, and then has
pub attempt-IsStarted :
    (i : ℕ) (p q : Payload)
    → mark_target_attempt_started i p ≡ done q
    → IsStarted i q × (¬ IsStarted i p)
unfolding mark_target_attempt_started
attempt-IsStarted i p q m =
    let bare = bare_target i TargetState.attempted in
    elim (Option-cases (get_elem? p.targets i)) [
      | inl n ↦ absurd (ground (arith, m, n))
      | inr (t, e) ↦
          let g = get-set_self p.targets i bare t e in
          (
            starts i q bare (ground (arith, m, g)),
            λ (old : IsStarted i p). ground (arith, m, e, old.1, old.2),
          )
    ]

-- a started target is not attempted again: `_update` does not return
attempt-refused :
    (k : Checks) (fault : Fault) (i : ℕ) (p q : Payload)
    → IsStarted i p
    → (update k fault (attempt i) (some p)).0 ≢ done q
unfolding mutate
attempt-refused k fault i p q s e =
    let r = update-IsReturned k fault (attempt i) (some p) q e in
    let same : r.before ≡ p = ground (arith, r.was) in
    let started : IsStarted i r.before = subst (IsStarted i) (sym same) s in
    (attempt-IsStarted i r.before r.commit_lem.next r.commit_lem.mutated).1 started

-- a started attempt is on the file
attempted-IsStarted :
    (k : Checks) (fault : Fault) (i : ℕ) (disk : Disk) (q : Payload)
    → (update k fault (attempt i) disk).0 ≡ done q
    → ((update k fault (attempt i) disk).1 ≡ some q) × IsStarted i q
unfolding mutate
attempted-IsStarted k fault i disk q e =
    let r = update-IsReturned k fault (attempt i) disk q e in
    let c = r.commit_lem in
    let (t, g, h) = (attempt-IsStarted i r.before c.next c.mutated).0 in
    (r.now, starts i q t (ground (arith, g, h, c.written)))

-- A target is attempted at most once: after an attempt of it that the journal let through, no later
-- attempt of it is let through, whatever calls and faults lie between.
pub run_calls_once :
    (k : Checks) (first : Fault) (disk : Disk) (q : Payload) (i : ℕ) (calls : List (Fault × Call))
    (again : Fault) (q' : Payload)
    → (update k first (attempt i) disk).0 ≡ done q
    → (update k again (attempt i) (run_calls k calls (update k first (attempt i) disk).1)).0
      ≢ done q'
run_calls_once k first disk q i calls again q' e =
    let (now, s) = attempted-IsStarted k first i disk q e in
    let (p', kept, s') =
      run_calls-keeps k (IsStarted i) (λ call p p' c h. commit-IsStarted k call i c h) calls q s in
    rw (now, kept) (attempt-refused k again i p' q' s')
