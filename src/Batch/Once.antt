-- ===== src/Batch/Once.antt =====
-- How often a target and the manifest are requested.
use ln_church_agent.Common.{
  ℕ, arith, List, Bool, ◌∷◌, some, ◌≤◌, if◌then◌else◌, ◌==◌, ◌+◌, none, false, [], ◌≡◌, Bool-cases,
  inl, inr, ==-self, ==_iff, subst,
}
use ln_church_agent.Batch.Types.{
  Request, World, journal, target_request, ExecutionError, next_fault, manifest_request, request,
  caught, Site,
}
use ln_church_agent.TaskJournal.Store.{Disk, Checks, update, Call, mutate, Fault, attempt, fetch}
use ln_church_agent.TaskJournal.Types.{JournalError, Payload}
use ln_church_agent.TaskJournal.Progress.{IsStarted, commit-IsStarted, attempt-IsStarted, starts}
use ln_church_agent.TaskJournal.Atomic.{IsUpdated, update-IsUpdated, update-IsReturned}
use ln_church_agent.Common.Outcome.{done}
use ln_church_agent.Batch.Keeps.{IsKept}
use ln_church_agent.Batch.Execute.{Run, run_executions}
use ln_church_agent.Batch.History.{run_executions-keeps}

abbrev is_target : ℕ → Request → Bool
is_target i (target_request j) = i == j
is_target i manifest_request = false

-- how many of the requests are for the target at the position
unfoldable pub target_requests : ℕ → List Request → ℕ
target_requests i [] = 0
target_requests i (r ∷ rs) = (if is_target i r then 1 else 0) + target_requests i rs

-- the file holds an attempt or a result of the target
abbrev pub IsStartedOn : ℕ → Disk → Type 0
IsStartedOn i none = ⊥
IsStartedOn i (some p) = IsStarted i p

-- the target has been requested once at most, and only if the file says that it was attempted
pub record IsOnce (i : ℕ) (w : World) : Type 0 where
  pub at_most_once : target_requests i w.requests ≤ 1
  pub announced : 1 ≤ target_requests i w.requests → IsStartedOn i w.disk

IsUpdated-IsStartedOn :
    (k : Checks) (call : Call) (i : ℕ) {disk disk' : Disk}
    → IsUpdated k call disk disk'
    → IsStartedOn i disk
    → IsStartedOn i disk'
IsUpdated-IsStartedOn k call i IsUpdated.kept h = h
IsUpdated-IsStartedOn k call i (IsUpdated.committed c) h = commit-IsStarted k call i c h

journal-IsOnce :
    (k : Checks) (handler : JournalError → ExecutionError) (call : Call) (i : ℕ) (w : World)
    → IsOnce i w
    → IsOnce i (journal k handler call w).1
unfolding journal
journal-IsOnce k handler call i w h = record {
  at_most_once = h.at_most_once;
  announced = λ c.
      IsUpdated-IsStartedOn k call i (update-IsUpdated k (next_fault w.faults) call w.disk)
        (h.announced c);
}

-- an attempt that was written was the first, and the file says that it started
attempt-starts :
    (k : Checks) (fault : Fault) (i : ℕ) (disk : Disk) (q : Payload)
    → (update k fault (attempt i) disk).0 ≡ done q
    → IsStartedOn i (update k fault (attempt i) disk).1 × (¬ IsStartedOn i disk)
unfolding mutate
attempt-starts k fault i disk q e =
    let r = update-IsReturned k fault (attempt i) disk q e in
    let c = r.commit_lem in
    let a = attempt-IsStarted i r.before c.next c.mutated in
    let h : IsStarted i q = starts i q a.0.0 (ground (arith, c.written, a.0.1, a.0.2)) in
    (rw r.now (h), λ old. a.1 (subst (IsStartedOn i) r.was old))

pub journal-done :
    (k : Checks) (handler : JournalError → ExecutionError) (call : Call) (w : World) (q : Payload)
    → (journal k handler call w).0 ≡ done q
    → (update k (next_fault w.faults) call w.disk).0 ≡ done q
unfolding journal
journal-done k handler call w q e = ground (arith, e)

attempt-IsOnce_self :
    (k : Checks) (i : ℕ) (w : World) (q : Payload)
    → IsOnce i w
    → (journal k caught (attempt i) w).0 ≡ done q
    → IsOnce i (request (target_request i) (journal k caught (attempt i) w).1)
unfolding journal request target_requests
attempt-IsOnce_self k i w q h e =
    let d = journal-done k caught (attempt i) w q e in
    let s = attempt-starts k (next_fault w.faults) i w.disk q d in
    let z : ¬ (1 ≤ target_requests i w.requests) = λ l. s.1 (h.announced l) in
    record { at_most_once = ground (arith, z, ==-self i); announced = λ _. s.0 }

attempt-IsOnce_ne :
    (k : Checks) (i j : ℕ) (w : World)
    → (i == j) ≡ false
    → IsOnce i (journal k caught (attempt j) w).1
    → IsOnce i (request (target_request j) (journal k caught (attempt j) w).1)
unfolding request target_requests
attempt-IsOnce_ne k i j w n h =
    let same : (1
          ≤ target_requests i
              (request (target_request j) (journal k caught (attempt j) w).1).requests)
        → 1 ≤ target_requests i (journal k caught (attempt j) w).1.requests =
      λ l. ground (arith, l, n) in
    record {
      at_most_once = ground (arith, n, h.at_most_once);
      announced = λ l. h.announced (same l);
    }

attempt-IsOnce :
    (k : Checks) (i j : ℕ) (w : World) (q : Payload)
    → IsOnce i w
    → (journal k caught (attempt j) w).0 ≡ done q
    → IsOnce i (request (target_request j) (journal k caught (attempt j) w).1)
attempt-IsOnce k i j w q h e = elim (Bool-cases (i == j)) [
  | inl same ↦
      let p = (==_iff i j).0 same in
      subst
        (λ n.
          (journal k caught (attempt n) w).0 ≡ done q
          → IsOnce i (request (target_request n) (journal k caught (attempt n) w).1))
        p (attempt-IsOnce_self k i w q h) e
  | inr other ↦ attempt-IsOnce_ne k i j w other (journal-IsOnce k caught (attempt j) i w h)
]

fetch-IsOnce : (i : ℕ) (w : World) → IsOnce i w → IsOnce i (request manifest_request w)
unfolding request target_requests
fetch-IsOnce i w h = record {
  at_most_once = omega (arith, h.at_most_once);
  announced = λ l. h.announced (omega (arith, l));
}

IsOnce-IsKept : (k : Checks) (i : ℕ) → IsKept (IsOnce i) k
IsOnce-IsKept k i = record {
  on_journal = λ handler call w h. journal-IsOnce k handler call i w h;
  on_fetch =
      λ w q h e. fetch-IsOnce i (journal k caught fetch w).1 (journal-IsOnce k caught fetch i w h);
  on_attempt = λ j w q h e. attempt-IsOnce k i j w q h e;
}

-- No target is requested twice: whatever executions follow each other on one journal, with whatever
-- faults, clocks and answers, each target is requested at most once, if no request was sent before.
pub run_executions_once :
    (site : Site) (runs : List Run) (disk : Disk) (faults : List Fault) (i : ℕ)
    → let w : World = record { disk = disk; faults = faults; requests = [] } in
      target_requests i (run_executions site runs w).requests ≤ 1
unfolding target_requests
run_executions_once site runs disk faults i =
    let w : World = record { disk = disk; faults = faults; requests = [] } in
    let h : IsOnce i w = record {
      at_most_once = omega arith;
      announced = λ l. absurd (omega (arith, l));
    } in
    (run_executions-keeps (IsOnce i) site (IsOnce-IsKept site.checks i) runs w h).at_most_once
