-- ===== src/Batch/Attempts.antt =====
-- How often the manifest is requested.
use ln_church_agent.Common.{ℕ, arith, List, some, ◌≤◌, ◌∷◌, none, suc, ◌≡◌, true, [], ◌+◌, ap}
use ln_church_agent.TaskJournal.Store.{
  Disk, mutate, Checks, Call, valid, fetch, Fault, attempt, offer, update, bind, result, freeze,
  acknowledge, terminate, dispatch,
}
use ln_church_agent.Batch.Types.{
  World, journal, request, Site, Request, ExecutionError, caught, target_request, next_fault,
  manifest_request,
}
use ln_church_agent.TaskJournal.Validate.{validate_payload}
use ln_church_agent.TaskJournal.Types.{Payload, JournalError}
use ln_church_agent.TaskJournal.Mutate.{
  mark_offer_rechecked, start_manifest_attempt, bind_verified_manifest, mark_target_attempt_started,
  record_target_result, freeze_report, mark_completion_dispatch_attempted,
  mark_compound_completion_acked, mark_terminal_status,
}
use ln_church_agent.Batch.Keeps.{IsKept}
use ln_church_agent.Batch.Execute.{Run, run_executions}
use ln_church_agent.TaskJournal.Atomic.{IsUpdated, update-IsUpdated, update-IsReturned}
use ln_church_agent.Common.Outcome.{done}
use ln_church_agent.Batch.History.{run_executions-keeps}
use ln_church_agent.Batch.Once.{journal-done}

-- how many of the requests are for the manifest
unfoldable pub manifest_requests : List Request → ℕ
manifest_requests [] = 0
manifest_requests (manifest_request ∷ rs) = suc (manifest_requests rs)
manifest_requests (target_request i ∷ rs) = manifest_requests rs

-- the attempts that the file counts
abbrev pub counted : Disk → ℕ
counted none = 0
counted (some p) = p.manifest_attempts_started

-- every request of the manifest is counted in the file, and the file counts three at most
pub record IsCounted (w : World) : Type 0 where
  pub all_counted : manifest_requests w.requests ≤ counted w.disk
  pub at_most_three : counted w.disk ≤ 3

valid-attempts : (k : Checks) (p : Payload) → valid k p ≡ true → p.manifest_attempts_started ≤ 3
unfolding validate_payload
valid-attempts k p v = ground (arith, v)

mutate-attempts :
    (k : Checks) (call : Call) (p q : Payload)
    → mutate k call p ≡ done q
    → p.manifest_attempts_started ≤ q.manifest_attempts_started
unfolding mutate mark_offer_rechecked start_manifest_attempt bind_verified_manifest
    mark_target_attempt_started record_target_result freeze_report
    mark_completion_dispatch_attempted mark_compound_completion_acked mark_terminal_status
mutate-attempts k (offer digest) p q m = ground (arith, m)
mutate-attempts k fetch p q m = ground (arith, m)
mutate-attempts k (bind digest count bytes) p q m = ground (arith, m)
mutate-attempts k (attempt i) p q m = ground (arith, m)
mutate-attempts k (result i outcome status elapsed) p q m = ground (arith, m)
mutate-attempts k (freeze bytes submission outcome) p q m = ground (arith, m)
mutate-attempts k dispatch p q m = ground (arith, m)
mutate-attempts k (acknowledge ack) p q m = ground (arith, m)
mutate-attempts k (terminate status) p q m = ground (arith, m)

fetch-attempts :
    (k : Checks) (p q : Payload)
    → mutate k fetch p ≡ done q
    → q.manifest_attempts_started ≡ p.manifest_attempts_started + 1
unfolding mutate start_manifest_attempt
fetch-attempts k p q m = ground (arith, m)

updated-counted :
    (k : Checks) (call : Call) {disk disk' : Disk}
    → IsUpdated k call disk disk'
    → counted disk ≤ 3
    → (counted disk ≤ counted disk') × (counted disk' ≤ 3)
updated-counted k call IsUpdated.kept h = (omega arith, h)
updated-counted k call (IsUpdated.committed {p} {p'} c) h =
    let m = mutate-attempts k call p c.next c.mutated in
    let v = valid-attempts k p' c.is_valid in (ground (arith, m, c.written), v)

journal-IsCounted :
    (k : Checks) (handler : JournalError → ExecutionError) (call : Call) (w : World)
    → IsCounted w
    → IsCounted (journal k handler call w).1
unfolding journal
journal-IsCounted k handler call w h =
    let u = update-IsUpdated k (next_fault w.faults) call w.disk in
    let c = updated-counted k call u h.at_most_three in
    record { all_counted = omega (arith, h.all_counted, c.0); at_most_three = c.1 }

fetch-IsCounted :
    (k : Checks) (w : World) (q : Payload)
    → IsCounted w
    → (journal k caught fetch w).0 ≡ done q
    → IsCounted (request manifest_request (journal k caught fetch w).1)
unfolding journal request manifest_requests
fetch-IsCounted k w q h e =
    let r =
      update-IsReturned k (next_fault w.faults) fetch w.disk q
        (journal-done k caught fetch w q e) in
    let c = r.commit_lem in
    let a = fetch-attempts k r.before c.next c.mutated in
    let v = valid-attempts k q c.is_valid in
    let b : counted w.disk ≡ r.before.manifest_attempts_started = ap counted r.was in
    let n : counted (update k (next_fault w.faults) fetch w.disk).1 ≡ q.manifest_attempts_started =
      ap counted r.now in
    let g : q.manifest_attempts_started ≡ c.next.manifest_attempts_started =
      ground (arith, c.written) in
    record {
      all_counted = omega (arith, h.all_counted, a, b, n, g);
      at_most_three = omega (arith, n, v);
    }

IsCounted-IsKept : (k : Checks) → IsKept IsCounted k
unfolding request manifest_requests
IsCounted-IsKept k = record {
  on_journal = λ handler call w h. journal-IsCounted k handler call w h;
  on_fetch = λ w q h e. fetch-IsCounted k w q h e;
  on_attempt = λ i w q h e.
      let j = journal-IsCounted k caught (attempt i) w h in
      record { all_counted = j.all_counted; at_most_three = j.at_most_three };
}

-- The manifest is requested three times at most over all executions of a journal that starts with
-- no attempts, whatever faults stop them.
pub run_executions_manifest_bound :
    (site : Site) (runs : List Run) (faults : List Fault) (p : Payload)
    → p.manifest_attempts_started ≡ 0
    → let w : World = record { disk = some p; faults = faults; requests = [] } in
      manifest_requests (run_executions site runs w).requests ≤ 3
unfolding manifest_requests
run_executions_manifest_bound site runs faults p z =
    let w : World = record { disk = some p; faults = faults; requests = [] } in
    let h : IsCounted w = record { all_counted = omega arith; at_most_three = omega (arith, z) } in
    let r = run_executions-keeps IsCounted site (IsCounted-IsKept site.checks) runs w h in
    omega (arith, r.all_counted, r.at_most_three)
