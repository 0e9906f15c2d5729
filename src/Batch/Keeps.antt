-- ===== src/Batch/Keeps.antt =====
-- What the writes and the requests of an execution keep, every history of executions keeps.
use ln_church_agent.Common.{
  ℕ, Bool, List, suc, ◌+◌, none, ◌-◌, ◌≡◌, ◌++◌, some, ◌∷◌, not, [], ◌&&◌, ltb, ◌==◌,
}
use ln_church_agent.Batch.Types.{
  World, Site, Execution, load, ExecutionContext, Surroundings, ExecutionError, journal, caught,
  ManifestCheck, uncaught, refused, ManifestReply, urls, manifest_failed, request, manifest_request,
  target_request, manifest_response,
}
use ln_church_agent.TaskJournal.Store.{Checks, Call, result, fetch, attempt, bind}
use ln_church_agent.TaskJournal.Types.{
  JournalError, ManifestOutcome, Payload, TargetOutcome, Target,
}
use ln_church_agent.Common.Outcome.{
  ◌>>=◌, bind-keeps, when◌run◌otherwise◌, when-keeps, ◌>>◌, pure, modify, done,
}
use ln_church_agent.Batch.Manifest.{
  check_body, settle_reply, attempt_fetch, fetch_loop, fetch_manifest, bind_manifest,
  maximum_attempts, Fetched, manifest_network_outcome, is_retryable, retryable_manifest_status,
}
use ln_church_agent.Batch.Targets.{
  close_interrupted, attempt_target, execute_target, target_loop, execute_targets, run_targets,
  interrupted, is_attempt_started, reply_outcome, result_of, reply_status, journal_results,
}
use ln_church_agent.Common.Lists.{length}
use Prim.Native.Nat.{zero}

-- each write of the journal keeps the predicate, and so does each request after the write that
-- announces it
pub record IsKept (P : World → Type 0) (k : Checks) : Type 0 where
  pub on_journal :
      (handler : JournalError → ExecutionError) (call : Call) (w : World)
      → P w
      → P (journal k handler call w).1
  pub on_fetch :
      (w : World) (q : Payload)
      → P w
      → (journal k caught fetch w).0 ≡ done q
      → P (request manifest_request (journal k caught fetch w).1)
  pub on_attempt :
      (i : ℕ) (w : World) (q : Payload)
      → P w
      → (journal k caught (attempt i) w).0 ≡ done q
      → P (request (target_request i) (journal k caught (attempt i) w).1)

module _ (P : World → Type 0) (site : Site) (k : IsKept P site.checks) where
  -- a method keeps the predicate
  abbrev pub Keeps : {A : Type 0} → Execution A → Type 0
  Keeps m = (w : World) → P w → P (m w).1

  pub seq-Keeps :
      {A B : Type 0} (m : Execution A) (f : A → Execution B)
      → Keeps m
      → ((a : A) → Keeps (f a))
      → Keeps (m >>= f)
  seq-Keeps m f h g w p = bind-keeps P m f w (h w p) (λ a e. g a (m w).1 (h w p))

  pub branch-Keeps :
      {A : Type 0} (b : Bool) (m n : Execution A)
      → Keeps m
      → Keeps n
      → Keeps (when b run m otherwise n)
  branch-Keeps b m n h g w p = when-keeps P b m n w (h w p) (g w p)

  pub load-Keeps : (handler : JournalError → ExecutionError) → Keeps (load site.checks handler)
  unfolding load
  load-Keeps handler w p = p

  pub write-Keeps :
      {A : Type 0} (handler : JournalError → ExecutionError) (call : Call) (a : A)
      → Keeps (journal site.checks handler call >> pure a)
  write-Keeps handler call a =
      seq-Keeps (journal site.checks handler call) (λ _. pure a) (k.on_journal handler call)
        (λ _ w p. p)

  module _ (c : ExecutionContext) (s : Surroundings) where
    check_body-Keeps :
        (body : List ℕ) (found : ManifestCheck) → Keeps (check_body site c s body found)
    unfolding check_body bind_manifest
    check_body-Keeps body (refused outcome) = λ w p. p
    check_body-Keeps body (urls count) =
        let found : Fetched = (ManifestOutcome.retrieved, some count) in
        let none_found : Fetched = (ManifestOutcome.release_protocol_error, none) in
        branch-Keeps (not c.execution_available) (pure none_found)
          (journal site.checks caught (bind c.manifest_sha256 count body) >> pure found) (λ w p. p)
          (write-Keeps caught (bind c.manifest_sha256 count body) found)

    settle_reply-Keeps :
        (i : ℕ) (again : ManifestOutcome → Execution Fetched) (reply : ManifestReply)
        → ((outcome : ManifestOutcome) → Keeps (again outcome))
        → Keeps (settle_reply site c s i again reply)
    unfolding settle_reply
    settle_reply-Keeps i again (manifest_failed e) h =
        let outcome = manifest_network_outcome e in
        branch-Keeps (is_retryable e && ltb (i + 1) maximum_attempts) (again outcome)
          (pure (outcome, none)) (h outcome) (λ w p. p)
    settle_reply-Keeps i again (manifest_response status body) h =
        let outcome = ManifestOutcome.release_http_unexpected_status in
        let retry =
          retryable_manifest_status status (s.just_released i) && ltb (i + 1) maximum_attempts in
        let found = site.check_manifest body c.manifest_sha256 in
        branch-Keeps (not (status == 200))
          (when retry run again outcome otherwise pure (outcome, none))
          (check_body site c s body found)
          (branch-Keeps retry (again outcome) (pure (outcome, none)) (h outcome) (λ w p. p))
          (check_body-Keeps body found)

    attempt_fetch-Keeps :
        (i : ℕ) (again : ManifestOutcome → Execution Fetched)
        → ((outcome : ManifestOutcome) → Keeps (again outcome))
        → Keeps (attempt_fetch site c s i again)
    unfolding attempt_fetch
    attempt_fetch-Keeps i again h w p =
        let m = journal site.checks caught fetch in
        let rest = settle_reply site c s i again (s.manifest_reply i) in
        bind-keeps P m (λ _. modify (request manifest_request) >> rest) w
          (k.on_journal caught fetch w p)
          (λ q e.
            settle_reply-Keeps i again (s.manifest_reply i) h (request manifest_request (m w).1)
              (k.on_fetch w q p e))

    fetch_loop-Keeps :
        (left i : ℕ) (outcome : ManifestOutcome) → Keeps (fetch_loop site c s left i outcome)
    unfolding fetch_loop
    fetch_loop-Keeps zero i outcome = λ w p. p
    fetch_loop-Keeps (suc left) i outcome =
        let again = fetch_loop site c s left (i + 1) in
        branch-Keeps (s.out_of_time i) (pure (outcome, none)) (attempt_fetch site c s i again)
          (λ w p. p) (attempt_fetch-Keeps i again (fetch_loop-Keeps left (i + 1)))

    pub fetch_manifest-Keeps : Keeps (fetch_manifest site c s)
    unfolding fetch_manifest
    fetch_manifest-Keeps = fetch_loop-Keeps maximum_attempts 0 ManifestOutcome.release_timeout

  module _ (s : Surroundings) where
    close_interrupted-Keeps : (p : Payload) → Keeps (close_interrupted site s p)
    unfolding close_interrupted
    close_interrupted-Keeps p =
        let call =
          result (interrupted p.targets) TargetOutcome.interrupted_indeterminate none none in
        branch-Keeps (is_attempt_started p.state)
          (journal site.checks uncaught call >> load site.checks uncaught) (pure p)
          (seq-Keeps (journal site.checks uncaught call) (λ _. load site.checks uncaught)
            (k.on_journal uncaught call) (λ _. load-Keeps uncaught))
          (λ w h. h)

    attempt_target-Keeps : (i : ℕ) → Keeps (attempt_target site s i)
    unfolding attempt_target
    attempt_target-Keeps i w p =
        let reply = s.target_reply i in
        let m = journal site.checks caught (attempt i) in
        let call = result i (reply_outcome reply) (reply_status reply) (some (s.elapsed i)) in
        let found = result_of i (reply_outcome reply) (reply_status reply) (some (s.elapsed i)) in
        let rest = journal site.checks caught call >> pure found in
        bind-keeps P m (λ _. modify (request (target_request i)) >> rest) w
          (k.on_journal caught (attempt i) w p)
          (λ q e.
            write-Keeps caught call found (request (target_request i) (m w).1)
              (k.on_attempt i w q p e))

    execute_target-Keeps : (i : ℕ) → Keeps (execute_target site s i)
    unfolding execute_target
    execute_target-Keeps i =
        let call = result i TargetOutcome.not_attempted_deadline none none in
        let found = result_of i TargetOutcome.not_attempted_deadline none none in
        branch-Keeps (s.past_cutoff i) (journal site.checks uncaught call >> pure found)
          (attempt_target site s i) (write-Keeps uncaught call found) (attempt_target-Keeps i)

    target_loop-Keeps :
        (left i : ℕ) (results : List Target) → Keeps (target_loop site s left i results)
    unfolding target_loop
    target_loop-Keeps zero i results = λ w p. p
    target_loop-Keeps (suc left) i results =
        seq-Keeps (execute_target site s i)
          (λ r. target_loop site s left (i + 1) (results ++ (r ∷ []))) (execute_target-Keeps i)
          (λ r. target_loop-Keeps left (i + 1) (results ++ (r ∷ [])))

    pub execute_targets-Keeps : (count : ℕ) → Keeps (execute_targets site s count)
    unfolding execute_targets run_targets
    execute_targets-Keeps count =
        seq-Keeps (load site.checks uncaught >>= close_interrupted site s)
          (run_targets site s count)
          (seq-Keeps (load site.checks uncaught) (close_interrupted site s) (load-Keeps uncaught)
            close_interrupted-Keeps)
          (λ p.
            target_loop-Keeps (count - length (journal_results p.targets))
              (length (journal_results p.targets)) (journal_results p.targets))
