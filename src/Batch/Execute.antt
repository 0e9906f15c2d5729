-- ===== src/Batch/Execute.antt =====
-- `execute` and `recover_interrupted_manifest_fetch` (ln_church_agent/scheduled_http_get_batch.py).
-- The binding of the journal to the claim is checked before, and is not part of the state.
use ln_church_agent.Common.{
  ◌∷◌, ℕ, List, Option, some, [], Bool, true, ◌||◌, not, none, opt_eq, false,
}
use ln_church_agent.Batch.Types.{
  Execution, Site, ExecutionContext, Surroundings, ExecutionError, journal, load, ManifestCheck,
  World, refused, caught, urls,
}
use ln_church_agent.Common.Outcome.{raise, ◌>>=◌, when◌run◌otherwise◌, pure, ◌>>◌}
use ln_church_agent.Batch.Targets.{execute_targets}
use ln_church_agent.Batch.Manifest.{Fetched, fetch_manifest}
use ln_church_agent.TaskJournal.Types.{State, Payload, ManifestOutcome, Target}
use ln_church_agent.TaskJournal.Store.{freeze}

abbrev pub invalid_journal : {A : Type 0} → Execution A
invalid_journal = raise ExecutionError.journal_invalid

abbrev pub is_init : State → Bool
is_init State.init = true
is_init _ = false

abbrev pub is_fetch_started : State → Bool
is_fetch_started State.manifest_fetch_started = true
is_fetch_started _ = false

-- `_frozen_from_journal`
abbrev pub frozen_from_journal : Option (List ℕ) → Execution (List ℕ)
frozen_from_journal none = invalid_journal
frozen_from_journal (some bytes) = pure bytes

module _ (site : Site) (s : Surroundings) where
  -- `_freeze_bound_report`: the bytes of the report
  unfoldable pub freeze_bound_report :
      ℕ → ManifestOutcome → List Target → Payload → Execution (List ℕ)
  unfolding journal
  freeze_bound_report digest outcome results p =
      let bytes = site.encode s.submission_id outcome results in
      when not (opt_eq p.manifest_sha256 (some digest))
      run invalid_journal
      otherwise journal site.checks caught (freeze bytes s.submission_id outcome) >> pure bytes

  -- `_freeze`
  unfoldable pub freeze_report_of : ℕ → ManifestOutcome → List Target → Execution (List ℕ)
  unfolding load freeze_bound_report
  freeze_report_of digest outcome results =
      load site.checks caught >>= freeze_bound_report digest outcome results

  -- the targets of a manifest, and the report on them
  unfoldable pub execute_manifest : ℕ → ManifestOutcome → ℕ → Execution (List ℕ)
  unfolding execute_targets freeze_report_of
  execute_manifest digest outcome count =
      execute_targets site s count >>= freeze_report_of digest outcome

  -- after the fetch of the manifest
  unfoldable pub after_fetch : ExecutionContext → Fetched → Execution (List ℕ)
  unfolding execute_manifest freeze_report_of
  after_fetch c (outcome, none) = freeze_report_of c.manifest_sha256 outcome []
  after_fetch c (outcome, some count) = execute_manifest c.manifest_sha256 outcome count

  -- a manifest that the journal holds
  unfoldable pub resume_manifest : ExecutionContext → ManifestCheck → Execution (List ℕ)
  unfolding execute_manifest
  resume_manifest c (refused outcome) = invalid_journal
  resume_manifest c (urls count) =
      execute_manifest c.manifest_sha256 ManifestOutcome.retrieved count

  abbrev pub held_manifest : ExecutionContext → Option (List ℕ) → Execution (List ℕ)
  held_manifest c none = invalid_journal
  held_manifest c (some bytes) = resume_manifest c (site.check_manifest bytes c.manifest_sha256)

  unfoldable pub execute_from : ExecutionContext → Payload → State → Execution (List ℕ)
  unfolding fetch_manifest after_fetch freeze_report_of resume_manifest
  execute_from c p State.init = invalid_journal
  execute_from c p State.offer_rechecked = fetch_manifest site c s >>= after_fetch c
  execute_from c p State.manifest_fetch_started =
      freeze_report_of c.manifest_sha256 ManifestOutcome.release_interrupted []
  execute_from c p State.manifest_verified = held_manifest c p.manifest_bytes
  execute_from c p State.attempt_started = held_manifest c p.manifest_bytes
  execute_from c p State.result_recorded = held_manifest c p.manifest_bytes
  execute_from c p State.report_frozen = frozen_from_journal p.frozen_report_bytes
  execute_from c p State.compound_completion_acked = frozen_from_journal p.frozen_report_bytes
  execute_from c p State.terminal_status = frozen_from_journal p.frozen_report_bytes

  unfoldable pub execute_payload : ExecutionContext → Payload → Execution (List ℕ)
  unfolding execute_from
  execute_payload c p =
      when is_init p.state || not (opt_eq p.manifest_sha256 (some c.manifest_sha256))
      run invalid_journal
      otherwise execute_from c p p.state

  -- `execute`
  unfoldable pub execute : ExecutionContext → Execution (List ℕ)
  unfolding load execute_payload
  execute c = load site.checks caught >>= execute_payload c

  abbrev pub recover_with : Payload → Option ℕ → Execution (List ℕ)
  recover_with p none = invalid_journal
  recover_with p (some digest) =
      when not (is_fetch_started p.state)
      run invalid_journal
      otherwise freeze_report_of digest ManifestOutcome.release_interrupted []

  -- `recover_interrupted_manifest_fetch`
  unfoldable pub recover_interrupted_manifest_fetch : Execution (List ℕ)
  unfolding load
  recover_interrupted_manifest_fetch =
      load site.checks caught >>= (λ p. recover_with p p.manifest_sha256)

-- one execution of a journal: a start or a recovery, under its own surroundings
pub data Run : Type 0 where
  start_run : ExecutionContext → Surroundings → Run
  recover_run : Surroundings → Run

-- A history of executions, each from the file that the one before left; `faults` are those of all
-- of their writes.
unfoldable pub run_executions : Site → List Run → World → World
unfolding execute recover_interrupted_manifest_fetch
run_executions site [] w = w
run_executions site (start_run c s ∷ rest) w = run_executions site rest (execute site s c w).1
run_executions site (recover_run s ∷ rest) w =
    run_executions site rest (recover_interrupted_manifest_fetch site s w).1
