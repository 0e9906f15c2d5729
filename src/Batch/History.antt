-- ===== src/Batch/History.antt =====
-- Whole executions and histories of them.
use ln_church_agent.Common.{ℕ, Option, List, [], ◌∷◌, some, none, not, opt_eq, ◌||◌}
use ln_church_agent.Batch.Types.{
  World, Site, Surroundings, ExecutionContext, ManifestCheck, refused, load, urls, caught, journal,
}
use ln_church_agent.Batch.Keeps.{
  IsKept, Keeps, seq-Keeps, branch-Keeps, execute_targets-Keeps, fetch_manifest-Keeps, load-Keeps,
  write-Keeps,
}
use ln_church_agent.Batch.Execute.{
  run_executions, freeze_bound_report, freeze_report_of, execute_manifest, after_fetch,
  resume_manifest, execute_from, execute, recover_interrupted_manifest_fetch, execute_payload, Run,
  held_manifest, frozen_from_journal, recover_with, start_run, recover_run, is_init,
  is_fetch_started, invalid_journal,
}
use ln_church_agent.TaskJournal.Types.{Payload, ManifestOutcome, State, Target}
use ln_church_agent.Batch.Manifest.{Fetched, fetch_manifest}
use ln_church_agent.TaskJournal.Store.{freeze}
use ln_church_agent.Batch.Targets.{execute_targets}
use ln_church_agent.Common.Outcome.{◌>>◌, pure}

module _ (P : World → Type 0) (site : Site) (k : IsKept P site.checks) where
  module _ (s : Surroundings) where
    freeze_bound_report-Keeps :
        (digest : ℕ) (outcome : ManifestOutcome) (results : List Target) (p : Payload)
        → Keeps P site k (freeze_bound_report site s digest outcome results p)
    unfolding freeze_bound_report
    freeze_bound_report-Keeps digest outcome results p =
        let bytes = site.encode s.submission_id outcome results in
        let call = freeze bytes s.submission_id outcome in
        branch-Keeps P site k (not (opt_eq p.manifest_sha256 (some digest))) invalid_journal
          (journal site.checks caught call >> pure bytes) (λ w h. h)
          (write-Keeps P site k caught call bytes)

    freeze_report_of-Keeps :
        (digest : ℕ) (outcome : ManifestOutcome) (results : List Target)
        → Keeps P site k (freeze_report_of site s digest outcome results)
    unfolding freeze_report_of
    freeze_report_of-Keeps digest outcome results =
        seq-Keeps P site k (load site.checks caught)
          (freeze_bound_report site s digest outcome results) (load-Keeps P site k caught)
          (freeze_bound_report-Keeps digest outcome results)

    execute_manifest-Keeps :
        (digest : ℕ) (outcome : ManifestOutcome) (count : ℕ)
        → Keeps P site k (execute_manifest site s digest outcome count)
    unfolding execute_manifest
    execute_manifest-Keeps digest outcome count =
        seq-Keeps P site k (execute_targets site s count) (freeze_report_of site s digest outcome)
          (execute_targets-Keeps P site k s count) (freeze_report_of-Keeps digest outcome)

    after_fetch-Keeps :
        (c : ExecutionContext) (found : Fetched) → Keeps P site k (after_fetch site s c found)
    unfolding after_fetch
    after_fetch-Keeps c (outcome, none) = freeze_report_of-Keeps c.manifest_sha256 outcome []
    after_fetch-Keeps c (outcome, some count) =
        execute_manifest-Keeps c.manifest_sha256 outcome count

    resume_manifest-Keeps :
        (c : ExecutionContext) (found : ManifestCheck)
        → Keeps P site k (resume_manifest site s c found)
    unfolding resume_manifest
    resume_manifest-Keeps c (refused outcome) = λ w h. h
    resume_manifest-Keeps c (urls count) =
        execute_manifest-Keeps c.manifest_sha256 ManifestOutcome.retrieved count

    held_manifest-Keeps :
        (c : ExecutionContext) (held : Option (List ℕ))
        → Keeps P site k (held_manifest site s c held)
    held_manifest-Keeps c none = λ w h. h
    held_manifest-Keeps c (some bytes) =
        resume_manifest-Keeps c (site.check_manifest bytes c.manifest_sha256)

    frozen_from_journal-Keeps : (held : Option (List ℕ)) → Keeps P site k (frozen_from_journal held)
    frozen_from_journal-Keeps none = λ w h. h
    frozen_from_journal-Keeps (some bytes) = λ w h. h

    execute_from-Keeps :
        (c : ExecutionContext) (p : Payload) (st : State)
        → Keeps P site k (execute_from site s c p st)
    unfolding execute_from
    execute_from-Keeps c p State.init = λ w h. h
    execute_from-Keeps c p State.offer_rechecked =
        seq-Keeps P site k (fetch_manifest site c s) (after_fetch site s c)
          (fetch_manifest-Keeps P site k c s) (after_fetch-Keeps c)
    execute_from-Keeps c p State.manifest_fetch_started =
        freeze_report_of-Keeps c.manifest_sha256 ManifestOutcome.release_interrupted []
    execute_from-Keeps c p State.manifest_verified = held_manifest-Keeps c p.manifest_bytes
    execute_from-Keeps c p State.attempt_started = held_manifest-Keeps c p.manifest_bytes
    execute_from-Keeps c p State.result_recorded = held_manifest-Keeps c p.manifest_bytes
    execute_from-Keeps c p State.report_frozen = frozen_from_journal-Keeps p.frozen_report_bytes
    execute_from-Keeps c p State.compound_completion_acked =
        frozen_from_journal-Keeps p.frozen_report_bytes
    execute_from-Keeps c p State.terminal_status = frozen_from_journal-Keeps p.frozen_report_bytes

    execute-Keeps : (c : ExecutionContext) → Keeps P site k (execute site s c)
    unfolding execute execute_payload
    execute-Keeps c =
        seq-Keeps P site k (load site.checks caught) (execute_payload site s c)
          (load-Keeps P site k caught)
          (λ p.
            branch-Keeps P site k
              (is_init p.state || not (opt_eq p.manifest_sha256 (some c.manifest_sha256)))
              invalid_journal (execute_from site s c p p.state) (λ w h. h)
              (execute_from-Keeps c p p.state))

    recover_with-Keeps :
        (p : Payload) (digest : Option ℕ) → Keeps P site k (recover_with site s p digest)
    recover_with-Keeps p none = λ w h. h
    recover_with-Keeps p (some digest) =
        branch-Keeps P site k (not (is_fetch_started p.state)) invalid_journal
          (freeze_report_of site s digest ManifestOutcome.release_interrupted []) (λ w h. h)
          (freeze_report_of-Keeps digest ManifestOutcome.release_interrupted [])

    recover-Keeps : Keeps P site k (recover_interrupted_manifest_fetch site s)
    unfolding recover_interrupted_manifest_fetch
    recover-Keeps =
        seq-Keeps P site k (load site.checks caught) (λ p. recover_with site s p p.manifest_sha256)
          (load-Keeps P site k caught) (λ p. recover_with-Keeps p p.manifest_sha256)

  pub run_executions-keeps : (runs : List Run) (w : World) → P w → P (run_executions site runs w)
  unfolding run_executions
  run_executions-keeps [] w h = h
  run_executions-keeps (start_run c s ∷ rest) w h =
      run_executions-keeps rest (execute site s c w).1 (execute-Keeps s c w h)
  run_executions-keeps (recover_run s ∷ rest) w h =
      run_executions-keeps rest (recover_interrupted_manifest_fetch site s w).1
        (recover-Keeps s w h)
