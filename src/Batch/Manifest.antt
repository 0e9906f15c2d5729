-- ===== src/Batch/Manifest.antt =====
-- `_fetch_manifest` (ln_church_agent/scheduled_http_get_batch.py).
use Prim.Native.Nat.{ℕ, suc, zero}
use ln_church_agent.Batch.Types.{
  NetError, Site, ExecutionContext, Surroundings, Execution, journal, ManifestCheck, ManifestReply,
  request, refused, manifest_failed, caught, urls, manifest_response, manifest_request,
}
use ln_church_agent.TaskJournal.Types.{ManifestOutcome}
use ln_church_agent.Common.{
  Bool, Option, true, false, ◌∷◌, List, [], ◌||◌, none, ◌==◌, not, ◌&&◌, ltb, ◌+◌, some,
}
use ln_church_agent.Common.Lists.{contains}
use ln_church_agent.Common.Outcome.{pure, when◌run◌otherwise◌, ◌>>◌, modify}
use ln_church_agent.TaskJournal.Store.{fetch, bind}

-- `_manifest_network_outcome`
abbrev pub manifest_network_outcome : NetError → ManifestOutcome
manifest_network_outcome NetError.dns_error = ManifestOutcome.release_dns_error
manifest_network_outcome NetError.tls_error = ManifestOutcome.release_tls_error
manifest_network_outcome NetError.connection_error = ManifestOutcome.release_connection_error
manifest_network_outcome NetError.timeout = ManifestOutcome.release_timeout
manifest_network_outcome NetError.response_too_large = ManifestOutcome.release_response_too_large
manifest_network_outcome NetError.encoding_unsupported =
    ManifestOutcome.release_encoding_unsupported
manifest_network_outcome _ = ManifestOutcome.release_protocol_error

abbrev pub is_retryable : NetError → Bool
is_retryable NetError.dns_error = true
is_retryable NetError.connection_error = true
is_retryable NetError.timeout = true
is_retryable _ = false

-- `_retryable_manifest_status`; `fresh` says that the release is less than two seconds ago
abbrev pub retryable_manifest_status : ℕ → Bool → Bool
retryable_manifest_status status fresh =
    contains status (429 ∷ 500 ∷ 502 ∷ 503 ∷ 504 ∷ []) || (status == 403 && fresh)

-- the outcome of the fetch, and the number of URLs of a manifest that was bound
abbrev pub Fetched : Type 0
Fetched = ManifestOutcome × Option ℕ

-- `MANIFEST_FETCH_MAXIMUM_ATTEMPTS`
abbrev pub maximum_attempts : ℕ
maximum_attempts = 3

module _ (site : Site) (c : ExecutionContext) (s : Surroundings) where
  -- a body that validates
  unfoldable pub bind_manifest : List ℕ → ℕ → Execution Fetched
  bind_manifest body count =
      when not c.execution_available
      run pure (ManifestOutcome.release_protocol_error, none)
      otherwise journal site.checks caught (bind c.manifest_sha256 count body)
        >> pure (ManifestOutcome.retrieved, some count)

  -- a body of a response with status 200
  unfoldable pub check_body : List ℕ → ManifestCheck → Execution Fetched
  unfolding bind_manifest
  check_body body (refused outcome) = pure (outcome, none)
  check_body body (urls count) = bind_manifest body count

  -- the answer to attempt `i`; `again` is the next round of the loop
  unfoldable pub settle_reply :
      ℕ → (ManifestOutcome → Execution Fetched) → ManifestReply → Execution Fetched
  unfolding check_body
  settle_reply i again (manifest_failed e) =
      when is_retryable e && ltb (i + 1) maximum_attempts
      run again (manifest_network_outcome e)
      otherwise pure (manifest_network_outcome e, none)
  settle_reply i again (manifest_response status body) =
      when not (status == 200)
      run (when retryable_manifest_status status (s.just_released i) && ltb (i + 1) maximum_attempts
          run again ManifestOutcome.release_http_unexpected_status
          otherwise pure (ManifestOutcome.release_http_unexpected_status, none))
      otherwise check_body body (site.check_manifest body c.manifest_sha256)

  -- one attempt
  unfoldable pub attempt_fetch : ℕ → (ManifestOutcome → Execution Fetched) → Execution Fetched
  unfolding journal request settle_reply
  attempt_fetch i again =
      journal site.checks caught fetch
      >> (modify (request manifest_request) >> settle_reply i again (s.manifest_reply i))

  -- the loop over attempts, `left` of them from attempt `i` on
  unfoldable pub fetch_loop : ℕ → ℕ → ManifestOutcome → Execution Fetched
  unfolding attempt_fetch
  fetch_loop zero i outcome = pure (outcome, none)
  fetch_loop (suc left) i outcome =
      when s.out_of_time i
      run pure (outcome, none)
      otherwise attempt_fetch i (fetch_loop left (i + 1))

  -- `_fetch_manifest`
  unfoldable pub fetch_manifest : Execution Fetched
  unfolding fetch_loop
  fetch_manifest = fetch_loop maximum_attempts 0 ManifestOutcome.release_timeout
