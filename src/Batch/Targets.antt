-- ===== src/Batch/Targets.antt =====
-- `_execute_targets` (ln_church_agent/scheduled_http_get_batch.py).
use Prim.Native.Nat.{ℕ, suc, zero}
use ln_church_agent.Batch.Types.{
  NetError, TargetReply, Site, Surroundings, target_failed, journal, Execution, load,
  target_response, request, uncaught, caught, target_request,
}
use ln_church_agent.Common.{
  List, Option, Bool, ◌∷◌, true, none, some, if◌then◌else◌, false, ◌-◌, [], ◌+◌, ◌++◌,
}
use ln_church_agent.TaskJournal.Types.{
  State, TargetOutcome, Target, TargetState, Payload, is_recorded, is_attempted,
}
use ln_church_agent.Common.Outcome.{pure, when◌run◌otherwise◌, ◌>>=◌, ◌>>◌, modify}
use ln_church_agent.Common.Lists.{length}
use ln_church_agent.TaskJournal.Store.{result, attempt}

-- `_target_network_outcome`
abbrev pub target_network_outcome : NetError → TargetOutcome
target_network_outcome NetError.dns_error = TargetOutcome.dns_error
target_network_outcome NetError.tls_error = TargetOutcome.tls_error
target_network_outcome NetError.connection_error = TargetOutcome.connection_error
target_network_outcome NetError.timeout = TargetOutcome.timeout
target_network_outcome _ = TargetOutcome.protocol_error

abbrev pub reply_outcome : TargetReply → TargetOutcome
reply_outcome (target_failed e) = target_network_outcome e
reply_outcome (target_response status) = TargetOutcome.http_response

abbrev pub reply_status : TargetReply → Option ℕ
reply_status (target_failed e) = none
reply_status (target_response status) = some status

-- `ScheduledTargetResult`, as the journal's target that it equals
abbrev pub result_of : ℕ → TargetOutcome → Option ℕ → Option ℕ → Target
result_of position outcome status elapsed = record {
  position = position;
  state = TargetState.recorded;
  outcome = some outcome;
  http_status = status;
  elapsed_ms = elapsed;
}

-- `_journal_results`: the results before the first target that has none
unfoldable pub journal_results : List Target → List Target
journal_results [] = []
journal_results (t ∷ ts) = let rest = journal_results ts in if is_recorded t then t ∷ rest else []

-- the position of the first attempted target
unfoldable pub interrupted : List Target → ℕ
interrupted [] = 0
interrupted (t ∷ ts) = let rest = interrupted ts in if is_attempted t then t.position else rest

abbrev pub is_attempt_started : State → Bool
is_attempt_started State.attempt_started = true
is_attempt_started _ = false

module _ (site : Site) (s : Surroundings) where
  -- an attempt that was interrupted is recorded as indeterminate
  unfoldable pub close_interrupted : Payload → Execution Payload
  unfolding journal load interrupted
  close_interrupted p =
      when is_attempt_started p.state
      run journal site.checks uncaught
          (result (interrupted p.targets) TargetOutcome.interrupted_indeterminate none none)
        >> load site.checks uncaught
      otherwise pure p

  -- the request of one target, between the two writes of the journal
  unfoldable pub attempt_target : ℕ → Execution Target
  unfolding journal request
  attempt_target i =
      let reply = s.target_reply i in
      journal site.checks caught (attempt i)
      >> (modify (request (target_request i))
          >> (journal site.checks caught
                (result i (reply_outcome reply) (reply_status reply) (some (s.elapsed i)))
              >> pure
                  (result_of i (reply_outcome reply) (reply_status reply) (some (s.elapsed i)))))

  -- one round of the loop over positions
  unfoldable pub execute_target : ℕ → Execution Target
  unfolding journal attempt_target
  execute_target i =
      when s.past_cutoff i
      run journal site.checks uncaught (result i TargetOutcome.not_attempted_deadline none none)
        >> pure (result_of i TargetOutcome.not_attempted_deadline none none)
      otherwise attempt_target i

  -- the loop over `left` positions from `i` on
  unfoldable pub target_loop : ℕ → ℕ → List Target → Execution (List Target)
  unfolding execute_target
  target_loop zero i results = pure results
  target_loop (suc left) i results =
      execute_target i >>= (λ r. target_loop left (i + 1) (results ++ (r ∷ [])))

  unfoldable pub run_targets : ℕ → Payload → Execution (List Target)
  unfolding journal_results target_loop
  run_targets count p =
      let results = journal_results p.targets in
      target_loop (count - length results) (length results) results

  -- `_execute_targets`
  unfoldable pub execute_targets : ℕ → Execution (List Target)
  unfolding load close_interrupted run_targets
  execute_targets count = load site.checks uncaught >>= close_interrupted >>= run_targets count
