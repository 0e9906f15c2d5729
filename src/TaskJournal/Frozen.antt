-- ===== src/TaskJournal/Frozen.antt =====
-- What stands once the completion report is frozen.
use ln_church_agent.Common.{arith, ◌≡◌, true, ◌≤◌, ◌∙◌, List, refl, ◌⊎◌, some}
use ln_church_agent.TaskJournal.Types.{Payload}
use ln_church_agent.TaskJournal.Store.{
  mutate, Checks, Call, offer, bind, attempt, result, freeze, acknowledge, terminate, fetch,
  dispatch, Fault, valid, run_calls,
}
use ln_church_agent.TaskJournal.Validate.{has_report_state, validate_payload}
use ln_church_agent.TaskJournal.Mutate.{
  mark_offer_rechecked, start_manifest_attempt, bind_verified_manifest, mark_target_attempt_started,
  record_target_result, freeze_report, mark_completion_dispatch_attempted,
  mark_compound_completion_acked, mark_terminal_status, resume_disposition, Disposition,
}
use ln_church_agent.Common.Outcome.{done}
use ln_church_agent.TaskJournal.Atomic.{IsCommit, run_calls-keeps}

-- the report of `p'` is that of `p`
pub record SameReport (p p' : Payload) : Type 0 where
  pub after_freeze : has_report_state p'.state ≡ true
  pub same_bytes : p'.frozen_report_bytes ≡ p.frozen_report_bytes
  pub same_sha256 : p'.frozen_report_sha256 ≡ p.frozen_report_sha256
  pub same_submission : p'.submission_id ≡ p.submission_id
  pub same_targets : p'.targets ≡ p.targets
  pub same_outcome : p'.manifest_fetch_outcome ≡ p.manifest_fetch_outcome
  pub attempts_grow : p.completion_dispatch_attempts ≤ p'.completion_dispatch_attempts

pub mutate-SameReport :
    (k : Checks) (call : Call) (p q : Payload)
    → has_report_state p.state ≡ true
    → mutate k call p ≡ done q
    → SameReport p q
unfolding mutate mark_offer_rechecked start_manifest_attempt bind_verified_manifest
    mark_target_attempt_started record_target_result freeze_report
    mark_completion_dispatch_attempted mark_compound_completion_acked mark_terminal_status
mutate-SameReport k (offer digest) p q h m = ground (arith, h, m)
mutate-SameReport k fetch p q h m = ground (arith, h, m)
mutate-SameReport k (bind digest count bytes) p q h m = ground (arith, h, m)
mutate-SameReport k (attempt i) p q h m = ground (arith, h, m)
mutate-SameReport k (result i outcome status elapsed) p q h m = ground (arith, h, m)
mutate-SameReport k (freeze bytes submission outcome) p q h m = ground (arith, h, m)
mutate-SameReport k dispatch p q h m = ground (arith, h, m)
mutate-SameReport k (acknowledge ack) p q h m = ground (arith, h, m)
mutate-SameReport k (terminate status) p q h m = ground (arith, h, m)

SameReport-trans : {p q r : Payload} → SameReport p q → SameReport q r → SameReport p r
SameReport-trans a b = record {
  after_freeze = b.after_freeze;
  same_bytes = b.same_bytes ∙ a.same_bytes;
  same_sha256 = b.same_sha256 ∙ a.same_sha256;
  same_submission = b.same_submission ∙ a.same_submission;
  same_targets = b.same_targets ∙ a.same_targets;
  same_outcome = b.same_outcome ∙ a.same_outcome;
  attempts_grow = omega (arith, a.attempts_grow, b.attempts_grow);
}

SameReport-self : (p : Payload) → has_report_state p.state ≡ true → SameReport p p
SameReport-self p h = record {
  after_freeze = h;
  same_bytes = refl;
  same_sha256 = refl;
  same_submission = refl;
  same_targets = refl;
  same_outcome = refl;
  attempts_grow = omega arith;
}

commit-SameReport :
    (k : Checks) (call : Call) (p p' : Payload)
    → has_report_state p.state ≡ true
    → IsCommit k call p p'
    → SameReport p p'
commit-SameReport k call p p' h c =
    let m = mutate-SameReport k call p c.next h c.mutated in ground (arith, m, c.written)

-- From a frozen report on, whatever calls and faults follow, the file holds the same report bytes,
-- digest, submission, target results and manifest outcome, and never fewer dispatch attempts.
pub run_calls-SameReport :
    (k : Checks) (calls : List (Fault × Call)) (p : Payload)
    → has_report_state p.state ≡ true
    → (p' : Payload) × (run_calls k calls (some p) ≡ some p') × SameReport p p'
run_calls-SameReport k calls p h =
    run_calls-keeps k (SameReport p)
      (λ call q q' c s. SameReport-trans s (commit-SameReport k call q q' s.after_freeze c)) calls p
      (SameReport-self p h)

valid-after_freeze :
    (k : Checks) (p : Payload)
    → valid k p ≡ true
    → 1 ≤ p.completion_dispatch_attempts
    → has_report_state p.state ≡ true
unfolding validate_payload
valid-after_freeze k p v h = ground (arith, v, h)

disposition-no_dispatch :
    (p : Payload)
    → has_report_state p.state ≡ true
    → 1 ≤ p.completion_dispatch_attempts
    → (resume_disposition p ≡ Disposition.completion_status_first)
      ⊎ (resume_disposition p ≡ Disposition.status_only)
unfolding resume_disposition
disposition-no_dispatch p h a = ground (arith, h, a)

-- Once a valid journal records a dispatch of the completion, a process that resumes it at any later
-- time asks for the status first, or for nothing but the status.
pub run_calls-resume_disposition :
    (k : Checks) (calls : List (Fault × Call)) (p : Payload)
    → valid k p ≡ true
    → 1 ≤ p.completion_dispatch_attempts
    → (p' : Payload) × (run_calls k calls (some p) ≡ some p')
      × ((resume_disposition p' ≡ Disposition.completion_status_first)
          ⊎ (resume_disposition p' ≡ Disposition.status_only))
run_calls-resume_disposition k calls p v a =
    let (p', e, s) = run_calls-SameReport k calls p (valid-after_freeze k p v a) in
    (p', e, disposition-no_dispatch p' s.after_freeze (omega (arith, a, s.attempts_grow)))
