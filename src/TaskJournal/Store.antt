-- ===== src/TaskJournal/Store.antt =====
-- The file of the journal (ln_church_agent/task_journal.py): `create`, `_update` and the outcome of
-- `_write_locked`, whose replacement of the file is atomic.
use Prim.Native.Nat.{ℕ}
use ln_church_agent.Common.{List, Option, Bool, ◌∷◌, [], if◌then◌else◌, not, some, ◌+◌, none}
use ln_church_agent.TaskJournal.Mutate.{
  mark_offer_rechecked, start_manifest_attempt, bind_verified_manifest, mark_target_attempt_started,
  record_target_result, freeze_report, mark_completion_dispatch_attempted,
  mark_compound_completion_acked, mark_terminal_status, Mutation,
}
use ln_church_agent.TaskJournal.Types.{
  Payload, TargetOutcome, JournalError, ManifestOutcome, new_payload,
}
use ln_church_agent.Common.Outcome.{Outcome, raised, done}
use ln_church_agent.TaskJournal.Validate.{validate_payload}

-- Where a write fails, if it does: before the file is replaced, or after it.
pub data Fault : Type 0 where
  no_fault before_replace after_replace : Fault

-- The call of a method, with its arguments.
pub data Call : Type 0 where
  offer : ℕ → Call
  fetch : Call
  bind : ℕ → ℕ → List ℕ → Call
  attempt : ℕ → Call
  result : ℕ → TargetOutcome → Option ℕ → Option ℕ → Call
  freeze : List ℕ → ℕ → ManifestOutcome → Call
  dispatch : Call
  acknowledge terminate : ℕ → Call

-- What the model takes from the code that it does not hold: the digest, the checks of contents,
-- of acknowledgements and of terminal statuses.
pub record Checks : Type 0 where
  pub sha256 : List ℕ → ℕ
  pub content : Payload → Bool
  pub ack_valid : Payload → ℕ → Bool
  pub status_valid : Payload → ℕ → Bool

unfoldable pub mutate : Checks → Call → Mutation
unfolding mark_offer_rechecked start_manifest_attempt bind_verified_manifest
    mark_target_attempt_started record_target_result freeze_report
    mark_completion_dispatch_attempted mark_compound_completion_acked mark_terminal_status
mutate k (offer digest) = mark_offer_rechecked digest
mutate k fetch = start_manifest_attempt
mutate k (bind digest count bytes) = bind_verified_manifest k.sha256 digest count bytes
mutate k (attempt i) = mark_target_attempt_started i
mutate k (result i outcome status elapsed) = record_target_result i outcome status elapsed
mutate k (freeze bytes submission outcome) = freeze_report k.sha256 bytes submission outcome
mutate k dispatch = mark_completion_dispatch_attempted
mutate k (acknowledge ack) = mark_compound_completion_acked k.ack_valid ack
mutate k (terminate status) = mark_terminal_status k.status_valid status

abbrev pub Disk : Type 0
Disk = Option Payload

abbrev pub valid : Checks → Payload → Bool
valid k p = validate_payload k.sha256 k.content p

-- `_write_locked`
unfoldable pub write_locked : Checks → Fault → Payload → Disk → Outcome JournalError Payload × Disk
write_locked k fault p disk =
    if not (valid k p) then (raised JournalError.invalid, disk) else elim fault [
      | no_fault ↦ (done p, some p)
      | before_replace ↦ (raised JournalError.persistence, disk)
      | after_replace ↦ (raised JournalError.persistence, some p)
    ]

-- `_read_locked`
unfoldable pub read_locked : Checks → Disk → Outcome JournalError Payload
read_locked k none = raised JournalError.missing
read_locked k (some p) = if valid k p then done p else raised JournalError.invalid

-- the rest of `_update`, on the payload after `mutate`
unfoldable pub commit :
    Checks → Fault → Outcome JournalError Payload → Disk → Outcome JournalError Payload × Disk
unfolding write_locked
commit k fault (raised e) disk = (raised e, disk)
commit k fault (done p) disk = write_locked k fault (record p { sequence = p.sequence + 1 }) disk

-- `_update`, of one method
unfoldable pub update : Checks → Fault → Call → Disk → Outcome JournalError Payload × Disk
unfolding read_locked commit mutate
update k fault call disk = elim (read_locked k disk) [
  | raised e ↦ (raised e, disk)
  | done p ↦ commit k fault (mutate k call p) disk
]

-- `create`
unfoldable pub create : Checks → Fault → Disk → Outcome JournalError Payload × Disk
unfolding write_locked
create k fault none = write_locked k fault new_payload none
create k fault (some p) =
    if valid k p
    then (raised JournalError.state_conflict, some p)
    else (raised JournalError.invalid, some p)

-- A history of calls, some of them interrupted by faults.
unfoldable pub run_calls : Checks → List (Fault × Call) → Disk → Disk
unfolding update
run_calls k [] disk = disk
run_calls k ((fault, call) ∷ rest) disk = run_calls k rest (update k fault call disk).1
