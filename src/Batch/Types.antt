-- ===== src/Batch/Types.antt =====
-- The state of an execution (ln_church_agent/scheduled_http_get_batch.py): the journal's file, the
-- faults that its next writes meet, and the requests that were sent.
--
-- A crash is a fault of a write: before it replaces the file, or after. Between two writes an
-- execution sends at most one request, so these faults stop it at every point that matters.
use Prim.Native.Nat.{ℕ}
use ln_church_agent.TaskJournal.Types.{JournalError, ManifestOutcome, Target, Payload}
use ln_church_agent.TaskJournal.Store.{Checks, Disk, Fault, Call, update, read_locked}
use ln_church_agent.Common.Outcome.{Method, Outcome, done, raised}
use ln_church_agent.Common.{List, ◌∷◌, Bool, []}

pub data Request : Type 0 where
  manifest_request : Request
  target_request : ℕ → Request

-- `NetworkFetchError` by its code
pub data NetError : Type 0 where
  dns_error policy_rejected tls_error connection_error timeout : NetError
  protocol_error response_too_large encoding_unsupported : NetError

-- `ScheduledExecutionError` by its code, and a `JournalError` that is not caught
pub data ExecutionError : Type 0 where
  journal_ambiguous journal_invalid : ExecutionError
  uncaught : JournalError → ExecutionError

pub data ManifestReply : Type 0 where
  manifest_failed : NetError → ManifestReply
  manifest_response : ℕ → List ℕ → ManifestReply

pub data TargetReply : Type 0 where
  target_failed : NetError → TargetReply
  target_response : ℕ → TargetReply

-- what `validate_manifest_bytes` finds: the outcome of its error, or the number of URLs
pub data ManifestCheck : Type 0 where
  refused : ManifestOutcome → ManifestCheck
  urls : ℕ → ManifestCheck

-- `ScheduledExecutionContext`, by the fields that decide
pub record ExecutionContext : Type 0 where
  pub manifest_sha256 : ℕ
  pub execution_available : Bool

-- What the executor takes from the code that it calls: the checks of the journal, the validation
-- of a manifest, and the bytes of a report.
pub record Site : Type 0 where
  pub checks : Checks
  pub check_manifest : List ℕ → ℕ → ManifestCheck
  pub encode : ℕ → ManifestOutcome → List Target → List ℕ

-- One execution's surroundings: the clock before each attempt and at each target, the answers of
-- the network, and the random submission id.
pub record Surroundings : Type 0 where
  pub out_of_time : ℕ → Bool
  pub just_released : ℕ → Bool
  pub manifest_reply : ℕ → ManifestReply
  pub past_cutoff : ℕ → Bool
  pub target_reply : ℕ → TargetReply
  pub elapsed : ℕ → ℕ
  pub submission_id : ℕ

pub record World : Type 0 where
  pub disk : Disk
  pub faults : List Fault
  pub requests : List Request

abbrev pub Execution : Type 0 → Type 0
Execution A = Method World ExecutionError A

abbrev pub next_fault : List Fault → Fault
next_fault [] = Fault.no_fault
next_fault (f ∷ fs) = f

abbrev pub later_faults : List Fault → List Fault
later_faults [] = []
later_faults (f ∷ fs) = fs

-- the handler round most calls of the journal
abbrev pub caught : JournalError → ExecutionError
caught JournalError.persistence = ExecutionError.journal_ambiguous
caught _ = ExecutionError.journal_invalid

-- an outcome of the journal, with the error as the executor raises it
abbrev pub as_execution :
    (JournalError → ExecutionError) → Outcome JournalError Payload → Outcome ExecutionError Payload
as_execution handler (done p) = done p
as_execution handler (raised e) = raised (handler e)

-- a call of the journal
unfoldable pub journal : Checks → (JournalError → ExecutionError) → Call → Execution Payload
journal k handler call w =
    let o = update k (next_fault w.faults) call w.disk in
    (as_execution handler o.0, record w { disk = o.1; faults = later_faults w.faults })

-- `journal.load()`
unfoldable pub load : Checks → (JournalError → ExecutionError) → Execution Payload
load k handler w = (as_execution handler (read_locked k w.disk), w)

unfoldable pub request : Request → World → World
request r w = record w { requests = r ∷ w.requests }
