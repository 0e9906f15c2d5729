-- ===== src/Journals/Structured.antt =====
-- The methods of `StructuredResponseJournal` (ln_church_agent/structured_response_journal.py).
-- Tasks, claims, results and keys are numbers, since they are only compared and kept; whether they
-- belong together is a parameter.
use Prim.Native.Nat.{ℕ}
use ln_church_agent.Common.{
  Bool, false, Option, some, none, ◌||◌, not, ◌==◌, if◌then◌else◌, true, opt_eq, is_none, ◌&&◌,
}
use ln_church_agent.Common.Outcome.{Outcome, raised, done}
use ln_church_agent.Journals.Stored.{FileError}

pub record StructuredReport : Type 0 where
  pub canonical_bytes : ℕ
  pub submission_id : ℕ
  pub report_sha256 : ℕ

-- the codes of a rejection that permits a correction
pub data Correctable : Type 0 where
  invalid_request invalid_structure : Correctable

-- the file's object
pub record Structured : Type 0 where
  pub claim_started : Bool
  pub task : Option ℕ
  pub credential : Option ℕ
  pub report : Option StructuredReport
  pub report_sha256 : Option ℕ
  pub completion_started : Bool
  pub completion_unknown : Bool
  pub accepted : Bool
  pub rejection : Option Correctable
  pub last_result : Option ℕ
  pub abandon_key : Option ℕ
  pub abandoned : Bool

-- `_initial`
abbrev pub initial_structured : Structured
initial_structured = record {
  claim_started = false;
  task = none;
  credential = none;
  report = none;
  report_sha256 = none;
  completion_started = false;
  completion_unknown = false;
  accepted = false;
  rejection = none;
  last_result = none;
  abandon_key = none;
  abandoned = false;
}

-- what the code asks of Task, claim and report: that the Task is the journal's, that the claim is
-- one of the Task, that the report is one of both, and that its answer is valid besides
pub record StructuredRules : Type 0 where
  pub task_bound : ℕ → Bool
  pub claim_bound : ℕ → ℕ → Bool
  pub report_bound : ℕ → ℕ → StructuredReport → Bool
  pub answer_valid : ℕ → ℕ → StructuredReport → Bool

-- the completion was posted, or may have been
abbrev pub is_posted : Structured → Bool
is_posted d = d.completion_started || d.completion_unknown || d.accepted

-- the second check, unless the first one failed
abbrev pub or_else : Option FileError → Option FileError → Option FileError
or_else (some e) o = some e
or_else none o = o

abbrev pub structured_conflict : Outcome FileError (Option Structured)
structured_conflict = raised FileError.state_conflict

abbrev pub write_of : Structured → Outcome FileError (Option Structured)
write_of d = done (some d)

abbrev pub is_other : Option ℕ → ℕ → Bool
is_other none n = false
is_other (some m) n = not (m == n)

abbrev pub write_valid : Option FileError → Structured → Outcome FileError (Option Structured)
write_valid (some e) d = raised e
write_valid none d = write_of d

abbrev pub same_report : Option StructuredReport → StructuredReport → Bool
same_report none r = false
same_report (some q) r = q.canonical_bytes == r.canonical_bytes

-- whether a report may take the place of the saved one
abbrev pub may_replace : Structured → StructuredReport → Bool → Bool
may_replace d r correction = elim d.report [
  | none ↦ true
  | some q ↦
      correction
      && not d.accepted
      && not d.completion_unknown
      && not (is_none d.rejection)
      && not (r.submission_id == q.submission_id)
]

abbrev pub with_structured_report : StructuredReport → Structured → Structured
with_structured_report r d = record d { report = some r; report_sha256 = some r.report_sha256 }

-- the other report takes the place of the saved one
abbrev pub replaced : Structured → Structured
replaced d = elim d.report [
  | none ↦ d
  | some q ↦ record d { completion_started = false; rejection = none; last_result = none }
]

-- `begin_claim`
unfoldable pub begin_claim : Structured → Outcome FileError (Option Structured)
begin_claim d =
    if is_none d.task || d.abandoned
    then structured_conflict
    else write_of (record d { claim_started = true })

module _ (rules : StructuredRules) where
  abbrev pub check_task : Option ℕ → Option FileError
  check_task none = none
  check_task (some task) =
      if not (rules.task_bound task) then some FileError.state_conflict else none

  abbrev pub check_claim : Option ℕ → Option ℕ → Option FileError
  check_claim task none = none
  check_claim none (some claim) = some FileError.state_conflict
  check_claim (some task) (some claim) =
      if not (rules.claim_bound task claim) then some FileError.state_conflict else none

  abbrev pub check_bound : Structured → StructuredReport → Option ℕ → Option ℕ → Option FileError
  check_bound d r (some task) (some claim) =
      if not (rules.report_bound task claim r)
        || not (opt_eq d.report_sha256 (some r.report_sha256))
      then some FileError.journal_invalid
      else none
  check_bound d r _ _ = some FileError.journal_invalid

  abbrev pub check_report : Structured → Option StructuredReport → Option FileError
  check_report d none =
      if not (is_none d.report_sha256) || is_posted d then some FileError.journal_invalid else none
  check_report d (some r) = check_bound d r d.task d.credential

  -- `_validate`
  unfoldable pub validate_structured : Structured → Option FileError
  validate_structured d =
      or_else (check_task d.task)
        (or_else (check_claim d.task d.credential) (check_report d d.report))

  -- `save_task`
  unfoldable pub save_task : ℕ → Structured → Outcome FileError (Option Structured)
  save_task task d =
      if not (rules.task_bound task) || is_other d.task task
      then structured_conflict
      else write_of (record d { task = some task })

  -- `save_claim`
  unfoldable pub save_claim : ℕ → Structured → Outcome FileError (Option Structured)
  unfolding validate_structured
  save_claim claim d =
      let d' : Structured = record d { credential = some claim } in
      if is_other d.credential claim
      then structured_conflict
      else write_valid (validate_structured d') d'

  -- `prepare_report`, with the Task and the claim
  unfoldable pub prepare_bound :
      StructuredReport → Bool → ℕ → ℕ → Structured → Outcome FileError (Option Structured)
  prepare_bound r correction task claim d =
      if not (rules.report_bound task claim r)
      then raised FileError.journal_invalid
      else if same_report d.report r && is_posted d
      then done none
      else if not (rules.answer_valid task claim r)
      then raised FileError.journal_invalid
      else if same_report d.report r
      then write_of (with_structured_report r d)
      else if not (may_replace d r correction)
      then structured_conflict
      else write_of (with_structured_report r (replaced d))

  abbrev pub prepare_saved :
      StructuredReport
      → Bool
      → Structured
      → Option ℕ
      → Option ℕ
      → Outcome FileError (Option Structured)
  prepare_saved r correction d (some task) (some claim) = prepare_bound r correction task claim d
  prepare_saved r correction d _ _ = structured_conflict

  -- `prepare_report`
  unfoldable pub prepare_structured :
      StructuredReport → Bool → Structured → Outcome FileError (Option Structured)
  unfolding prepare_bound
  prepare_structured r correction d =
      if d.abandoned then structured_conflict else prepare_saved r correction d d.task d.credential

  abbrev pub answer_ok : Option StructuredReport → Option ℕ → Option ℕ → Bool
  answer_ok (some r) (some task) (some claim) = rules.answer_valid task claim r
  answer_ok _ _ _ = false

  -- `record_dispatch`
  unfoldable pub dispatch_structured : Structured → Outcome FileError (Option Structured)
  dispatch_structured d =
      if is_none d.report || d.abandoned
      then structured_conflict
      else if not (is_posted d) && not (answer_ok d.report d.task d.credential)
      then raised FileError.journal_invalid
      else write_of
          (record d { completion_started = true; completion_unknown = true; rejection = none })
