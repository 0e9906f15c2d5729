-- ===== src/Journals/Endpoint.antt =====
-- The methods of `EndpointChoiceJournal`
-- (ln_church_agent/endpoint_choice_reason_journal.py). Claims, reports and keys are numbers, since
-- they are only compared and kept; whether they belong together is a parameter.
use Prim.Native.Nat.{ℕ}
use ln_church_agent.Common.{
  Bool, false, Option, none, some, if◌then◌else◌, List, not, true, is_none, ◌||◌, ◌==◌, opt_eq,
  ◌&&◌, ◌∷◌, [],
}
use ln_church_agent.Journals.Stored.{Change, rewrite_file, FileError, Stored}
use ln_church_agent.Common.Outcome.{Outcome, done, raised}
use ln_church_agent.Journals.Structured.{or_else}

-- the codes of a rejection that permits a correction
pub data EndpointRejection : Type 0 where
  request_invalid report_binding_invalid : EndpointRejection

-- the file's object
pub record EndpointFile : Type 0 where
  pub claim_started : Bool
  pub credential : Option ℕ
  pub report : Option ℕ
  pub report_sha256 : Option ℕ
  pub completion_started : Bool
  pub completion_unknown : Bool
  pub accepted : Bool
  pub rejection : Option EndpointRejection
  pub abandon_key : Option ℕ

-- `_initial`
abbrev pub initial_endpoint : EndpointFile
initial_endpoint = record {
  claim_started = false;
  credential = none;
  report = none;
  report_sha256 = none;
  completion_started = false;
  completion_unknown = false;
  accepted = false;
  rejection = none;
  abandon_key = none;
}

-- what the code asks of claim and report: that the claim is the journal's, that the report is one
-- of the claim; and the digest of a report
pub record EndpointRules : Type 0 where
  pub claim_bound : ℕ → Bool
  pub report_bound : ℕ → ℕ → Bool
  pub sha256 : ℕ → ℕ

abbrev pub EndpointChange : Type 0
EndpointChange = Change EndpointFile

abbrev pub endpoint_conflict : Outcome FileError (Option EndpointFile)
endpoint_conflict = raised FileError.state_conflict

abbrev pub other_saved : Option ℕ → ℕ → Bool
other_saved none n = false
other_saved (some m) n = not (m == n)

module _ (rules : EndpointRules) where
  abbrev pub check_credential : Option ℕ → Option FileError
  check_credential none = none
  check_credential (some claim) =
      if not (rules.claim_bound claim) then some FileError.state_conflict else none

  abbrev pub check_frozen : EndpointFile → Option ℕ → Option ℕ → Option FileError
  check_frozen d none claim =
      if not (is_none d.report_sha256)
        || (d.completion_started || d.completion_unknown || d.accepted)
      then some FileError.journal_invalid
      else none
  check_frozen d (some r) none = some FileError.journal_invalid
  check_frozen d (some r) (some claim) =
      if not (rules.report_bound claim r) || not (opt_eq d.report_sha256 (some (rules.sha256 r)))
      then some FileError.journal_invalid
      else none

  -- `_validate`
  unfoldable pub validate_endpoint : EndpointFile → Option FileError
  validate_endpoint d =
      or_else (check_credential d.credential) (check_frozen d d.report d.credential)

  -- `save_claim`
  unfoldable pub save_credential : ℕ → EndpointChange
  save_credential claim d =
      if not (rules.claim_bound claim) || other_saved d.credential claim
      then endpoint_conflict
      else done (some (record d { credential = some claim }))

  abbrev pub with_frozen : ℕ → EndpointFile → EndpointFile
  with_frozen r d = record d { report = some r; report_sha256 = some (rules.sha256 r) }

  -- `prepare_report`, with the claim
  unfoldable pub prepare_claimed : ℕ → Bool → ℕ → EndpointChange
  prepare_claimed r correction claim d =
      if not (rules.report_bound claim r)
      then raised FileError.journal_invalid
      else if not (other_saved d.report r)
      then done (some (with_frozen r d))
      else if not correction || d.accepted || d.completion_unknown || is_none d.rejection
      then endpoint_conflict
      else done (some (with_frozen r (record d { completion_started = false; rejection = none })))

  abbrev pub prepare_credential : ℕ → Bool → Option ℕ → EndpointChange
  prepare_credential r correction none d = endpoint_conflict
  prepare_credential r correction (some claim) d = prepare_claimed r correction claim d

  -- `prepare_report`
  unfoldable pub prepare_endpoint : ℕ → Bool → EndpointChange
  unfolding prepare_claimed
  prepare_endpoint r correction d = prepare_credential r correction d.credential d

-- `begin_claim`
abbrev pub begin_endpoint_claim : EndpointChange
begin_endpoint_claim d = done (some (record d { claim_started = true }))

-- `record_dispatch`
unfoldable pub dispatch_endpoint : EndpointChange
dispatch_endpoint d =
    if is_none d.report
    then endpoint_conflict
    else done
        (some (record d { completion_started = true; completion_unknown = true; rejection = none }))

-- a result by its state, with the error code where it permits a correction
pub data EndpointResult : Type 0 where
  endpoint_accepted endpoint_other : EndpointResult
  endpoint_rejected : Option EndpointRejection → EndpointResult

-- `record_result`
unfoldable pub result_endpoint : EndpointResult → Bool → EndpointChange
result_endpoint endpoint_accepted first_definite d =
    done (some (record d { accepted = true; rejection = none }))
result_endpoint endpoint_other first_definite d = done (some d)
result_endpoint (endpoint_rejected code) first_definite d =
    if first_definite && not d.accepted
    then done (
        some
          (record d { completion_unknown = false; completion_started = false; rejection = code }))
    else done (some d)

-- `abandon_key`
unfoldable pub abandon_endpoint : ℕ → EndpointChange
abandon_endpoint key d =
    if d.accepted || d.completion_unknown || other_saved d.abandon_key key
    then endpoint_conflict
    else done (some (record d { abandon_key = some key }))

-- a call of a method that writes
pub data EndpointCall : Type 0 where
  endpoint_claim_begun : EndpointCall
  credential_saved : ℕ → EndpointCall
  endpoint_prepared : ℕ → Bool → EndpointCall
  endpoint_dispatched : EndpointCall
  endpoint_recorded : EndpointResult → Bool → EndpointCall
  endpoint_abandoned : ℕ → EndpointCall

abbrev pub endpoint_change : EndpointRules → EndpointCall → EndpointChange
endpoint_change rules endpoint_claim_begun = begin_endpoint_claim
endpoint_change rules (credential_saved claim) = save_credential rules claim
endpoint_change rules (endpoint_prepared r correction) = prepare_endpoint rules r correction
endpoint_change rules endpoint_dispatched = dispatch_endpoint
endpoint_change rules (endpoint_recorded result first_definite) =
    result_endpoint result first_definite
endpoint_change rules (endpoint_abandoned key) = abandon_endpoint key

-- a history of calls, each on the file that the one before left
unfoldable pub run_endpoint :
    EndpointRules → List EndpointCall → Stored EndpointFile → Stored EndpointFile
unfolding rewrite_file
run_endpoint rules [] w = w
run_endpoint rules (call ∷ rest) w =
    run_endpoint rules rest
      (rewrite_file (validate_endpoint rules) (endpoint_change rules call) w).1
