-- ===== src/VisitJournal/Types.antt =====
-- The data of `ImmediateVisitJournal` (ln_church_agent/immediate_visit_journal.py).
--
-- A report's canonical bytes are the fields of the report, each of which is only compared, so it
-- is a number. The fields of the journal's identity never change and are left out.
use ln_church_agent.Common.{Bool, Option, ℕ, List}

-- `FrozenImmediateVisitReport`: `observation` is every field but the named ones
pub record Report : Type 0 where
  pub endpoint_id : ℕ
  pub submission_id : ℕ
  pub fetch_started_at : ℕ
  pub observation : ℕ

-- The file's object; `correctable` is `data["rejection"] == "invalid_request"`.
pub record Visit : Type 0 where
  pub endpoint_id : Option ℕ
  pub fetch_started_at : Option ℕ
  pub report : Option Report
  pub report_sha256 : Option ℕ
  pub dispatch_started : Bool
  pub accepted : Bool
  pub correctable : Bool

pub data VisitError : Type 0 where
  visit_invalid visit_conflict : VisitError

-- `result.state` of a completion, with whether the error code is invalid_request
pub data Result : Type 0 where
  was_accepted was_other : Result
  was_rejected : Bool → Result

-- What the model takes from the code that it does not hold: the digest of a report, whether a
-- report belongs to the claim, and the endpoints of the claim.
pub record Claim : Type 0 where
  pub sha256 : Report → ℕ
  pub is_bound : Report → Bool
  pub endpoints : List ℕ
