-- ===== src/AccessQuota/Types.antt =====
-- The data of `AccessQuotaPolicy` (ln_church_agent/access_quota.py).
--
-- An operation is shared between the tables of operations and of purchases, so it stands in a
-- store and the tables hold references to it. Digests, purchase ids and proofs are only compared,
-- so they are numbers; times are in seconds.
use ln_church_agent.Common.Dict.{Dict}
use Prim.Native.Nat.{ℕ}
use ln_church_agent.Common.{Bool, Option, List, true, false}

pub data OpState : Type 0 where
  challenged signing prepared pending paid failed_final : OpState

-- The codes of `AccessQuotaError`, and `transport` for an exception of `send` itself.
pub data Code : Type 0 where
  required budget_exceeded access_pending unavailable access_failed_final conflict : Code
  result_expired result_unavailable access_invalid signing_failed transport : Code

-- `AccessQuotaTerms` with the expiry of the challenge
pub record Terms : Type 0 where
  pub purchase_id : ℕ
  pub expires_at : ℕ
  pub reset_at : ℕ

-- `_Operation`
pub record AccessOperation : Type 0 where
  pub digest : ℕ
  pub terms : Terms
  pub proof : Option ℕ
  pub state : OpState
  pub result_error : Option Code

-- what `_challenge` makes of a response: nothing, an error, or the terms of a new operation
pub data Challenge : Type 0 where
  no_challenge bad_challenge : Challenge
  candidate : Terms → Challenge

pub data AccessStatus : Type 0 where
  status_paid status_failed_final status_other : AccessStatus

pub data AccessCode : Type 0 where
  code_expired code_unavailable code_failed_final code_conflict code_other : AccessCode

-- A response as `_challenge` and `_observe` read it: `access` says whether the body is an access
-- envelope, `receipt` is the transaction of a payment-response header that passes its checks.
pub record Reply : Type 0 where
  pub status : ℕ
  pub size : ℕ
  pub challenge : Challenge
  pub access : Bool
  pub purchase_id : Option ℕ
  pub access_status : AccessStatus
  pub code : AccessCode
  pub receipt : Option ℕ

-- the headers that a request adds: none, the one of a claim recovery, or those of an operation
pub data Extra : Type 0 where
  plain claim_recovery : Extra
  access_recovery : ℕ → Extra
  payment : ℕ → Option ℕ → Extra

-- `AccessQuotaPolicy`. `next` is the first reference that the store has not given out. `signed` and
-- `sent` record the operations that the signer was called for and the requests, newest first.
pub record AccessPolicy : Type 0 where
  pub allow : Bool
  pub has_signer : Bool
  pub budget_atomic : ℕ
  pub store : ℕ → AccessOperation
  pub next : ℕ
  pub operations : Dict ℕ
  pub purchases : Dict ℕ
  pub reserved : Dict ℕ
  pub spent : Dict ℕ
  pub receipts : Dict ℕ
  pub signed : List ℕ
  pub sent : List Extra

-- One call of `_exchange`: its arguments, the clock where the code reads it (`late` where the
-- deadline has passed, `now` for the wall time), and the responses, `none` where `send` raises.
pub record Exchange : Type 0 where
  pub is_eligible : Bool
  pub is_get : Bool
  pub digest : ℕ
  pub readonly : Bool
  pub read_id : Option ℕ
  pub maximum_body : ℕ
  pub late_start : Bool
  pub late_renew : Bool
  pub late_reserve : Bool
  pub late_sign : Bool
  pub late_send : Bool
  pub now_required : ℕ
  pub now_reset : ℕ
  pub now_expired : ℕ
  pub now_sign : ℕ
  pub first : Option Reply
  pub renewal : Option Reply
  pub final : Option Reply

abbrev pub is_paid : OpState → Bool
is_paid OpState.paid = true
is_paid _ = false

abbrev pub is_failed_final : OpState → Bool
is_failed_final OpState.failed_final = true
is_failed_final _ = false

abbrev pub is_signing : OpState → Bool
is_signing OpState.signing = true
is_signing _ = false
