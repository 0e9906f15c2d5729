-- ===== src/Grants/Diagnose.antt =====
-- `diagnose_grant_token` (ln_church_agent/grants.py), on a decoded payload.
--
-- Texts are only compared, so they are numbers, and an absent, empty or zero field is `none`.
-- Audiences and the candidates of the base URL stand without their final slashes.
use ln_church_agent.Common.{
  ℕ, Option, Bool, false, true, List, some, none, if◌then◌else◌, ltb, is_none, not, opt_eq, ◌&&◌,
  ◌∷◌, [], ◌==◌,
}
use ln_church_agent.Common.Lists.{contains, any}

-- a subject or an agent id: the text, the text in lower case, and whether it starts with 0x
pub record Subject : Type 0 where
  pub text : ℕ
  pub lower : ℕ
  pub is_hex : Bool

-- the URL that audiences are compared with: whole, its origin, and its host
pub record BaseUrl : Type 0 where
  pub whole : ℕ
  pub origin : ℕ
  pub netloc : ℕ

-- the payload of a token; the audience is the list of its texts, empty if there is none
pub record Grant : Type 0 where
  pub jti : Option ℕ
  pub sub : Option Subject
  pub aud : List (Option ℕ)
  pub exp : Option ℕ
  pub nbf : Option ℕ
  pub routes : List ℕ
  pub methods : List ℕ
  pub asset : Option ℕ

-- what `decode_grant_token` finds in a token
pub data Token : Type 0 where
  no_token not_three_parts undecodable : Token
  decoded : Grant → Token

-- the call that the token is to pay, with `current_time`; `methods` and `method` are upper case
pub record GrantCall : Type 0 where
  pub agent_id : Option Subject
  pub base_url : Option BaseUrl
  pub route : ℕ
  pub method : ℕ
  pub current_time : ℕ

pub data FailureClass : Type 0 where
  missing_grant_token malformed_token payload_decode_failed missing_exp expired : FailureClass
  not_yet_valid missing_jti subject_mismatch missing_audience audience_mismatch : FailureClass
  route_out_of_scope method_out_of_scope missing_asset asset_mismatch : FailureClass

pub data Action : Type 0 where
  use_grant fallback_to_standard_settlement : Action

-- `GrantDiagnostics`, by the fields that the diagnosis decides
pub record Diagnosis : Type 0 where
  pub usable : Bool
  pub failure_class : Option FailureClass
  pub recommended_action : Action

abbrev pub unusable : FailureClass → Diagnosis
unusable failure = record {
  usable = false;
  failure_class = some failure;
  recommended_action = Action.fallback_to_standard_settlement;
}

abbrev pub is_usable : Diagnosis
is_usable = record { usable = true; failure_class = none; recommended_action = Action.use_grant }

-- `GRANT_CREDIT`
abbrev pub grant_credit : ℕ
grant_credit = 1

abbrev pub is_expired : ℕ → Option ℕ → Bool
is_expired now none = false
is_expired now (some exp) = ltb exp now

abbrev pub is_early : ℕ → Option ℕ → Bool
is_early now none = false
is_early now (some nbf) = ltb now nbf

-- `_same_subject`
unfoldable pub same_subject : Option Subject → Option Subject → Bool
same_subject none agent = false
same_subject (some s) none = false
same_subject (some s) (some agent) =
    if s.is_hex && agent.is_hex then s.lower == agent.lower else s.text == agent.text

abbrev pub is_candidate : BaseUrl → Option ℕ → Bool
is_candidate base none = false
is_candidate base (some a) = contains a (base.whole ∷ base.origin ∷ base.netloc ∷ [])

-- `_audience_matches`
unfoldable pub audience_matches : List (Option ℕ) → Option BaseUrl → Bool
audience_matches auds none = false
audience_matches auds (some base) = any (is_candidate base) auds

abbrev pub is_missing : List (Option ℕ) → Bool
is_missing [] = true
is_missing (_ ∷ _) = false

unfoldable pub diagnose_grant : Grant → GrantCall → Diagnosis
unfolding same_subject audience_matches
diagnose_grant g c =
    if is_none g.exp
    then unusable FailureClass.missing_exp
    else if is_expired c.current_time g.exp
    then unusable FailureClass.expired
    else if is_early c.current_time g.nbf
    then unusable FailureClass.not_yet_valid
    else if is_none g.jti
    then unusable FailureClass.missing_jti
    else if not (same_subject g.sub c.agent_id)
    then unusable FailureClass.subject_mismatch
    else if is_missing g.aud
    then unusable FailureClass.missing_audience
    else if not (audience_matches g.aud c.base_url)
    then unusable FailureClass.audience_mismatch
    else if not (contains c.route g.routes)
    then unusable FailureClass.route_out_of_scope
    else if not (contains c.method g.methods)
    then unusable FailureClass.method_out_of_scope
    else if is_none g.asset
    then unusable FailureClass.missing_asset
    else if not (opt_eq g.asset (some grant_credit))
    then unusable FailureClass.asset_mismatch
    else is_usable

-- `diagnose_grant_token`
unfoldable pub diagnose_grant_token : Token → GrantCall → Diagnosis
unfolding diagnose_grant
diagnose_grant_token Token.no_token c = unusable FailureClass.missing_grant_token
diagnose_grant_token Token.not_three_parts c = unusable FailureClass.malformed_token
diagnose_grant_token Token.undecodable c = unusable FailureClass.payload_decode_failed
diagnose_grant_token (Token.decoded g) c = diagnose_grant g c
