-- ===== src/Execution/Types.antt =====
-- What an execution of `Payment402Client` (ln_church_agent/client.py) works on: the settings of the
-- client, the replies of servers, and the objects that the execution changes.
--
-- Hosts, ports, authorities and canonical URLs are only compared, so they are numbers. What the
-- code reads off a URL, a response or a payment adapter that this model leaves open is a field of
-- the target or of the challenge, with any value.
use ln_church_agent.Common.{ℕ, Bool, true, false, Option, none, List}
use ln_church_agent.Common.Dict.{Dict}
use ln_church_agent.Common.Outcome.{Method}
use ln_church_agent.Budget.Types.{Session, Quoted, Error}

-- An absolute URL: the canonical form, the form with the query of the payload, the origin, the
-- authority of the canonical form, which is the one that is sent and names no default port, the
-- host and port as the URL is written, which policies name, whether `validate_redirect_target`
-- accepts it, and whether its path is that of a paid result.
pub record Location : Type 0 where
  pub canonical : ℕ
  pub wire : ℕ
  pub host : ℕ
  pub port : ℕ
  pub authority : ℕ
  pub netloc : ℕ
  pub is_https : Bool
  pub is_valid : Bool
  pub is_paid_path : Bool

-- The method of a request, in upper case; `no_method` is "NONE".
pub data Verb : Type 0 where
  get_method head_method no_method other_method : Verb

abbrev pub is_get : Verb → Bool
is_get Verb.get_method = true
is_get _ = false

-- `method.upper() in ("GET", "HEAD")`
abbrev pub is_safe_method : Verb → Bool
is_safe_method Verb.get_method = true
is_safe_method Verb.head_method = true
is_safe_method _ = false

-- `NextAction`, by what the navigation reads of it
pub record NextAction : Type 0 where
  pub verb : Verb
  pub url : Option Location

-- What `_http_response_error` and `_resolve_next_action` read of a response: whether the error has
-- a code, and the next action.
pub record Body : Type 0 where
  pub has_code : Bool
  pub next_action : Option NextAction

-- A 402 response, and what each step of answering it would do.
pub record Demand : Type 0 where
  pub demand_code : Bool
  -- `_parse_challenge` returns; every evaluator trusts; the approval, the capture and the preflight
  -- of the requirement return
  pub is_parsed : Bool
  pub is_trusted : Bool
  pub is_approved : Bool
  pub usd_value : Quoted
  pub is_exact : Bool
  pub is_x402 : Bool
  -- `_process_payment` marks the attempt as irreversible; it returns; its report says that a
  -- payment was performed
  pub is_irreversible : Bool
  pub is_processed : Bool
  pub is_performed : Bool
  -- the approved snapshot is unchanged; the receipt is made, with its settlement verified
  pub is_unchanged : Bool
  pub is_receipted : Bool
  pub is_verified : Bool

-- What a request brings back. A success says whether the result can be read, whether its receipt
-- proves the settlement, and whether the outcome matcher returns; an error of the server with a
-- code says the same of its receipt.
pub data Reply : Type 0 where
  unreachable : Reply
  redirect : Option Location → Body → Reply
  coded_error : Bool → Reply
  success : Bool → Bool → Bool → Reply
  payment_required : Demand → Reply
  other_status : Body → Reply

-- the settings of the client and the hints of the context
pub record Settings : Type 0 where
  pub max_hops : ℕ
  pub max_payment_retries : ℕ
  pub auto_navigate : Bool
  pub allow_unsafe_navigate : Bool
  pub blocked_hosts : List ℕ
  pub policy_hosts : Option (List ℕ)
  pub hinted_hosts : List ℕ

-- an entry of `context._navigation_states`
pub record Navigation : Type 0 where
  pub visited : List ℕ
  pub hops : ℕ

-- `SettlementReceipt`, by what the execution reads of it
pub record Receipt : Type 0 where
  pub is_exact_scheme : Bool
  pub payment_performed : Bool
  pub settlement_verified : Bool

-- The client and the context: the ledger, the entry of the navigation states under the fingerprint,
-- the requests that were sent (the last one first), the receipt objects, and the number of payment
-- attempts that were marked irreversible. `is_starved` says that the model's fuel was used up.
pub record Agent : Type 0 where
  pub session : Session
  pub navigation : Option Navigation
  pub sent : List Location
  pub receipts : Dict Receipt
  pub next_receipt : ℕ
  pub attempts : ℕ
  pub is_starved : Bool

-- The exceptions of an execution.
pub data Stop : Type 0 where
  ledger_error : Error → Stop
  policy_violation invalid_target downgrade cross_origin unsafe_redirect unsafe_navigation : Stop
  loop_detected hop_limit redirects_disabled : Stop
  transport_failed ambiguous_transport exact_redirected exact_unconfirmed : Stop
  server_code unreadable unmatched http_error out_of_fuel : Stop
  retries_exceeded challenge_refused untrusted : Stop
  not_approved not_processed snapshot_changed no_receipt : Stop
  credential_delivery_failed settlement_unknown ambiguous_result : Stop

-- The arguments of a call of `_execute_detailed_internal` that change between calls.
pub record Frame : Type 0 where
  pub verb : Verb
  pub target : Location
  pub hop : ℕ
  pub retry : ℕ
  pub current_receipt : Option ℕ

abbrev pub Run : Type 0
Run = Method Agent Stop (Unit {0})

-- The local variables of the `try` statement around a payment.
pub record Attempt : Type 0 where
  pub irreversible_attempt_started : Bool
  pub credential_generated : Bool
  pub credential_only : Bool
  pub credential_reused : Bool
  pub payment_completed : Bool
  pub session_budget_reserved : Bool
  pub receipt : Option ℕ

abbrev pub new_attempt : Attempt
new_attempt = record {
  irreversible_attempt_started = false;
  credential_generated = false;
  credential_only = false;
  credential_reused = false;
  payment_completed = false;
  session_budget_reserved = false;
  receipt = none;
}

-- the state of the `try` statement
pub record Paying : Type 0 where
  pub agent : Agent
  pub attempt : Attempt
