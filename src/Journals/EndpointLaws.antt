-- ===== src/Journals/EndpointLaws.antt =====
-- What the histories of an endpoint choice journal keep.
use Prim.Native.Nat.{ℕ}
use ln_church_agent.Journals.Endpoint.{
  EndpointFile, EndpointCall, EndpointRules, endpoint_change, prepare_claimed, save_credential,
  run_endpoint, endpoint_recorded, prepare_endpoint, endpoint_rejected, prepare_credential,
  dispatch_endpoint, result_endpoint, abandon_endpoint, credential_saved, endpoint_prepared,
  validate_endpoint, endpoint_abandoned, endpoint_claim_begun, endpoint_dispatched,
  endpoint_accepted, endpoint_other,
}
use ln_church_agent.Common.{◌||◌, Bool, ◌≡◌, Option, List, true, some, not, arith, ◌∷◌, none, []}
use ln_church_agent.Common.Outcome.{done}
use ln_church_agent.Journals.Stored.{Stored, rewrite_file, rewrite_file-keeps}
use ln_church_agent.Common.Lists.{all}

abbrev Keeps : (EndpointFile → Type 0) → EndpointRules → EndpointCall → Type 0
Keeps P rules call =
    (d d' : EndpointFile) → endpoint_change rules call d ≡ done (some d') → P d → P d'

-- the completion of this report was accepted, or it is not known whether it was
pub record IsHeld (r : ℕ) (d : EndpointFile) : Type 0 where
  pub is_held : (d.accepted || d.completion_unknown) ≡ true
  pub has_report : d.report ≡ some r

-- a definite rejection lets an unaccepted report go
abbrev pub holds_on : EndpointCall → Bool
holds_on (endpoint_recorded (endpoint_rejected code) first_definite) = not first_definite
holds_on _ = true

module _ (rules : EndpointRules) where
  module _ (r : ℕ) where
    prepare_claimed-keeps :
        (q : ℕ) (correction : Bool) (claim : ℕ) (d d' : EndpointFile)
        → prepare_claimed rules q correction claim d ≡ done (some d')
        → IsHeld r d
        → IsHeld r d'
    unfolding prepare_claimed
    prepare_claimed-keeps q correction claim d d' u h = ground (arith, u, h.is_held, h.has_report)

    prepare_credential-keeps :
        (q : ℕ) (correction : Bool) (claim : Option ℕ) (d d' : EndpointFile)
        → prepare_credential rules q correction claim d ≡ done (some d')
        → IsHeld r d
        → IsHeld r d'
    prepare_credential-keeps q correction none d d' u h = ground (arith, u)
    prepare_credential-keeps q correction (some claim) d d' u h =
        prepare_claimed-keeps q correction claim d d' u h

    held-kept : (call : EndpointCall) → holds_on call ≡ true → Keeps (IsHeld r) rules call
    unfolding save_credential prepare_endpoint dispatch_endpoint result_endpoint abandon_endpoint
    held-kept endpoint_claim_begun l d d' u h = ground (arith, u, h.is_held, h.has_report)
    held-kept (credential_saved claim) l d d' u h = ground (arith, u, h.is_held, h.has_report)
    held-kept (endpoint_prepared q correction) l d d' u h =
        prepare_credential-keeps q correction d.credential d d' u h
    held-kept endpoint_dispatched l d d' u h = ground (arith, u, h.is_held, h.has_report)
    held-kept (endpoint_recorded endpoint_accepted first_definite) l d d' u h =
        ground (arith, u, h.is_held, h.has_report)
    held-kept (endpoint_recorded endpoint_other first_definite) l d d' u h =
        ground (arith, u, h.is_held, h.has_report)
    held-kept (endpoint_recorded (endpoint_rejected code) first_definite) l d d' u h =
        ground (arith, u, l, h.is_held, h.has_report)
    held-kept (endpoint_abandoned key) l d d' u h = ground (arith, u, h.is_held, h.has_report)

  -- While a posted report is accepted, or may be, that is until a result that is the first definite
  -- one rejects it, no call replaces the report, whatever faults the writes meet.
  pub run_endpoint-IsHeld :
      (calls : List EndpointCall) (w : Stored EndpointFile) (r : ℕ)
      → all holds_on calls ≡ true
      → IsHeld r w.file
      → IsHeld r (run_endpoint rules calls w).file
  unfolding run_endpoint
  run_endpoint-IsHeld [] w r l h = h
  run_endpoint-IsHeld (call ∷ rest) w r l h =
      run_endpoint-IsHeld rest
        (rewrite_file (validate_endpoint rules) (endpoint_change rules call) w).1 r
        (ground (arith, l))
        (rewrite_file-keeps (IsHeld r) (validate_endpoint rules) (endpoint_change rules call) w
          (λ d v u. held-kept r call (ground (arith, l)) w.file d u h) h)
