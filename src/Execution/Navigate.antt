-- ===== src/Execution/Navigate.antt =====
-- Where a request may go: `_check_local_policy`, `_initialize_navigation_state`,
-- `_claim_navigation_target` and `_resolve_navigation` of `Payment402Client`
-- (ln_church_agent/client.py).
use ln_church_agent.Common.{
  ℕ, Bool, not, ◌&&◌, ◌||◌, Option, none, some, [], ◌∷◌, ◌+◌, ◌==◌, leb, true, false, if◌then◌else◌,
  List,
}
use ln_church_agent.Common.Lists.{contains}
use ln_church_agent.Common.Outcome.{done, raised, raise_if, ◌>>◌}
use ln_church_agent.Execution.Types.{
  Location, Verb, is_safe_method, Settings, Navigation, Stop, Run,
}

-- `validate_redirect_target(...).url`: the canonical form, written as it is sent
abbrev pub canonical_location : Location → Location
canonical_location t = record t { netloc = t.authority }

-- `target_netloc not in allowed`, of a policy that names allowed hosts
abbrev pub outside : ℕ → Option (List ℕ) → Bool
outside a none = false
outside a (some hosts) = not (contains a hosts)

-- the local policy lets requests to the target through
abbrev pub is_allowed : Settings → Location → Bool
is_allowed cfg t =
    not (contains t.netloc cfg.blocked_hosts) && not (outside t.netloc cfg.policy_hosts)

unfoldable pub check_local_policy : Settings → Location → Run
check_local_policy cfg t = do
  raise_if (contains t.netloc cfg.blocked_hosts) Stop.policy_violation
  raise_if (outside t.netloc cfg.policy_hosts) Stop.policy_violation

abbrev pub or_else : Navigation → Option Navigation → Navigation
or_else n none = n
or_else n (some m) = m

-- `setdefault(fingerprint, {"visited": {canonical}, "hops": 0})`
unfoldable pub initialize_navigation_state : ℕ → Run
initialize_navigation_state url w =
    let fresh : Navigation = record { visited = url ∷ []; hops = 0 } in
    (done tt, record w { navigation = some (or_else fresh w.navigation) })

-- the entry after a claim, and how the claim ends
abbrev pub claim_in : Settings → ℕ → Navigation → Option Stop × Navigation
claim_in cfg url n =
    if contains url n.visited
    then (some Stop.loop_detected, n)
    else if leb cfg.max_hops n.hops
    then (some Stop.hop_limit, n)
    else (none, record { visited = url ∷ n.visited; hops = n.hops + 1 })

abbrev claimed : Option Stop × Navigation → Run
claimed (none, n) w = (done tt, record w { navigation = some n })
claimed (some e, n) w = (raised e, record w { navigation = some n })

unfoldable pub claim_navigation_target : Settings → ℕ → Run
claim_navigation_target cfg url w =
    let fresh : Navigation = record { visited = []; hops = 0 } in
    claimed (claim_in cfg url (or_else fresh w.navigation)) w

abbrev pub is_cross_origin : Location → Location → Bool
is_cross_origin old new =
    not (same_scheme old.is_https new.is_https)
    || not (old.host == new.host)
    || not (old.port == new.port)
  where
    same_scheme : Bool → Bool → Bool
    same_scheme true b = b
    same_scheme false b = not b

-- the checks of `_resolve_navigation` before the claim
unfoldable pub check_navigation : Settings → Verb → Bool → Location → Location → Run
unfolding check_local_policy
check_navigation cfg verb is_redirect old new = do
  raise_if (not new.is_valid) Stop.invalid_target
  raise_if (old.is_https && not new.is_https) Stop.downgrade
  raise_if
      (is_cross_origin old new
        && not (contains new.authority cfg.hinted_hosts)
        && not cfg.allow_unsafe_navigate)
      Stop.cross_origin
  raise_if (is_redirect && not (is_safe_method verb)) Stop.unsafe_redirect
  check_local_policy cfg (canonical_location new)

-- `_resolve_navigation`
unfoldable pub resolve_navigation : Settings → Verb → Bool → Location → Location → Run
unfolding check_navigation claim_navigation_target
resolve_navigation cfg verb is_redirect old new = do
  check_navigation cfg verb is_redirect old new
  claim_navigation_target cfg new.canonical
