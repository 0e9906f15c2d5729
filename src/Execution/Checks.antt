-- ===== src/Execution/Checks.antt =====
-- What the checks of a navigation leave and allow, and the count of its hops.
use ln_church_agent.Common.{
  Bool, ℕ, ◌≡◌, arith, none, ◌⊎◌, ◌≤◌, some, suc, true, ◌<◌, false, ◌&&◌, not,
}
use ln_church_agent.Execution.Navigate.{
  check_local_policy, check_navigation, resolve_navigation, claim_navigation_target, is_allowed,
  is_cross_origin, canonical_location,
}
use ln_church_agent.Execution.Types.{Agent, Settings, Stop, Location, Verb, Run, is_safe_method}
use ln_church_agent.Common.Outcome.{Method, done, raise_if, ◌>>◌}
use ln_church_agent.Common.Lists.{contains}

guard_done :
    {S A : Type 0} (b : Bool) (e : Stop) (m : Method S Stop A) (s : S) (a : A)
    → ((raise_if b e >> m) s).0 ≡ done a
    → (m s).0 ≡ done a
guard_done true e m s a h = ground (arith, h)
guard_done false e m s a h = h

pub check_local_policy-same :
    (cfg : Settings) (t : Location) (s : Agent) → (check_local_policy cfg t s).1 ≡ s
unfolding check_local_policy
check_local_policy-same cfg t s = ground arith

-- A target that passes the policy is one that it allows.
pub check_local_policy-allows :
    (cfg : Settings) (t : Location) (s : Agent) (u : Unit {0})
    → (check_local_policy cfg t s).0 ≡ done u
    → is_allowed cfg t ≡ true
unfolding check_local_policy
check_local_policy-allows cfg t s u h = ground (arith, h)

check_navigation-same :
    (cfg : Settings) (v : Verb) (r : Bool) (old new : Location) (s : Agent)
    → (check_navigation cfg v r old new s).1 ≡ s
unfolding check_navigation
check_navigation-same cfg v r old new s =
    ground (arith, check_local_policy-same cfg (canonical_location new) s)

check_navigation-allows :
    (cfg : Settings) (v : Verb) (r : Bool) (old new : Location) (s : Agent) (u : Unit {0})
    → (check_navigation cfg v r old new s).0 ≡ done u
    → is_allowed cfg (canonical_location new) ≡ true
unfolding check_navigation
check_navigation-allows cfg v r old new s u h =
    let m4 : Run = check_local_policy cfg (canonical_location new) in
    let m3 : Run = raise_if (r && not (is_safe_method v)) Stop.unsafe_redirect >> m4 in
    let b =
      is_cross_origin old new
      && not (contains new.authority cfg.hinted_hosts)
      && not cfg.allow_unsafe_navigate in
    let m2 : Run = raise_if b Stop.cross_origin >> m3 in
    let m1 : Run = raise_if (old.is_https && not new.is_https) Stop.downgrade >> m2 in
    let h1 = guard_done (not new.is_valid) Stop.invalid_target m1 s u h in
    let h2 = guard_done (old.is_https && not new.is_https) Stop.downgrade m2 s u h1 in
    let h3 = guard_done b Stop.cross_origin m3 s u h2 in
    let h4 = guard_done (r && not (is_safe_method v)) Stop.unsafe_redirect m4 s u h3 in
    check_local_policy-allows cfg (canonical_location new) s u h4

-- So is one that a navigation resolves.
pub resolve_navigation-allows :
    (cfg : Settings) (v : Verb) (r : Bool) (old new : Location) (s : Agent) (u : Unit {0})
    → (resolve_navigation cfg v r old new s).0 ≡ done u
    → is_allowed cfg (canonical_location new) ≡ true
unfolding resolve_navigation
resolve_navigation-allows cfg v r old new s u h =
    ground (arith, check_navigation-allows cfg v r old new s tt, h)

-- the hops that the entry of the navigation states counts
abbrev pub hops_of : Agent → ℕ
hops_of w = elim w.navigation [ none ↦ 0 | some n ↦ n.hops ]

-- only the entry of the navigation states differs
abbrev pub IsNavigated : Agent → Agent → Type 0
IsNavigated s s' = s' ≡ record s { navigation = s'.navigation }

claim-IsNavigated :
    (cfg : Settings) (url : ℕ) (s : Agent) → IsNavigated s (claim_navigation_target cfg url s).1
unfolding claim_navigation_target
claim-IsNavigated cfg url s = ground arith

claim-hops :
    (cfg : Settings) (url : ℕ) (s : Agent)
    → (hops_of (claim_navigation_target cfg url s).1 ≡ hops_of s)
      ⊎ ((hops_of (claim_navigation_target cfg url s).1 ≡ suc (hops_of s))
          × (hops_of s < cfg.max_hops))
unfolding claim_navigation_target
claim-hops cfg url s = ground arith

claim-done :
    (cfg : Settings) (url : ℕ) (s : Agent) (u : Unit {0})
    → (claim_navigation_target cfg url s).0 ≡ done u
    → (hops_of (claim_navigation_target cfg url s).1 ≡ suc (hops_of s)) × (hops_of s < cfg.max_hops)
unfolding claim_navigation_target
claim-done cfg url s u h = ground (arith, h)

module _ (cfg : Settings) (v : Verb) (r : Bool) (old new : Location) (s : Agent) where
  -- A navigation changes nothing but its entry.
  pub resolve_navigation-IsNavigated : IsNavigated s (resolve_navigation cfg v r old new s).1
  unfolding resolve_navigation
  resolve_navigation-IsNavigated =
      ground (arith, check_navigation-same cfg v r old new s, claim-IsNavigated cfg new.canonical s)

  -- One that is let through counts one hop more, below the limit.
  pub resolve_navigation-done :
      (u : Unit {0})
      → (resolve_navigation cfg v r old new s).0 ≡ done u
      → (hops_of (resolve_navigation cfg v r old new s).1 ≡ suc (hops_of s))
        × (hops_of s < cfg.max_hops)
  unfolding resolve_navigation
  resolve_navigation-done u h =
      ground (arith, check_navigation-same cfg v r old new s, claim-done cfg new.canonical s u, h)

  -- No navigation lowers the count.
  pub resolve_navigation-hops : hops_of s ≤ hops_of (resolve_navigation cfg v r old new s).1
  unfolding resolve_navigation
  resolve_navigation-hops =
      ground (arith, check_navigation-same cfg v r old new s, claim-hops cfg new.canonical s)
