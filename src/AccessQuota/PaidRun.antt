-- ===== src/AccessQuota/PaidRun.antt =====
-- A paid purchase along every history of calls.
use ln_church_agent.Common.{
  arith, ℕ, Option, List, ◌∷◌, ◌≡◌, Option-cases, Bool, none, inl, ◌⊎◌, [], inr, if◌then◌else◌,
  is_none, not, ◌&&◌, ◌||◌, leb, some,
}
use ln_church_agent.AccessQuota.Exchange.{
  exchange, proceed, follow, start, is_readonly, pay, admit, code_of, renew, begin_with,
  read_conflict, send,
}
use ln_church_agent.AccessQuota.Types.{
  AccessOperation, AccessPolicy, Exchange, Reply, Code, is_signing, is_failed_final, Extra,
}
use ln_church_agent.AccessQuota.Account.{sign, reserve, reserve_and_sign, assign, PolicyMethod}
use ln_church_agent.AccessQuota.Paid.{
  IsSettled, pay-Settled, admit-Settled, renew-Settled, send-Settled,
}
use ln_church_agent.Common.Outcome.{
  ◌>>◌, if-keeps, bind-keeps, raised, when-keeps, raise, Outcome, when◌run◌otherwise◌,
}
use ln_church_agent.Common.Dict.{get}

-- a history of calls
unfoldable pub run_exchanges :
    (AccessOperation → Option ℕ) → List Exchange → AccessPolicy → AccessPolicy
unfolding exchange
run_exchanges make_proof [] s = s
run_exchanges make_proof (c ∷ cs) s = run_exchanges make_proof cs (exchange make_proof c s).1

module _ (make_proof : AccessOperation → Option ℕ) (pid amount r proof : ℕ) where
  abbrev Kept : AccessPolicy → Type 0
  Kept = IsSettled pid amount r proof

  sign-Settled :
      (q : ℕ) (c : Exchange) (s : AccessPolicy)
      → (s.store q).proof ≡ none
      → Kept s
      → Kept (sign make_proof q c s).1
  unfolding sign assign
  sign-Settled q c s n h = ground (arith, n, h.known, h.is_booked, h.has_proof, h.has_state)

  reserve-Settled :
      (pid : ℕ) (s : AccessPolicy)
      → Kept s
      → Kept (reserve pid s).1 × ((reserve pid s).1.store ≡ s.store)
  unfolding reserve
  reserve-Settled p s h = ground (arith, h.known, h.is_booked, h.has_proof, h.has_state)

  reserve_then_sign :
      (q : ℕ) (c : Exchange) (s : AccessPolicy)
      → (s.store q).proof ≡ none
      → Kept s
      → Kept ((reserve (s.store q).terms.purchase_id >> sign make_proof q c) s).1
  reserve_then_sign q c s n h =
      let p = (s.store q).terms.purchase_id in
      let o = reserve-Settled p s h in
      bind-keeps Kept (reserve p) (λ _. sign make_proof q c) s o.0
        (λ _ e. sign-Settled q c (reserve p s).1 (ground (arith, n, o.1)) o.0)

  reserve_and_sign-Settled :
      (q : ℕ) (c : Exchange) (s : AccessPolicy)
      → Kept s
      → Kept (reserve_and_sign make_proof q c s).1
  unfolding reserve_and_sign
  reserve_and_sign-Settled q c s h =
      let m = reserve (s.store q).terms.purchase_id >> sign make_proof q c in
      let pending : Outcome Code (Unit {0}) × AccessPolicy = (raised Code.access_pending, s) in
      let required : Outcome Code (Unit {0}) × AccessPolicy = (raised Code.required, s) in
      let late : Outcome Code (Unit {0}) × AccessPolicy =
        if c.late_reserve then (raised Code.access_pending, s) else m s in
      elim (Option-cases (s.store q).proof) [
        | inl n ↦
            let k : Kept late.1 =
              if-keeps Kept c.late_reserve pending (m s) h (reserve_then_sign q c s n h) in
            rw n (if-keeps Kept (not s.allow || not s.has_signer) required late h k)
        | inr (v, e) ↦ ground (arith, e, h)
      ]

  proceed-Settled :
      (c : Exchange) (ro : Bool) (q : ℕ) (s : AccessPolicy)
      → Kept s
      → Kept (proceed make_proof c ro q s).1
  unfolding proceed
  proceed-Settled c ro q s h =
      let op = s.store q in
      let e = pay-Settled pid amount r proof c ro q in
      let m : PolicyMethod Reply = reserve_and_sign make_proof q c >> pay c ro q in
      let unsigned =
        is_none op.proof
        && (ro || not s.allow || not s.has_signer || leb op.terms.expires_at c.now_required) in
      let m1 : PolicyMethod Reply = when ro run pay c ro q otherwise m in
      let m2 : PolicyMethod Reply = when unsigned run renew c ro q otherwise m1 in
      let m3 : PolicyMethod Reply =
        when is_signing op.state run raise Code.signing_failed otherwise m2 in
      let m4 : PolicyMethod Reply =
        when is_failed_final op.state run raise Code.access_failed_final otherwise m3 in
      let k : Kept (m s).1 =
        bind-keeps Kept (reserve_and_sign make_proof q c) (λ _. pay c ro q) s
          (reserve_and_sign-Settled q c s h)
          (λ _ _. e (reserve_and_sign make_proof q c s).1 (reserve_and_sign-Settled q c s h)) in
      let k1 = when-keeps Kept ro (pay c ro q) m s (e s h) k in
      let k2 =
        when-keeps Kept unsigned (renew c ro q) m1 s (renew-Settled pid amount r proof c ro q s h)
          k1 in
      let k3 = when-keeps Kept (is_signing op.state) (raise Code.signing_failed) m2 s h k2 in
      let k4 =
        when-keeps Kept (is_failed_final op.state) (raise Code.access_failed_final) m3 s h k3 in
      when-keeps Kept (not (is_none op.result_error)) (raise (code_of op.result_error)) m4 s h k4

  follow-Settled :
      (c : Exchange) (x : Reply ⊎ ℕ) (s : AccessPolicy) → Kept s → Kept (follow make_proof c x s).1
  unfolding follow
  follow-Settled c (inl reply) s h = h
  follow-Settled c (inr q) s h = proceed-Settled c (is_readonly make_proof c) q s h

  begin_with-Settled :
      (c : Exchange) (known : Option ℕ) (s : AccessPolicy)
      → Kept s
      → Kept (begin_with make_proof c known s).1
  unfolding begin_with
  begin_with-Settled c none s h =
      let ro = is_readonly make_proof c in
      let o = admit-Settled pid amount r proof c ro s h in
      bind-keeps Kept (admit c ro) (follow make_proof c) s o
        (λ x _. follow-Settled c x (admit c ro s).1 o)
  begin_with-Settled c (some q) s h = proceed-Settled c (is_readonly make_proof c) q s h

  exchange-Settled : (c : Exchange) (s : AccessPolicy) → Kept s → Kept (exchange make_proof c s).1
  unfolding exchange start
  exchange-Settled c s h =
      let m1 : PolicyMethod Reply =
        when read_conflict make_proof c s run raise Code.conflict otherwise start make_proof c in
      let m2 : PolicyMethod Reply = when c.late_start run raise Code.access_pending otherwise m1 in
      let k1 =
        when-keeps Kept (read_conflict make_proof c s) (raise Code.conflict) (start make_proof c) s
          h (begin_with-Settled c (get c.digest s.operations) s h) in
      let k2 = when-keeps Kept c.late_start (raise Code.access_pending) m1 s h k1 in
      when-keeps Kept (not c.is_eligible) (send Extra.plain c.first) m2 s
        (send-Settled pid amount r proof Extra.plain c.first s h) k2

  -- Once a purchase is paid, no history of calls and responses changes its state, its proof or the
  -- amount booked for it.
  pub run_exchanges-IsSettled :
      (cs : List Exchange) (s : AccessPolicy)
      → IsSettled pid amount r proof s
      → IsSettled pid amount r proof (run_exchanges make_proof cs s)
  unfolding run_exchanges
  run_exchanges-IsSettled [] s h = h
  run_exchanges-IsSettled (c ∷ cs) s h =
      run_exchanges-IsSettled cs (exchange make_proof c s).1 (exchange-Settled c s h)
