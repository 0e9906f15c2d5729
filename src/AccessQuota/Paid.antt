-- ===== src/AccessQuota/Paid.antt =====
-- A paid purchase stays paid, with its proof and its spend.
use ln_church_agent.Common.{
  arith, ℕ, ◌<◌, Bool, ◌≡◌, some, ltb, Option, none, if◌then◌else◌, inl, inr,
}
use ln_church_agent.AccessQuota.Types.{
  AccessPolicy, Reply, Exchange, Code, OpState, Extra, Terms, Challenge,
}
use ln_church_agent.AccessQuota.Account.{
  book_paid, book_failed, keep_receipt, observe, assign, set_default, popped, observe_reply, mapped,
}
use ln_church_agent.AccessQuota.Exchange.{
  retire, forget_operation, settle_reply, pay, forget_same, settle_observed, await_reply, dispatch,
  replace_terms, renew_reply, send, renew, renew_challenge, install, admit_challenge, admit,
  admit_reply,
}
use ln_church_agent.Common.Dict.{get, get-put}
use ln_church_agent.Common.Outcome.{
  Outcome, raised, done, if-keeps, when-keeps, ◌>>=◌, raise, bind-keeps, modify, pure, ◌>>◌,
}

-- the operation at the reference is paid by this proof, and its purchase is booked as this spend
pub record IsSettled (pid amount r proof : ℕ) (s : AccessPolicy) : Type 0 where
  pub known : r < s.next
  pub is_booked : get pid s.spent ≡ some amount
  pub has_proof : (s.store r).proof ≡ some proof
  pub has_state : (s.store r).state ≡ OpState.paid

module _ (pid amount r proof : ℕ) where
  abbrev pub Settled : AccessPolicy → Type 0
  Settled = IsSettled pid amount r proof

  book_paid-Settled :
      (q : ℕ) (reply : Reply) (s : AccessPolicy) → Settled s → Settled (book_paid q reply s)
  unfolding book_paid assign set_default
  book_paid-Settled q reply s h =
      let op = s.store q in
      let g = get-put op.terms.purchase_id pid (popped op.terms.purchase_id s.reserved) s.spent in
      ground (arith, h.known, h.is_booked, h.has_proof, h.has_state, g)

  book_failed-Settled :
      (q : ℕ) (reply : Reply) (s : AccessPolicy) → Settled s → Settled (book_failed q reply s)
  unfolding book_failed assign
  book_failed-Settled q reply s h = ground (arith, h.known, h.is_booked, h.has_proof, h.has_state)

  keep_receipt-Settled :
      (q : ℕ) (reply : Reply) (s : AccessPolicy) → Settled s → Settled (keep_receipt q reply s)
  unfolding keep_receipt
  keep_receipt-Settled q reply s h = ground (arith, h.known, h.is_booked, h.has_proof, h.has_state)

  observe-Settled :
      (q : ℕ) (reply : Reply) (s : AccessPolicy) → Settled s → Settled (observe q reply s).1
  unfolding observe
  observe-Settled q reply s h =
      let p = (s.store q).terms.purchase_id in
      let k = keep_receipt-Settled p reply (book_paid q reply s) (book_paid-Settled q reply s h) in
      let f = book_failed-Settled q reply (keep_receipt p reply (book_paid q reply s)) k in
      ground (arith, h, f)

  retire-Settled :
      (c : Exchange) (q : ℕ) (code : Code) (s : AccessPolicy)
      → Settled s
      → Settled (retire c q code s)
  unfolding retire assign forget_same forget_operation
  retire-Settled c q code s h = ground (arith, h.known, h.is_booked, h.has_proof, h.has_state)

  forget-Settled : (d : ℕ) (s : AccessPolicy) → Settled s → Settled (forget_operation d s)
  unfolding forget_operation
  forget-Settled d s h = ground (arith, h.known, h.is_booked, h.has_proof, h.has_state)

  settle_observed-Settled :
      (c : Exchange) (q : ℕ) (reply : Reply) (o : Outcome Code (Unit {0})) (s : AccessPolicy)
      → Settled s
      → Settled (settle_observed c q reply o s).1
  unfolding settle_observed
  settle_observed-Settled c q reply (raised code) s h = retire-Settled c q code s h
  settle_observed-Settled c q reply (done u) s h =
      let f = forget-Settled c.digest s h in ground (arith, h, f)

  settle_reply-Settled :
      (c : Exchange) (q : ℕ) (reply : Reply) (s : AccessPolicy)
      → Settled s
      → Settled (settle_reply c q reply s).1
  unfolding settle_reply
  settle_reply-Settled c q reply s h =
      let o = observe q reply s in
      if-keeps Settled (ltb c.maximum_body reply.size) (raised Code.access_pending, s)
        (settle_observed c q reply o.0 o.1) h
        (settle_observed-Settled c q reply o.0 o.1 (observe-Settled q reply s h))

  await_reply-Settled :
      (c : Exchange) (q : ℕ) (reply : Option Reply) (s : AccessPolicy)
      → Settled s
      → Settled (await_reply c q reply s).1
  unfolding await_reply
  await_reply-Settled c q none s h = h
  await_reply-Settled c q (some reply) s h = settle_reply-Settled c q reply s h

  dispatch-Settled : (ro : Bool) (q : ℕ) (s : AccessPolicy) → Settled s → Settled (dispatch ro q s)
  unfolding dispatch assign
  dispatch-Settled ro q s h = ground (arith, h.known, h.is_booked, h.has_proof, h.has_state)

  pub pay-Settled :
      (c : Exchange) (ro : Bool) (q : ℕ) (s : AccessPolicy) → Settled s → Settled (pay c ro q s).1
  unfolding pay
  pay-Settled c ro q s h =
      if-keeps Settled c.late_send (raised Code.access_pending, s)
        (await_reply c q c.final (dispatch ro q s)) h
        (await_reply-Settled c q c.final (dispatch ro q s) (dispatch-Settled ro q s h))

  replace_terms-Settled :
      (q : ℕ) (terms : Terms) (s : AccessPolicy) → Settled s → Settled (replace_terms q terms s)
  unfolding replace_terms assign
  replace_terms-Settled q terms s h = ground (arith, h.known, h.is_booked, h.has_proof, h.has_state)

  observe_reply-Settled :
      (reply : Reply) (s : AccessPolicy) → Settled s → Settled (observe_reply reply s).1
  unfolding observe_reply
  observe_reply-Settled reply s h =
      if-keeps Settled reply.access (raised (mapped none reply), s) (done tt, s) h h

  renew_challenge-Settled :
      (c : Exchange) (q : ℕ) (reply : Reply) (challenge : Challenge) (s : AccessPolicy)
      → Settled s
      → Settled (renew_challenge c q reply challenge s).1
  unfolding renew_challenge
  renew_challenge-Settled c q reply Challenge.bad_challenge s h = h
  renew_challenge-Settled c q reply Challenge.no_challenge s h =
      let o = observe_reply-Settled reply s h in
      bind-keeps Settled (observe_reply reply)
        (λ _. modify (forget_operation c.digest) >> pure reply) s o
        (λ _ e. forget-Settled c.digest (observe_reply reply s).1 o)
  renew_challenge-Settled c q reply (Challenge.candidate terms) s h =
      replace_terms-Settled q terms s h

  renew_reply-Settled :
      (c : Exchange) (q : ℕ) (reply : Reply) (s : AccessPolicy)
      → Settled s
      → Settled (renew_reply c q reply s).1
  unfolding renew_reply
  renew_reply-Settled c q reply s h = renew_challenge-Settled c q reply reply.challenge s h

  pub send-Settled :
      (extra : Extra) (reply : Option Reply) (s : AccessPolicy)
      → Settled s
      → Settled (send extra reply s).1
  unfolding send
  send-Settled extra none s h = ground (arith, h.known, h.is_booked, h.has_proof, h.has_state)
  send-Settled extra (some reply) s h =
      ground (arith, h.known, h.is_booked, h.has_proof, h.has_state)

  pub renew-Settled :
      (c : Exchange) (ro : Bool) (q : ℕ) (s : AccessPolicy) → Settled s → Settled (renew c ro q s).1
  unfolding renew
  renew-Settled c ro q s h =
      when-keeps Settled _ (send Extra.plain c.renewal >>= renew_reply c q) (raise Code.required) s
        (bind-keeps Settled (send Extra.plain c.renewal) (renew_reply c q) s
          (send-Settled Extra.plain c.renewal s h)
          (λ reply e.
            renew_reply-Settled c q reply (send Extra.plain c.renewal s).1
              (send-Settled Extra.plain c.renewal s h)))
        h

  install-Settled :
      (c : Exchange) (terms : Terms) (s : AccessPolicy) → Settled s → Settled (install c terms s).1
  unfolding install assign
  install-Settled c terms s h = ground (arith, h.known, h.is_booked, h.has_proof, h.has_state)

  admit_challenge-Settled :
      (c : Exchange) (ro : Bool) (reply : Reply) (challenge : Challenge) (s : AccessPolicy)
      → Settled s
      → Settled (admit_challenge c ro reply challenge s).1
  unfolding admit_challenge
  admit_challenge-Settled c ro reply Challenge.bad_challenge s h = h
  admit_challenge-Settled c ro reply Challenge.no_challenge s h =
      let o = observe_reply-Settled reply s h in
      bind-keeps Settled (observe_reply reply) (λ _. pure (inl reply)) s o (λ _ e. o)
  admit_challenge-Settled c ro reply (Challenge.candidate terms) s h =
      let o = install-Settled c terms s h in
      when-keeps Settled ro (raise Code.access_pending) (install c terms >>= (λ r. pure (inr r))) s
        h (bind-keeps Settled (install c terms) (λ r. pure (inr r)) s o (λ _ e. o))

  pub admit-Settled :
      (c : Exchange) (ro : Bool) (s : AccessPolicy) → Settled s → Settled (admit c ro s).1
  unfolding admit admit_reply
  admit-Settled c ro s h =
      let extra = if ro then Extra.claim_recovery else Extra.plain in
      let o = send-Settled extra c.first s h in
      let s' = (send extra c.first s).1 in
      bind-keeps Settled (send extra c.first) (admit_reply c ro) s o (λ reply e.
        when-keeps Settled _ (raise Code.access_invalid)
          (admit_challenge c ro reply reply.challenge) s' o
          (admit_challenge-Settled c ro reply reply.challenge s' o))
