-- ===== src/AccessQuota/Exchange.antt =====
-- `_exchange` and `finish_failed` (ln_church_agent/access_quota.py), a call at a time: the locks
-- make the calls for one operation wait for each other.
use ln_church_agent.Common.{
  ℕ, Option, Bool, if◌then◌else◌, true, ◌&&◌, ◌||◌, ◌⊎◌, leb, false, ltb, is_none, not, some, ◌∷◌,
  opt_eq, inl, none, ◌==◌, suc, inr,
}
use ln_church_agent.AccessQuota.Types.{
  Challenge, OpState, Extra, AccessPolicy, Exchange, Code, AccessOperation, Terms, Reply, is_paid,
  OpState, is_failed_final, is_signing,
}
use ln_church_agent.AccessQuota.Account.{
  assign, observe_reply, observe, AnyMethod, set_default, PolicyMethod, reserve_and_sign,
}
use ln_church_agent.Common.Dict.{remove, get, put}
use ln_church_agent.Common.Outcome.{
  raised, when◌run◌otherwise◌, ◌>>=◌, done, raise, pure, ◌>>◌, modify, Outcome,
}

-- `send`: the request is recorded, and an exception stands for no response
unfoldable pub send : Extra → Option Reply → PolicyMethod Reply
send extra none s = (raised Code.transport, record s { sent = extra ∷ s.sent })
send extra (some reply) s = (done reply, record s { sent = extra ∷ s.sent })

-- `self._operations.pop(digest, None)`
unfoldable pub forget_operation : ℕ → AccessPolicy → AccessPolicy
forget_operation digest s = record s { operations = remove digest s.operations }

-- the installation of a first challenge: the operation that the digest then has
unfoldable pub install : Exchange → Terms → PolicyMethod ℕ
unfolding assign set_default
install c terms s =
    let taken : Bool = elim (get terms.purchase_id s.purchases) [
      | none ↦ false
      | some q ↦ not ((s.store q).digest == c.digest)
    ] in
    let op : AccessOperation = record {
      digest = c.digest;
      terms = terms;
      proof = none;
      state = OpState.challenged;
      result_error = none;
    } in
    let s' = assign s.next op (record s { next = suc s.next }) in
    let operations = set_default c.digest s.next s.operations in
    let r : ℕ = elim (get c.digest operations) [ none ↦ s.next | some r ↦ r ] in
    if taken then (raised Code.conflict, s) else (
      done r,
      record s' {
        operations = operations;
        purchases = set_default (s'.store r).terms.purchase_id r s.purchases;
      },
    )

unfoldable pub admit_challenge : Exchange → Bool → Reply → Challenge → PolicyMethod (Reply ⊎ ℕ)
unfolding observe_reply install
admit_challenge c readonly reply Challenge.bad_challenge = raise Code.access_invalid
admit_challenge c readonly reply Challenge.no_challenge = observe_reply reply >> pure (inl reply)
admit_challenge c readonly reply (Challenge.candidate terms) =
    when readonly run raise Code.access_pending otherwise install c terms >>= (λ r. pure (inr r))

-- a first response without an operation: the response, or the operation that it starts
unfoldable pub admit_reply : Exchange → Bool → Reply → PolicyMethod (Reply ⊎ ℕ)
unfolding admit_challenge
admit_reply c readonly reply =
    when ltb c.maximum_body reply.size
    run raise Code.access_invalid
    otherwise admit_challenge c readonly reply reply.challenge

unfoldable pub admit : Exchange → Bool → PolicyMethod (Reply ⊎ ℕ)
unfolding send admit_reply
admit c readonly =
    send (if readonly then Extra.claim_recovery else Extra.plain) c.first >>= admit_reply c readonly

-- the replacement of the terms of an unsigned operation
unfoldable pub replace_terms : ℕ → Terms → AccessPolicy → AccessPolicy
unfolding assign
replace_terms r terms s =
    let op = s.store r in
    assign r (record op { terms = terms })
      (record s { purchases = put terms.purchase_id r (remove op.terms.purchase_id s.purchases) })

unfoldable pub renew_challenge : Exchange → ℕ → Reply → Challenge → PolicyMethod Reply
unfolding observe_reply replace_terms forget_operation
renew_challenge c r reply Challenge.bad_challenge = raise Code.access_invalid
renew_challenge c r reply Challenge.no_challenge =
    observe_reply reply >> (modify (forget_operation c.digest) >> pure reply)
renew_challenge c r reply (Challenge.candidate terms) =
    modify (replace_terms r terms) >> raise Code.required

unfoldable pub renew_reply : Exchange → ℕ → Reply → PolicyMethod Reply
unfolding renew_challenge
renew_reply c r reply = renew_challenge c r reply reply.challenge

-- an unsigned operation that cannot be signed now
unfoldable pub renew : Exchange → Bool → ℕ → PolicyMethod Reply
unfolding send renew_reply
renew c readonly r s =
    let terms = (s.store r).terms in
    let expired = leb terms.reset_at c.now_reset || leb terms.expires_at c.now_expired in
    (when not readonly && expired && not c.late_renew
        run send Extra.plain c.renewal >>= renew_reply c r
        otherwise raise Code.required)
      s

abbrev pub is_result_error : Code → Bool
is_result_error Code.result_expired = true
is_result_error Code.result_unavailable = true
is_result_error _ = false

-- `if self._operations.get(digest) is op: del self._operations[digest]`
unfoldable pub forget_same : ℕ → ℕ → AccessPolicy → AccessPolicy
unfolding forget_operation
forget_same digest r s =
    if opt_eq (get digest s.operations) (some r) then forget_operation digest s else s

-- the end of a GET whose saved result is gone
unfoldable pub retire : Exchange → ℕ → Code → AccessPolicy → AccessPolicy
unfolding assign forget_same
retire c r code s =
    let op = s.store r in
    if c.is_get && is_paid op.state && is_result_error code
    then forget_same c.digest r (assign r (record op { result_error = some code }) s)
    else s

-- after `_observe`, which returned or raised
unfoldable pub settle_observed : Exchange → ℕ → Reply → Outcome Code (Unit {0}) → PolicyMethod Reply
unfolding retire forget_operation
settle_observed c r reply (raised code) s = (raised code, retire c r code s)
settle_observed c r reply (done _) s =
    if not (is_paid (s.store r).state)
    then (raised Code.access_pending, s)
    else (done reply, forget_operation c.digest s)

-- the last response
unfoldable pub settle_reply : Exchange → ℕ → Reply → PolicyMethod Reply
unfolding observe settle_observed
settle_reply c r reply s =
    if ltb c.maximum_body reply.size
    then (raised Code.access_pending, s)
    else let o = observe r reply s in settle_observed c r reply o.0 o.1

-- the response to the request for an operation, or none
unfoldable pub await_reply : Exchange → ℕ → Option Reply → PolicyMethod Reply
unfolding settle_reply
await_reply c r none s = (raised Code.access_pending, s)
await_reply c r (some reply) s = settle_reply c r reply s

-- the operation and the record of requests when the request for the operation is sent
unfoldable pub dispatch : Bool → ℕ → AccessPolicy → AccessPolicy
unfolding assign
dispatch readonly r s =
    let op = s.store r in
    let state = if is_paid op.state then OpState.paid else OpState.pending in
    let extra = if readonly then Extra.access_recovery r else Extra.payment r op.proof in
    assign r (record op { state = state }) (record s { sent = extra ∷ s.sent })

-- the request for an operation
unfoldable pub pay : Exchange → Bool → ℕ → PolicyMethod Reply
unfolding dispatch await_reply
pay c readonly r s =
    if c.late_send
    then (raised Code.access_pending, s)
    else await_reply c r c.final (dispatch readonly r s)

-- the recorded error; the default is never used
abbrev pub code_of : Option Code → Code
code_of none = Code.access_invalid
code_of (some code) = code

module _ (make_proof : AccessOperation → Option ℕ) where
  -- the part of `_exchange` under the lock of an operation
  unfoldable pub proceed : Exchange → Bool → ℕ → PolicyMethod Reply
  unfolding renew reserve_and_sign pay
  proceed c readonly r s =
      let op = s.store r in
      let unsigned =
        is_none op.proof
        && (readonly
            || not s.allow
            || not s.has_signer
            || leb op.terms.expires_at c.now_required) in
      (when not (is_none op.result_error)
          run raise (code_of op.result_error)
          otherwise when is_failed_final op.state
          run raise Code.access_failed_final
          otherwise when is_signing op.state
          run raise Code.signing_failed
          otherwise when unsigned
          run renew c readonly r
          otherwise when readonly
          run pay c readonly r
          otherwise (reserve_and_sign make_proof r c >> pay c readonly r))
        s

  -- the operation that `read_only` allows, or any
  abbrev pub read_conflict : Exchange → AccessPolicy → Bool
  read_conflict c s = elim c.read_id [
    | none ↦ false
    | some pid ↦ elim (get c.digest s.operations) [
      | none ↦ true
      | some r ↦ not ((s.store r).terms.purchase_id == pid)
    ]
  ]

  abbrev pub is_readonly : Exchange → Bool
  is_readonly c = c.readonly || not (is_none c.read_id)

  -- after a first response: it is returned, or the operation goes on
  unfoldable pub follow : Exchange → Reply ⊎ ℕ → PolicyMethod Reply
  unfolding proceed
  follow c (inl reply) = pure reply
  follow c (inr r) = proceed c (is_readonly c) r

  -- with the operation that the request has, or with a first request
  unfoldable pub begin_with : Exchange → Option ℕ → PolicyMethod Reply
  unfolding admit follow proceed
  begin_with c none = admit c (is_readonly c) >>= follow c
  begin_with c (some r) = proceed c (is_readonly c) r

  unfoldable pub start : Exchange → PolicyMethod Reply
  unfolding begin_with
  start c s = begin_with c (get c.digest s.operations) s

  -- `_exchange`
  unfoldable pub exchange : Exchange → PolicyMethod Reply
  unfolding send start
  exchange c s =
      (when not c.is_eligible
          run send Extra.plain c.first
          otherwise when c.late_start
          run raise Code.access_pending
          otherwise when read_conflict c s
          run raise Code.conflict
          otherwise start c)
        s

-- `finish_failed`
unfoldable pub finish_failed : ℕ → AnyMethod
unfolding forget_same
finish_failed pid s = elim (get pid s.purchases) [
  | none ↦ (raised Code.conflict, s)
  | some r ↦
      let op = s.store r in
      if not (is_failed_final op.state)
      then (raised Code.conflict, s)
      else (done tt, forget_same op.digest r s)
]
