-- ===== src/AccessQuota/Account.antt =====
-- Reservation, signing and the accounting of responses (ln_church_agent/access_quota.py,
-- `_reserve_and_sign` and `_observe`). The signer, with the checks of what it signed, is the
-- parameter `make_proof`.
use Prim.Native.Nat.{ℕ}
use ln_church_agent.Common.Outcome.{Method, raised, done, ◌>>◌}
use ln_church_agent.AccessQuota.Types.{
  AccessStatus, AccessCode, AccessPolicy, AccessOperation, Reply, Code, Exchange, OpState, is_paid,
  is_failed_final,
}
use ln_church_agent.Common.{
  Option, if◌then◌else◌, Bool, ◌==◌, is_none, not, leb, ◌&&◌, ◌||◌, none, some, ltb, ◌∷◌, false,
  ◌+◌, true,
}
use ln_church_agent.Common.Dict.{total, Dict, get, put, remove}

abbrev pub PolicyMethod : Type 0 → Type 0
PolicyMethod A = Method AccessPolicy Code A

abbrev pub AnyMethod : Type 0
AnyMethod = PolicyMethod (Unit {0})

-- `self.reserved_atomic` and `self.spent_atomic`
abbrev pub reserved_atomic : AccessPolicy → ℕ
reserved_atomic s = total (λ n. n) s.reserved

abbrev pub spent_atomic : AccessPolicy → ℕ
spent_atomic s = total (λ n. n) s.spent

-- the store after an assignment to fields of one operation
unfoldable pub assign : ℕ → AccessOperation → AccessPolicy → AccessPolicy
assign r op s = record s { store = λ j. if j == r then op else s.store j }

-- `d.setdefault(k, v)`
unfoldable pub set_default : ℕ → ℕ → Dict ℕ → Dict ℕ
set_default k v d = if is_none (get k d) then put k v d else d

-- the reservation in `_reserve_and_sign`
unfoldable pub reserve : ℕ → AnyMethod
reserve pid s =
    if not (is_none (get pid s.reserved)) || not (is_none (get pid s.spent))
    then (done tt, s)
    else if ltb s.budget_atomic (reserved_atomic s + spent_atomic s + 10000)
    then (raised Code.budget_exceeded, s)
    else (done tt, record s { reserved = put pid 10000 s.reserved })

module _ (make_proof : AccessOperation → Option ℕ) where
  -- the operation after the signer ran, or failed
  abbrev pub with_proof : AccessOperation → AccessOperation
  with_proof op = elim (make_proof op) [
    | none ↦ record op { state = OpState.signing }
    | some proof ↦ record op { proof = some proof; state = OpState.prepared }
  ]

  -- the signing in `_reserve_and_sign`
  unfoldable pub sign : ℕ → Exchange → AnyMethod
  unfolding assign
  sign r c s =
      let op = s.store r in
      if leb op.terms.expires_at c.now_sign || c.late_sign
      then (raised Code.signing_failed, assign r (record op { state = OpState.signing }) s)
      else let s' = assign r (with_proof op) (record s { signed = r ∷ s.signed }) in
        if is_none (make_proof op) then (raised Code.signing_failed, s') else (done tt, s')

  -- `_reserve_and_sign`
  unfoldable pub reserve_and_sign : ℕ → Exchange → AnyMethod
  unfolding reserve sign
  reserve_and_sign r c s =
      let op = s.store r in
      if not (is_none op.proof)
      then (done tt, s)
      else if not s.allow || not s.has_signer
      then (raised Code.required, s)
      else if c.late_reserve
      then (raised Code.access_pending, s)
      else (reserve op.terms.purchase_id >> sign r c) s

-- `bool(receipt or (access and envelope.get('status') == 'PAID'))`
abbrev pub says_paid : Reply → Bool
says_paid reply =
    not (is_none reply.receipt)
    || (reply.access && elim reply.access_status [ AccessStatus.status_paid ↦ true | _ ↦ false ])

abbrev pub says_failed_final : Reply → Bool
says_failed_final reply =
    reply.access && elim reply.access_status [ AccessStatus.status_failed_final ↦ true | _ ↦ false ]

-- `self._reserved.pop(pid, 10000)`
abbrev pub popped : ℕ → Dict ℕ → ℕ
popped pid d = elim (get pid d) [ none ↦ 10000 | some n ↦ n ]

-- the spend of a purchase that a response says is paid
unfoldable pub book_paid : ℕ → Reply → AccessPolicy → AccessPolicy
unfolding assign set_default
book_paid r reply s =
    let op = s.store r in
    let pid = op.terms.purchase_id in
    if says_paid reply && not (is_none op.proof)
    then assign r (record op { state = OpState.paid })
        (record s {
          spent = set_default pid (popped pid s.reserved) s.spent;
          reserved = remove pid s.reserved;
        })
    else s

unfoldable pub keep_receipt : ℕ → Reply → AccessPolicy → AccessPolicy
keep_receipt pid reply s = elim reply.receipt [
  | none ↦ s
  | some receipt ↦ record s { receipts = put pid receipt s.receipts }
]

-- the release of a purchase that the server ended
unfoldable pub book_failed : ℕ → Reply → AccessPolicy → AccessPolicy
unfolding assign
book_failed r reply s =
    let op = s.store r in
    if says_failed_final reply && not (is_paid op.state)
    then assign r (record op { state = OpState.failed_final })
        (record s { reserved = remove op.terms.purchase_id s.reserved })
    else s

-- the code of the error that an access envelope raises
abbrev pub mapped : Option OpState → Reply → Code
mapped st reply = elim reply.code [
  | AccessCode.code_expired ↦ Code.result_expired
  | AccessCode.code_unavailable ↦ Code.result_unavailable
  | AccessCode.code_failed_final ↦ elim st [
    | none ↦ Code.access_pending
    | some st ↦ if is_failed_final st then Code.access_failed_final else Code.access_pending
  ]
  | AccessCode.code_conflict ↦ Code.conflict
  | AccessCode.code_other ↦ if reply.status == 202 then Code.access_pending else Code.unavailable
]

abbrev pub names_other : ℕ → Reply → Bool
names_other pid reply =
    reply.access && elim reply.purchase_id [ none ↦ false | some q ↦ not (q == pid) ]

-- `_observe` without an operation
unfoldable pub observe_reply : Reply → AnyMethod
observe_reply reply s = if reply.access then (raised (mapped none reply), s) else (done tt, s)

-- `_observe` of an operation
unfoldable pub observe : ℕ → Reply → AnyMethod
unfolding book_paid keep_receipt book_failed
observe r reply s =
    let pid = (s.store r).terms.purchase_id in
    if names_other pid reply
    then (raised Code.conflict, s)
    else let s' = book_failed r reply (keep_receipt pid reply (book_paid r reply s)) in
      if reply.access then (raised (mapped (some (s'.store r).state) reply), s') else (done tt, s')
