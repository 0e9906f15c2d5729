-- ===== src/AccessQuota/Spending.antt =====
-- The access budget bounds what is reserved and spent.
use ln_church_agent.Common.{
  arith, ℕ, Bool, ◌≡◌, Option, not, ◌+◌, is_none, true, ◌||◌, false, none, if-holds, refl,
  if◌then◌else◌,
}
use ln_church_agent.AccessQuota.Types.{AccessPolicy, AccessOperation, Exchange, Code}
use ln_church_agent.AccessQuota.Account.{
  reserve, reserved_atomic, sign, spent_atomic, assign, reserve_and_sign,
}
use Prim.Native.Nat.{◌≤◌}
use ln_church_agent.Common.Outcome.{done, Outcome, ◌>>◌, raised, resume}
use ln_church_agent.Common.Dict.{get, total-put, get-put_self}

-- what is reserved and spent stays within the budget
pub record IsWithinBudget (s : AccessPolicy) : Type 0 where
  pub within : reserved_atomic s + spent_atomic s ≤ s.budget_atomic

-- the purchase is reserved, or spent
abbrev pub is_covered : ℕ → AccessPolicy → Bool
is_covered pid s = not (is_none (get pid s.reserved)) || not (is_none (get pid s.spent))

reserve-IsWithinBudget :
    (pid : ℕ) (s : AccessPolicy)
    → IsWithinBudget s
    → IsWithinBudget (reserve pid s).1
      × ((u : Unit {0}) → (reserve pid s).0 ≡ done u → is_covered pid (reserve pid s).1 ≡ true)
unfolding reserve
reserve-IsWithinBudget pid s h =
    let t = total-put (λ n. n) pid 10000 s.reserved in
    let g = get-put_self pid 10000 s.reserved in
    (ground (arith, h.within, t), λ u e. ground (arith, e, g))

-- the accounts of two states are the same
pub record SameAccounts (s s' : AccessPolicy) : Type 0 where
  pub same_budget : s'.budget_atomic ≡ s.budget_atomic
  pub same_reserved : s'.reserved ≡ s.reserved
  pub same_spent : s'.spent ≡ s.spent

module _ (make_proof : AccessOperation → Option ℕ) where
  sign-SameAccounts :
      (r : ℕ) (c : Exchange) (s : AccessPolicy) → SameAccounts s (sign make_proof r c s).1
  unfolding sign assign
  sign-SameAccounts r c s = ground arith

  sign-IsWithinBudget :
      (r : ℕ) (c : Exchange) (s : AccessPolicy)
      → IsWithinBudget s
      → IsWithinBudget (sign make_proof r c s).1
  sign-IsWithinBudget r c s h =
      let a = sign-SameAccounts r c s in
      record { within = rw (a.same_budget, a.same_reserved, a.same_spent) (h.within) }

  sign-covers :
      (r : ℕ) (c : Exchange) (pid : ℕ) (s : AccessPolicy)
      → is_covered pid s ≡ true
      → is_covered pid (sign make_proof r c s).1 ≡ true
  sign-covers r c pid s h =
      let a = sign-SameAccounts r c s in rw (a.same_reserved, a.same_spent) (h)

  sign-done :
      (r : ℕ) (c : Exchange) (s : AccessPolicy) (u : Unit {0})
      → (sign make_proof r c s).0 ≡ done u
      → is_none ((sign make_proof r c s).1.store r).proof ≡ false
        × (((sign make_proof r c s).1.store r).terms ≡ (s.store r).terms)
  unfolding sign assign
  sign-done r c s u e = ground (arith, e)

-- the operation that a reference stands for is signed, and its purchase is covered
pub record IsSignedCovered (r : ℕ) (s : AccessPolicy) : Type 0 where
  pub is_signed : is_none (s.store r).proof ≡ false
  pub covers : is_covered (s.store r).terms.purchase_id s ≡ true

-- a method that signs has kept the budget, and has signed if it returned
abbrev pub IsSpendingEnd : ℕ → Outcome Code (Unit {0}) × AccessPolicy → Type 0
IsSpendingEnd r (o, s) = IsWithinBudget s × ((u : Unit {0}) → o ≡ done u → IsSignedCovered r s)

raised-end :
    (r : ℕ) (code : Code) (s : AccessPolicy) → IsWithinBudget s → IsSpendingEnd r (raised code, s)
raised-end r code s h = (h, λ u e. ground (arith, e))

reserve-store : (pid : ℕ) (s : AccessPolicy) → (reserve pid s).1.store ≡ s.store
unfolding reserve
reserve-store pid s = ground arith

module _ (make_proof : AccessOperation → Option ℕ) where
  signed-end :
      (r : ℕ) (c : Exchange) (o : Outcome Code (Unit {0})) (s : AccessPolicy)
      → IsWithinBudget s
      → ((u : Unit {0}) → o ≡ done u → is_covered (s.store r).terms.purchase_id s ≡ true)
      → IsSpendingEnd r (resume (o, s) (λ _. sign make_proof r c))
  signed-end r c (raised code) s h k = raised-end r code s h
  signed-end r c (done u) s h k =
      let s' = (sign make_proof r c s).1 in
      let v = sign-covers make_proof r c (s.store r).terms.purchase_id s (k u refl) in
      (
        sign-IsWithinBudget make_proof r c s h,
        λ u' e.
            let d = sign-done make_proof r c s u' e in
            record { is_signed = d.0; covers = rw d.1 v },
      )

  -- An unsigned operation is signed within the budget: if what is reserved and spent was within it
  -- before, it is so after, also where the method raises; and where it returns, the operation has a
  -- proof and its purchase is reserved or spent.
  pub reserve_and_sign-IsWithinBudget :
      (r : ℕ) (c : Exchange) (s : AccessPolicy)
      → (s.store r).proof ≡ none
      → IsWithinBudget s
      → IsSpendingEnd r (reserve_and_sign make_proof r c s)
  unfolding reserve_and_sign
  reserve_and_sign-IsWithinBudget r c s n h =
      let pid = (s.store r).terms.purchase_id in
      let s1 = (reserve pid s).1 in
      let (w, k) = reserve-IsWithinBudget pid s h in
      let whole = (reserve pid >> sign make_proof r c) s in
      let pending : Outcome Code (Unit {0}) × AccessPolicy = (raised Code.access_pending, s) in
      let refused : Outcome Code (Unit {0}) × AccessPolicy = (raised Code.required, s) in
      let e : IsSpendingEnd r whole =
        signed-end r c (reserve pid s).0 s1 w (rw (reserve-store pid s) (k)) in
      let late =
        if-holds (IsSpendingEnd r) c.late_reserve pending whole
          (raised-end r Code.access_pending s h) e in
      rw n (
        if-holds (IsSpendingEnd r) (not s.allow || not s.has_signer) refused
          (if c.late_reserve then pending else whole) (raised-end r Code.required s h) late)
