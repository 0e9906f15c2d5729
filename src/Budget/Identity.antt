-- ===== src/Budget/Identity.antt =====
-- Payment identities: registration is all or nothing, and an identity never moves.
use Prim.Native.Nat.{ℕ}
use ln_church_agent.Budget.Resolve.{bind_all, register_payment_identity, is_taken}
use ln_church_agent.Common.{
  List, ◌≡◌, if◌then◌else◌, false, some, true, ◌⊎◌, ◌∷◌, arith, Bool-cases, [], inl, inr, refl,
}
use ln_church_agent.Common.Dict.{Dict, get, put, get-put}
use ln_church_agent.Budget.Types.{Context, Error}
use ln_church_agent.Common.Lists.{any, contains}
use ln_church_agent.Common.Outcome.{raised, done}

get-bind_all :
    (fp : ℕ) (ids : List ℕ) (d : Dict ℕ) (i : ℕ)
    → get i (bind_all fp ids d) ≡ (if contains i ids then some fp else get i d)
unfolding bind_all
get-bind_all fp [] d i = refl
get-bind_all fp (x ∷ ids) d i = ground (arith, get-bind_all fp ids (put x fp d) i, get-put x i fp d)

-- Where no listed identity is taken, a listed one is free or already bound to the operation.
free_of_untaken :
    (fp : ℕ) (ids : List ℕ) (d : Dict ℕ) (i g : ℕ)
    → any (λ j. is_taken fp (get j d)) ids ≡ false
    → contains i ids ≡ true
    → get i d ≡ some g
    → g ≡ fp
free_of_untaken fp [] d i g h c e = ground arith
free_of_untaken fp (x ∷ ids) d i g h c e = ground (arith, free_of_untaken fp ids d i g, e)

-- A registration either raises and leaves the context as it is, or binds every listed identity to
-- the operation and leaves the others alone; in both cases an identity that was bound keeps its
-- operation.
pub register_payment_identity_lem :
    (fp : ℕ) (ids : List ℕ) (c : Context)
    → let (r, c') = register_payment_identity fp ids c in
      ((r ≡ raised Error.identity_reused) × (c' ≡ c)
        ⊎ (r ≡ done tt)
          × ((i : ℕ)
              → get i c'.payment_identities
                ≡ (if contains i ids then some fp else get i c.payment_identities)))
      × ((i g : ℕ) → get i c.payment_identities ≡ some g → get i c'.payment_identities ≡ some g)
unfolding register_payment_identity
register_payment_identity_lem fp ids c =
    elim (Bool-cases (any (λ j. is_taken fp (get j c.payment_identities)) ids)) [
      | inl taken ↦ rw taken (inl (refl, refl), λ i g e. e)
      | inr free ↦ rw free (
        inr (refl, get-bind_all fp ids c.payment_identities),
        λ i g e. ground (
          arith,
          get-bind_all fp ids c.payment_identities i,
          free_of_untaken fp ids c.payment_identities i g free,
        ),
      )
    ]
