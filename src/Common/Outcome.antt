-- ===== src/Common/Outcome.antt =====
-- Methods that change an object and may raise. What was written before a raise stays written, so
-- the state comes back beside the error too.
use mathlib.Core.Path.{◌≡◌, refl}
use mathlib.Core.Logic.{◌⊎◌, inl, inr}
use mathlib.Core.Bool.{Bool, true, false}
use ln_church_agent.Common.Tests.{if◌then◌else◌}

pub data Outcome (E A : Type 0) : Type 0 where
  done : A → Outcome E A
  raised : E → Outcome E A

abbrev pub Method : Type 0 → Type 0 → Type 0 → Type 0
Method S E A = S → Outcome E A × S

module _ {S E : Type 0} where
  abbrev pub pure : {A : Type 0} → A → Method S E A
  pure a s = (done a, s)

  abbrev pub raise : {A : Type 0} → E → Method S E A
  raise e s = (raised e, s)

  abbrev pub gets : {A : Type 0} → (S → A) → Method S E A
  gets f s = (done (f s), s)

  abbrev pub modify : (S → S) → Method S E (Unit {0})
  modify f s = (done tt, f s)

  -- `if b: raise e`
  abbrev pub raise_if : Bool → E → Method S E (Unit {0})
  raise_if true e s = (raised e, s)
  raise_if false e s = (done tt, s)

  infixl 5 ◌>>=◌ ◌>>◌
  abbrev pub ◌>>=◌ : {A B : Type 0} → Method S E A → (A → Method S E B) → Method S E B
  ◌>>=◌ m f s = let (r, s') = m s in elim r [ done a ↦ f a s' | raised e ↦ (raised e, s') ]

  abbrev pub ◌>>◌ : {A B : Type 0} → Method S E A → Method S E B → Method S E B
  ◌>>◌ m k = m >>= λ _. k

  -- `if b: …` and `else: …`, of statements
  infix 1 when◌run◌otherwise◌
  abbrev pub when◌run◌otherwise◌ : {A : Type 0} → Bool → Method S E A → Method S E A → Method S E A
  when◌run◌otherwise◌ b m n s = elim b [ true ↦ m s | false ↦ n s ]

pub Outcome-cases :
    {E A : Type 0} (r : Outcome E A) → ((a : A) × (r ≡ done a)) ⊎ ((e : E) × (r ≡ raised e))
Outcome-cases (done a) = inl (a, refl)
Outcome-cases (raised e) = inr (e, refl)

-- the rest of a method, after a first part that ended so
abbrev pub resume : {S E A B : Type 0} → Outcome E A × S → (A → Method S E B) → Outcome E B × S
resume (r, s) f = elim r [ done a ↦ f a s | raised e ↦ (raised e, s) ]

-- What holds after the first part holds after the whole, where the rest keeps it.
pub bind-keeps :
    {S E A B : Type 0} (P : S → Type 0) (m : Method S E A) (f : A → Method S E B) (s : S)
    → P (m s).1
    → ((a : A) → (m s).0 ≡ done a → P (f a (m s).1).1)
    → P ((m >>= f) s).1
bind-keeps {S} {E} {A} P m f s h k = go (m s).0 h k
  where
    go :
        (r : Outcome E A)
        → P (m s).1
        → ((a : A) → r ≡ done a → P (f a (m s).1).1)
        → P (resume (r, (m s).1) f).1
    go (done a) h k = k a refl
    go (raised e) h k = h

module _ {S E A : Type 0} (P : S → Type 0) where
  pub if-keeps : (b : Bool) (x y : Outcome E A × S) → P x.1 → P y.1 → P (if b then x else y).1
  if-keeps true x y h k = h
  if-keeps false x y h k = k

  pub when-keeps :
      (b : Bool) (m n : Method S E A) (s : S)
      → P (m s).1
      → P (n s).1
      → P ((when b run m otherwise n) s).1
  when-keeps true m n s h k = h
  when-keeps false m n s h k = k

-- What holds of the end of a sequence, in each way in which its first part ends.
pub bind-ends :
    {S E A B : Type 0} (R : Outcome E B × S → Type 0) (m : Method S E A) (f : A → Method S E B)
    (s : S)
    → ((a : A) → (m s).0 ≡ done a → R (f a (m s).1))
    → ((e : E) → (m s).0 ≡ raised e → R (raised e, (m s).1))
    → R ((m >>= f) s)
bind-ends {S} {E} {A} {B} R m f s h k = go (m s).0 h k
  where
    go :
        (r : Outcome E A)
        → ((a : A) → r ≡ done a → R (f a (m s).1))
        → ((e : E) → r ≡ raised e → R (raised e, (m s).1))
        → R (resume (r, (m s).1) f)
    go (done a) h k = h a refl
    go (raised e) h k = k e refl

module _ {S E A : Type 0} (R : Outcome E A × S → Type 0) where
  pub when-ends :
      (b : Bool) (m n : Method S E A) (s : S) → R (m s) → R (n s) → R ((when b run m otherwise n) s)
  when-ends true m n s h k = h
  when-ends false m n s h k = k
