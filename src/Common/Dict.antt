-- ===== src/Common/Dict.antt =====
-- A dict whose keys are only compared, as an association list with one entry for a key.
use Prim.Native.Nat.{ℕ, ◌+◌, ◌≤◌}
use mathlib.Core.Path.{◌≡◌, refl}
use mathlib.Core.Logic.{◌≢◌}
use mathlib.Core.List.{List, [], ◌∷◌}
use mathlib.Core.Option.{Option, none, some}
use native.Mathlib.Omega.{arith}
use ln_church_agent.Common.Tests.{◌==◌, if◌then◌else◌}

abbrev pub Dict {ℓ} : Type ℓ → Type ℓ
Dict V = List (ℕ × V)

module _ {ℓ} {V : Type ℓ} where
  -- `d.get(k)`
  unfoldable pub get : ℕ → Dict V → Option V
  get k [] = none
  get k ((j, v) ∷ d) = if k == j then some v else get k d

  -- `d[k] = v`
  unfoldable pub put : ℕ → V → Dict V → Dict V
  put k v [] = (k, v) ∷ []
  put k v ((j, w) ∷ d) = if k == j then (j, v) ∷ d else (j, w) ∷ put k v d

  -- `d.pop(k, None)`
  unfoldable pub remove : ℕ → Dict V → Dict V
  remove k [] = []
  remove k ((j, w) ∷ d) = let rest = remove k d in if k == j then rest else (j, w) ∷ rest

  -- the sum of a number read off each value
  unfoldable pub total : (V → ℕ) → Dict V → ℕ
  total w [] = 0
  total w ((_, v) ∷ d) = w v + total w d

  -- that number at one key, 0 where the key is missing
  abbrev pub at_key : (V → ℕ) → Option V → ℕ
  at_key w none = 0
  at_key w (some v) = w v

  pub get-put :
      (k j : ℕ) (v : V) (d : Dict V) → get j (put k v d) ≡ (if j == k then some v else get j d)
  unfolding get put
  get-put k j v [] = refl
  get-put k j v ((i, w) ∷ d) = ground (arith, get-put k j v d)

  pub get-put_self : (k : ℕ) (v : V) (d : Dict V) → get k (put k v d) ≡ some v
  get-put_self k v d = ground (arith, get-put k k v d)

  pub get-put_ne : (k j : ℕ) (v : V) (d : Dict V) → j ≢ k → get j (put k v d) ≡ get j d
  get-put_ne k j v d h = ground (arith, get-put k j v d)

  pub get-remove : (k j : ℕ) (d : Dict V) → get j (remove k d) ≡ (if j == k then none else get j d)
  unfolding get remove
  get-remove k j [] = ground arith
  get-remove k j ((i, w) ∷ d) = ground (arith, get-remove k j d)

  -- A write replaces the old number at its key by the new one.
  pub total-put :
      (w : V → ℕ) (k : ℕ) (v : V) (d : Dict V)
      → total w (put k v d) + at_key w (get k d) ≡ total w d + w v
  unfolding get put total
  total-put w k v [] = omega arith
  total-put w k v ((i, u) ∷ d) = ground (arith, total-put w k v d)

  -- A removal takes at least the number at the key away.
  pub total-remove :
      (w : V → ℕ) (k : ℕ) (d : Dict V) → total w (remove k d) + at_key w (get k d) ≤ total w d
  unfolding get remove total
  total-remove w k [] = omega arith
  total-remove w k ((i, u) ∷ d) = ground (arith, total-remove w k d)
