-- ===== src/Reader/LineEnd.antt =====
-- The end of the first line, in a part of the bytes and in all of them.
use Prim.Native.Nat.{ℕ, suc, zero}
use ln_church_agent.Reader.Line.{line_end, one_later}
use ln_church_agent.Common.{
  Option, Bool, List, some, ◌==◌, ◌≡◌, ◌&&◌, true, false, none, arith, ◌++◌, ◌≤◌, ◌∷◌, refl,
  if-cases, Bool-cases, ◌<◌, inl, ◌∙◌, sym, ap, inr, subst, [],
}
use ln_church_agent.Common.Lists.{length, take}

abbrev ends_here : ℕ → ℕ → Bool
ends_here x y = x == 13 && y == 10

line_end-hit : (x y : ℕ) (ys : List ℕ) → ends_here x y ≡ true → line_end (x ∷ y ∷ ys) ≡ some 2
unfolding line_end
line_end-hit x y ys h =
    if-cases (λ o. o ≡ some 2) (ends_here x y) (some 2) (one_later (line_end (y ∷ ys))) (λ _. refl)
      (λ e. ground (arith, e, h))

line_end-miss :
    (x y : ℕ) (ys : List ℕ)
    → ends_here x y ≡ false
    → line_end (x ∷ y ∷ ys) ≡ one_later (line_end (y ∷ ys))
unfolding line_end
line_end-miss x y ys h =
    if-cases (λ o. o ≡ one_later (line_end (y ∷ ys))) (ends_here x y) (some 2)
      (one_later (line_end (y ∷ ys))) (λ e. ground (arith, e, h)) (λ _. refl)

one_later-some :
    (o : Option ℕ) (k : ℕ) → one_later o ≡ some k → (j : ℕ) × (o ≡ some j) × (k ≡ suc j)
one_later-some none k h = ground (arith, h)
one_later-some (some j) k h = (j, refl, ground (arith, h))

one_later-none : (o : Option ℕ) → one_later o ≡ none → o ≡ none
one_later-none none h = refl
one_later-none (some j) h = ground (arith, h)

some-eq : (j k : ℕ) → some j ≡ some k → j ≡ k
some-eq j k h = ground (arith, h)

-- More bytes do not change the end of the first line.
pub line_end-append : (xs ys : List ℕ) (k : ℕ) → line_end xs ≡ some k → line_end (xs ++ ys) ≡ some k
unfolding line_end
line_end-append [] ys k h = ground (arith, h)
line_end-append (x ∷ []) ys k h = ground (arith, h)
line_end-append (x ∷ y ∷ xs) ys k h = elim (Bool-cases (ends_here x y)) [
  | inl e ↦ line_end-hit x y (xs ++ ys) e ∙ (sym (line_end-hit x y xs e) ∙ h)
  | inr e ↦
      let (j, r, s) = one_later-some (line_end (y ∷ xs)) k (sym (line_end-miss x y xs e) ∙ h) in
      line_end-miss x y (xs ++ ys) e
      ∙ ap one_later (line_end-append (y ∷ xs) ys j r)
      ∙ ap some (sym s)
]

-- The first line stands in the bytes, and it is a line by itself.
pub line_end-take :
    (xs : List ℕ) (k : ℕ) → line_end xs ≡ some k → (k ≤ length xs) × (line_end (take k xs) ≡ some k)
unfolding line_end
line_end-take [] k h = ground (arith, h)
line_end-take (x ∷ []) k h = ground (arith, h)
line_end-take (x ∷ y ∷ xs) k h = elim (Bool-cases (ends_here x y)) [
  | inl e ↦
      let t : 2 ≡ k = some-eq 2 k (sym (line_end-hit x y xs e) ∙ h) in
      subst (λ n. (n ≤ length (x ∷ y ∷ xs)) × (line_end (take n (x ∷ y ∷ xs)) ≡ some n)) t
        (omega arith, line_end-hit x y [] e)
  | inr e ↦
      let (j, r, s) = one_later-some (line_end (y ∷ xs)) k (sym (line_end-miss x y xs e) ∙ h) in
      let (l, t) = line_end-take (y ∷ xs) j r in
      subst (λ n. (n ≤ length (x ∷ y ∷ xs)) × (line_end (take n (x ∷ y ∷ xs)) ≡ some n)) (sym s)
        (omega (arith, l), later_take x y xs j e t)
]
  where
    later_take :
        (x y : ℕ) (xs : List ℕ) (j : ℕ)
        → ends_here x y ≡ false
        → line_end (take j (y ∷ xs)) ≡ some j
        → line_end (take (suc j) (x ∷ y ∷ xs)) ≡ some (suc j)
    later_take x y xs zero e t = ground (arith, t)
    later_take x y xs (suc j) e t = line_end-miss x y (take j xs) e ∙ ap one_later t

none_or_some : (o : Option ℕ) (k : ℕ) → o ≡ none → ¬ (o ≡ some k)
none_or_some o k n h = ground (arith, n, h)

line_end-two : (xs : List ℕ) (k : ℕ) → line_end xs ≡ some k → 2 ≤ k
unfolding line_end
line_end-two [] k h = ground (arith, h)
line_end-two (x ∷ []) k h = ground (arith, h)
line_end-two (x ∷ y ∷ xs) k h = elim (Bool-cases (ends_here x y)) [
  | inl e ↦ let t = some-eq 2 k (sym (line_end-hit x y xs e) ∙ h) in omega (arith, t)
  | inr e ↦
      let (j, r, s) = one_later-some (line_end (y ∷ xs)) k (sym (line_end-miss x y xs e) ∙ h) in
      let ih = line_end-two (y ∷ xs) j r in omega (arith, ih, s)
]

-- A first line that ends later ends after these bytes.
pub line_end-later :
    (xs ys : List ℕ) (k : ℕ) → line_end xs ≡ none → line_end (xs ++ ys) ≡ some k → length xs < k
unfolding line_end
line_end-later [] ys k n h = let two = line_end-two ys k h in omega (arith, two)
line_end-later (x ∷ []) ys k n h = let two = line_end-two (x ∷ ys) k h in omega (arith, two)
line_end-later (x ∷ y ∷ xs) ys k n h = elim (Bool-cases (ends_here x y)) [
  | inl e ↦ absurd (none_or_some (line_end (x ∷ y ∷ xs)) 2 n (line_end-hit x y xs e))
  | inr e ↦
      let m = one_later-none (line_end (y ∷ xs)) (sym (line_end-miss x y xs e) ∙ n) in
      let (j, r, s) =
        one_later-some (line_end (y ∷ (xs ++ ys))) k (sym (line_end-miss x y (xs ++ ys) e) ∙ h) in
      let ih = line_end-later (y ∷ xs) ys j m r in omega (arith, ih, s)
]
