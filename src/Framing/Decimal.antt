-- ===== src/Framing/Decimal.antt =====
-- The comparison of decimal texts is the comparison of the numbers.
-- a further digit does not make a number smaller
use native.Mathlib.Decide.{dec_lt}
use Prim.Native.Nat.{ℕ}
use ln_church_agent.Framing.Fields.{
  text_above, value_from, is_digit, text_value, is_too_large, without_zeros, normalize, limit_text,
  zero_or,
}
use ln_church_agent.Common.{
  List, ◌≤◌, ◌<◌, ◌≡◌, arith, true, ◌∷◌, ltb, [], ◌*◌, ◌+◌, ◌-◌, if-cases, refl, ◌==◌, sym, false,
  ◌∙◌, ap,
}
use ln_church_agent.Common.Lists.{length, all}

value_from-grows : (n : ℕ) (text : List ℕ) → n ≤ value_from n text
value_from-grows n [] = omega arith
value_from-grows n (c ∷ cs) = let g = value_from-grows (n * 10 + (c - 48)) cs in omega (arith, g)

-- the first digit that differs decides
value_from-lt :
    (m n : ℕ) (text other : List ℕ)
    → m < n
    → length text ≡ length other
    → all is_digit text ≡ true
    → value_from m text < value_from n other
value_from-lt m n [] [] l e d = l
value_from-lt m n [] (c ∷ cs) l e d = absurd (omega (arith, e))
value_from-lt m n (c ∷ cs) [] l e d = absurd (omega (arith, e))
value_from-lt m n (c ∷ cs) (b ∷ bs) l e d =
    let k : c ≤ 57 = ground (arith, d) in
    value_from-lt (m * 10 + (c - 48)) (n * 10 + (b - 48)) cs bs (omega (arith, l, k))
      (omega (arith, e)) (ground (arith, d))

digit_above : (c : ℕ) (cs : List ℕ) → all is_digit (c ∷ cs) ≡ true → 48 ≤ c
digit_above c cs d = ground (arith, d)

first_above :
    (n b c : ℕ) (bs cs : List ℕ)
    → length bs ≡ length cs
    → all is_digit (b ∷ bs) ≡ true
    → all is_digit (c ∷ cs) ≡ true
    → b < c
    → value_from n (b ∷ bs) < value_from n (c ∷ cs)
first_above n b c bs cs l d d' h =
    let k = digit_above b bs d in
    value_from-lt (n * 10 + (b - 48)) (n * 10 + (c - 48)) bs cs (omega (arith, h, k)) l
      (ground (arith, d))

differing : (c b x y : ℕ) → (b < c → x < y) → (c < b → y < x) → ¬ (c ≡ b) → ltb b c ≡ ltb x y
differing c b x y h k n = ground (arith, h, k, n)

text_above-value :
    (n : ℕ) (text other : List ℕ)
    → length text ≡ length other
    → all is_digit text ≡ true
    → all is_digit other ≡ true
    → text_above text other ≡ ltb (value_from n other) (value_from n text)
unfolding text_above
text_above-value n [] [] e d d' = ground arith
text_above-value n [] (b ∷ bs) e d d' = absurd (omega (arith, e))
text_above-value n (c ∷ cs) [] e d d' = absurd (omega (arith, e))
text_above-value n (c ∷ cs) (b ∷ bs) e d d' =
    let l : length cs ≡ length bs = omega (arith, e) in
    let dc : all is_digit cs ≡ true = ground (arith, d) in
    let db : all is_digit bs ≡ true = ground (arith, d') in
    let x = value_from n (b ∷ bs) in
    let y = value_from n (c ∷ cs) in
    if-cases (λ o. o ≡ ltb x y) (c == b) (text_above cs bs) (ltb b c)
      (λ h.
        let same : c ≡ b = ground (arith, h) in
        rw same (text_above-value (n * 10 + (b - 48)) cs bs l dc db))
      (λ h.
        differing c b x y (first_above n b c bs cs (sym l) d' d) (first_above n c b cs bs l d d')
          (ground (arith, h)))

value_short :
    (text : List ℕ) → all is_digit text ≡ true → length text < 7 → text_value text < 1000000
value_short [] d l = omega arith
value_short (a ∷ []) d l =
    let v = value_from-lt 0 1 (a ∷ []) (48 ∷ []) (omega arith) refl d in omega (arith, v)
value_short (a ∷ b ∷ []) d l =
    let v = value_from-lt 0 1 (a ∷ b ∷ []) (48 ∷ 48 ∷ []) (omega arith) refl d in omega (arith, v)
value_short (a ∷ b ∷ c ∷ []) d l =
    let v = value_from-lt 0 1 (a ∷ b ∷ c ∷ []) (48 ∷ 48 ∷ 48 ∷ []) (omega arith) refl d in
    omega (arith, v)
value_short (a ∷ b ∷ c ∷ e ∷ []) d l =
    let v = value_from-lt 0 1 (a ∷ b ∷ c ∷ e ∷ []) (48 ∷ 48 ∷ 48 ∷ 48 ∷ []) (omega arith) refl d in
    omega (arith, v)
value_short (a ∷ b ∷ c ∷ e ∷ f ∷ []) d l =
    let v =
      value_from-lt 0 1 (a ∷ b ∷ c ∷ e ∷ f ∷ []) (48 ∷ 48 ∷ 48 ∷ 48 ∷ 48 ∷ []) (omega arith) refl
        d in
    omega (arith, v)
value_short (a ∷ b ∷ c ∷ e ∷ f ∷ g ∷ []) d l =
    let v =
      value_from-lt 0 1 (a ∷ b ∷ c ∷ e ∷ f ∷ g ∷ []) (48 ∷ 48 ∷ 48 ∷ 48 ∷ 48 ∷ 48 ∷ [])
        (omega arith) refl d in
    omega (arith, v)
value_short (a ∷ b ∷ c ∷ e ∷ f ∷ g ∷ h ∷ rest) d l = absurd (omega (arith, l))

value_long : (a : ℕ) (text : List ℕ) → 49 ≤ a → 7 ≤ length text → 10000000 ≤ text_value (a ∷ text)
value_long a [] p l = absurd (omega (arith, l))
value_long a (b ∷ []) p l = absurd (omega (arith, l))
value_long a (b ∷ c ∷ []) p l = absurd (omega (arith, l))
value_long a (b ∷ c ∷ d ∷ []) p l = absurd (omega (arith, l))
value_long a (b ∷ c ∷ d ∷ e ∷ []) p l = absurd (omega (arith, l))
value_long a (b ∷ c ∷ d ∷ e ∷ f ∷ []) p l = absurd (omega (arith, l))
value_long a (b ∷ c ∷ d ∷ e ∷ f ∷ g ∷ []) p l = absurd (omega (arith, l))
value_long a (b ∷ c ∷ d ∷ e ∷ f ∷ g ∷ h ∷ rest) p l =
    let g8 = value_from-grows (text_value (a ∷ b ∷ c ∷ d ∷ e ∷ f ∷ g ∷ h ∷ [])) rest in
    omega (arith, p, g8)

-- the first digit counts, unless it is the only one
abbrev pub IsNormal : List ℕ → Type 0
IsNormal [] = ⊥
IsNormal (c ∷ []) = Unit {0}
IsNormal (c ∷ d ∷ ds) = 49 ≤ c

too_large_short :
    (text : List ℕ)
    → all is_digit text ≡ true
    → length text < 7
    → is_too_large text ≡ ltb 2097152 (text_value text)
unfolding is_too_large
too_large_short text d l =
    let v = value_short text d l in
    let n : ltb 2097152 (text_value text) ≡ false = ground (arith, v) in ground (arith, l, n)

too_large_same :
    (text : List ℕ)
    → all is_digit text ≡ true
    → length text ≡ 7
    → is_too_large text ≡ ltb 2097152 (text_value text)
unfolding is_too_large
too_large_same text d l =
    let v = text_above-value 0 text limit_text l d refl in ground (arith, l, v)

too_large_long :
    (text : List ℕ)
    → IsNormal text
    → 8 ≤ length text
    → is_too_large text ≡ ltb 2097152 (text_value text)
unfolding is_too_large
too_large_long [] n l = absurd n
too_large_long (c ∷ []) n l = absurd (omega (arith, l))
too_large_long (c ∷ d ∷ ds) n l =
    let v = value_long c (d ∷ ds) n (omega (arith, l)) in
    let y : ltb 2097152 (text_value (c ∷ d ∷ ds)) ≡ true = ground (arith, v) in ground (arith, l, y)

-- A normal decimal text is above the limit's text exactly where its number is above the limit.
pub too_large-value :
    (text : List ℕ)
    → IsNormal text
    → all is_digit text ≡ true
    → is_too_large text ≡ ltb 2097152 (text_value text)
too_large-value text n d = elim (dec_lt (length text) 7) [
  | yes s ↦ too_large_short text d s
  | no m ↦ elim (dec_lt 7 (length text)) [
    | yes b ↦ too_large_long text n (omega (arith, b))
    | no k ↦ too_large_same text d (omega (arith, m, k))
  ]
]

value-without_zeros : (text : List ℕ) → text_value (without_zeros text) ≡ text_value text
unfolding without_zeros
value-without_zeros [] = refl
value-without_zeros (c ∷ cs) =
    if-cases (λ t. text_value t ≡ text_value (c ∷ cs)) (c == 48) (without_zeros cs) (c ∷ cs)
      (λ h.
        let z : 0 ≡ 0 * 10 + (c - 48) = ground (arith, h) in
        value-without_zeros cs ∙ ap (λ n. value_from n cs) z)
      (λ _. refl)

-- Leading zeros do not change the number.
pub value-normalize : (text : List ℕ) → text_value (normalize text) ≡ text_value text
value-normalize text = go (without_zeros text) (value-without_zeros text)
  where
    go : (t : List ℕ) → text_value t ≡ text_value text → text_value (zero_or t) ≡ text_value text
    go [] h = h
    go (c ∷ cs) h = h

abbrev HasFirst : List ℕ → Type 0
HasFirst [] = Unit {0}
HasFirst (c ∷ cs) = 49 ≤ c

without_zeros-HasFirst :
    (text : List ℕ)
    → all is_digit text ≡ true
    → HasFirst (without_zeros text) × (all is_digit (without_zeros text) ≡ true)
unfolding without_zeros
without_zeros-HasFirst [] d = (tt, refl)
without_zeros-HasFirst (c ∷ cs) d =
    if-cases (λ t. HasFirst t × (all is_digit t ≡ true)) (c == 48) (without_zeros cs) (c ∷ cs)
      (λ _. without_zeros-HasFirst cs (ground (arith, d))) (λ h. (ground (arith, h, d), d))

pub normalize-IsNormal :
    (text : List ℕ)
    → all is_digit text ≡ true
    → IsNormal (normalize text) × (all is_digit (normalize text) ≡ true)
normalize-IsNormal text d = go (without_zeros text) (without_zeros-HasFirst text d)
  where
    go :
        (t : List ℕ)
        → HasFirst t × (all is_digit t ≡ true)
        → IsNormal (zero_or t) × (all is_digit (zero_or t) ≡ true)
    go [] h = (tt, refl)
    go (c ∷ []) h = (tt, h.1)
    go (c ∷ d ∷ ds) h = h
