-- ===== src/Execution/KeyLaws.antt =====
-- The idempotency keys that an operation sends, as a function of its first origin and its key.
use Prim.Native.Nat.{ℕ}
use ln_church_agent.Execution.Keys.{
  KeyTable, look_up_keys, begun, logical_and_wire, later_keys, wire_key, with_logical, or_zero,
  initialize_keys, Header, extract_values, key_values, extract_idempotency_key,
}
use ln_church_agent.Common.Dict.{put, get, Dict, get-put}
use ln_church_agent.Common.{
  ◌≡◌, if◌then◌else◌, some, ◌==◌, none, [], ◌⊎◌, arith, refl, Option, false, List, Bool-cases, map,
  inl, ◌∷◌, ==_iff, inr, subst, Bool, sym, not, ◌↔◌, ◌||◌, ◌&&◌, true, ap, ◌∙◌,
}
use ln_church_agent.Common.Outcome.{done}
use ln_church_agent.Common.Lists.{all, any}

-- the key for an origin: the caller's for the first one, a derived one for every other
abbrev pub key_for : (ℕ → ℕ → ℕ) → ℕ → ℕ → ℕ → ℕ
key_for derive key first origin = if origin == first then key else derive key origin

-- the table of an operation that began with this key at this origin
record IsTableOf (derive : ℕ → ℕ → ℕ) (key first : ℕ) (t : KeyTable) : Type 0 where
  logical : t.logical_operation_id ≡ some key
  first_entry : get first t.origin_keys ≡ some key
  entries :
      (o : ℕ)
      → (get o t.origin_keys ≡ none) ⊎ (get o t.origin_keys ≡ some (key_for derive key first o))

module _ (derive : ℕ → ℕ → ℕ) (key first : ℕ) where
  begun-IsTableOf : IsTableOf derive key first (begun key first [])
  unfolding put get
  begun-IsTableOf = record {
    logical = refl;
    first_entry = ground arith;
    entries = λ o. ground arith;
  }

  other_origin :
      (o : ℕ) (d : Dict ℕ) → get o d ≡ none → get first d ≡ some key → (o == first) ≡ false
  other_origin o d h k = elim (Bool-cases (o == first)) [
    | inl e ↦ ground (arith, ==_iff o first, e, h, k)
    | inr e ↦ e
  ]

  -- a look-up answers as the key of the origin, whether the table has the entry or not
  wire_key-IsTableOf :
      (o : ℕ) (t : KeyTable) (e : Option ℕ)
      → IsTableOf derive key first t
      → get o t.origin_keys ≡ e
      → let (keys, t') = wire_key derive key o e t in
        (keys ≡ (key, key_for derive key first o)) × IsTableOf derive key first t'
  wire_key-IsTableOf o t (some w) h eq = (ground (arith, eq, h.entries o), h)
  wire_key-IsTableOf o t none h eq =
      let other = other_origin o t.origin_keys eq h.first_entry in
      let w = derive key o in
      (
        ground (arith, other),
        record {
          logical = h.logical;
          first_entry = ground (arith, get-put o first w t.origin_keys, other, h.first_entry);
          entries = λ p. ground (arith, get-put o p w t.origin_keys, other, h.entries p);
        },
      )

  with_logical-same :
      (o : ℕ) (supplied : Option ℕ) (fresh : ℕ) (t : KeyTable)
      → t.logical_operation_id ≡ some key
      → with_logical o supplied fresh t ≡ t
  with_logical-same o supplied fresh t e = ground (arith, e)

  logical_and_wire-IsTableOf :
      (o : ℕ) (supplied : Option ℕ) (fresh : ℕ) (t : KeyTable)
      → IsTableOf derive key first t
      → let (keys, t') = logical_and_wire derive o supplied fresh t in
        (keys ≡ (key, key_for derive key first o)) × IsTableOf derive key first t'
  unfolding logical_and_wire look_up_keys
  logical_and_wire-IsTableOf o supplied fresh t h =
      let P : ℕ → KeyTable → Type 0 = λ l u.
        let (keys, t') = wire_key derive l o (get o u.origin_keys) u in
        (keys ≡ (key, key_for derive key first o)) × IsTableOf derive key first t' in
      let known : or_zero t.logical_operation_id ≡ key = ground (arith, h.logical) in
      let r = wire_key-IsTableOf o t (get o t.origin_keys) h refl in
      subst (λ u. P (or_zero u.logical_operation_id) u)
        (sym (with_logical-same o supplied fresh t h.logical)) (subst (λ l. P l t) (sym known) r)

  later_keys-IsTableOf :
      (calls : List (ℕ × Option ℕ × ℕ)) (t : KeyTable)
      → IsTableOf derive key first t
      → later_keys derive calls t ≡ map (λ c. (key, key_for derive key first c.0)) calls
  unfolding later_keys
  later_keys-IsTableOf [] t h = refl
  later_keys-IsTableOf ((o, supplied, fresh) ∷ rest) t h =
      let (e, h') = logical_and_wire-IsTableOf o supplied fresh t h in
      let t' = (logical_and_wire derive o supplied fresh t).1 in
      ground (arith, e, later_keys-IsTableOf rest t' h')

-- An operation that begins with a caller's key sends that key to its first origin, and every later
-- call, for whatever origins, keys in its headers and fresh
-- identifiers, has the same logical key, sends it to the first origin, and to every other
-- origin sends the key that is derived from it and from that origin, if the caller's key is not blank.
pub initialize_keys-later_keys :
    (derive : ℕ → ℕ → ℕ) (is_blank : ℕ → Bool) (key first : ℕ) (t : KeyTable)
    (calls : List (ℕ × Option ℕ × ℕ))
    → is_blank key ≡ false
    → let (r, t') = initialize_keys derive is_blank first (some key) t in
      (r ≡ done (key, key))
      × (later_keys derive calls t' ≡ map (λ c. (key, key_for derive key first c.0)) calls)
unfolding initialize_keys look_up_keys put get
initialize_keys-later_keys derive is_blank key first t calls b =
    let l =
      later_keys-IsTableOf derive key first calls (begun key first [])
        (begun-IsTableOf derive key first) in
    (ground (arith, b), ground (arith, b, l))

-- a header that leaves no doubt about the key `k`: another header, or a canonical text of that value
abbrev pub agrees : ℕ → Header → Bool
agrees k h = not h.is_key || (h.is_canonical_text && h.value == k)

key_values-agrees :
    (k : ℕ) (headers : List Header)
    → (all (λ h. h.is_canonical_text) (key_values headers)
        && all (λ h. h.value == k) (key_values headers))
      ≡ all (agrees k) headers
key_values-agrees k [] = refl
key_values-agrees k (h ∷ rest) = ground (arith, key_values-agrees k rest)

abbrev has_values : List Header → Bool
has_values [] = false
has_values (_ ∷ _) = true

key_values-any :
    (headers : List Header) → has_values (key_values headers) ≡ any (λ h. h.is_key) headers
key_values-any [] = refl
key_values-any (h ∷ rest) = ground (arith, key_values-any rest)

same_values :
    (a b : ℕ) (values : List Header)
    → a ≡ b
    → all (λ h. h.value == a) values ≡ all (λ h. h.value == b) values
same_values a b values e = ap (λ n. all (λ h. h.value == n) values) e

extract_values_iff :
    (k : ℕ) (values : List Header)
    → (extract_values values ≡ done (some k)) ↔ (
        (has_values values ≡ true)
        × ((all (λ h. h.is_canonical_text) values && all (λ h. h.value == k) values) ≡ true))
unfolding extract_values
extract_values_iff k [] = ground arith
extract_values_iff k (h ∷ rest) = (
  λ e. ground (arith, e, same_values h.value k rest),
  λ e. ground (arith, e, same_values h.value k rest, ==_iff h.value k),
)

-- A request has the idempotency key `k` exactly where it has a header of that name, in any case, and
-- each such header is a canonical text of the value `k`; otherwise there is none, or a refusal.
pub extract_idempotency_key_iff :
    (k : ℕ) (headers : List Header)
    → (extract_idempotency_key headers ≡ done (some k))
      ↔ ((any (λ h. h.is_key) headers ≡ true) × (all (agrees k) headers ≡ true))
unfolding extract_idempotency_key
extract_idempotency_key_iff k headers =
    let (there, back) = extract_values_iff k (key_values headers) in
    (
      λ e.
          let p = there e in
          (sym (key_values-any headers) ∙ p.0, sym (key_values-agrees k headers) ∙ p.1),
      λ p. back (key_values-any headers ∙ p.0, key_values-agrees k headers ∙ p.1),
    )
