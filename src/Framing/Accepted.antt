-- ===== src/Framing/Accepted.antt =====
-- What a framing is, of the parts of both headers.
-- the parts are decimal texts of this number, and there is one at least
use Prim.Native.Nat.{ℕ}
use ln_church_agent.Common.{
  none, List, ◌≡◌, map, false, true, ◌∷◌, not, ◌==◌, some, if-cases, arith, ◌&&◌, ◌≤◌, ap, ==-self,
  ◌||◌, ◌<◌, ◌∙◌, if◌then◌else◌, refl, [],
}
use ln_church_agent.Framing.Fields.{
  length_framing, parts_framing, visit_framing, is_empty, Framed, texts_eq, HeaderName, is_number,
  length_parts, normalize, FramingError, transfer_parts, text_value, is_chunked, is_too_large,
}
use ln_church_agent.Common.Lists.{all}
use ln_church_agent.Common.Outcome.{raised, done}
use ln_church_agent.Framing.Decimal.{value-normalize, normalize-IsNormal, too_large-value}

pub record IsLength (n : ℕ) (lengths : List (List ℕ)) : Type 0 where
  pub is_present : is_empty lengths ≡ false
  pub are_numbers : all is_number lengths ≡ true
  pub are_equal : all (λ text. text_value text == n) lengths ≡ true

-- what an answer says of the parts of both headers
abbrev pub IsFramed : List (List ℕ) → List (List ℕ) → Framed → Type 0
IsFramed lengths transfers (done (none, true)) =
    (is_empty lengths ≡ true) × (is_chunked transfers ≡ true)
IsFramed lengths transfers (done (none, false)) =
    (is_empty lengths ≡ true) × (is_empty transfers ≡ true)
IsFramed lengths transfers (done (some n, is_transfer)) =
    (is_transfer ≡ false) × (is_empty transfers ≡ true) × (n ≤ 2097152) × IsLength n lengths
IsFramed lengths transfers (raised FramingError.response_too_large) =
    (is_empty transfers ≡ true) × ((n : ℕ) × (2097152 < n) × IsLength n lengths)
IsFramed lengths transfers (raised FramingError.framing_invalid) = Unit {0}

texts_eq_sound : (text other : List ℕ) → texts_eq text other ≡ true → text ≡ other
texts_eq_sound [] [] h = refl
texts_eq_sound [] (d ∷ ds) h = ground (arith, h)
texts_eq_sound (c ∷ cs) [] h = ground (arith, h)
texts_eq_sound (c ∷ cs) (d ∷ ds) h =
    let e : c ≡ d = ground (arith, h) in
    rw e (ap (λ t. d ∷ t) (texts_eq_sound cs ds (ground (arith, h))))

-- texts that normalize to the same text have its number
same_values :
    (text : List ℕ) (texts : List (List ℕ))
    → all (texts_eq text) (map normalize texts) ≡ true
    → all (λ t. text_value t == text_value text) texts ≡ true
same_values text [] h = refl
same_values text (other ∷ texts) h =
    let e = texts_eq_sound text (normalize other) (ground (arith, h)) in
    let v : text_value text ≡ text_value other = ap text_value e ∙ value-normalize other in
    let rest = same_values text texts (ground (arith, h)) in
    ground (arith, v, rest, ==-self (text_value other))

lengths-IsLength :
    (text : List ℕ) (texts : List (List ℕ))
    → all is_number (text ∷ texts) ≡ true
    → all (texts_eq (normalize text)) (map normalize texts) ≡ true
    → IsLength (text_value (normalize text)) (text ∷ texts)
lengths-IsLength text texts n h =
    let v = value-normalize text in
    let s = same_values (normalize text) texts h in
    record {
      is_present = refl;
      are_numbers = n;
      are_equal = ground (arith, v, s, ==-self (text_value text));
    }

length_framing-IsFramed :
    (lengths transfers : List (List ℕ))
    → all is_number lengths ≡ true
    → (is_empty transfers ≡ false → (is_empty lengths ≡ true) × (is_chunked transfers ≡ true))
    → IsFramed lengths transfers (length_framing (map normalize lengths) (not (is_empty transfers)))
unfolding length_framing
length_framing-IsFramed [] [] n h = (refl, refl)
length_framing-IsFramed [] (t ∷ ts) n h = h refl
length_framing-IsFramed (text ∷ texts) (t ∷ ts) n h = absurd (ground (arith, (h refl).0))
length_framing-IsFramed (text ∷ texts) [] n h =
    let first = normalize text in
    let framed : Framed = done (some (text_value first), false) in
    let large : Framed = raised FramingError.response_too_large in
    let normal = normalize-IsNormal text (ground (arith, n)) in
    let big = too_large-value first normal.0 normal.1 in
    if-cases (IsFramed (text ∷ texts) []) (not (all (texts_eq first) (map normalize texts)))
      (raised FramingError.framing_invalid) (if is_too_large first then large else framed) (λ _. tt)
      (λ e.
        let l = lengths-IsLength text texts n (ground (arith, e)) in
        if-cases (IsFramed (text ∷ texts) []) (is_too_large first) large framed
          (λ b. (refl, (text_value first, ground (arith, b, big), l)))
          (λ b. (refl, refl, ground (arith, b, big), l)))

parts_framing-IsFramed :
    (lengths transfers : List (List ℕ))
    → IsFramed lengths transfers (parts_framing lengths transfers)
unfolding parts_framing
parts_framing-IsFramed lengths transfers =
    let bad : Framed = raised FramingError.framing_invalid in
    let end = length_framing (map normalize lengths) (not (is_empty transfers)) in
    if-cases (IsFramed lengths transfers)
      (not (is_empty transfers) && (not (is_empty lengths) || not (is_chunked transfers))) bad
      (if not (all is_number lengths) then bad else end) (λ _. tt)
      (λ c.
        if-cases (IsFramed lengths transfers) (not (all is_number lengths)) bad end (λ _. tt)
          (λ n.
            length_framing-IsFramed lengths transfers (ground (arith, n))
              (λ e. (ground (arith, c, e), ground (arith, c, e)))))

-- A response is framed by one length only where no transfer coding is named and every
-- Content-Length part is a decimal text of that number, which is within the limit; it is chunked
-- only where "chunked" is the one coding and there is no length; it has neither only where neither
-- header has a part. It is refused as too large only where no coding is named and the parts agree on
-- a number above the limit.
pub visit_framing-IsFramed :
    (headers : List (HeaderName × List ℕ))
    → IsFramed (length_parts headers) (transfer_parts headers) (visit_framing headers)
unfolding visit_framing
visit_framing-IsFramed headers =
    parts_framing-IsFramed (length_parts headers) (transfer_parts headers)
