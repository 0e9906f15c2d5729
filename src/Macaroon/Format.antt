-- ===== src/Macaroon/Format.antt =====
-- The format of a packet stream, stated without a parser, and what the parser reads of it.
-- the bytes of a packet after its header
use Prim.Native.Nat.{ℕ, suc, zero}
use ln_church_agent.Macaroon.Packets.{
  Packet, read_header, sized_packet, parse_packets, name_bytes, is_hex, MacaroonError, split_first,
  without_newline, framed_packet, header_value, and_then, named_packet, packet_name,
}
use ln_church_agent.Common.{
  List, ◌≡◌, arith, Option, ◌≤◌, ◌++◌, ◌&&◌, ◌∷◌, [], true, if-cases, subst, ◌≢◌, some, ltb, sym,
  ◌||◌, refl, ◌∙◌, none, ap,
}
use ln_church_agent.Common.Outcome.{Outcome, done, raised}
use ln_church_agent.Common.Lists.{drop, length, take, length-take, take-drop, length-drop}
use ln_church_agent.Macaroon.Split.{
  split_first_sound, without_newline_sound, packet_name_sound, packet_name-stops,
}

abbrev pub packet_body : Packet → List ℕ
packet_body p = (name_bytes p.name ++ (32 ∷ p.value)) ++ (10 ∷ [])

-- four hexadecimal digits that give the number of all the packet's bytes, and the body
pub record IsPacket (bytes : List ℕ) (p : Packet) : Type 0 where
  pub a : ℕ
  pub b : ℕ
  pub c : ℕ
  pub d : ℕ
  pub digits : (is_hex a && is_hex b && is_hex c && is_hex d) ≡ true
  pub size_lem : header_value a b c d ≡ length bytes
  pub bytes_lem : bytes ≡ a ∷ b ∷ c ∷ d ∷ packet_body p

-- a packet, and what the bytes after it are
pub record IsNext (bytes : List ℕ) (p : Packet) (after : List ℕ → Type 0) : Type 0 where
  pub first : List ℕ
  pub left : List ℕ
  pub parts : bytes ≡ first ++ left
  pub is_packet : IsPacket first p
  pub is_after : after left

-- the bytes are those packets, one after the other
abbrev pub IsStream : List ℕ → List Packet → Type 0
IsStream bytes [] = bytes ≡ []
IsStream bytes (p ∷ ps) = IsNext bytes p (λ left. IsStream left ps)

-- what the parser may say of bytes
abbrev pub IsParsed : List ℕ → Outcome MacaroonError (List Packet) → Type 0
IsParsed bytes (done ps) = IsStream bytes ps
IsParsed bytes (raised e) = e ≢ MacaroonError.out_of_fuel

pub and_then-ends :
    {A B : Type 0} (R : Outcome MacaroonError B → Type 0) (o : Outcome MacaroonError A)
    (f : A → Outcome MacaroonError B)
    → ((a : A) → o ≡ done a → R (f a))
    → ((e : MacaroonError) → o ≡ raised e → R (raised e))
    → R (and_then o f)
and_then-ends R (done a) f h k = h a refl
and_then-ends R (raised e) f h k = k e refl

-- the header that is read
record IsHeader (bytes : List ℕ) (size : ℕ) : Type 0 where
  pub a : ℕ
  pub b : ℕ
  pub c : ℕ
  pub d : ℕ
  pub rest : List ℕ
  pub digits : (is_hex a && is_hex b && is_hex c && is_hex d) ≡ true
  pub size_lem : header_value a b c d ≡ size
  pub bytes_lem : bytes ≡ a ∷ b ∷ c ∷ d ∷ rest

abbrev HeaderEnd : List ℕ → Outcome MacaroonError ℕ → Type 0
HeaderEnd bytes (done size) = IsHeader bytes size
HeaderEnd bytes (raised e) = e ≢ MacaroonError.out_of_fuel

read_header-HeaderEnd : (bytes : List ℕ) → HeaderEnd bytes (read_header bytes)
unfolding read_header
read_header-HeaderEnd [] = ground arith
read_header-HeaderEnd (a ∷ []) = ground arith
read_header-HeaderEnd (a ∷ b ∷ []) = ground arith
read_header-HeaderEnd (a ∷ b ∷ c ∷ []) = ground arith
read_header-HeaderEnd (a ∷ b ∷ c ∷ d ∷ rest) =
    if-cases (HeaderEnd (a ∷ b ∷ c ∷ d ∷ rest)) (is_hex a && is_hex b && is_hex c && is_hex d)
      (done (header_value a b c d)) (raised MacaroonError.length_invalid)
      (λ h. record {
        a = a;
        b = b;
        c = c;
        d = d;
        rest = rest;
        digits = h;
        size_lem = refl;
        bytes_lem = refl;
      })
      (λ _. ground arith)

-- the packet that is read of bytes of this size
record IsSized (size : ℕ) (bytes : List ℕ) (p : Packet) : Type 0 where
  pub at_least : 7 ≤ size
  pub at_most : size ≤ length bytes
  pub body : drop 4 (take size bytes) ≡ packet_body p

abbrev BodyEnd : List ℕ → Outcome MacaroonError Packet → Type 0
BodyEnd bytes (done p) = bytes ≡ packet_body p
BodyEnd bytes (raised e) = e ≢ MacaroonError.out_of_fuel

named_packet-end :
    (inner : List ℕ) (o : Option (List ℕ × List ℕ))
    → split_first 32 inner ≡ o
    → BodyEnd (inner ++ (10 ∷ [])) (named_packet o)
named_packet-end inner none h = ground arith
named_packet-end inner (some (name, value)) h =
    let s = split_first_sound 32 inner name value h in
    and_then-ends (BodyEnd (inner ++ (10 ∷ []))) (packet_name name)
      (λ n. done (record { name = n; value = value }))
      (λ n e.
        ap (λ t. t ++ (10 ∷ [])) (s ∙ ap (λ t. t ++ (32 ∷ value)) (packet_name_sound name n e)))
      (λ e q. packet_name-stops name e q)

framed_packet-end :
    (bytes : List ℕ) (o : Option (List ℕ))
    → without_newline bytes ≡ o
    → BodyEnd bytes (framed_packet o)
framed_packet-end bytes none h = ground arith
framed_packet-end bytes (some inner) h =
    subst (λ t. BodyEnd t (framed_packet (some inner))) (sym (without_newline_sound bytes inner h))
      (named_packet-end inner (split_first 32 inner) refl)

abbrev SizedEnd : ℕ → List ℕ → Outcome MacaroonError Packet → Type 0
SizedEnd size bytes (done p) = IsSized size bytes p
SizedEnd size bytes (raised e) = e ≢ MacaroonError.out_of_fuel

sized :
    (size : ℕ) (bytes : List ℕ) (o : Outcome MacaroonError Packet)
    → 7 ≤ size
    → size ≤ length bytes
    → BodyEnd (drop 4 (take size bytes)) o
    → SizedEnd size bytes o
sized size bytes (done p) l m h = record { at_least = l; at_most = m; body = h }
sized size bytes (raised e) l m h = h

sized_packet-SizedEnd : (size : ℕ) (bytes : List ℕ) → SizedEnd size bytes (sized_packet size bytes)
unfolding sized_packet
sized_packet-SizedEnd size bytes =
    let body = drop 4 (take size bytes) in
    if-cases (SizedEnd size bytes) (ltb size 7 || ltb (length bytes) size)
      (raised MacaroonError.packet_truncated) (framed_packet (without_newline body))
      (λ _. ground arith)
      (λ h.
        sized size bytes (framed_packet (without_newline body)) (ground (arith, h))
          (ground (arith, h)) (framed_packet-end body (without_newline body) refl))

take_four :
    (size a b c d : ℕ) (rest : List ℕ)
    → 7 ≤ size
    → take size (a ∷ b ∷ c ∷ d ∷ rest) ≡ a ∷ b ∷ c ∷ d ∷ drop 4 (take size (a ∷ b ∷ c ∷ d ∷ rest))
take_four zero a b c d rest h = absurd (omega (arith, h))
take_four (suc zero) a b c d rest h = absurd (omega (arith, h))
take_four (suc (suc zero)) a b c d rest h = absurd (omega (arith, h))
take_four (suc (suc (suc zero))) a b c d rest h = absurd (omega (arith, h))
take_four (suc (suc (suc (suc n)))) a b c d rest h = refl

-- the next packet and the bytes left
next_packet :
    (size : ℕ) (bytes : List ℕ) (p : Packet) (after : List ℕ → Type 0)
    → IsHeader bytes size
    → IsSized size bytes p
    → after (drop size bytes)
    → IsNext bytes p after
next_packet size bytes p after h s k =
    let t = length-take size bytes in
    let four = take_four size h.a h.b h.c h.d h.rest s.at_least in
    let body = subst (λ x. drop 4 (take size x) ≡ packet_body p) h.bytes_lem s.body in
    record {
      first = take size bytes;
      left = drop size bytes;
      parts = sym (take-drop size bytes);
      is_packet = record {
        a = h.a;
        b = h.b;
        c = h.c;
        d = h.d;
        digits = h.digits;
        size_lem = h.size_lem ∙ omega (arith, t, s.at_most);
        bytes_lem = ap (take size) h.bytes_lem ∙ four ∙ ap (λ x. h.a ∷ h.b ∷ h.c ∷ h.d ∷ x) body;
      };
      is_after = k;
    }

-- With fuel for every byte, the parser reads packets exactly where the bytes are a stream of them,
-- or it raises an error that is not the end of its fuel.
pub parse_packets-IsParsed :
    (fuel : ℕ) (bytes : List ℕ) → length bytes ≤ fuel → IsParsed bytes (parse_packets fuel bytes)
unfolding parse_packets
parse_packets-IsParsed fuel [] h = refl
parse_packets-IsParsed zero (x ∷ xs) h = absurd (omega (arith, h))
parse_packets-IsParsed (suc fuel) (x ∷ xs) h =
    let bytes = x ∷ xs in
    and_then-ends (IsParsed bytes) (read_header bytes)
      (λ size.
        and_then (sized_packet size bytes)
          λ packet. and_then (parse_packets fuel (drop size bytes)) λ rest. done (packet ∷ rest))
      (λ size q.
        let head = subst (HeaderEnd bytes) q (read_header-HeaderEnd bytes) in
        and_then-ends (IsParsed bytes) (sized_packet size bytes)
          (λ packet. and_then (parse_packets fuel (drop size bytes)) λ rest. done (packet ∷ rest))
          (λ packet r.
            let s : IsSized size bytes packet =
              subst (SizedEnd size bytes) r (sized_packet-SizedEnd size bytes) in
            let l = length-drop size bytes in
            let ih =
              parse_packets-IsParsed fuel (drop size bytes) (omega (arith, l, h, s.at_least)) in
            and_then-ends (IsParsed bytes) (parse_packets fuel (drop size bytes))
              (λ rest. done (packet ∷ rest))
              (λ rest e.
                next_packet size bytes packet (λ left. IsStream left rest) head s
                  (subst (IsParsed (drop size bytes)) e ih))
              (λ e t. subst (IsParsed (drop size bytes)) t ih))
          (λ e r. subst (SizedEnd size bytes) r (sized_packet-SizedEnd size bytes)))
      (λ e q. subst (HeaderEnd bytes) q (read_header-HeaderEnd bytes))
