-- ===== src/Macaroon/Complete.antt =====
-- The parser reads every stream of packets.
use ln_church_agent.Macaroon.Packets.{
  PacketName, Packet, sized_packet, read_header, parse_packets, named_packet, framed_packet,
  name_bytes, without_newline, and_then, MacaroonError, is_hex, header_value,
}
use ln_church_agent.Common.{
  List, ◌≤◌, ℕ, not, some, ◌==◌, arith, ◌≡◌, ◌++◌, true, ◌+◌, ap, refl, ◌∷◌, ◌∙◌, [], suc, if-cases,
  ltb, ◌||◌, ◌↔◌, ◌&&◌, subst,
}
use ln_church_agent.Common.Lists.{
  all, length, length-append, drop, take, take-length_append, drop-length_append,
}
use ln_church_agent.Macaroon.Format.{
  packet_body, IsPacket, IsStream, IsParsed, parse_packets-IsParsed,
}
use ln_church_agent.Common.Outcome.{done, raised, Outcome}
use ln_church_agent.Macaroon.Split.{
  without_newline_complete, packet_name_complete, split_first_complete,
}
use Prim.Native.Nat.{zero}

name-has_no_space : (n : PacketName) → all (λ x. not (x == 32)) (name_bytes n) ≡ true
name-has_no_space PacketName.location = refl
name-has_no_space PacketName.identifier = refl
name-has_no_space PacketName.cid = refl
name-has_no_space PacketName.signature = refl

pub name-length : (n : PacketName) → 3 ≤ length (name_bytes n)
name-length PacketName.location = omega arith
name-length PacketName.identifier = omega arith
name-length PacketName.cid = omega arith
name-length PacketName.signature = omega arith

named_packet_complete : (p : Packet) → named_packet (some (name_bytes p.name, p.value)) ≡ done p
named_packet_complete p =
    ap (λ o. and_then o (λ n. done (record { name = n; value = p.value })))
      (packet_name_complete p.name)

pub packet_body-length :
    (p : Packet) → length (packet_body p) ≡ length (name_bytes p.name) + length p.value + 2
packet_body-length p =
    let l = length-append (name_bytes p.name ++ (32 ∷ p.value)) (10 ∷ []) in
    let m = length-append (name_bytes p.name) (32 ∷ p.value) in omega (arith, l, m)

body_read : (p : Packet) → framed_packet (without_newline (packet_body p)) ≡ done p
body_read p =
    ap framed_packet (without_newline_complete (name_bytes p.name ++ (32 ∷ p.value)))
    ∙ ap named_packet
        (split_first_complete 32 (name_bytes p.name) p.value (name-has_no_space p.name))
    ∙ named_packet_complete p

packet-length : {first : List ℕ} {p : Packet} → IsPacket first p → 7 ≤ length first
packet-length {first} {p} h =
    let n = name-length p.name in
    let l = packet_body-length p in rw h.bytes_lem (omega (arith, n, l))

sized_packet_complete :
    (first left : List ℕ) (p : Packet)
    → IsPacket first p
    → sized_packet (length first) (first ++ left) ≡ done p
unfolding sized_packet
sized_packet_complete first left p h =
    let n = packet-length h in
    let l = length-append first left in
    let body : drop 4 (take (length first) (first ++ left)) ≡ packet_body p =
      ap (drop 4) (take-length_append first left) ∙ ap (drop 4) h.bytes_lem in
    let o = framed_packet (without_newline (drop 4 (take (length first) (first ++ left)))) in
    let e : o ≡ done p = ap (λ t. framed_packet (without_newline t)) body ∙ body_read p in
    if-cases (λ q. q ≡ done p) (ltb (length first) 7 || ltb (length (first ++ left)) (length first))
      (raised MacaroonError.packet_truncated) o (λ t. absurd (ground (arith, t, n, l))) (λ _. e)

read_header_complete :
    (first left : List ℕ) (p : Packet)
    → IsPacket first p
    → read_header (first ++ left) ≡ done (length first)
unfolding read_header
read_header_complete first left p h =
    ap (λ t. read_header (t ++ left)) h.bytes_lem
    ∙ if-cases (λ o. o ≡ done (length first)) (is_hex h.a && is_hex h.b && is_hex h.c && is_hex h.d)
        (done (header_value h.a h.b h.c h.d)) (raised MacaroonError.length_invalid)
        (λ _. ap done h.size_lem) (λ e. ground (arith, e, h.digits))

-- the rest of a turn, once the packet of a size is read
abbrev after_packet :
    ℕ → ℕ → List ℕ → Outcome MacaroonError Packet → Outcome MacaroonError (List Packet)
after_packet fuel size bytes o =
    and_then o
      λ packet. and_then (parse_packets fuel (drop size bytes)) λ rest. done (packet ∷ rest)

turn_lem :
    (fuel : ℕ) (bytes : List ℕ)
    → 1 ≤ length bytes
    → parse_packets (suc fuel) bytes
      ≡ and_then
          (read_header bytes)
          (λ size. after_packet fuel size bytes (sized_packet size bytes))
unfolding parse_packets
turn_lem fuel [] h = absurd (omega (arith, h))
turn_lem fuel (x ∷ xs) h = refl

packet_read :
    (fuel : ℕ) (first left : List ℕ) (p : Packet)
    → IsPacket first p
    → parse_packets (suc fuel) (first ++ left)
      ≡ and_then (parse_packets fuel left) (λ rest. done (p ∷ rest))
packet_read fuel first left p h =
    let n = packet-length h in
    let l = length-append first left in
    turn_lem fuel (first ++ left) (omega (arith, n, l))
    ∙ ap
        (λ o.
          and_then o
            (λ size. after_packet fuel size (first ++ left) (sized_packet size (first ++ left))))
        (read_header_complete first left p h)
    ∙ ap (after_packet fuel (length first) (first ++ left)) (sized_packet_complete first left p h)
    ∙ ap (λ t. and_then (parse_packets fuel t) (λ rest. done (p ∷ rest)))
        (drop-length_append first left)

-- Every stream of packets is read as these packets, with fuel for every byte.
pub parse_packets_complete :
    (fuel : ℕ) (bytes : List ℕ) (ps : List Packet)
    → length bytes ≤ fuel
    → IsStream bytes ps
    → parse_packets fuel bytes ≡ done ps
unfolding parse_packets
parse_packets_complete zero bytes [] h s = ap (parse_packets zero) s
parse_packets_complete (suc fuel) bytes [] h s = ap (parse_packets (suc fuel)) s
parse_packets_complete zero bytes (p ∷ ps) h s =
    let n = packet-length s.is_packet in
    let l = length-append s.first s.left ∙ refl in
    let e : length bytes ≡ length (s.first ++ s.left) = ap length s.parts in
    absurd (omega (arith, h, n, l, e))
parse_packets_complete (suc fuel) bytes (p ∷ ps) h s =
    let n = packet-length s.is_packet in
    let l = length-append s.first s.left in
    let e : length bytes ≡ length (s.first ++ s.left) = ap length s.parts in
    let ih = parse_packets_complete fuel s.left ps (omega (arith, h, n, l, e)) s.is_after in
    ap (parse_packets (suc fuel)) s.parts
    ∙ packet_read fuel s.first s.left p s.is_packet
    ∙ ap (λ o. and_then o (λ rest. done (p ∷ rest))) ih

-- Given fuel for every byte, the loop reads the packets of the bytes exactly where they are a
-- stream of them, one after the other with nothing left, each with its size in four hexadecimal
-- digits, a known name, a space, a value and a newline.
pub parse_packets_iff :
    (fuel : ℕ) (bytes : List ℕ) (ps : List Packet)
    → length bytes ≤ fuel
    → (parse_packets fuel bytes ≡ done ps) ↔ IsStream bytes ps
parse_packets_iff fuel bytes ps h = (
  λ e. subst (IsParsed bytes) e (parse_packets-IsParsed fuel bytes h),
  parse_packets_complete fuel bytes ps h,
)
