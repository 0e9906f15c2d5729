-- ===== src/Macaroon/Encode.antt =====
-- A packet stream as a server writes it, and its reading back.
-- the digit of a number below 16
use Prim.Native.Nat.{ℕ}
use ln_church_agent.Macaroon.Packets.{Packet, is_hex, digit_value, parse_packets}
use ln_church_agent.Common.{
  List, if◌then◌else◌, ◌∷◌, Bool, ◌≡◌, ◌+◌, ◌<◌, ltb, ◌++◌, true, arith, ◌/◌, [], ◌%◌, refl, ◌*◌,
  ◌∙◌,
}
use ln_church_agent.Common.Lists.{length, all}
use ln_church_agent.Macaroon.Format.{packet_body, IsPacket, IsStream}
use ln_church_agent.Common.Outcome.{done}
use ln_church_agent.Macaroon.Complete.{parse_packets_complete}

abbrev pub hex_char : ℕ → ℕ
hex_char n = if ltb n 10 then 48 + n else 87 + n

-- a packet with its size before it
abbrev pub encode_packet : Packet → List ℕ
encode_packet p =
    let size = 4 + length (packet_body p) in
    hex_char (size / 4096)
    ∷ hex_char (size / 256 % 16)
    ∷ hex_char (size / 16 % 16)
    ∷ hex_char (size % 16)
    ∷ packet_body p

abbrev pub encode_packets : List Packet → List ℕ
encode_packets [] = []
encode_packets (p ∷ ps) = encode_packet p ++ encode_packets ps

-- the size has four digits
abbrev pub all_fit : List Packet → Bool
all_fit ps = all (λ p. ltb (length (packet_body p)) 65532) ps

hex_char-is_hex : (n : ℕ) → n < 16 → is_hex (hex_char n) ≡ true
hex_char-is_hex n h = ground (arith, h)

digit_value-hex_char : (n : ℕ) → n < 16 → digit_value (hex_char n) ≡ n
digit_value-hex_char n h = ground (arith, h)

encode_packet-IsPacket :
    (p : Packet) → length (packet_body p) < 65532 → IsPacket (encode_packet p) p
encode_packet-IsPacket p h =
    let size = 4 + length (packet_body p) in
    let a = size / 4096 in
    let b = size / 256 % 16 in
    let c = size / 16 % 16 in
    let d = size % 16 in
    let a16 : a < 16 = omega (arith, h) in
    let b16 : b < 16 = omega arith in
    let c16 : c < 16 = omega arith in
    let d16 : d < 16 = omega arith in
    let whole : ((a * 16 + b) * 16 + c) * 16 + d ≡ size = omega arith in
    record {
      a = hex_char a;
      b = hex_char b;
      c = hex_char c;
      d = hex_char d;
      digits =
          rw
            (
              hex_char-is_hex a a16,
              hex_char-is_hex b b16,
              hex_char-is_hex c c16,
              hex_char-is_hex d d16,
            )
            refl;
      size_lem =
          rw
            (
              digit_value-hex_char a a16,
              digit_value-hex_char b b16,
              digit_value-hex_char c c16,
              digit_value-hex_char d d16,
            )
            (whole ∙ omega arith);
      bytes_lem = refl;
    }

encode_packets-IsStream : (ps : List Packet) → all_fit ps ≡ true → IsStream (encode_packets ps) ps
encode_packets-IsStream [] h = refl
encode_packets-IsStream (p ∷ ps) h = record {
  first = encode_packet p;
  left = encode_packets ps;
  parts = refl;
  is_packet = encode_packet-IsPacket p (ground (arith, h));
  is_after = encode_packets-IsStream ps (ground (arith, h));
}

-- The packets that a server writes, each with a size of at most four digits, are read back.
pub parse_packets-encode_packets :
    (ps : List Packet)
    → all_fit ps ≡ true
    → parse_packets (length (encode_packets ps)) (encode_packets ps) ≡ done ps
parse_packets-encode_packets ps h =
    parse_packets_complete (length (encode_packets ps)) (encode_packets ps) ps (omega arith)
      (encode_packets-IsStream ps h)
