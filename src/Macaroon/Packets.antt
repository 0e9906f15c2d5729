-- ===== src/Macaroon/Packets.antt =====
-- The packet stream of a macaroon (ln_church_agent/payment_contract.py, the loop of
-- `validate_l402_macaroon_structure`). Bytes are numbers. The loop's offset stands for the bytes
-- that are left; its fuel is their number, since a packet takes seven bytes at least.
use Prim.Native.Nat.{ℕ, suc, zero}
use ln_church_agent.Common.{
  List, Option, ◌∷◌, Bool, if◌then◌else◌, none, ◌*◌, [], leb, ◌==◌, ltb, not, some, ◌&&◌, ◌+◌, ◌||◌,
  true, ◌-◌, false,
}
use ln_church_agent.Common.Outcome.{Outcome, done, raised}
use ln_church_agent.Common.Lists.{all, drop, length, take}

pub data MacaroonError : Type 0 where
  header_truncated length_invalid packet_truncated framing_invalid name_invalid : MacaroonError
  unsupported_packet sequence_invalid text_invalid text_empty : MacaroonError
  caveat_malformed caveat_duplicate not_bound out_of_fuel : MacaroonError

pub data PacketName : Type 0 where
  location identifier cid signature : PacketName

pub record Packet : Type 0 where
  pub name : PacketName
  pub value : List ℕ

-- the bytes of the name in the stream
abbrev pub name_bytes : PacketName → List ℕ
name_bytes PacketName.location = 108 ∷ 111 ∷ 99 ∷ 97 ∷ 116 ∷ 105 ∷ 111 ∷ 110 ∷ []
name_bytes PacketName.identifier = 105 ∷ 100 ∷ 101 ∷ 110 ∷ 116 ∷ 105 ∷ 102 ∷ 105 ∷ 101 ∷ 114 ∷ []
name_bytes PacketName.cid = 99 ∷ 105 ∷ 100 ∷ []
name_bytes PacketName.signature = 115 ∷ 105 ∷ 103 ∷ 110 ∷ 97 ∷ 116 ∷ 117 ∷ 114 ∷ 101 ∷ []

-- `[0-9a-fA-F]`
abbrev pub is_hex : ℕ → Bool
is_hex c = (leb 48 c && leb c 57) || (leb 65 c && leb c 70) || (leb 97 c && leb c 102)

-- the value of such a digit
abbrev pub digit_value : ℕ → ℕ
digit_value c = if leb c 57 then c - 48 else if leb c 70 then c - 55 else c - 87

-- `int(header_text, 16)`
abbrev pub header_value : ℕ → ℕ → ℕ → ℕ → ℕ
header_value a b c d =
    ((digit_value a * 16 + digit_value b) * 16 + digit_value c) * 16 + digit_value d

abbrev pub with_first : ℕ → Option (List ℕ × List ℕ) → Option (List ℕ × List ℕ)
with_first x none = none
with_first x (some (xs, ys)) = some (x ∷ xs, ys)

abbrev pub with_byte : ℕ → Option (List ℕ) → Option (List ℕ)
with_byte x none = none
with_byte x (some xs) = some (x ∷ xs)

-- the bytes before the first such byte, and after it
unfoldable pub split_first : ℕ → List ℕ → Option (List ℕ × List ℕ)
split_first c [] = none
split_first c (x ∷ xs) =
    let rest = split_first c xs in if x == c then some ([], xs) else with_first x rest

-- `packet[:-1]` of a packet that ends with the newline
unfoldable pub without_newline : List ℕ → Option (List ℕ)
without_newline [] = none
without_newline (x ∷ []) = if x == 10 then some [] else none
without_newline (x ∷ y ∷ ys) = with_byte x (without_newline (y ∷ ys))

abbrev pub bytes_eq : List ℕ → List ℕ → Bool
bytes_eq [] [] = true
bytes_eq (x ∷ xs) (y ∷ ys) = (x == y) && bytes_eq xs ys
bytes_eq _ _ = false

abbrev pub is_ascii : ℕ → Bool
is_ascii c = ltb c 128

unfoldable pub packet_name : List ℕ → Outcome MacaroonError PacketName
packet_name bytes =
    if not (all is_ascii bytes)
    then raised MacaroonError.name_invalid
    else if bytes_eq bytes (name_bytes PacketName.location)
    then done PacketName.location
    else if bytes_eq bytes (name_bytes PacketName.identifier)
    then done PacketName.identifier
    else if bytes_eq bytes (name_bytes PacketName.cid)
    then done PacketName.cid
    else if bytes_eq bytes (name_bytes PacketName.signature)
    then done PacketName.signature
    else raised MacaroonError.unsupported_packet

abbrev pub and_then :
    {A B : Type 0}
    → Outcome MacaroonError A
    → (A → Outcome MacaroonError B)
    → Outcome MacaroonError B
and_then (done a) f = f a
and_then (raised e) f = raised e

-- the name before the first space, and the value after it
abbrev pub named_packet : Option (List ℕ × List ℕ) → Outcome MacaroonError Packet
named_packet none = raised MacaroonError.framing_invalid
named_packet (some (name, value)) =
    and_then (packet_name name) (λ n. done (record { name = n; value = value }))

abbrev pub framed_packet : Option (List ℕ) → Outcome MacaroonError Packet
framed_packet none = raised MacaroonError.framing_invalid
framed_packet (some inner) = named_packet (split_first 32 inner)

-- the packet of the next `size` bytes
unfoldable pub sized_packet : ℕ → List ℕ → Outcome MacaroonError Packet
unfolding split_first without_newline packet_name
sized_packet size bytes =
    if ltb size 7 || ltb (length bytes) size
    then raised MacaroonError.packet_truncated
    else framed_packet (without_newline (drop 4 (take size bytes)))

-- the size in the header of the next packet
unfoldable pub read_header : List ℕ → Outcome MacaroonError ℕ
read_header (a ∷ b ∷ c ∷ d ∷ rest) =
    if is_hex a && is_hex b && is_hex c && is_hex d
    then done (header_value a b c d)
    else raised MacaroonError.length_invalid
read_header _ = raised MacaroonError.header_truncated

-- the loop over the packets
unfoldable pub parse_packets : ℕ → List ℕ → Outcome MacaroonError (List Packet)
unfolding sized_packet read_header
parse_packets fuel [] = done []
parse_packets zero (b ∷ bs) = raised MacaroonError.out_of_fuel
parse_packets (suc fuel) (b ∷ bs) = and_then (read_header (b ∷ bs)) λ size.
    and_then (sized_packet size (b ∷ bs))
      λ packet. and_then (parse_packets fuel (drop size (b ∷ bs))) λ rest. done (packet ∷ rest)
