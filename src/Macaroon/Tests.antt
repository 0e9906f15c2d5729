-- ===== src/Macaroon/Tests.antt =====
-- A macaroon with one caveat, and the properties of its packet stream.
use ln_church_agent.Common.{List, ℕ, ◌∷◌, ◌≡◌, [], ◌↔◌, refl}
use ln_church_agent.Macaroon.Sequence.{read_macaroon}
use ln_church_agent.Macaroon.Packets.{parse_packets, Packet, MacaroonError}
use ln_church_agent.Macaroon.Encode.{encode_packets, parse_packets-encode_packets}
use ln_church_agent.Common.Lists.{take, length}
use ln_church_agent.Macaroon.Shape.{macaroon_packets, IsMacaroon, read_macaroon_iff}
use ln_church_agent.Common.Outcome.{done, raised}
use ln_church_agent.Macaroon.Format.{IsStream}

abbrev sealed : List ℕ
sealed =
    1 ∷ 2 ∷ 3 ∷ 4 ∷ 5 ∷ 6 ∷ 7 ∷ 8 ∷ 9 ∷ 10 ∷ 11 ∷ 12 ∷ 13 ∷ 14 ∷ 15 ∷ 16 ∷ 17 ∷ 18 ∷ 19 ∷ 20 ∷ 21
    ∷ 22 ∷ 23 ∷ 24 ∷ 25 ∷ 26 ∷ 27 ∷ 28 ∷ 29 ∷ 30 ∷ 31 ∷ 32 ∷ []

abbrev packets : List Packet
packets = macaroon_packets (97 ∷ []) (98 ∷ []) ((99 ∷ 61 ∷ 100 ∷ []) ∷ []) sealed

-- the packets are read back
accepted : read_macaroon (encode_packets packets) ≡ done packets
unfolding read_macaroon
accepted = refl

cut_short : read_macaroon (take 20 (encode_packets packets)) ≡ raised MacaroonError.packet_truncated
unfolding read_macaroon
cut_short = refl

unsigned : read_macaroon (encode_packets (take 3 packets)) ≡ raised MacaroonError.sequence_invalid
unfolding read_macaroon
unsigned = refl

parse_packets-encode_packets_example :
    parse_packets (length (encode_packets packets)) (encode_packets packets) ≡ done packets
parse_packets-encode_packets_example = parse_packets-encode_packets packets refl

read_macaroon_iff_example :
    (read_macaroon (encode_packets packets) ≡ done packets)
    ↔ (IsStream (encode_packets packets) packets × IsMacaroon packets)
read_macaroon_iff_example = read_macaroon_iff (encode_packets packets) packets
