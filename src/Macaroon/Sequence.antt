-- ===== src/Macaroon/Sequence.antt =====
-- The sequence of a macaroon's packets (ln_church_agent/payment_contract.py, the check after the
-- loop of `validate_l402_macaroon_structure`).
use ln_church_agent.Macaroon.Packets.{PacketName, Packet, parse_packets, MacaroonError, and_then}
use ln_church_agent.Common.{List, Bool, ℕ, ◌∷◌, true, if◌then◌else◌, ◌&&◌, false, ◌==◌, [], ◌+◌}
use ln_church_agent.Common.Outcome.{Outcome, done, raised}
use ln_church_agent.Common.Lists.{length, all, drop}

abbrev pub name_eq : PacketName → PacketName → Bool
name_eq PacketName.location PacketName.location = true
name_eq PacketName.identifier PacketName.identifier = true
name_eq PacketName.cid PacketName.cid = true
name_eq PacketName.signature PacketName.signature = true
name_eq _ _ = false

-- `names.count(name)`
abbrev pub count : PacketName → List Packet → ℕ
count n [] = 0
count n (p ∷ ps) = if name_eq p.name n then count n ps + 1 else count n ps

-- `names[0:2] == ["location", "identifier"]`
abbrev pub starts_well : List Packet → Bool
starts_well (p ∷ q ∷ ps) =
    name_eq p.name PacketName.location && name_eq q.name PacketName.identifier
starts_well _ = false

-- `names[-1] == "signature"` with 32 bytes of value; there is a packet where this is asked
abbrev pub ends_well : List Packet → Bool
ends_well [] = false
ends_well (p ∷ []) = name_eq p.name PacketName.signature && (length p.value == 32)
ends_well (p ∷ q ∷ ps) = ends_well (q ∷ ps)

-- `packets[:-1]`
abbrev pub without_last : List Packet → List Packet
without_last [] = []
without_last (p ∷ []) = []
without_last (p ∷ q ∷ ps) = p ∷ without_last (q ∷ ps)

abbrev pub is_cid : Packet → Bool
is_cid p = name_eq p.name PacketName.cid

-- the check of the sequence
unfoldable pub sequence_ok : List Packet → Bool
sequence_ok ps =
    (count PacketName.location ps == 1)
    && (count PacketName.identifier ps == 1)
    && (count PacketName.signature ps == 1)
    && starts_well ps
    && ends_well ps
    && all is_cid (drop 2 (without_last ps))

-- the packets of the bytes, in their sequence
unfoldable pub read_macaroon : List ℕ → Outcome MacaroonError (List Packet)
unfolding parse_packets sequence_ok
read_macaroon bytes =
    and_then (parse_packets (length bytes) bytes)
      λ ps. if sequence_ok ps then done ps else raised MacaroonError.sequence_invalid
