-- ===== src/Macaroon/Shape.antt =====
-- What a macaroon is: a location, an identifier, caveats and a signature of 32 bytes.
use ln_church_agent.Common.{
  List, ℕ, ◌≡◌, ◌∷◌, true, arith, ap, [], ◌∙◌, refl, ◌↔◌, ◌≢◌, if◌then◌else◌, subst, if-cases,
}
use ln_church_agent.Macaroon.Packets.{PacketName, Packet, MacaroonError, and_then, parse_packets}
use ln_church_agent.Macaroon.Sequence.{
  sequence_ok, name_eq, ends_well, is_cid, without_last, count, read_macaroon,
}
use ln_church_agent.Common.Lists.{length, all}
use ln_church_agent.Common.Outcome.{Outcome, done, raised}
use ln_church_agent.Macaroon.Format.{IsStream, and_then-ends, IsParsed, parse_packets-IsParsed}
use ln_church_agent.Macaroon.Complete.{parse_packets_iff}

abbrev pub caveats_and_signature : List (List ℕ) → List ℕ → List Packet
caveats_and_signature [] s = record { name = PacketName.signature; value = s } ∷ []
caveats_and_signature (c ∷ cs) s =
    record { name = PacketName.cid; value = c } ∷ caveats_and_signature cs s

abbrev pub macaroon_packets : List ℕ → List ℕ → List (List ℕ) → List ℕ → List Packet
macaroon_packets l i cs s =
    record { name = PacketName.location; value = l }
    ∷ record { name = PacketName.identifier; value = i }
    ∷ caveats_and_signature cs s

pub record IsMacaroon (ps : List Packet) : Type 0 where
  pub location_value : List ℕ
  pub identifier_value : List ℕ
  pub caveats : List (List ℕ)
  pub signature_value : List ℕ
  pub signature_length : length signature_value ≡ 32
  pub packets_lem : ps ≡ macaroon_packets location_value identifier_value caveats signature_value

-- the packets after the identifier
record IsTail (ps : List Packet) : Type 0 where
  pub caveats : List (List ℕ)
  pub signature_value : List ℕ
  pub signature_length : length signature_value ≡ 32
  pub packets_lem : ps ≡ caveats_and_signature caveats signature_value

name_eq_sound : (n m : PacketName) → name_eq n m ≡ true → n ≡ m
name_eq_sound n m h = ground (arith, h)

packet_lem :
    (p : Packet) (n : PacketName)
    → name_eq p.name n ≡ true
    → p ≡ record { name = n; value = p.value }
packet_lem p n h =
    ap {A = PacketName} {B = Packet} (λ m. record { name = m; value = p.value })
      (name_eq_sound p.name n h)

ends_well-IsTail :
    (ps : List Packet) → ends_well ps ≡ true → all is_cid (without_last ps) ≡ true → IsTail ps
ends_well-IsTail [] e c = ground (arith, e)
ends_well-IsTail (p ∷ []) e c = record {
  caveats = [];
  signature_value = p.value;
  signature_length = ground (arith, e);
  packets_lem = ap (λ q. q ∷ []) (packet_lem p PacketName.signature (ground (arith, e)));
}
ends_well-IsTail (p ∷ q ∷ ps) e c =
    let t = ends_well-IsTail (q ∷ ps) e (ground (arith, c)) in
    record {
      caveats = p.value ∷ t.caveats;
      signature_value = t.signature_value;
      signature_length = t.signature_length;
      packets_lem =
          ap (λ x. x ∷ q ∷ ps) (packet_lem p PacketName.cid (ground (arith, c)))
          ∙ ap (λ xs. record { name = PacketName.cid; value = p.value } ∷ xs) t.packets_lem;
    }

headed :
    (p q : Packet) (ps : List Packet)
    → p ≡ record { name = PacketName.location; value = p.value }
    → q ≡ record { name = PacketName.identifier; value = q.value }
    → IsTail ps
    → IsMacaroon (p ∷ q ∷ ps)
headed p q ps hp hq t = record {
  location_value = p.value;
  identifier_value = q.value;
  caveats = t.caveats;
  signature_value = t.signature_value;
  signature_length = t.signature_length;
  packets_lem = rw (hp, hq, t.packets_lem) refl;
}

sequence_starts :
    (p q : Packet) (ps : List Packet)
    → sequence_ok (p ∷ q ∷ ps) ≡ true
    → (name_eq p.name PacketName.location ≡ true) × (name_eq q.name PacketName.identifier ≡ true)
unfolding sequence_ok
sequence_starts p q ps h = (ground (arith, h), ground (arith, h))

sequence_tail :
    (p q r : Packet) (ps : List Packet)
    → sequence_ok (p ∷ q ∷ r ∷ ps) ≡ true
    → (ends_well (r ∷ ps) ≡ true) × (all is_cid (without_last (r ∷ ps)) ≡ true)
unfolding sequence_ok
sequence_tail p q r ps h = (ground (arith, h), ground (arith, h))

sequence-IsMacaroon : (ps : List Packet) → sequence_ok ps ≡ true → IsMacaroon ps
unfolding sequence_ok
sequence-IsMacaroon [] h = ground (arith, h)
sequence-IsMacaroon (p ∷ []) h = ground (arith, h)
sequence-IsMacaroon (p ∷ q ∷ []) h = ground (arith, h)
sequence-IsMacaroon (p ∷ q ∷ r ∷ ps) h =
    let s = sequence_starts p q (r ∷ ps) h in
    let t = sequence_tail p q r ps h in
    headed p q (r ∷ ps) (packet_lem p PacketName.location s.0)
      (packet_lem q PacketName.identifier s.1) (ends_well-IsTail (r ∷ ps) t.0 t.1)

-- the checks on a tail that the shape gives
tail-ok :
    (cs : List (List ℕ)) (s : List ℕ)
    → length s ≡ 32
    → (ends_well (caveats_and_signature cs s) ≡ true)
      × (all is_cid (without_last (caveats_and_signature cs s)) ≡ true)
      × (count PacketName.location (caveats_and_signature cs s) ≡ 0)
      × (count PacketName.identifier (caveats_and_signature cs s) ≡ 0)
      × (count PacketName.signature (caveats_and_signature cs s) ≡ 1)
tail-ok [] s h = (ground (arith, h), refl, refl, refl, refl)
tail-ok (c ∷ []) s h = (ground (arith, h), refl, refl, refl, refl)
tail-ok (c ∷ d ∷ cs) s h = tail-ok (d ∷ cs) s h

macaroon-sequence_ok :
    (l i : List ℕ) (cs : List (List ℕ)) (s : List ℕ)
    → length s ≡ 32
    → sequence_ok (macaroon_packets l i cs s) ≡ true
unfolding sequence_ok
macaroon-sequence_ok l i [] s h = ground (arith, h)
macaroon-sequence_ok l i (c ∷ cs) s h =
    let (e, a, m, n, k) = tail-ok (c ∷ cs) s h in ground (arith, e, a, m, n, k)

IsMacaroon-sequence_ok : (ps : List Packet) → IsMacaroon ps → sequence_ok ps ≡ true
IsMacaroon-sequence_ok ps h =
    ap sequence_ok h.packets_lem
    ∙ macaroon-sequence_ok h.location_value h.identifier_value h.caveats h.signature_value
        h.signature_length

abbrev sequenced : List Packet → Outcome MacaroonError (List Packet)
sequenced ps = if sequence_ok ps then done ps else raised MacaroonError.sequence_invalid

sequenced_sound :
    (ps qs : List Packet) → sequenced ps ≡ done qs → (ps ≡ qs) × (sequence_ok ps ≡ true)
sequenced_sound ps qs h = ground (arith, h)

read_sound :
    (bytes : List ℕ) (ps : List Packet)
    → read_macaroon bytes ≡ done ps
    → IsStream bytes ps × IsMacaroon ps
unfolding read_macaroon
read_sound bytes ps h =
    and_then-ends (λ o. o ≡ done ps → IsStream bytes ps × IsMacaroon ps)
      (parse_packets (length bytes) bytes) sequenced
      (λ qs e r.
        let (same, ok) = sequenced_sound qs ps r in
        let s = (parse_packets_iff (length bytes) bytes qs (omega arith)).0 e in
        subst (λ q. IsStream bytes q × IsMacaroon q) same (s, sequence-IsMacaroon qs ok))
      (λ e q r. ground (arith, r)) h

-- The check of the packets accepts bytes exactly where they are a stream of packets, with nothing
-- left, that are a location, an identifier, any caveats, and a signature of 32 bytes.
pub read_macaroon_iff :
    (bytes : List ℕ) (ps : List Packet)
    → (read_macaroon bytes ≡ done ps) ↔ (IsStream bytes ps × IsMacaroon ps)
unfolding read_macaroon
read_macaroon_iff bytes ps = (
  read_sound bytes ps,
  λ h.
      ap (λ o. and_then o sequenced)
        ((parse_packets_iff (length bytes) bytes ps (omega arith)).1 h.0)
      ∙ if-cases (λ o. o ≡ done ps) (sequence_ok ps) (done ps)
          (raised MacaroonError.sequence_invalid) (λ _. refl)
          (λ e. absurd (ground (arith, e, IsMacaroon-sequence_ok ps h.1))),
)

sequenced-ends : (ps : List Packet) → sequenced ps ≢ raised MacaroonError.out_of_fuel
sequenced-ends ps =
    if-cases (λ o. o ≢ raised MacaroonError.out_of_fuel) (sequence_ok ps) (done ps)
      (raised MacaroonError.sequence_invalid) (λ _. ground arith) (λ _. ground arith)

raised-ne :
    (e : MacaroonError)
    → e ≢ MacaroonError.out_of_fuel
    → (o : Outcome MacaroonError (List Packet)) → o ≡ raised e
    → o ≢ raised MacaroonError.out_of_fuel
raised-ne e n o p r = ground (arith, n, p, r)

-- The check of the packets never runs out of its fuel, one unit for a byte.
pub read_macaroon-ends : (bytes : List ℕ) → read_macaroon bytes ≢ raised MacaroonError.out_of_fuel
unfolding read_macaroon
read_macaroon-ends bytes =
    and_then-ends (λ o. o ≢ raised MacaroonError.out_of_fuel) (parse_packets (length bytes) bytes)
      sequenced (λ qs e. sequenced-ends qs)
      (λ e q.
        raised-ne e
          (subst (IsParsed bytes) q (parse_packets-IsParsed (length bytes) bytes (omega arith)))
          (raised e) refl)
