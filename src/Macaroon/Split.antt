-- ===== src/Macaroon/Split.antt =====
-- What the splits of a packet mean: the newline at its end, the first space, the name.
use Prim.Native.Nat.{ℕ}
use ln_church_agent.Macaroon.Packets.{
  split_first, without_newline, packet_name, bytes_eq, PacketName, with_first, with_byte,
  MacaroonError, name_bytes, is_ascii,
}
use ln_church_agent.Common.{
  List, Option, ◌∷◌, ◌≡◌, ◌++◌, some, if-cases, not, [], true, ap, ◌==◌, subst, arith, none, refl,
  ==-self, ◌≢◌, if◌then◌else◌,
}
use ln_church_agent.Common.Lists.{all}
use ln_church_agent.Common.Outcome.{Outcome, done, raised}

abbrev Joined : ℕ → List ℕ → Option (List ℕ × List ℕ) → Type 0
Joined c xs none = Unit {0}
Joined c xs (some (before, after)) = xs ≡ before ++ (c ∷ after)

Joined-with_first :
    (c x : ℕ) (xs : List ℕ) (o : Option (List ℕ × List ℕ))
    → Joined c xs o
    → Joined c (x ∷ xs) (with_first x o)
Joined-with_first c x xs none h = tt
Joined-with_first c x xs (some (before, after)) h = ap (λ t. x ∷ t) h

split_first-Joined : (c : ℕ) (xs : List ℕ) → Joined c xs (split_first c xs)
unfolding split_first
split_first-Joined c [] = tt
split_first-Joined c (x ∷ xs) =
    if-cases (Joined c (x ∷ xs)) (x == c) (some ([], xs)) (with_first x (split_first c xs))
      (λ h. ap (λ y. y ∷ xs) (ground (arith, h)))
      (λ _. Joined-with_first c x xs (split_first c xs) (split_first-Joined c xs))

-- A split puts the bytes back together around the separator.
pub split_first_sound :
    (c : ℕ) (xs before after : List ℕ)
    → split_first c xs ≡ some (before, after)
    → xs ≡ before ++ (c ∷ after)
split_first_sound c xs before after h = subst (Joined c xs) h (split_first-Joined c xs)

-- A separator that the part before it does not hold is the first.
pub split_first_complete :
    (c : ℕ) (before after : List ℕ)
    → all (λ x. not (x == c)) before ≡ true
    → split_first c (before ++ (c ∷ after)) ≡ some (before, after)
unfolding split_first
split_first_complete c [] after h = ground (arith, ==-self c)
split_first_complete c (x ∷ xs) after h =
    let rest = split_first_complete c xs after (ground (arith, h)) in ground (arith, h, rest)

abbrev Ended : List ℕ → Option (List ℕ) → Type 0
Ended xs none = Unit {0}
Ended xs (some ys) = xs ≡ ys ++ (10 ∷ [])

Ended-with_byte :
    (x : ℕ) (xs : List ℕ) (o : Option (List ℕ)) → Ended xs o → Ended (x ∷ xs) (with_byte x o)
Ended-with_byte x xs none h = tt
Ended-with_byte x xs (some ys) h = ap (λ t. x ∷ t) h

without_newline-Ended : (xs : List ℕ) → Ended xs (without_newline xs)
unfolding without_newline
without_newline-Ended [] = tt
without_newline-Ended (x ∷ []) =
    if-cases (Ended (x ∷ [])) (x == 10) (some []) none (λ h. ap (λ y. y ∷ []) (ground (arith, h)))
      (λ _. tt)
without_newline-Ended (x ∷ y ∷ ys) =
    Ended-with_byte x (y ∷ ys) (without_newline (y ∷ ys)) (without_newline-Ended (y ∷ ys))

pub without_newline_sound : (xs ys : List ℕ) → without_newline xs ≡ some ys → xs ≡ ys ++ (10 ∷ [])
without_newline_sound xs ys h = subst (Ended xs) h (without_newline-Ended xs)

pub without_newline_complete : (ys : List ℕ) → without_newline (ys ++ (10 ∷ [])) ≡ some ys
unfolding without_newline
without_newline_complete [] = refl
without_newline_complete (y ∷ []) = refl
without_newline_complete (x ∷ y ∷ ys) = ap (with_byte x) (without_newline_complete (y ∷ ys))

pub bytes_eq_sound : (xs ys : List ℕ) → bytes_eq xs ys ≡ true → xs ≡ ys
bytes_eq_sound [] [] h = refl
bytes_eq_sound [] (y ∷ ys) h = ground (arith, h)
bytes_eq_sound (x ∷ xs) [] h = ground (arith, h)
bytes_eq_sound (x ∷ xs) (y ∷ ys) h =
    let e : x ≡ y = ground (arith, h) in
    rw e (ap (λ t. y ∷ t) (bytes_eq_sound xs ys (ground (arith, h))))

abbrev IsNamed : List ℕ → Outcome MacaroonError PacketName → Type 0
IsNamed bytes (done n) = bytes ≡ name_bytes n
IsNamed bytes (raised e) = e ≢ MacaroonError.out_of_fuel

packet_name-IsNamed : (bytes : List ℕ) → IsNamed bytes (packet_name bytes)
unfolding packet_name
packet_name-IsNamed bytes =
    let none_of : Outcome MacaroonError PacketName = raised MacaroonError.unsupported_packet in
    let try1 =
      if bytes_eq bytes (name_bytes PacketName.signature)
      then done PacketName.signature
      else none_of in
    let try2 = if bytes_eq bytes (name_bytes PacketName.cid) then done PacketName.cid else try1 in
    let try3 =
      if bytes_eq bytes (name_bytes PacketName.identifier)
      then done PacketName.identifier
      else try2 in
    let try4 =
      if bytes_eq bytes (name_bytes PacketName.location) then done PacketName.location else try3 in
    if-cases (IsNamed bytes) (not (all is_ascii bytes)) (raised MacaroonError.name_invalid) try4
      (λ _. ground arith)
      λ _.
        if-cases (IsNamed bytes) (bytes_eq bytes (name_bytes PacketName.location))
          (done PacketName.location) try3 (bytes_eq_sound bytes (name_bytes PacketName.location))
          λ _.
            if-cases (IsNamed bytes) (bytes_eq bytes (name_bytes PacketName.identifier))
              (done PacketName.identifier) try2
              (bytes_eq_sound bytes (name_bytes PacketName.identifier))
              λ _.
                if-cases (IsNamed bytes) (bytes_eq bytes (name_bytes PacketName.cid))
                  (done PacketName.cid) try1 (bytes_eq_sound bytes (name_bytes PacketName.cid))
                  λ _.
                    if-cases (IsNamed bytes) (bytes_eq bytes (name_bytes PacketName.signature))
                      (done PacketName.signature) none_of
                      (bytes_eq_sound bytes (name_bytes PacketName.signature)) (λ _. ground arith)

-- A name that is read is spelled by the bytes.
pub packet_name_sound :
    (bytes : List ℕ) (n : PacketName) → packet_name bytes ≡ done n → bytes ≡ name_bytes n
packet_name_sound bytes n h = subst (IsNamed bytes) h (packet_name-IsNamed bytes)

pub packet_name_complete : (n : PacketName) → packet_name (name_bytes n) ≡ done n
unfolding packet_name
packet_name_complete PacketName.location = refl
packet_name_complete PacketName.identifier = refl
packet_name_complete PacketName.cid = refl
packet_name_complete PacketName.signature = refl

pub packet_name-stops :
    (bytes : List ℕ) (e : MacaroonError)
    → packet_name bytes ≡ raised e
    → e ≢ MacaroonError.out_of_fuel
packet_name-stops bytes e h = subst (IsNamed bytes) h (packet_name-IsNamed bytes)
