-- ===== src/Reader/Stream.antt =====
-- The stream of a connection (ln_church_agent/network_fetch.py): what is left of it after a part.
use ln_church_agent.Common.{ℕ, arith, List, ◌++◌, Bool, ◌∷◌, true, ◌&&◌, ◌≡◌, false, leb, [], refl}
use ln_church_agent.Reader.Socket.{Socket, Arrival, arrived, left_over, failed}
use ln_church_agent.Common.Lists.{length}

-- the bytes that the connection will give
abbrev pub stream : List Arrival → List ℕ
stream [] = []
stream (arrived bytes ∷ rest) = bytes ++ stream rest
stream (failed f ∷ rest) = stream rest

abbrev pub content : Socket → List ℕ
content s = s.buffer ++ stream s.incoming

-- no failure arrives, and no empty piece, which stands for an early end
abbrev pub is_clean : List Arrival → Bool
is_clean [] = true
is_clean (arrived [] ∷ rest) = false
is_clean (arrived (b ∷ bs) ∷ rest) = is_clean rest
is_clean (failed f ∷ rest) = false

-- the connection gives all the bytes
abbrev pub is_sufficient : ℕ → Socket → Bool
is_sufficient size s = is_clean s.incoming && leb size (length (content s))

pub clean-rest :
    (bytes : List ℕ) (rest : List Arrival)
    → is_clean (arrived bytes ∷ rest) ≡ true
    → is_clean rest ≡ true
clean-rest [] rest h = ground (arith, h)
clean-rest (b ∷ bs) rest h = h

pub clean-left_over :
    (bs : List ℕ) (rest : List Arrival) → is_clean rest ≡ true → is_clean (left_over bs rest) ≡ true
clean-left_over [] rest h = h
clean-left_over (b ∷ bs) rest h = h

pub stream-left_over :
    (bs : List ℕ) (rest : List Arrival) → stream (left_over bs rest) ≡ bs ++ stream rest
stream-left_over [] rest = refl
stream-left_over (b ∷ bs) rest = refl
