-- ===== src/Reader/Socket.antt =====
-- `_BufferedSocket` (ln_church_agent/network_fetch.py): `_recv` and `read_exact`.
--
-- What the connection will give stands in the state: bytes that arrive together, and failures. The
-- fuel of the loop is the size that is asked, since every turn reads at least one byte.
use ln_church_agent.Common.{ℕ, List, ◌∷◌, if◌then◌else◌, ◌++◌, leb, [], suc, min, ◌-◌}
use ln_church_agent.Common.Outcome.{Method, done, raise, raised, ◌>>=◌}
use ln_church_agent.Common.Lists.{take, drop, length}
use Prim.Native.Nat.{zero}

-- `NetworkFetchError` by its code, and the end of the fuel
pub data FetchError : Type 0 where
  timeout protocol_error connection_error response_too_large out_of_fuel : FetchError

-- why the connection fails
pub data Failure : Type 0 where
  timed_out tls_failed os_failed : Failure

abbrev pub failure_code : Failure → FetchError
failure_code Failure.timed_out = FetchError.timeout
failure_code Failure.tls_failed = FetchError.protocol_error
failure_code Failure.os_failed = FetchError.connection_error

pub data Arrival : Type 0 where
  arrived : List ℕ → Arrival
  failed : Failure → Arrival

pub record Socket : Type 0 where
  pub buffer : List ℕ
  pub incoming : List Arrival

abbrev pub ReadMethod : Type 0 → Type 0
ReadMethod A = Method Socket FetchError A

-- the bytes of an arrival that were not read
abbrev pub left_over : List ℕ → List Arrival → List Arrival
left_over [] rest = rest
left_over (b ∷ bs) rest = arrived (b ∷ bs) ∷ rest

-- `_recv`; no bytes stand for the end of the stream
unfoldable pub recv_from : ℕ → List Arrival → ReadMethod (List ℕ)
recv_from maximum [] s = (done [], s)
recv_from maximum (failed f ∷ rest) s = (raised (failure_code f), record s { incoming = rest })
recv_from maximum (arrived bytes ∷ rest) s =
    (done (take maximum bytes), record s { incoming = left_over (drop maximum bytes) rest })

-- a turn of the loop, after `_recv`
abbrev pub absorb : (List ℕ → ReadMethod (List ℕ)) → List ℕ → List ℕ → ReadMethod (List ℕ)
absorb k result [] = raise FetchError.protocol_error
absorb k result (b ∷ bs) = k (result ++ (b ∷ bs))

-- the loop of `read_exact`
unfoldable pub read_more : ℕ → ℕ → List ℕ → ReadMethod (List ℕ)
unfolding recv_from
read_more zero size result s =
    if leb size (length result) then (done result, s) else (raised FetchError.out_of_fuel, s)
read_more (suc fuel) size result s =
    let turn =
      (recv_from (min 4096 (size - length result)) s.incoming
          >>= absorb (read_more fuel size) result)
        s in
    if leb size (length result) then (done result, s) else turn

-- `read_exact`
unfoldable pub read_exact : ℕ → ReadMethod (List ℕ)
unfolding read_more
read_exact size s =
    read_more size size (take size s.buffer) (record s { buffer = drop size s.buffer })
