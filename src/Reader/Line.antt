-- ===== src/Reader/Line.antt =====
-- `_BufferedSocket.read_line` (ln_church_agent/network_fetch.py). The fuel of the loop is one more
-- than the maximum, since every turn adds a byte to a buffer that is shorter than the maximum.
use Prim.Native.Nat.{ℕ, suc, zero, min}
use ln_church_agent.Common.{
  Option, List, some, none, if◌then◌else◌, ◌+◌, ◌∷◌, ltb, leb, ◌==◌, ◌++◌, ◌&&◌, [], ◌-◌,
}
use ln_church_agent.Reader.Socket.{ReadMethod, recv_from, FetchError}
use ln_church_agent.Common.Outcome.{raise, raised, done, ◌>>=◌}
use ln_church_agent.Common.Lists.{length, take, drop}

abbrev pub one_later : Option ℕ → Option ℕ
one_later none = none
one_later (some n) = some (suc n)

-- the end of the first line, its two end bytes included: `position + 2`
unfoldable pub line_end : List ℕ → Option ℕ
line_end [] = none
line_end (x ∷ []) = none
line_end (x ∷ y ∷ ys) =
    let rest = line_end (y ∷ ys) in if x == 13 && y == 10 then some 2 else one_later rest

-- the line is cut off the buffer
abbrev pub cut_line : ℕ → ℕ → ReadMethod (List ℕ)
cut_line maximum end s =
    if ltb maximum end
    then (raised FetchError.response_too_large, s)
    else (done (take end s.buffer), record s { buffer = drop end s.buffer })

-- the buffer after a read
abbrev pub buffered : ReadMethod (List ℕ) → List ℕ → ReadMethod (List ℕ)
buffered again [] = raise FetchError.protocol_error
buffered again (b ∷ bs) = λ s. again (record s { buffer = s.buffer ++ (b ∷ bs) })

-- a turn that finds no line in the buffer
abbrev pub read_on : ReadMethod (List ℕ) → ℕ → ReadMethod (List ℕ)
read_on again maximum s =
    if leb maximum (length s.buffer)
    then (raised FetchError.response_too_large, s)
    else (recv_from (min 4096 (maximum + 1 - length s.buffer)) s.incoming >>= buffered again) s

abbrev pub turn_line : ReadMethod (List ℕ) → ℕ → Option ℕ → ReadMethod (List ℕ)
turn_line again maximum none = read_on again maximum
turn_line again maximum (some end) = cut_line maximum end

-- the loop
unfoldable pub read_line_more : ℕ → ℕ → ReadMethod (List ℕ)
unfolding line_end recv_from
read_line_more zero maximum s =
    turn_line (raise FetchError.out_of_fuel) maximum (line_end s.buffer) s
read_line_more (suc fuel) maximum s =
    turn_line (read_line_more fuel maximum) maximum (line_end s.buffer) s

-- `read_line`
unfoldable pub read_line : ℕ → ReadMethod (List ℕ)
unfolding read_line_more
read_line maximum = read_line_more (maximum + 1) maximum
