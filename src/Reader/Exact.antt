-- ===== src/Reader/Exact.antt =====
-- `read_exact` returns the next bytes of the stream, as many as are asked.
use ln_church_agent.Common.{
  ℕ, arith, List, ◌++◌, ◌≤◌, leb, ◌∷◌, ◌≡◌, ◌+◌, ◌-◌, suc, [], ap, ◌<◌, true, leb→le, refl, ◌≢◌,
  ◌∙◌, sym, if-cases, subst, Bool, false,
}
use ln_church_agent.Reader.Socket.{
  Socket, Arrival, FetchError, left_over, arrived, failed, Failure, read_more, absorb, recv_from,
  read_exact, failure_code,
}
use ln_church_agent.Common.Outcome.{Outcome, done, raised, ◌>>=◌}
use ln_church_agent.Common.Lists.{
  take, length, drop, length-append, length-take, append_assoc, drop_all, take-drop,
}
use Prim.Native.Nat.{zero, min}
use ln_church_agent.Reader.Stream.{
  content, is_clean, stream, is_sufficient, stream-left_over, clean-left_over, clean-rest,
}

-- a read of this many bytes of the content: all of them, or a failure of the connection
abbrev pub IsExactly : ℕ → List ℕ → Bool → Outcome FetchError (List ℕ) × Socket → Type 0
IsExactly size whole good (done bytes, s) = (length bytes ≡ size) × (bytes ++ content s ≡ whole)
IsExactly size whole good (raised e, s) = (e ≢ FetchError.out_of_fuel) × (good ≡ false)

-- the state of the loop before a turn
pub record IsReading (fuel size : ℕ) (whole : List ℕ) (good : Bool) (result : List ℕ) (s : Socket)
    : Type 0 where
  pub enough : size ≤ length result + fuel
  pub at_most : length result ≤ size
  pub drained : length result < size → s.buffer ≡ []
  pub conserved : result ++ content s ≡ whole
  pub clean : good ≡ true → is_clean s.incoming ≡ true
  pub plenty : good ≡ true → size ≤ length whole

finish :
    (fuel size : ℕ) (whole : List ℕ) (good : Bool) (result : List ℕ) (s : Socket)
    → IsReading fuel size whole good result s
    → leb size (length result) ≡ true
    → IsExactly size whole good (done result, s)
finish fuel size whole good result s h e =
    (omega (arith, h.at_most, leb→le size (length result) e), h.conserved)

-- the loop after a read of some bytes
turned :
    (fuel size n : ℕ) (whole : List ℕ) (good : Bool) (result bytes : List ℕ) (rest : List Arrival)
    → n ≤ size - length result
    → (b : ℕ) (bs : List ℕ) → take n bytes ≡ b ∷ bs
    → IsReading
        (suc fuel)
        size
        whole
        good
        result
        (record { buffer = []; incoming = arrived bytes ∷ rest })
    → IsReading fuel size whole good
        (result ++ (b ∷ bs))
        (record { buffer = []; incoming = left_over (drop n bytes) rest })
turned fuel size n whole good result bytes rest m b bs e h =
    let l = length-append result (b ∷ bs) in
    let t = length-take n bytes in
    let e' : length (take n bytes) ≡ length (b ∷ bs) = ap length e in
    record {
      enough = omega (arith, l, h.enough);
      at_most = omega (arith, l, t, e', m, h.at_most);
      drained = λ _. refl;
      conserved =
          append_assoc result (b ∷ bs) (stream (left_over (drop n bytes) rest))
          ∙ ap (λ t. result ++ t)
              (ap (λ t. (b ∷ bs) ++ t) (stream-left_over (drop n bytes) rest)
                ∙ ap (λ t. t ++ (drop n bytes ++ stream rest)) (sym e)
                ∙ sym (append_assoc (take n bytes) (drop n bytes) (stream rest))
                ∙ ap (λ t. t ++ stream rest) (take-drop n bytes))
          ∙ h.conserved;
      clean = λ g. clean-left_over (drop n bytes) rest (clean-rest bytes rest (h.clean g));
      plenty = h.plenty;
    }

failure_code-ne : (f : Failure) → failure_code f ≢ FetchError.out_of_fuel
failure_code-ne f = ground arith

protocol_error-ne : FetchError.protocol_error ≢ FetchError.out_of_fuel
protocol_error-ne = ground arith

-- the rest of the loop, on every state that it can reach
abbrev IsLoop : ℕ → ℕ → List ℕ → Bool → Type 0
IsLoop fuel size whole good =
    (result : List ℕ) (s : Socket)
    → IsReading fuel size whole good result s
    → IsExactly size whole good (read_more fuel size result s)

early_end :
    (fuel size n : ℕ) (whole : List ℕ) (good : Bool) (result bytes : List ℕ) (rest : List Arrival)
    → 1 ≤ n
    → take n bytes ≡ []
    → IsReading
        (suc fuel)
        size
        whole
        good
        result
        (record { buffer = []; incoming = arrived bytes ∷ rest })
    → good ≡ false
early_end fuel size n whole good result [] rest o e h = ground (arith, h.clean)
early_end fuel size (suc n) whole good result (x ∷ xs) rest o e h = ground (arith, e)
early_end fuel size zero whole good result (x ∷ xs) rest o e h = ground (arith, o)

absorb-IsExactly :
    (fuel size n : ℕ) (whole : List ℕ) (good : Bool) (result bytes : List ℕ) (rest : List Arrival)
    (t : List ℕ)
    → IsLoop fuel size whole good
    → n ≤ size - length result
    → 1 ≤ n
    → take n bytes ≡ t
    → IsReading
        (suc fuel)
        size
        whole
        good
        result
        (record { buffer = []; incoming = arrived bytes ∷ rest })
    → IsExactly size whole good (
        absorb
          (read_more fuel size)
          result
          t
          (record { buffer = []; incoming = left_over (drop n bytes) rest }))
absorb-IsExactly fuel size n whole good result bytes rest [] ih m o e h =
    (protocol_error-ne, early_end fuel size n whole good result bytes rest o e h)
absorb-IsExactly fuel size n whole good result bytes rest (b ∷ bs) ih m o e h =
    ih (result ++ (b ∷ bs)) (record { buffer = []; incoming = left_over (drop n bytes) rest })
      (turned fuel size n whole good result bytes rest m b bs e h)

turn-IsExactly :
    (fuel size n : ℕ) (whole : List ℕ) (good : Bool) (result : List ℕ) (incoming : List Arrival)
    → IsLoop fuel size whole good
    → n ≤ size - length result
    → 1 ≤ n
    → IsReading (suc fuel) size whole good result (record { buffer = []; incoming = incoming })
    → IsExactly size whole good (
        (recv_from n incoming >>= absorb (read_more fuel size) result)
          (record { buffer = []; incoming = incoming }))
unfolding recv_from
turn-IsExactly fuel size n whole good result [] ih m o h =
    let l = length-append result [] in
    let c : length (result ++ []) ≡ length whole = ap length h.conserved in
    (protocol_error-ne, ground (arith, o, m, l, c, h.plenty))
turn-IsExactly fuel size n whole good result (failed f ∷ rest) ih m o h =
    (failure_code-ne f, ground (arith, h.clean))
turn-IsExactly fuel size n whole good result (arrived bytes ∷ rest) ih m o h =
    absorb-IsExactly fuel size n whole good result bytes rest (take n bytes) ih m o refl h

read_more-IsExactly : (fuel size : ℕ) (whole : List ℕ) (good : Bool) → IsLoop fuel size whole good
unfolding read_more
read_more-IsExactly zero size whole good result s h =
    if-cases (IsExactly size whole good) (leb size (length result)) (done result, s)
      (raised FetchError.out_of_fuel, s) (finish zero size whole good result s h)
      (λ e. (ground (arith, e, h.enough), ground (arith, e, h.enough)))
read_more-IsExactly (suc fuel) size whole good result s h =
    let n = min 4096 (size - length result) in
    let turn : Socket → Outcome FetchError (List ℕ) × Socket =
      λ q. (recv_from n q.incoming >>= absorb (read_more fuel size) result) q in
    let s0 : Socket = record { buffer = []; incoming = s.incoming } in
    if-cases (IsExactly size whole good) (leb size (length result)) (done result, s) (turn s)
      (finish (suc fuel) size whole good result s h)
      (λ e.
        let d = h.drained (ground (arith, e)) in
        let p : s ≡ s0 = ap (λ b. record s { buffer = b }) d in
        let h0 = subst (IsReading (suc fuel) size whole good result) p h in
        subst (λ q. IsExactly size whole good (turn q)) (sym p)
          (turn-IsExactly fuel size n whole good result s.incoming
            (read_more-IsExactly fuel size whole good) (omega arith) (ground (arith, e)) h0))

-- Whatever arrives in whatever pieces, `read_exact` returns exactly the asked number of bytes, the
-- next ones of the stream, and leaves the bytes after them, unless it raises: its loop never runs
-- out of fuel, and it does not raise where no failure and no early end comes and the stream has the
-- bytes.
pub read_exact-IsExactly :
    (size : ℕ) (s : Socket) → IsExactly size (content s) (is_sufficient size s) (read_exact size s)
unfolding read_exact
read_exact-IsExactly size s =
    let t = length-take size s.buffer in
    let good = is_sufficient size s in
    let clean : good ≡ true → is_clean s.incoming ≡ true = λ g. ground (arith, g) in
    let plenty : good ≡ true → size ≤ length (content s) = λ g. ground (arith, g) in
    read_more-IsExactly size size (content s) good (take size s.buffer)
      (record s { buffer = drop size s.buffer })
      (record {
        enough = omega arith;
        at_most = omega (arith, t);
        drained = λ l. drop_all size s.buffer (omega (arith, t, l));
        conserved =
            sym (append_assoc (take size s.buffer) (drop size s.buffer) (stream s.incoming))
            ∙ ap (λ x. x ++ stream s.incoming) (take-drop size s.buffer);
        clean = clean;
        plenty = plenty;
      })
