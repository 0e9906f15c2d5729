-- ===== src/Reader/LineRead.antt =====
-- `read_line` returns the first line of the stream.
-- the stream holds a line within the maximum, and no failure comes
use Prim.Native.Nat.{ℕ, suc, min, zero}
use ln_church_agent.Common.{
  Option, List, Bool, ◌≡◌, false, true, ◌+◌, some, ◌&&◌, ◌≤◌, leb, arith, ◌++◌, ltb, none, refl,
  ◌≢◌, subst, if-cases, ◌∙◌, ap, sym, [], ◌<◌, ◌∷◌, ◌-◌,
}
use ln_church_agent.Reader.Socket.{
  Socket, FetchError, ReadMethod, recv_from, Arrival, arrived, left_over, failed,
}
use ln_church_agent.Reader.Stream.{
  is_clean, content, stream, stream-left_over, clean-left_over, clean-rest,
}
use ln_church_agent.Common.Outcome.{Outcome, done, raised, raise, ◌>>=◌}
use ln_church_agent.Reader.Line.{line_end, cut_line, read_line_more, read_line, turn_line, buffered}
use ln_church_agent.Common.Lists.{
  length, length-take, take, drop, append_assoc, take-drop, length-append,
}
use ln_church_agent.Reader.LineEnd.{line_end-append, line_end-take, line_end-later}

abbrev pub is_within : ℕ → Option ℕ → Bool
is_within maximum none = false
is_within maximum (some end) = leb end maximum

abbrev pub has_line : ℕ → Socket → Bool
has_line maximum s = is_clean s.incoming && is_within maximum (line_end (content s))

-- a read of the first line of the content: all of it, or a failure
abbrev pub IsLine : ℕ → List ℕ → Bool → Outcome FetchError (List ℕ) × Socket → Type 0
IsLine maximum whole good (done line, s) =
    (length line ≤ maximum) × (line_end line ≡ some (length line)) × (line ++ content s ≡ whole)
IsLine maximum whole good (raised e, s) = (e ≢ FetchError.out_of_fuel) × (good ≡ false)

-- the state of the loop before a turn
record IsScanning (fuel maximum : ℕ) (whole : List ℕ) (good : Bool) (s : Socket) : Type 0 where
  pub enough : maximum + 1 ≤ length s.buffer + fuel
  pub conserved : content s ≡ whole
  pub clean : good ≡ true → is_clean s.incoming ≡ true
  pub within_lem : good ≡ true → is_within maximum (line_end whole) ≡ true

within-some :
    (maximum : ℕ) (o : Option ℕ)
    → is_within maximum o ≡ true
    → (k : ℕ) × (o ≡ some k) × (k ≤ maximum)
within-some maximum none h = ground (arith, h)
within-some maximum (some k) h = (k, refl, ground (arith, h))

module _ (maximum : ℕ) (whole : List ℕ) (good : Bool) where
  -- a line that was found is the first of the stream
  cut_line-IsLine :
      (fuel end : ℕ) (s : Socket)
      → IsScanning fuel maximum whole good s
      → line_end s.buffer ≡ some end
      → IsLine maximum whole good (cut_line maximum end s)
  cut_line-IsLine fuel end s h e =
      let later = line_end-append s.buffer (stream s.incoming) end e in
      let (l, t) = line_end-take s.buffer end e in
      let n = length-take end s.buffer in
      let size : length (take end s.buffer) ≡ end = omega (arith, n, l) in
      let all_of : line_end whole ≡ some end =
        subst (λ x. line_end x ≡ some end) h.conserved later in
      if-cases (IsLine maximum whole good) (ltb maximum end)
        (raised FetchError.response_too_large, s)
        (done (take end s.buffer), record s { buffer = drop end s.buffer })
        (λ b. (ground arith, too_long end all_of b h.within_lem))
        (λ b. (
          ground (arith, b, size),
          t ∙ ap some (sym size),
          sym (append_assoc (take end s.buffer) (drop end s.buffer) (stream s.incoming))
              ∙ ap (λ x. x ++ stream s.incoming) (take-drop end s.buffer)
              ∙ h.conserved,
        ))
    where
      too_long :
          (end : ℕ)
          → line_end whole ≡ some end
          → ltb maximum end ≡ true
          → (good ≡ true → is_within maximum (line_end whole) ≡ true)
          → good ≡ false
      too_long end e b w =
          let v : good ≡ true → is_within maximum (some end) ≡ true =
            λ g. subst (λ o. is_within maximum o ≡ true) e (w g) in
          ground (arith, v, b)

  -- a line of the stream ends after a buffer that holds none
  line_after :
      (s : Socket)
      → line_end s.buffer ≡ none
      → content s ≡ whole
      → is_within maximum (line_end whole) ≡ true
      → (k : ℕ) × (line_end (content s) ≡ some k) × (length s.buffer < k) × (k ≤ maximum)
  line_after s n c w =
      let (k, e, m) = within-some maximum (line_end whole) w in
      let here : line_end (content s) ≡ some k = subst (λ x. line_end x ≡ some k) (sym c) e in
      (k, here, line_end-later s.buffer (stream s.incoming) k n here, m)

  refutes : ¬ (good ≡ true) → good ≡ false
  refutes n = ground (arith, n)

  full-IsLine :
      (fuel : ℕ) (s : Socket)
      → IsScanning fuel maximum whole good s
      → line_end s.buffer ≡ none
      → maximum ≤ length s.buffer
      → IsLine maximum whole good (raised FetchError.response_too_large, s)
  full-IsLine fuel s h n l = (
    ground arith,
    refutes (λ g.
        let (k, e, a, m) = line_after s n h.conserved (h.within_lem g) in omega (arith, l, a, m)),
  )

  -- the stream ends without the line
  ended-IsLine :
      (fuel : ℕ) (buffer : List ℕ)
      → IsScanning fuel maximum whole good (record { buffer = buffer; incoming = [] })
      → line_end buffer ≡ none
      → good ≡ false
  ended-IsLine fuel buffer h n = refutes (λ g.
      let s : Socket = record { buffer = buffer; incoming = [] } in
      let (k, e, a, m) = line_after s n h.conserved (h.within_lem g) in
      let (l, t) = line_end-take (buffer ++ []) k e in
      let len = length-append buffer [] in omega (arith, a, l, len))

  -- the rest of the loop, on every state that it can reach
  abbrev IsRest : ℕ → ReadMethod (List ℕ) → Type 0
  IsRest fuel again =
      (s : Socket) → IsScanning fuel maximum whole good s → IsLine maximum whole good (again s)

  buffered-IsLine :
      (fuel n : ℕ) (again : ReadMethod (List ℕ)) (buffer bytes : List ℕ) (rest : List Arrival)
      (t : List ℕ)
      → IsRest fuel again
      → 1 ≤ n
      → take n bytes ≡ t
      → IsScanning
          (suc fuel)
          maximum
          whole
          good
          (record { buffer = buffer; incoming = arrived bytes ∷ rest })
      → IsLine maximum whole good
          (buffered again t (record { buffer = buffer; incoming = left_over (drop n bytes) rest }))
  buffered-IsLine fuel n again buffer [] rest [] ih o e h = (ground arith, ground (arith, h.clean))
  buffered-IsLine fuel zero again buffer (x ∷ xs) rest [] ih o e h = absurd (omega (arith, o))
  buffered-IsLine fuel (suc n) again buffer (x ∷ xs) rest [] ih o e h = ground (arith, e)
  buffered-IsLine fuel n again buffer bytes rest (b ∷ bs) ih o e h =
      let l = length-append buffer (b ∷ bs) in
      ih (record { buffer = buffer ++ (b ∷ bs); incoming = left_over (drop n bytes) rest })
        (record {
          enough = omega (arith, l, h.enough);
          conserved =
              append_assoc buffer (b ∷ bs) (stream (left_over (drop n bytes) rest))
              ∙ ap (λ t. buffer ++ t)
                  (ap (λ t. (b ∷ bs) ++ t) (stream-left_over (drop n bytes) rest)
                    ∙ ap (λ t. t ++ (drop n bytes ++ stream rest)) (sym e)
                    ∙ sym (append_assoc (take n bytes) (drop n bytes) (stream rest))
                    ∙ ap (λ t. t ++ stream rest) (take-drop n bytes))
              ∙ h.conserved;
          clean = λ g. clean-left_over (drop n bytes) rest (clean-rest bytes rest (h.clean g));
          within_lem = h.within_lem;
        })

  received-IsLine :
      (fuel n : ℕ) (again : ReadMethod (List ℕ)) (buffer : List ℕ) (incoming : List Arrival)
      → IsRest fuel again
      → 1 ≤ n
      → IsScanning (suc fuel) maximum whole good (record { buffer = buffer; incoming = incoming })
      → line_end buffer ≡ none
      → IsLine maximum whole good (
          (recv_from n incoming >>= buffered again)
            (record { buffer = buffer; incoming = incoming }))
  unfolding recv_from
  received-IsLine fuel n again buffer [] ih o h e =
      (ground arith, ended-IsLine (suc fuel) buffer h e)
  received-IsLine fuel n again buffer (failed f ∷ rest) ih o h e =
      (ground arith, ground (arith, h.clean))
  received-IsLine fuel n again buffer (arrived bytes ∷ rest) ih o h e =
      buffered-IsLine fuel n again buffer bytes rest (take n bytes) ih o refl h

  -- without fuel the buffer is full
  spent-IsLine :
      (again : ReadMethod (List ℕ)) (s : Socket) (o : Option ℕ)
      → IsScanning 0 maximum whole good s
      → line_end s.buffer ≡ o
      → IsLine maximum whole good (turn_line again maximum o s)
  spent-IsLine again s (some end) h e = cut_line-IsLine 0 end s h e
  spent-IsLine again s none h e =
      if-cases (IsLine maximum whole good) (leb maximum (length s.buffer))
        (raised FetchError.response_too_large, s)
        ((recv_from (min 4096 (maximum + 1 - length s.buffer)) s.incoming >>= buffered again) s)
        (λ l. full-IsLine 0 s h e (ground (arith, l))) (λ l. absurd (ground (arith, l, h.enough)))

  turn_line-IsLine :
      (fuel : ℕ) (again : ReadMethod (List ℕ)) (s : Socket) (o : Option ℕ)
      → IsRest fuel again
      → IsScanning (suc fuel) maximum whole good s
      → line_end s.buffer ≡ o
      → IsLine maximum whole good (turn_line again maximum o s)
  turn_line-IsLine fuel again s (some end) ih h e = cut_line-IsLine (suc fuel) end s h e
  turn_line-IsLine fuel again s none ih h e =
      let n = min 4096 (maximum + 1 - length s.buffer) in
      if-cases (IsLine maximum whole good) (leb maximum (length s.buffer))
        (raised FetchError.response_too_large, s) ((recv_from n s.incoming >>= buffered again) s)
        (λ l. full-IsLine (suc fuel) s h e (ground (arith, l)))
        (λ l. received-IsLine fuel n again s.buffer s.incoming ih (ground (arith, l)) h e)

  read_line_more-IsLine : (fuel : ℕ) → IsRest fuel (read_line_more fuel maximum)
  unfolding read_line_more
  read_line_more-IsLine zero s h =
      spent-IsLine (raise FetchError.out_of_fuel) s (line_end s.buffer) h refl
  read_line_more-IsLine (suc fuel) s h =
      turn_line-IsLine fuel (read_line_more fuel maximum) s (line_end s.buffer)
        (read_line_more-IsLine fuel) h refl

-- Whatever arrives in whatever pieces, `read_line` returns the first line of the stream, its two
-- end bytes included, which is within the maximum, and leaves the bytes after it, unless it raises:
-- its loop never runs out of fuel, and it does not raise where no failure and no early end comes
-- and the stream's first line is within the maximum.
pub read_line-IsLine :
    (maximum : ℕ) (s : Socket)
    → IsLine maximum (content s) (has_line maximum s) (read_line maximum s)
unfolding read_line
read_line-IsLine maximum s =
    let good = has_line maximum s in
    let clean : good ≡ true → is_clean s.incoming ≡ true = λ g. ground (arith, g) in
    let within : good ≡ true → is_within maximum (line_end (content s)) ≡ true =
      λ g. ground (arith, g) in
    read_line_more-IsLine maximum (content s) good (maximum + 1) s
      (record { enough = omega arith; conserved = refl; clean = clean; within_lem = within })
