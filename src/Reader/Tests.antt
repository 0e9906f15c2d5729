-- ===== src/Reader/Tests.antt =====
-- A read of a small stream.
use ln_church_agent.Common.{refl, ◌∷◌, [], ◌≡◌}
use ln_church_agent.Reader.Socket.{Socket, read_exact, read_more, recv_from, arrived}
use ln_church_agent.Reader.Exact.{IsExactly, read_exact-IsExactly}
use ln_church_agent.Common.Outcome.{done}
use ln_church_agent.Reader.Stream.{is_sufficient, content}
use ln_church_agent.Reader.Line.{read_line, read_line_more, line_end}
use ln_church_agent.Reader.LineRead.{IsLine, has_line, read_line-IsLine}

-- one byte is buffered, and four arrive in two pieces
abbrev small : Socket
small = record { buffer = 1 ∷ []; incoming = arrived (2 ∷ 3 ∷ []) ∷ arrived (4 ∷ 5 ∷ []) ∷ [] }

small-read :
    read_exact 4 small
    ≡ (done (1 ∷ 2 ∷ 3 ∷ 4 ∷ []), record { buffer = []; incoming = arrived (5 ∷ []) ∷ [] })
unfolding read_exact read_more recv_from
small-read = refl

read_exact-IsExactly_example :
    IsExactly 4 (content small) (is_sufficient 4 small) (read_exact 4 small)
read_exact-IsExactly_example = read_exact-IsExactly 4 small

-- a line in two pieces, and a byte after it
abbrev with_line : Socket
with_line = record {
  buffer = 65 ∷ [];
  incoming = arrived (66 ∷ 13 ∷ []) ∷ arrived (10 ∷ 67 ∷ []) ∷ [];
}

line-read :
    read_line 8 with_line
    ≡ (done (65 ∷ 66 ∷ 13 ∷ 10 ∷ []), record { buffer = 67 ∷ []; incoming = [] })
unfolding read_line read_line_more line_end recv_from
line-read = refl

read_line-IsLine_example :
    IsLine 8 (content with_line) (has_line 8 with_line) (read_line 8 with_line)
read_line-IsLine_example = read_line-IsLine 8 with_line
