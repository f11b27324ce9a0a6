-- ===== src/Examples/Streams.antt =====
-- A connection that receives one line and a part of the next.
use tp_sistemas_operativos_i.Prelude.{
  ℕ, ◌≡◌, refl, [], ◌∷◌, ◌++◌, arith, length-replicate, leb, if◌then◌else◌,
}
use tp_sistemas_operativos_i.Prelude.Text.{codes}
use tp_sistemas_operativos_i.Framing.{
  Connection, Recv, received, would_block, line, strchr, extract, make_room, append_bytes, space,
  read_line, buffer_len, initialize_connection_buffers,
}
use tp_sistemas_operativos_i.Framing.Shapes.{Holds}
use tp_sistemas_operativos_i.Framing.Lines.{Reads, RecvFits, read_line-Reads}

abbrev fresh : Connection
fresh = initialize_connection_buffers 5

fresh-Holds : Holds fresh []
unfolding initialize_connection_buffers
fresh-Holds = record {
  size = length-replicate {A = ℕ} buffer_len 0;
  fits = omega arith;
  counted = refl;
  terminated = tt;
}

-- What the socket has: a line, and the start of another.
abbrev socket : ℕ → Recv
socket space =
    if leb 20 space then received (codes "RELEASE 7" ++ 10 ∷ codes "GRANTED") else would_block

socket-RecvFits : RecvFits socket
socket-RecvFits n = ground arith

first_line : (read_line fresh socket).0 ≡ line (codes "RELEASE 7" ++ 10 ∷ [])
unfolding read_line strchr extract make_room append_bytes initialize_connection_buffers
first_line = refl

read_line-Reads_example : Reads [] (socket (space (make_room fresh))) (read_line fresh socket)
read_line-Reads_example = read_line-Reads fresh [] socket fresh-Holds socket-RecvFits
