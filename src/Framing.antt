-- ===== src/Framing.antt =====
-- agent/read_instructions.c and read_instructions.h: the buffer of a connection, and
-- `read_until_newline`, which cuts the stream of a socket into lines. The array is a list of
-- `buffer_len` bytes, and every write goes to its place in it. The answer of `recv` is the argument
-- `recv`, a function of the space that it is given.
pub mod Shapes
pub mod Lines
use tp_sistemas_operativos_i.Prelude.{
  ℕ, zero, suc, ◌+◌, ◌-◌, List, [], ◌∷◌, ◌++◌, Option, none, some, Bool, true, false, ◌||◌, ltb,
  leb, ◌==◌, if◌then◌else◌, length, take, drop, replicate,
}
use tp_sistemas_operativos_i.Prelude.Int.{ℤ, pos, pos_part, ltb_ℤ, leb_ℤ, eq_ℤ}
use mathlib.Core.Option

abbrev pub buffer_len : ℕ
buffer_len = 1024

abbrev pub max_fds : ℕ
max_fds = 1024

pub record Connection : Type 0 where
  pub buffer : List ℕ
  pub accumulated_bytes : ℕ

-- What `recv` returns: some bytes, 0 (the peer has closed), EAGAIN or EWOULDBLOCK, another error.
pub data Recv : Type 0 where
  received : List ℕ → Recv
  end_of_stream would_block failed : Recv

-- The results 1, 0 and -1, with the line that 1 comes with.
pub data Status : Type 0 where
  line : List ℕ → Status
  incomplete gone : Status

-- `memcpy(&buffer[i], bytes, length)`
abbrev pub splice : List ℕ → ℕ → List ℕ → List ℕ
splice buffer i bytes = take i buffer ++ (bytes ++ drop (i + length bytes) buffer)

-- The position of the first newline before the terminator.
unfoldable pub strchr : List ℕ → Option ℕ
strchr [] = none
strchr (c ∷ cs) = if c == 10 then some 0 else (if c == 0 then none else Option.map suc (strchr cs))

-- Hands out the line that ends at `nl`, and moves what follows it to the front.
unfoldable pub extract : Connection → ℕ → Status × Connection
extract c nl =
    let line_len = nl + 1 in
    let remaining = c.accumulated_bytes - line_len in
    let moved =
      if ltb 0 remaining
      then splice c.buffer 0 (take remaining (drop line_len c.buffer))
      else c.buffer in
    (
      line (take line_len c.buffer),
      record {
        buffer = take remaining moved ++ replicate (buffer_len - remaining) 0;
        accumulated_bytes = remaining;
      },
    )

-- A full buffer with no line in it is discarded.
unfoldable pub make_room : Connection → Connection
make_room c =
    if leb (buffer_len - 1) c.accumulated_bytes
    then record { buffer = splice c.buffer 0 (0 ∷ []); accumulated_bytes = 0 }
    else c

abbrev pub space : Connection → ℕ
space c = buffer_len - 1 - c.accumulated_bytes

unfoldable pub append_bytes : Connection → List ℕ → Connection
append_bytes c bytes =
    let n = c.accumulated_bytes + length bytes in
    record {
      buffer = splice (splice c.buffer c.accumulated_bytes bytes) n (0 ∷ []);
      accumulated_bytes = n;
    }

-- The line at `nl`, if there is one.
abbrev pub finish : Connection → Option ℕ → Status × Connection
finish c none = (incomplete, c)
finish c (some nl) = extract c nl

abbrev pub answered : Connection → Recv → Status × Connection
answered c end_of_stream = (gone, c)
answered c would_block = (incomplete, c)
answered c failed = (gone, c)
answered c (received bytes) = let c' = append_bytes c bytes in finish c' (strchr c'.buffer)

-- The newline that is already in the buffer.
abbrev pub buffered : Connection → Option ℕ
buffered c = if ltb 0 c.accumulated_bytes then strchr c.buffer else none

abbrev pub fetched : Connection → (ℕ → Recv) → Option ℕ → Status × Connection
fetched c recv (some nl) = extract c nl
fetched c recv none = let c' = make_room c in answered c' (recv (space c'))

-- `read_until_newline` on the connection of a valid descriptor.
unfoldable pub read_line : Connection → (ℕ → Recv) → Status × Connection
unfolding strchr extract make_room append_bytes
read_line c recv = fetched c recv (buffered c)

-- `connections`
abbrev pub Connections : Type 0
Connections = ℕ → Connection

abbrev pub is_valid_fd : ℤ → Bool
is_valid_fd fd = if ltb_ℤ fd (pos 0) then false else ltb_ℤ fd (pos max_fds)

abbrev pub store : Connections → ℕ → Connection → Connections
store cs i c j = if j == i then c else cs j

unfoldable pub read_until_newline : ℤ → (ℕ → Recv) → Connections → Status × Connections
unfolding read_line
read_until_newline fd recv cs =
    if is_valid_fd fd
    then (let r = read_line (cs (pos_part fd)) recv in (r.0, store cs (pos_part fd) r.1))
    else (gone, cs)

abbrev pub emptied : Connection → Connection
emptied c = record c { accumulated_bytes = 0 }

unfoldable pub clear_connection_buffer : ℤ → Connections → Connections
clear_connection_buffer fd cs =
    if is_valid_fd fd then store cs (pos_part fd) (emptied (cs (pos_part fd))) else cs

-- Static storage is zero.
unfoldable pub initialize_connection_buffers : Connections
initialize_connection_buffers i = record { buffer = replicate buffer_len 0; accumulated_bytes = 0 }
