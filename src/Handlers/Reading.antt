-- ===== src/Handlers/Reading.antt =====
-- The loops over `read_until_newline` in agent/loopfunc.c: every call keeps the buffers well formed,
-- and without new bytes each line that is handled leaves less to read.
use tp_sistemas_operativos_i.Prelude.{
  ℕ, ◌-◌, ◌≤◌, ◌<◌, ◌≡◌, refl, ap, ◌∙◌, List, [], ◌∷◌, true, arith, ◌==◌, Bool-cases, inl, inr,
  length, length-append, length-replicate, leb,
}
use tp_sistemas_operativos_i.Prelude.Int.{ℤ, pos_part}
use tp_sistemas_operativos_i.Framing.{
  Connection, Connections, Recv, Status, line, gone, read_line, read_until_newline, is_valid_fd,
  store, initialize_connection_buffers, buffer_len, make_room, space,
}
use tp_sistemas_operativos_i.Framing.Shapes.{Holds, kept}
use tp_sistemas_operativos_i.Framing.Lines.{Cut, Reads, RecvFits, bytes_of, read_line-Reads}

-- Every buffer holds some bytes.
abbrev pub Held : Connections → Type 0
Held cs = (i : ℕ) → (bytes : List ℕ) × Holds (cs i) bytes

-- `recv` has no bytes.
abbrev pub IsQuiet : (ℕ → Recv) → Type 0
IsQuiet recv = (n : ℕ) → bytes_of (recv n) ≡ []

pub initialize_connection_buffers-Held : Held initialize_connection_buffers
unfolding initialize_connection_buffers
initialize_connection_buffers-Held i = (
  [],
  record {
    size = length-replicate {A = ℕ} buffer_len 0;
    fits = omega arith;
    counted = refl;
    terminated = tt;
  },
)

pub store-Held :
    (cs : Connections) (i : ℕ) (c : Connection) (bytes : List ℕ)
    → Held cs
    → Holds c bytes
    → Held (store cs i c)
store-Held cs i c bytes held h j = elim (Bool-cases (j == i)) [
  | inl here ↦ rw here (bytes, h)
  | inr other ↦ rw other (held j)
]

length-kept : (bytes : List ℕ) → length (kept bytes) ≤ length bytes
length-kept bytes = elim (Bool-cases (leb (buffer_len - 1) (length bytes))) [
  | inl full ↦ rw full (omega arith)
  | inr free ↦ rw free (omega arith)
]

-- A line is cut off, and nothing is received.
shorter :
    (bytes l : List ℕ) (a : Recv) (status : Status) (c : Connection)
    → status ≡ line l
    → bytes_of a ≡ []
    → (r : Reads bytes a (status, c)) → length r.rest < length bytes
shorter bytes l a status c e quiet r =
    let cut = r.cut in
    let out : Cut (line l) r.input r.rest = rw e at cut in
    let (front, ends, clean) = out.1 in
    let consumed = ap length out.0 ∙ length-append {0} l r.rest in
    let newline = ap length ends ∙ length-append {0} front (10 ∷ []) in
    elim r.source [
      | inl buffered ↦ omega (arith, consumed, newline, ap length buffered)
      | inr fetched ↦ omega (
        arith,
        consumed,
        newline,
        ap length fetched ∙ length-append {0} (kept bytes) (bytes_of a),
        ap length quiet,
        length-kept bytes,
      )
    ]

-- The connection of a descriptor after a line of it: where nothing is received, it holds less.
abbrev pub Shrinks : ℤ → (ℕ → Recv) → Connections → Connections → Type 0
Shrinks fd recv cs cs' =
    (bytes : List ℕ)
    → Holds (cs (pos_part fd)) bytes
    → (bytes' : List ℕ) × Holds (cs' (pos_part fd)) bytes'
      × (IsQuiet recv → length bytes' < length bytes)

pub read_until_newline-Held :
    (fd : ℤ) (recv : ℕ → Recv) (cs : Connections)
    → RecvFits recv
    → Held cs
    → Held (read_until_newline fd recv cs).1
unfolding read_until_newline
read_until_newline-Held fd recv cs fits held = elim (Bool-cases (is_valid_fd fd)) [
  | inr out ↦ rw out held
  | inl valid ↦
      let (bytes, h) = held (pos_part fd) in
      let r = read_line-Reads (cs (pos_part fd)) bytes recv h fits in
      rw valid
        (store-Held cs (pos_part fd) (read_line (cs (pos_part fd)) recv).1 r.rest held r.holds)
]

pub read_until_newline-Shrinks :
    (fd : ℤ) (recv : ℕ → Recv) (cs : Connections) (l : List ℕ)
    → RecvFits recv
    → (read_until_newline fd recv cs).0 ≡ line l
    → Shrinks fd recv cs (read_until_newline fd recv cs).1
unfolding read_until_newline
read_until_newline-Shrinks fd recv cs l fits e bytes h = elim (Bool-cases (is_valid_fd fd)) [
  | inr out ↦ absurd (let e' : gone ≡ line l = rw out at e in cc)
  | inl valid ↦
      let c = cs (pos_part fd) in
      let r = read_line-Reads c bytes recv h fits in
      let here : (pos_part fd == pos_part fd) ≡ true = ground arith in
      rw (valid, here)
        (
          r.rest,
          r.holds,
          λ quiet.
              shorter bytes l (recv (space (make_room c))) (read_line c recv).0 (read_line c recv).1
                (rw valid at e) (quiet (space (make_room c))) r,
        )
]
