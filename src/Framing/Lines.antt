-- ===== src/Framing/Lines.antt =====
-- `read_until_newline` cuts lines: what it hands out and keeps is what it had and received, and no
-- write leaves the two arrays.
use mathlib.Core.List.{append-nil}
use tp_sistemas_operativos_i.Prelude.{
  ℕ, suc, ◌+◌, ◌-◌, ◌≤◌, ◌<◌, ◌≡◌, ◌≢◌, refl, sym, ap, ◌⊎◌, List, [], ◌∷◌, ◌++◌, none, some, true,
  false, arith, ltb, leb, ◌==◌, Bool-cases, Option-cases, inl, inr, length, take, drop,
  length-append, take-append-drop, All,
}
use tp_sistemas_operativos_i.Framing.{
  Connection, Recv, received, end_of_stream, would_block, failed, Status, line, incomplete, gone,
  buffer_len, strchr, extract, make_room, append_bytes, space, finish, answered, buffered,
  read_line,
}
use tp_sistemas_operativos_i.Framing.Shapes.{
  Holds, kept, strchr-terminated, strchr-lt, append_bytes-Holds, append_bytes-strchr,
  make_room-Holds, extract-Holds,
}

-- A newline at the end, and no other.
abbrev pub IsLine : List ℕ → Type 0
IsLine l = (front : List ℕ) × (l ≡ front ++ 10 ∷ []) × All (λ c. c ≢ 10) front

abbrev pub bytes_of : Recv → List ℕ
bytes_of (received l) = l
bytes_of end_of_stream = []
bytes_of would_block = []
bytes_of failed = []

-- What a call hands out of its input, and what it keeps.
abbrev pub Cut : Status → List ℕ → List ℕ → Type 0
Cut (line l) input rest = (input ≡ l ++ rest) × IsLine l × (length l < buffer_len)
Cut incomplete input rest = (input ≡ rest) × (strchr rest ≡ none)
Cut gone input rest = input ≡ rest

-- The outcome of a call on a connection that holds `bytes`, where `recv` answers `a`. The input is
-- what was buffered, or what was kept of it with what was received.
pub record Reads (bytes : List ℕ) (a : Recv) (r : Status × Connection) : Type 0 where
  pub input : List ℕ
  pub rest : List ℕ
  pub source : (input ≡ bytes) ⊎ (input ≡ kept bytes ++ bytes_of a)
  pub cut : Cut r.0 input rest
  pub holds : Holds r.1 rest
  pub ends : r.0 ≡ gone → (strchr bytes ≡ none) × (bytes_of a ≡ [])

buffered-strchr : (c : Connection) (bytes : List ℕ) → Holds c bytes → buffered c ≡ strchr bytes
unfolding strchr
buffered-strchr c [] h =
    let empty : ltb 0 c.accumulated_bytes ≡ false = ground (arith, h.counted) in rw empty
buffered-strchr c (b ∷ bs) h =
    let (tail, shape) = h.terminated in
    let some_there : ltb 0 c.accumulated_bytes ≡ true = ground (arith, h.counted) in
    rw (some_there, shape) (strchr-terminated (b ∷ bs) tail)

strchr-newline : (b : ℕ) (bs : List ℕ) → (b == 10) ≡ true → strchr (b ∷ bs) ≡ some 0
unfolding strchr
strchr-newline b bs e = rw e

strchr-other :
    (b n : ℕ) (bs : List ℕ)
    → (b == 10) ≡ false
    → strchr (b ∷ bs) ≡ some n
    → (m : ℕ) × (n ≡ suc m) × (strchr bs ≡ some m)
unfolding strchr
strchr-other b n bs other e = elim (Option-cases (strchr bs)) [
  | inl absent ↦ absurd (ground arith)
  | inr (m, found) ↦ (m, ground arith, found)
]

IsLine-at : (bytes : List ℕ) (n : ℕ) → strchr bytes ≡ some n → IsLine (take (suc n) bytes)
IsLine-at [] n e = absurd (omega (arith, strchr-lt [] n e))
IsLine-at (b ∷ bs) n e = elim (Bool-cases (b == 10)) [
  | inl newline ↦
      let first : n ≡ 0 = ground (arith, strchr-newline b bs newline) in
      let ten : b ≡ 10 = ground arith in ([], rw (first, ten) refl, tt)
  | inr other ↦
      let (m, next, found) = strchr-other b n bs other e in
      let (front, ends, clean) = IsLine-at bs m found in
      (b ∷ front, rw next (ap (◌∷◌ b) ends), (ground arith, clean))
]

-- `recv` returns no more bytes than it is given space for.
abbrev pub RecvFits : (ℕ → Recv) → Type 0
RecvFits recv = (n : ℕ) → length (bytes_of (recv n)) ≤ n

extract-Reads :
    (c : Connection) (input bytes : List ℕ) (a : Recv) (n : ℕ)
    → Holds c input
    → (input ≡ bytes) ⊎ (input ≡ kept bytes ++ bytes_of a)
    → strchr input ≡ some n
    → Reads bytes a (extract c n)
extract-Reads c input bytes a n h source e =
    let (out, rest) = extract-Holds c input n h e in
    let next : n + 1 ≡ suc n = omega arith in
    record {
      input = input;
      rest = drop (n + 1) input;
      source = source;
      cut = rw out (
        sym (take-append-drop (n + 1) input),
        rw next (IsLine-at input n e),
        omega (
          arith,
          h.fits,
          ap length (take-append-drop (n + 1) input),
          length-append {0} (take (n + 1) input) (drop (n + 1) input),
        ),
      );
      holds = rest;
      ends = λ g. absurd (ground (arith, out));
    }

finish-Reads :
    (c : Connection) (input bytes : List ℕ) (a : Recv)
    → Holds c input
    → input ≡ kept bytes ++ bytes_of a
    → strchr c.buffer ≡ strchr input
    → Reads bytes a (finish c (strchr c.buffer))
finish-Reads c input bytes a h e same = elim (Option-cases (strchr input)) [
  | inl absent ↦
      rw (same, absent)
        (record {
          input = input;
          rest = input;
          source = inr e;
          cut = (refl, absent);
          holds = h;
          ends = λ g. cc;
        })
  | inr (n, found) ↦ rw (same, found) (extract-Reads c input bytes a n h (inr e) found)
]

kept-strchr : (bytes : List ℕ) → strchr bytes ≡ none → strchr (kept bytes) ≡ none
unfolding strchr
kept-strchr bytes e = elim (Bool-cases (leb (buffer_len - 1) (length bytes))) [
  | inl full ↦ rw full
  | inr free ↦ rw free e
]

-- The call that found no line in the buffer.
answered-Reads :
    (c : Connection) (bytes : List ℕ) (a : Recv)
    → Holds c (kept bytes)
    → length (bytes_of a) ≤ space c
    → strchr bytes ≡ none
    → Reads bytes a (answered c a)
answered-Reads c bytes end_of_stream h room e = record {
  input = kept bytes;
  rest = kept bytes;
  source = inr (sym (append-nil (kept bytes)));
  cut = refl;
  holds = h;
  ends = λ g. (e, refl);
}
answered-Reads c bytes failed h room e = record {
  input = kept bytes;
  rest = kept bytes;
  source = inr (sym (append-nil (kept bytes)));
  cut = refl;
  holds = h;
  ends = λ g. (e, refl);
}
answered-Reads c bytes would_block h room e = record {
  input = kept bytes;
  rest = kept bytes;
  source = inr (sym (append-nil (kept bytes)));
  cut = (refl, kept-strchr bytes e);
  holds = h;
  ends = λ g. cc;
}
answered-Reads c bytes (received new) h room e =
    finish-Reads (append_bytes c new) (kept bytes ++ new) bytes (received new)
      (append_bytes-Holds c (kept bytes) new h room) refl (append_bytes-strchr c (kept bytes) new h)

-- A call on a well-formed connection, where `recv` returns no more than it has space for, cuts one
-- line off what is buffered; or, where no line is buffered, receives once (a full buffer is discarded
-- before) and cuts one line, if there is one, off what it then has. What it hands out and what it
-- keeps are that input in order, the line fits the caller's array, and the connection is well formed.
pub read_line-Reads :
    (c : Connection) (bytes : List ℕ) (recv : ℕ → Recv)
    → Holds c bytes
    → RecvFits recv
    → Reads bytes (recv (space (make_room c))) (read_line c recv)
unfolding read_line
read_line-Reads c bytes recv h fits = elim (Option-cases (strchr bytes)) [
  | inr (n, found) ↦
      rw (buffered-strchr c bytes h, found)
        (extract-Reads c bytes bytes (recv (space (make_room c))) n h (inl refl) found)
  | inl absent ↦
      rw (buffered-strchr c bytes h, absent)
        (answered-Reads (make_room c) bytes (recv (space (make_room c)))
          (make_room-Holds c bytes h).0 (fits (space (make_room c))) absent)
]
