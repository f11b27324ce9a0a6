-- ===== src/Framing/Shapes.antt =====
-- When a buffer holds some bytes, and what the steps of `read_until_newline` do to them.
use mathlib.Core.List.{append_assoc}
use tp_sistemas_operativos_i.Prelude.{
  ℕ, zero, suc, ◌+◌, ◌-◌, ◌≤◌, ◌<◌, ◌≡◌, refl, sym, ap, ◌∙◌, List, [], ◌∷◌, ◌++◌, some, true, false,
  arith, ltb, leb, if◌then◌else◌, Bool-cases, inl, inr, length, take, drop, replicate,
  length-append, length-take, length-drop, length-replicate, take-append, drop-append,
  take-length_append,
}
use tp_sistemas_operativos_i.Framing.{
  Connection, line, buffer_len, splice, strchr, extract, make_room, append_bytes, space,
}

-- The terminator stands behind the bytes, unless there are none.
abbrev pub Terminated : List ℕ → List ℕ → Type 0
Terminated buffer [] = Unit {0}
Terminated buffer (b ∷ bs) = (tail : List ℕ) × (buffer ≡ (b ∷ bs) ++ 0 ∷ tail)

-- The connection holds exactly these bytes.
pub record Holds (c : Connection) (bytes : List ℕ) : Type 0 where
  pub size : length c.buffer ≡ buffer_len
  pub fits : length bytes < buffer_len
  pub counted : c.accumulated_bytes ≡ length bytes
  pub terminated : Terminated c.buffer bytes

pub strchr-terminated : (bytes tail : List ℕ) → strchr (bytes ++ 0 ∷ tail) ≡ strchr bytes
unfolding strchr
strchr-terminated [] tail = refl
strchr-terminated (b ∷ bs) tail = rw (strchr-terminated bs tail)

pub strchr-lt : (bytes : List ℕ) (n : ℕ) → strchr bytes ≡ some n → n < length bytes
unfolding strchr
strchr-lt [] n e = cc
strchr-lt (b ∷ bs) n e = ground (arith, strchr-lt bs (n - 1))

length-splice :
    (buffer bytes : List ℕ) (i : ℕ)
    → i + length bytes ≤ length buffer
    → length (splice buffer i bytes) ≡ length buffer
length-splice buffer bytes i h = omega (
  arith,
  length-append {0} (take i buffer) (bytes ++ drop (i + length bytes) buffer),
  length-append {0} bytes (drop (i + length bytes) buffer),
  length-take {0} i buffer (omega arith),
  length-drop {0} (i + length bytes) buffer,
)

take-held : (c : Connection) (bytes : List ℕ) → Holds c bytes → take (length bytes) c.buffer ≡ bytes
take-held c [] h = refl
take-held c (b ∷ bs) h =
    let (tail, e) = h.terminated in rw e (take-length_append (b ∷ bs) (0 ∷ tail))

Terminated-append : (bytes tail : List ℕ) → Terminated (bytes ++ 0 ∷ tail) bytes
Terminated-append [] tail = tt
Terminated-append (b ∷ bs) tail = (tail, refl)

take_two :
    (bytes new rest : List ℕ) (n : ℕ)
    → n ≡ length bytes + length new
    → take n (bytes ++ (new ++ rest)) ≡ bytes ++ new
take_two bytes new rest n e =
    rw (e, ← append_assoc bytes new rest, ← length-append bytes new)
      (take-length_append (bytes ++ new) rest)

take-splice :
    (buffer bytes new : List ℕ) (acc : ℕ)
    → acc ≡ length bytes
    → take acc buffer ≡ bytes
    → take (acc + length new) (splice buffer acc new) ≡ bytes ++ new
take-splice buffer bytes new acc e held =
    rw held (take_two bytes new (drop (acc + length new) buffer) (acc + length new) (omega arith))

-- The buffer after a receive: what was there, what was received, and the terminator.
append_bytes-buffer :
    (c : Connection) (bytes new : List ℕ)
    → Holds c bytes
    → (tail : List ℕ) × ((append_bytes c new).buffer ≡ (bytes ++ new) ++ 0 ∷ tail)
unfolding append_bytes
append_bytes-buffer c bytes new h =
    let n = c.accumulated_bytes + length new in
    let first = splice c.buffer c.accumulated_bytes new in
    let front : take n first ≡ bytes ++ new =
      take-splice c.buffer bytes new c.accumulated_bytes h.counted
        (rw h.counted (take-held c bytes h)) in
    (drop (n + 1) first, rw front refl)

pub append_bytes-strchr :
    (c : Connection) (bytes new : List ℕ)
    → Holds c bytes
    → strchr (append_bytes c new).buffer ≡ strchr (bytes ++ new)
append_bytes-strchr c bytes new h =
    let (tail, e) = append_bytes-buffer c bytes new h in
    rw e (strchr-terminated (bytes ++ new) tail)

-- What was received stands behind what was there.
pub append_bytes-Holds :
    (c : Connection) (bytes new : List ℕ)
    → Holds c bytes
    → length new ≤ space c
    → Holds (append_bytes c new) (bytes ++ new)
unfolding append_bytes
append_bytes-Holds c bytes new h room =
    let total = length-append {0} bytes new in
    let n = c.accumulated_bytes + length new in
    let first = splice c.buffer c.accumulated_bytes new in
    let size' = length-splice c.buffer new c.accumulated_bytes (omega (arith, h.size, h.counted)) in
    let (tail, e) = append_bytes-buffer c bytes new h in
    record {
      size =
          length-splice first (0 ∷ []) n (omega (arith, size', h.size, h.counted)) ∙ size' ∙ h.size;
      fits = omega (arith, total, h.counted, h.fits);
      counted = omega (arith, total, h.counted);
      terminated = rw e (Terminated-append (bytes ++ new) tail);
    }

-- The bytes that are kept where there is no room for another.
abbrev pub kept : List ℕ → List ℕ
kept bytes = if leb (buffer_len - 1) (length bytes) then [] else bytes

pub make_room-Holds :
    (c : Connection) (bytes : List ℕ)
    → Holds c bytes
    → Holds (make_room c) (kept bytes) × (0 < space (make_room c))
unfolding make_room
make_room-Holds c bytes h = elim (Bool-cases (leb (buffer_len - 1) (length bytes))) [
  | inl full ↦
      let full' : leb (buffer_len - 1) c.accumulated_bytes ≡ true = rw h.counted full in
      rw (full', full)
        (
          record {
            size = length-splice c.buffer (0 ∷ []) 0 (omega (arith, h.size)) ∙ h.size;
            fits = omega arith;
            counted = refl;
            terminated = tt;
          },
          omega arith,
        )
  | inr free ↦
      let free' : leb (buffer_len - 1) c.accumulated_bytes ≡ false = rw h.counted free in
      rw (free', free) (h, ground arith)
]

zeros : (m : ℕ) → 0 < m → replicate {A = ℕ} m 0 ≡ 0 ∷ replicate (m - 1) 0
zeros zero h = absurd (omega arith)
zeros (suc m) h = ap (λ (k : ℕ). 0 ∷ replicate k 0) (omega arith)

empty_of_length : (xs : List ℕ) → length xs ≡ 0 → xs ≡ []
empty_of_length [] h = refl
empty_of_length (x ∷ xs) h = absurd (omega arith)

-- Moving what follows the line to the front.
moved-front :
    (buffer bytes tail : List ℕ) (k remaining : ℕ)
    → buffer ≡ bytes ++ 0 ∷ tail
    → k ≤ length bytes
    → remaining ≡ length (drop k bytes)
    → take remaining
        (if ltb 0 remaining then splice buffer 0 (take remaining (drop k buffer)) else buffer)
      ≡ drop k bytes
moved-front buffer bytes tail k remaining e h r =
    let rest = drop k bytes in
    let front : take remaining (drop k buffer) ≡ rest =
      rw (e, drop-append k bytes (0 ∷ tail) h, r) (take-length_append rest (0 ∷ tail)) in
    elim (Bool-cases (ltb 0 remaining)) [
      | inl some_left ↦
          rw (some_left, front) (rw r (take-length_append rest (drop (0 + length rest) buffer)))
      | inr none_left ↦
          let none' : remaining ≡ 0 = ground arith in
          rw (none_left, none') (sym (empty_of_length rest (omega arith)))
    ]

pub extract-Holds :
    (c : Connection) (bytes : List ℕ) (n : ℕ)
    → Holds c bytes
    → strchr bytes ≡ some n
    → ((extract c n).0 ≡ line (take (n + 1) bytes)) × Holds (extract c n).1 (drop (n + 1) bytes)
unfolding extract
extract-Holds c [] n h e = absurd (omega (arith, strchr-lt [] n e))
extract-Holds c (b ∷ bs) n h e =
    let bytes = b ∷ bs in
    let (tail, shape) = h.terminated in
    let lt : n + 1 ≤ length bytes = omega (arith, strchr-lt bytes n e) in
    let rest = drop (n + 1) bytes in
    let remaining = c.accumulated_bytes - (n + 1) in
    let left : remaining ≡ length rest = omega (arith, h.counted, length-drop {0} (n + 1) bytes) in
    let moved = moved-front c.buffer bytes tail (n + 1) remaining shape lt left in
    let many : 0 < buffer_len - remaining = omega (arith, h.counted, h.fits) in
    (
      ap line (rw shape (take-append (n + 1) bytes (0 ∷ tail) lt)),
      record {
        size = rw moved (
            omega (
              arith,
              length-append {0} rest (replicate (buffer_len - remaining) 0),
              length-replicate {0} {A = ℕ} (buffer_len - remaining) 0,
              left,
              h.counted,
              h.fits,
            ));
        fits = omega (arith, left, h.counted, h.fits);
        counted = left;
        terminated = rw (moved, zeros (buffer_len - remaining) many) (Terminated-append rest _);
      },
    )
