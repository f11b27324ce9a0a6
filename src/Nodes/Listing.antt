-- ===== src/Nodes/Listing.antt =====
-- The answer to `GET_NODES`: the text that the code writes piece by piece into its array.
use mathlib.Core.List.{append_assoc, append-nil}
use tp_sistemas_operativos_i.Prelude.{
  ℕ, zero, suc, ◌+◌, ◌-◌, ◌≤◌, ◌≡◌, refl, sym, ap, ◌∙◌, ◌⊎◌, inl, inr, List, [], ◌∷◌, ◌++◌, map,
  flatten, arith, ltb, ltb→lt, true, false, Bool-cases, if◌then◌else◌, length, length-append, take,
  take-append, take_all,
}
use tp_sistemas_operativos_i.Prelude.Text.{codes}
use tp_sistemas_operativos_i.HashTable.{HashTable}
use tp_sistemas_operativos_i.Domain.{ReceivedNode}
use tp_sistemas_operativos_i.Nodes.{
  Output, append, append_nodes, append_first, close_text, get_nodes_instance, node_text,
  buffer_size,
}

-- Each item after a semicolon.
abbrev following : List (List ℕ) → List ℕ
following [] = []
following (x ∷ xs) = codes ";" ++ (x ++ following xs)

-- The items, with a semicolon between two of them.
abbrev pub joined : List (List ℕ) → List ℕ
joined [] = []
joined (x ∷ xs) = x ++ following xs

-- What the protocol asks for, without its newline.
abbrev pub listing : List ReceivedNode → List ℕ
listing ns = codes "NODES " ++ joined (map node_text ns)

-- The array holds what fits of `whole`, and the offset counts `whole` until the array is full.
record Tracks (whole : List ℕ) (o : Output) : Type 0 where
  text : o.text ≡ take (buffer_size - 1) whole
  counted : (o.offset ≡ length whole) ⊎ ((buffer_size ≤ o.offset) × (buffer_size ≤ length whole))

take-append_over :
    (n : ℕ) (xs ys : List ℕ) → take n xs ++ take (n - length xs) ys ≡ take n (xs ++ ys)
take-append_over zero [] ys = refl
take-append_over zero (x ∷ xs) ys =
    let none_left : 0 - length (x ∷ xs) ≡ 0 = omega arith in rw none_left
take-append_over (suc n) [] ys = let all_left : suc n - 0 ≡ suc n = omega arith in rw all_left
take-append_over (suc n) (x ∷ xs) ys =
    let less : suc n - suc (length xs) ≡ n - length xs = omega arith in
    rw less (ap (◌∷◌ x) (take-append_over n xs ys))

append_open :
    (s : List ℕ) (o : Output)
    → ltb o.offset buffer_size ≡ true
    → append s o ≡ record {
      text = o.text ++ take (buffer_size - o.offset - 1) s;
      offset = o.offset + length s;
    }
unfolding append
append_open s o h = rw h

append_full : (s : List ℕ) (o : Output) → ltb o.offset buffer_size ≡ false → append s o ≡ o
unfolding append
append_full s o h = rw h

past :
    (whole s : List ℕ) (o : Output)
    → o.text ≡ take (buffer_size - 1) whole
    → buffer_size ≤ o.offset
    → buffer_size ≤ length whole
    → Tracks (whole ++ s) o
past whole s o h over long = record {
  text = h ∙ sym (take-append (buffer_size - 1) whole s (omega arith));
  counted = inr (over, omega (arith, length-append {0} whole s));
}

ltb-ge : (m n : ℕ) → ltb m n ≡ false → n ≤ m
ltb-ge m n h = ground arith

le-ltb : (m n : ℕ) → n ≤ m → ltb m n ≡ false
le-ltb m n h = ground arith

offset_open :
    (whole : List ℕ) (o : Output)
    → Tracks whole o
    → ltb o.offset buffer_size ≡ true
    → o.offset ≡ length whole
offset_open whole o h free = elim h.counted [
  | inl same ↦ same
  | inr (over, long) ↦ absurd (omega (arith, over, ltb→lt o.offset buffer_size free))
]

offset_full :
    (whole : List ℕ) (o : Output)
    → Tracks whole o
    → ltb o.offset buffer_size ≡ false
    → (buffer_size ≤ o.offset) × (buffer_size ≤ length whole)
offset_full whole o h full =
    let over : buffer_size ≤ o.offset = ltb-ge o.offset buffer_size full in
    elim h.counted [ inl same ↦ (over, omega arith) | inr both ↦ both ]

append-Tracks : (whole s : List ℕ) (o : Output) → Tracks whole o → Tracks (whole ++ s) (append s o)
append-Tracks whole s o h = elim (Bool-cases (ltb o.offset buffer_size)) [
  | inl free ↦
      let room : buffer_size - o.offset - 1 ≡ buffer_size - 1 - length whole =
        omega (arith, offset_open whole o h free) in
      rw (append_open s o free) (record {
        text = rw (h.text, room) (take-append_over (buffer_size - 1) whole s);
        counted = inl (omega (arith, offset_open whole o h free, length-append {0} whole s));
      })
  | inr full ↦
      let (over, long) = offset_full whole o h full in
      rw (append_full s o full) (past whole s o h.text over long)
]

append_nodes-Tracks :
    (ns : List ReceivedNode) (whole : List ℕ) (o : Output)
    → Tracks whole o
    → Tracks (whole ++ following (map node_text ns)) (append_nodes ns o)
unfolding append_nodes
append_nodes-Tracks [] whole o h = rw (append-nil whole) h
append_nodes-Tracks (n ∷ ns) whole o h =
    let two =
      append-Tracks (whole ++ codes ";") (node_text n) (append (codes ";") o)
        (append-Tracks whole (codes ";") o h) in
    let ih =
      append_nodes-Tracks ns ((whole ++ codes ";") ++ node_text n)
        (append (node_text n) (append (codes ";") o)) two in
    rw
      (
        ← append_assoc whole (codes ";") (node_text n ++ following (map node_text ns)),
        ← append_assoc (whole ++ codes ";") (node_text n) (following (map node_text ns)),
      )
      ih

append_first-Tracks :
    (ns : List ReceivedNode) (whole : List ℕ) (o : Output)
    → Tracks whole o
    → Tracks (whole ++ joined (map node_text ns)) (append_first ns o)
unfolding append_first
append_first-Tracks [] whole o h = rw (append-nil whole) h
append_first-Tracks (n ∷ ns) whole o h =
    rw (← append_assoc whole (node_text n) (following (map node_text ns))) (
      append_nodes-Tracks ns (whole ++ node_text n) (append (node_text n) o)
        (append-Tracks whole (node_text n) o h))

below : (n : ℕ) → ltb n (buffer_size - 1) ≡ true → ltb n buffer_size ≡ true
below n h = ground arith

length_over :
    (whole : List ℕ) (o : Output)
    → Tracks whole o
    → ltb o.offset (buffer_size - 1) ≡ false
    → buffer_size - 1 ≤ length whole
length_over whole o h full =
    let over : buffer_size - 1 ≤ o.offset = ltb-ge o.offset (buffer_size - 1) full in
    elim h.counted [ inl same ↦ omega arith | inr (past_end, long) ↦ omega arith ]

close_text-Tracks :
    (whole : List ℕ) (o : Output)
    → Tracks whole o
    → close_text o ≡ (
        if ltb (length whole) (buffer_size - 1)
        then whole ++ 10 ∷ []
        else take (buffer_size - 1) whole)
close_text-Tracks whole o h = elim (Bool-cases (ltb o.offset (buffer_size - 1))) [
  | inl free ↦
      let same = offset_open whole o h (below o.offset free) in
      let short : ltb (length whole) (buffer_size - 1) ≡ true =
        ap (λ n. ltb n (buffer_size - 1)) (sym same) ∙ free in
      rw (free, short, h.text)
        (ap (λ l. l ++ 10 ∷ [])
          (take_all (buffer_size - 1) whole
            (omega (arith, ltb→lt (length whole) (buffer_size - 1) short))))
  | inr full ↦
      let long : ltb (length whole) (buffer_size - 1) ≡ false =
        le-ltb (length whole) (buffer_size - 1) (length_over whole o h full) in
      rw (full, long) h.text
]

-- The reply lists every peer of the directory once, with a semicolon between two of them and a
-- newline at the end, where that fits in 8191 bytes; a longer one is cut there, with no newline.
pub get_nodes_instance-listing :
    (t : HashTable ReceivedNode)
    → get_nodes_instance t ≡ (
        if ltb (length (listing (flatten t.elems))) (buffer_size - 1)
        then listing (flatten t.elems) ++ 10 ∷ []
        else take (buffer_size - 1) (listing (flatten t.elems)))
unfolding get_nodes_instance
get_nodes_instance-listing t = close_text-Tracks (listing (flatten t.elems)) _ (
    append_first-Tracks (flatten t.elems) (codes "NODES ") _
      (record { text = refl; counted = inl refl }))
