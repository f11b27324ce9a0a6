-- ===== src/JobHeap/Tails.antt =====
-- Chains of cells to whose end a cell is added.
use tp_sistemas_operativos_i.Prelude.{
  ℕ, ◌<◌, ◌≡◌, refl, [], ◌∷◌, ◌++◌, false, none, some, ◌==◌, arith,
}
use tp_sistemas_operativos_i.Domain.{PendingResource}
use tp_sistemas_operativos_i.JobHeap.{resource_block, Heap, update, new_cell}
use tp_sistemas_operativos_i.JobHeap.Linked.{Nodes, is_in, Linked, Apart, Apart-head, Apart-tail}

-- The last of a chain.
abbrev pub last_node : ℕ × PendingResource → Nodes → ℕ × PendingResource
last_node n [] = n
last_node n (m ∷ ms) = last_node m ms

pub last-cell :
    (h : Heap) (n : ℕ × PendingResource) (ns : Nodes)
    → Linked h (n ∷ ns)
    → h (last_node n ns).0
      ≡ some (resource_block (record { resource = (last_node n ns).1; next = 0 }))
last-cell h n [] l = l.1
last-cell h n (m ∷ ms) l = last-cell h m ms l.3

pub last-apart :
    (q : ℕ) (n : ℕ × PendingResource) (ns : Nodes)
    → is_in q (n ∷ ns) ≡ false
    → (q == (last_node n ns).0) ≡ false
last-apart q n [] e = ground (arith, e)
last-apart q n (m ∷ ms) e = last-apart q m ms (ground (arith, e))

pub is_in-snoc :
    (p : ℕ) (xs : Nodes) (q : ℕ) (r : PendingResource)
    → is_in p xs ≡ false
    → (p == q) ≡ false
    → is_in p (xs ++ (q, r) ∷ []) ≡ false
is_in-snoc p [] q r e d = ground (arith, d)
is_in-snoc p ((s, t) ∷ xs) q r e d =
    let rest = is_in-snoc p xs q r (ground (arith, e)) d in ground (arith, rest, e)

-- The last cell of a chain gets the address of a new cell.
pub Linked-snoc :
    (h : Heap) (n : ℕ × PendingResource) (ns : Nodes) (q : ℕ) (r : PendingResource)
    → Linked h (n ∷ ns)
    → 0 < q
    → is_in q (n ∷ ns) ≡ false
    → h q ≡ some (resource_block (new_cell r))
    → Linked
        (update h
          (last_node n ns).0
          (some (resource_block (record { resource = (last_node n ns).1; next = q }))))
        (n ∷ (ns ++ (q, r) ∷ []))
Linked-snoc h n [] q r l z f c =
    (l.0, ground arith, ground (arith, f), (z, ground (arith, f, c), refl, tt))
Linked-snoc h n (m ∷ ms) q r l z f c =
    let rest = Linked-snoc h m ms q r l.3 z (ground (arith, f)) c in
    let other = last-apart n.0 m ms l.2 in
    (l.0, ground (arith, other, l.1), is_in-snoc n.0 (m ∷ ms) q r l.2 (ground (arith, f)), rest)

pub fresh-is_in : (h : Heap) (q : ℕ) (xs : Nodes) → h q ≡ none → Linked h xs → is_in q xs ≡ false
fresh-is_in h q [] e l = refl
fresh-is_in h q ((s, t) ∷ xs) e l = let rest = fresh-is_in h q xs e l.3 in ground (arith, rest, l.1)

pub Apart-snoc :
    (q : ℕ) (r : PendingResource) (xs ys : Nodes)
    → is_in q ys ≡ false
    → Apart ys xs
    → Apart ys (xs ++ (q, r) ∷ [])
Apart-snoc q r xs [] e a = tt
Apart-snoc q r xs ((s, t) ∷ ys) e a =
    (is_in-snoc s xs q r a.0 (ground (arith, e)), Apart-snoc q r xs ys (ground (arith, e)) a.1)

pub Apart-last :
    (n : ℕ × PendingResource) (ns ys : Nodes)
    → Apart ys (n ∷ ns)
    → is_in (last_node n ns).0 ys ≡ false
Apart-last n [] ys a = Apart-head n.0 n.1 [] ys a
Apart-last n (m ∷ ms) ys a = Apart-last m ms ys (Apart-tail n.0 n.1 (m ∷ ms) ys a)

-- The last request, where there is one.
abbrev pub tail_of : ℕ → Nodes → ℕ
tail_of t [] = t
tail_of t (n ∷ ns) = (last_node n ns).0
