-- ===== src/ResourceQueue/Drain.antt =====
-- The locked loop of `drain_queue` on the heap refines `drain_list`, and ends within the fuel.
use tp_sistemas_operativos_i.Prelude.{
  ℕ, zero, suc, ◌<◌, ◌≡◌, refl, sym, ap, ◌∙◌, [], ◌∷◌, some, true, false, arith, length, ◌==◌,
  Bool-cases, inl, inr,
}
use tp_sistemas_operativos_i.Prelude.Int.{ℤ, ◌-ℤ◌, leb_ℤ}
use tp_sistemas_operativos_i.ResourceQueue.{
  Request, Heap, RequestQueue, update, ◌>>=◌, set_next, drain_locked,
}
use tp_sistemas_operativos_i.ResourceQueue.Linked.{
  Nodes, head_address, NotIn, Linked, Holds, Linked-update,
}
use tp_sistemas_operativos_i.ResourceQueue.Waiting.{drain_list}
use tp_sistemas_operativos_i.ResourceQueue.Fifo.{dequeue-Holds}

-- No address is in both chains.
abbrev pub Apart : Nodes → Nodes → Type 0
Apart [] ys = Unit {0}
Apart ((p, r) ∷ xs) ys = NotIn p ys × Apart xs ys

abbrev pub node_amount : ℕ × Request → ℤ
node_amount n = n.1.amount_requested

Apart-cons :
    (p : ℕ) (s : Request) (xs ys : Nodes) → NotIn p xs → Apart xs ys → Apart xs ((p, s) ∷ ys)
Apart-cons p s [] ys n a = tt
Apart-cons p s ((q, r) ∷ xs) ys n a = ((λ e. n.0 (sym e), a.0), Apart-cons p s xs ys n.1 a.1)

-- The heap after the head at `p` went to the front of the stash.
abbrev stashed : Heap → ℕ → Request → ℕ → Heap
stashed h p s ready =
    update (update h p (some (record { request = s; next_req = 0 }))) p
      (some (record { request = s; next_req = ready }))

nonempty :
    {h : Heap} {q : RequestQueue} {p : ℕ} {s : Request} {xs : Nodes}
    → Holds h q ((p, s) ∷ xs)
    → (q.first == 0) ≡ false
nonempty v = ground (arith, v.first, v.linked.0)

head-cell :
    {h : Heap} {q : RequestQueue} {p : ℕ} {s : Request} {xs : Nodes}
    → Holds h q ((p, s) ∷ xs)
    → h q.first ≡ some (record { request = s; next_req = head_address xs })
head-cell {h} v = ap h v.first ∙ v.linked.1

same_address : (p : ℕ) → (p == p) ≡ true
same_address p = ground arith

drain-step :
    (fuel : ℕ) (h : Heap) (q : RequestQueue) (ready p : ℕ) (s : Request) (xs : Nodes)
    → Holds h q ((p, s) ∷ xs)
    → leb_ℤ s.amount_requested q.resources_left ≡ true
    → (q' : RequestQueue) × (drain_locked (suc fuel) q ready h
        ≡ drain_locked fuel
            (record q' { resources_left = q.resources_left -ℤ s.amount_requested })
            p
            (stashed h p s ready))
      × Holds (stashed h p s ready) q' xs
unfolding drain_locked set_next
drain-step fuel h q ready p s xs v fits =
    let (q', run, w, same) = dequeue-Holds h q p s xs v in
    (
      q',
      rw (nonempty v, head-cell v, ◌>>=◌, fits, run, same_address p)
          (ap
            (λ (left : ℤ).
              drain_locked fuel (record q' { resources_left = left -ℤ s.amount_requested }) p
                (stashed h p s ready))
            same),
      record {
        first = w.first;
        last = w.last;
        linked = Linked-update _ p _ xs v.linked.2 w.linked;
      },
    )

-- On a well-linked queue and a stash apart from it, with more fuel than the queue has nodes, the loop
-- of `drain_queue` on the heap returns; what it leaves in the queue, in the stash and free is what the
-- drain of the list of requests gives, and both lists are well linked.
pub drain-Holds :
    (fuel : ℕ) (h : Heap) (q : RequestQueue) (xs ys : Nodes)
    → Holds h q xs
    → Linked h ys
    → Apart xs ys
    → length xs < fuel
    → let d = drain_list node_amount q.resources_left xs ys in
      (q' : RequestQueue) × (h' : Heap) × (drain_locked fuel q (head_address ys) h
        ≡ some (q', head_address d.ready, h'))
      × Holds h' q' d.waiting
      × Linked h' d.ready
      × (q'.resources_left ≡ d.left)
unfolding drain_locked drain_list
drain-Holds zero h q xs ys v l a f = elim f [ ]
drain-Holds (suc fuel) h q [] ys v l a f = (q, h, ground arith, v, l, refl)
drain-Holds (suc fuel) h q ((p, s) ∷ xs) ys v l a f =
    elim (Bool-cases (leb_ℤ s.amount_requested q.resources_left)) [
      | inr stop ↦ rw stop (q, h, rw (nonempty v, head-cell v, ◌>>=◌, stop) refl, v, l, refl)
      | inl fits ↦
          let (q', step, w) = drain-step fuel h q (head_address ys) p s xs v fits in
          rw (fits, step)
            (drain-Holds fuel (stashed h p s (head_address ys))
              (record q' { resources_left = q.resources_left -ℤ s.amount_requested }) xs
              ((p, s) ∷ ys) (record { first = w.first; last = w.last; linked = w.linked })
              (
                v.linked.0,
                ground arith,
                a.0,
                Linked-update _ p _ ys a.0 (Linked-update h p _ ys a.0 l),
              )
              (Apart-cons p s xs ys v.linked.2 a.1) (omega arith))
    ]
