-- ===== src/ResourceQueue/Fifo.antt =====
-- `enqueue_request` and `dequeue_request_locked` refine the two ends of a list.
use tp_sistemas_operativos_i.Prelude.{ℕ, ◌<◌, ◌≡◌, ◌≢◌, refl, sym, [], ◌∷◌, ◌++◌, some, arith}
use tp_sistemas_operativos_i.ResourceQueue.{
  Request, Heap, RequestQueue, update, enqueue_request, dequeue_request_locked,
}
use tp_sistemas_operativos_i.ResourceQueue.Linked.{
  Nodes, last_address, NotIn, Linked, Holds, Linked-update, NotIn-append, last_address-append,
}

abbrev last_request : Request → Nodes → Request
last_request s [] = s
last_request s ((p, r) ∷ xs) = last_request r xs

-- The heap after `last->next_req = r; r->next_req = NULL`.
abbrev appended : Heap → ℕ → Request → Request → ℕ → Heap
appended h l s req r =
    update (update h l (some (record { request = s; next_req = r }))) r
      (some (record { request = req; next_req = 0 }))

NotIn-last : (p : ℕ) (x : ℕ × Request) (xs : Nodes) → NotIn p (x ∷ xs) → p ≢ last_address (x ∷ xs)
NotIn-last p x [] n = n.0
NotIn-last p x (y ∷ xs) n = NotIn-last p y xs n.1

last-cell :
    (h : Heap) (p : ℕ) (s : Request) (xs : Nodes)
    → Linked h ((p, s) ∷ xs)
    → h (last_address ((p, s) ∷ xs)) ≡ some (record { request = last_request s xs; next_req = 0 })
last-cell h p s [] l = l.1
last-cell h p s ((q, t) ∷ xs) l = last-cell h q t xs l.3

append-Linked :
    (h : Heap) (r : ℕ) (req : Request) (p : ℕ) (s : Request) (xs : Nodes)
    → 0 < r
    → NotIn r ((p, s) ∷ xs)
    → Linked h ((p, s) ∷ xs)
    → Linked
        (appended h (last_address ((p, s) ∷ xs)) (last_request s xs) req r)
        ((p, s) ∷ (xs ++ (r, req) ∷ []))
append-Linked h r req p s [] pos n l =
    (l.0, ground arith, (λ e. n.0 (sym e), tt), (pos, ground arith, tt, tt))
append-Linked h r req p s ((q, t) ∷ xs) pos n l =
    let apart = NotIn-last p (q, t) xs l.2 in
    let other : p ≢ r = λ e. n.0 (sym e) in
    (
      l.0,
      ground arith,
      NotIn-append p r req ((q, t) ∷ xs) l.2 other,
      append-Linked h r req q t xs pos n.1 l.3,
    )

enqueue-nonempty :
    (h : Heap) (q : RequestQueue) (r l n : ℕ) (s req : Request)
    → q.first ≢ 0
    → q.last ≡ l
    → r ≢ l
    → h l ≡ some (record { request = s; next_req = 0 })
    → h r ≡ some (record { request = req; next_req = n })
    → enqueue_request q r h ≡ some (record q { last = r }, appended h l s req r)
unfolding enqueue_request
enqueue-nonempty h q r l n s req nonempty end apart c here = ground arith

-- Enqueuing an allocated request that is not in a well-linked queue succeeds and puts it at the end.
pub enqueue-Holds :
    (h : Heap) (q : RequestQueue) (r n : ℕ) (req : Request) (xs : Nodes)
    → Holds h q xs
    → 0 < r
    → h r ≡ some (record { request = req; next_req = n })
    → NotIn r xs
    → (q' : RequestQueue) × (h' : Heap) × (enqueue_request q r h ≡ some (q', h'))
      × Holds h' q' (xs ++ (r, req) ∷ [])
      × (q'.resources_left ≡ q.resources_left)
unfolding enqueue_request
enqueue-Holds h q r n req [] v pos here fresh = (
  record q { first = r; last = r },
  update h r (some (record { request = req; next_req = 0 })),
  ground arith,
  record { first = refl; last = refl; linked = (pos, ground arith, tt, tt) },
  refl,
)
enqueue-Holds h q r n req ((p, s) ∷ xs) v pos here fresh =
    let l = last_address ((p, s) ∷ xs) in
    let c = last-cell h p s xs v.linked in
    let apart = NotIn-last r (p, s) xs fresh in
    (
      record q { last = r },
      appended h l (last_request s xs) req r,
      enqueue-nonempty h q r l n (last_request s xs) req (ground arith) v.last apart c here,
      record {
        first = v.first;
        last = sym (last_address-append r req ((p, s) ∷ xs));
        linked = append-Linked h r req p s xs pos fresh v.linked;
      },
      refl,
    )

-- Dequeuing from a well-linked queue with a head takes the head, unlinks it, and leaves the rest of
-- the queue.
pub dequeue-Holds :
    (h : Heap) (q : RequestQueue) (p : ℕ) (s : Request) (xs : Nodes)
    → Holds h q ((p, s) ∷ xs)
    → (q' : RequestQueue) × (dequeue_request_locked q h
        ≡ some (p, q', update h p (some (record { request = s; next_req = 0 }))))
      × Holds (update h p (some (record { request = s; next_req = 0 }))) q' xs
      × (q'.resources_left ≡ q.resources_left)
unfolding dequeue_request_locked
dequeue-Holds h q p s [] v = (
  record q { first = 0; last = 0 },
  ground arith,
  record { first = refl; last = refl; linked = tt },
  refl,
)
dequeue-Holds h q p s ((t, u) ∷ xs) v = (
  record q { first = t; last = q.last },
  ground arith,
  record {
    first = refl;
    last = v.last;
    linked = Linked-update h p _ ((t, u) ∷ xs) v.linked.2 v.linked.3;
  },
  refl,
)
