-- ===== src/ResourceQueue/Linked.antt =====
-- When a chain of cells in the heap holds a list of requests, and what writes do to it.
use tp_sistemas_operativos_i.Prelude.{ℕ, ◌<◌, ◌≡◌, ◌≢◌, refl, List, [], ◌∷◌, ◌++◌, some, arith}
use tp_sistemas_operativos_i.ResourceQueue.{Request, Cell, Heap, RequestQueue, update}

-- The requests of a chain, each with its address.
abbrev pub Nodes : Type 0
Nodes = List (ℕ × Request)

abbrev pub head_address : Nodes → ℕ
head_address [] = 0
head_address ((p, r) ∷ xs) = p

abbrev pub last_address : Nodes → ℕ
last_address [] = 0
last_address ((p, r) ∷ []) = p
last_address (x ∷ y ∷ xs) = last_address (y ∷ xs)

abbrev pub NotIn : ℕ → Nodes → Type 0
NotIn p [] = Unit {0}
NotIn p ((q, r) ∷ xs) = (p ≢ q) × NotIn p xs

-- Every node is in the heap, not at NULL, linked to the next one, and at an address of its own.
abbrev pub Linked : Heap → Nodes → Type 0
Linked h [] = Unit {0}
Linked h ((p, r) ∷ xs) =
    (0 < p)
    × (h p ≡ some (record { request = r; next_req = head_address xs }))
    × NotIn p xs
    × Linked h xs

-- The queue's two pointers are the ends of the chain.
pub record Holds (h : Heap) (q : RequestQueue) (xs : Nodes) : Type 0 where
  pub first : q.first ≡ head_address xs
  pub last : q.last ≡ last_address xs
  pub linked : Linked h xs

pub Linked-update :
    (h : Heap) (p : ℕ) (c : Cell) (xs : Nodes)
    → NotIn p xs
    → Linked h xs
    → Linked (update h p (some c)) xs
Linked-update h p c [] n l = tt
Linked-update h p c ((q, r) ∷ xs) n l = (l.0, ground arith, l.2, Linked-update h p c xs n.1 l.3)

pub NotIn-append :
    (p q : ℕ) (r : Request) (xs : Nodes) → NotIn p xs → p ≢ q → NotIn p (xs ++ (q, r) ∷ [])
NotIn-append p q r [] n h = (h, tt)
NotIn-append p q r ((s, t) ∷ xs) n h = (n.0, NotIn-append p q r xs n.1 h)

pub last_address-append : (q : ℕ) (r : Request) (xs : Nodes) → last_address (xs ++ (q, r) ∷ []) ≡ q
last_address-append q r [] = refl
last_address-append q r (x ∷ []) = refl
last_address-append q r (x ∷ y ∷ xs) = last_address-append q r (y ∷ xs)
