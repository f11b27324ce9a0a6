-- ===== src/JobHeap/Linked.antt =====
-- When chains of cells in the heap hold the requests of a job.
use tp_sistemas_operativos_i.Prelude.{
  ℕ, ◌<◌, ◌≡◌, refl, List, [], ◌∷◌, Bool, false, Option, ◌||◌, some, ◌==◌, arith,
}
use tp_sistemas_operativos_i.Domain.{PendingResource}
use tp_sistemas_operativos_i.JobHeap.{Block, resource_block, job_block, JobCell, Heap, update}

-- The requests of a chain, each with its address.
abbrev pub Nodes : Type 0
Nodes = List (ℕ × PendingResource)

abbrev pub head_address : Nodes → ℕ
head_address [] = 0
head_address ((p, r) ∷ xs) = p

abbrev pub is_in : ℕ → Nodes → Bool
is_in q [] = false
is_in q ((p, r) ∷ xs) = q == p || is_in q xs

-- Every node is in the heap, not at NULL, linked to the next one, and at an address of its own.
abbrev pub Linked : Heap → Nodes → Type 0
Linked h [] = Unit {0}
Linked h ((p, r) ∷ xs) =
    (0 < p)
    × (h p ≡ some (resource_block (record { resource = r; next = head_address xs })))
    × (is_in p xs ≡ false)
    × Linked h xs

-- No node of one list is in the other.
abbrev pub Apart : Nodes → Nodes → Type 0
Apart [] ys = Unit {0}
Apart ((p, r) ∷ xs) ys = (is_in p ys ≡ false) × Apart xs ys

-- The job at `p` has the requests `xs` and, granted, `ys`.
pub record Holds (h : Heap) (p : ℕ) (job : JobCell) (xs ys : Nodes) : Type 0 where
  pub cell : h p ≡ some (job_block job)
  pub waiting : job.next_req ≡ head_address xs
  pub granted : job.granted_reqs ≡ head_address ys
  pub waiting_linked : Linked h xs
  pub granted_linked : Linked h ys
  pub apart : Apart ys xs

-- A write outside a chain.
pub Linked-update :
    (h : Heap) (p : ℕ) (b : Option Block) (xs : Nodes)
    → is_in p xs ≡ false
    → Linked h xs
    → Linked (update h p b) xs
Linked-update h p b [] n l = tt
Linked-update h p b ((q, r) ∷ xs) n l =
    (l.0, ground arith, l.2, Linked-update h p b xs (ground arith) l.3)

-- A job is no request.
pub job-is_in :
    (h : Heap) (p : ℕ) (job : JobCell) (xs : Nodes)
    → h p ≡ some (job_block job)
    → Linked h xs
    → is_in p xs ≡ false
job-is_in h p job [] e l = refl
job-is_in h p job ((q, r) ∷ xs) e l = let rest = job-is_in h p job xs e l.3 in ground (arith, rest)

pub Apart-head :
    (q : ℕ) (r : PendingResource) (xs ys : Nodes) → Apart ys ((q, r) ∷ xs) → is_in q ys ≡ false
Apart-head q r xs [] a = refl
Apart-head q r xs ((s, t) ∷ ys) a = let rest = Apart-head q r xs ys a.1 in ground (arith, rest, a.0)

pub Apart-tail :
    (q : ℕ) (r : PendingResource) (xs ys : Nodes) → Apart ys ((q, r) ∷ xs) → Apart ys xs
Apart-tail q r xs [] a = tt
Apart-tail q r xs ((s, t) ∷ ys) a = (ground (arith, a.0), Apart-tail q r xs ys a.1)
