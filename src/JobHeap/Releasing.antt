-- ===== src/JobHeap/Releasing.antt =====
-- `release_resources` (agent/utils.c) does on the heap what Client does to the list of granted requests.
use tp_sistemas_operativos_i.Prelude.{
  ℕ, zero, suc, ◌<◌, ◌≡◌, refl, ap, sym, ◌∙◌, List, [], ◌∷◌, map, Bool, false, some, ◌==◌, ◌||◌,
  length, arith,
}
use tp_sistemas_operativos_i.Prelude.Int.{ℤ}
use tp_sistemas_operativos_i.Domain.{LocalJob}
use tp_sistemas_operativos_i.Kernel.{Effect}
use tp_sistemas_operativos_i.Client.{given_up, release_provider, release_all}
use tp_sistemas_operativos_i.JobHeap.{resource_block, Heap, update, release_cells, release_granted}
use tp_sistemas_operativos_i.JobHeap.Linked.{
  Nodes, head_address, is_in, Linked, Apart, Linked-update, job-is_in,
}
use tp_sistemas_operativos_i.JobHeap.Links.{requests, Represents}

-- The chain after the walk.
abbrev let_go : Nodes → Nodes
let_go [] = []
let_go ((q, r) ∷ ys) = (q, given_up r) ∷ let_go ys

let_go-head_address : (ys : Nodes) → head_address (let_go ys) ≡ head_address ys
let_go-head_address [] = refl
let_go-head_address ((q, r) ∷ ys) = refl

let_go-is_in : (q : ℕ) (ys : Nodes) → is_in q (let_go ys) ≡ is_in q ys
let_go-is_in q [] = refl
let_go-is_in q ((s, r) ∷ ys) = ap (λ (b : Bool). q == s || b) (let_go-is_in q ys)

let_go-requests : (ys : Nodes) → requests (let_go ys) ≡ map given_up (requests ys)
let_go-requests [] = refl
let_go-requests ((q, r) ∷ ys) = ap (◌∷◌ (given_up r)) (let_go-requests ys)

let_go-Apart : (xs ys : Nodes) → Apart ys xs → Apart (let_go ys) xs
let_go-Apart xs [] a = tt
let_go-Apart xs ((q, r) ∷ ys) a = (a.0, let_go-Apart xs ys a.1)

-- What the walk over a chain leaves: the chain has given its providers up, a chain apart from it is as
-- it was, and so is any other cell.
record Releases (h : Heap) (ys : Nodes) (h' : Heap) : Type 0 where
  pub linked : Linked h' (let_go ys)
  pub others : (xs : Nodes) → Apart ys xs → Linked h xs → Linked h' xs
  pub cell : (q : ℕ) → is_in q ys ≡ false → h' q ≡ h q

release_cells-Releases :
    (fuel : ℕ) (id : ℤ) (h : Heap) (ys : Nodes) (trace : List Effect)
    → length ys < fuel
    → Linked h ys
    → (h' : Heap) × (release_cells fuel id (head_address ys) h trace
        ≡ some (h', release_all id (requests ys) trace))
      × Releases h ys h'
unfolding release_cells release_all
release_cells-Releases zero id h ys trace f l = elim f [ ]
release_cells-Releases (suc fuel) id h [] trace f l =
    (h, refl, record { linked = tt; others = λ xs a k. k; cell = λ q e. refl })
release_cells-Releases (suc fuel) id h ((p, r) ∷ ys) trace f l =
    let b = some (resource_block (record { resource = given_up r; next = head_address ys })) in
    let (h', done, k) =
      release_cells-Releases fuel id (update h p b) ys (release_provider id r trace) (omega arith)
        (Linked-update h p b ys l.2 l.3) in
    let here : (p == 0) ≡ false = ground arith in
    (
      h',
      rw (here, l.1) done,
      record {
        linked = (
          l.0,
          k.cell p l.2 ∙ (rw (let_go-head_address ys) (ground arith)),
          let_go-is_in p ys ∙ l.2,
          k.linked,
        );
        others = λ xs a m. k.others xs a.1 (Linked-update h p b xs a.0 m);
        cell = λ q e. k.cell q (ground (arith, e)) ∙ ground (arith, e);
      },
    )

requests-length : (ys : Nodes) → length (requests ys) ≡ length ys
requests-length [] = refl
requests-length (y ∷ ys) = ap suc (requests-length ys)

-- Where a job on the heap represents a job of Client and the fuel is more than it has granted requests,
-- `release_resources` ends without a fault, makes the calls of `release_all` in Client, and the job that
-- it leaves represents the one whose granted requests have given their providers up.
pub release_granted-Represents :
    (fuel : ℕ) (h : Heap) (p : ℕ) (j : LocalJob) (trace : List Effect)
    → length j.granted_reqs < fuel
    → Represents h p j
    → (h' : Heap) × (release_granted fuel p h trace
        ≡ some (h', release_all j.job_id j.granted_reqs trace))
      × Represents h' p (record j { granted_reqs = map given_up j.granted_reqs })
unfolding release_granted
release_granted-Represents fuel h p j trace f v =
    let hold = v.holds in
    let short : length v.ys < fuel = rw⁻¹ (requests-length v.ys) (rw⁻¹ v.granted_reqs f) in
    let (h', done, k) =
      release_cells-Releases fuel v.cell.job_id h v.ys trace short hold.granted_linked in
    let start : release_granted fuel p h trace
        ≡ release_cells fuel v.cell.job_id (head_address v.ys) h trace =
      rw (hold.cell, hold.granted) refl in
    (
      h',
      start ∙ done ∙ (rw (v.job_id, v.granted_reqs) refl),
      record {
        cell = v.cell;
        xs = v.xs;
        ys = let_go v.ys;
        holds = record {
          cell = k.cell p (job-is_in h p v.cell v.ys hold.cell hold.granted_linked) ∙ hold.cell;
          waiting = hold.waiting;
          granted = hold.granted ∙ sym (let_go-head_address v.ys);
          waiting_linked = k.others v.xs hold.apart hold.waiting_linked;
          granted_linked = k.linked;
          apart = let_go-Apart v.xs v.ys hold.apart;
        };
        job_id = v.job_id;
        erlang_socket = v.erlang_socket;
        origin_socket = v.origin_socket;
        timer = v.timer;
        next_req = v.next_req;
        granted_reqs = ap (map given_up) v.granted_reqs ∙ sym (let_go-requests v.ys);
      },
    )
