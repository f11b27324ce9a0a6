-- ===== src/JobHeap/Appending.antt =====
-- The loop of JOB_REQUEST builds, on the heap, the list of requests that Client.Scheduler has as a list.
use tp_sistemas_operativos_i.Prelude.{
  ℕ, ◌<◌, ◌≡◌, refl, ap, sym, ◌∙◌, [], ◌∷◌, ◌++◌, true, false, none, some, ◌==◌, arith,
}
use tp_sistemas_operativos_i.Domain.{PendingResource, LocalJob}
use tp_sistemas_operativos_i.JobHeap.{
  JobCell, resource_block, job_block, Heap, update, new_cell, append_request, append_requests,
}
use tp_sistemas_operativos_i.JobHeap.Linked.{Nodes, is_in, Holds, Linked-update, job-is_in}
use tp_sistemas_operativos_i.JobHeap.Tails.{
  last_node, last-cell, last-apart, Linked-snoc, fresh-is_in, Apart-snoc, Apart-last, tail_of,
}
use tp_sistemas_operativos_i.JobHeap.Links.{requests, Represents}

-- What an append leaves: the job has the requests `xs`, but for the head of its list it is as it was, and
-- memory that was free is, but for `req`.
record Appends (h : Heap) (p : ℕ) (job : JobCell) (xs ys : Nodes) (req : ℕ) (h' : Heap)
    : Type 0 where
  pub cell : JobCell
  pub holds : Holds h' p cell xs ys
  pub same : record cell { next_req = job.next_req } ≡ job
  pub free : (s : ℕ) → (s == req) ≡ false → h s ≡ none → h' s ≡ none

append_request-Appends :
    (r : PendingResource) (q tail p : ℕ) (h : Heap) (job : JobCell) (xs ys : Nodes)
    → Holds h p job xs ys
    → tail_of tail xs ≡ tail
    → 0 < q
    → h q ≡ none
    → (h' : Heap) × (append_request r q tail p h ≡ some h')
      × Appends h p job (xs ++ (q, r) ∷ []) ys q h'
unfolding append_request
append_request-Appends r q tail p h job [] ys v t z e =
    let f = fresh-is_in h q ys e v.granted_linked in
    let other : (p == q) ≡ false = ground (arith, e, v.cell) in
    let h₁ = update h q (some (resource_block (new_cell r))) in
    let job' = record job { next_req = q } in
    let nothing : (job.next_req == 0) ≡ true = rw v.waiting refl in
    (
      update h₁ p (some (job_block job')),
      rw (other, v.cell, nothing) refl,
      record {
        cell = job';
        holds = record {
          cell = ground arith;
          waiting = refl;
          granted = v.granted;
          waiting_linked = (z, ground (arith, other), refl, tt);
          granted_linked =
              Linked-update h₁ p (some (job_block job')) ys
                (job-is_in h p job ys v.cell v.granted_linked)
                (Linked-update h q (some (resource_block (new_cell r))) ys f v.granted_linked);
          apart = Apart-snoc q r [] ys f v.apart;
        };
        same = refl;
        free = λ s d n. ground (arith, d, n, v.cell);
      },
    )
append_request-Appends r q tail p h job (n ∷ ns) ys v t z e =
    let f = fresh-is_in h q ys e v.granted_linked in
    let g = fresh-is_in h q (n ∷ ns) e v.waiting_linked in
    let other : (p == q) ≡ false = ground (arith, e, v.cell) in
    let before = job-is_in h p job (n ∷ ns) v.cell v.waiting_linked in
    let last = last-cell h n ns v.waiting_linked in
    let new = some (resource_block (new_cell r)) in
    let h₁ = update h q new in
    let linked = Linked-update h q new (n ∷ ns) g v.waiting_linked in
    let at = last-cell h₁ n ns linked in
    let link = some (resource_block (record { resource = (last_node n ns).1; next = q })) in
    let something : (job.next_req == 0) ≡ false =
      rw v.waiting (ground (arith, v.waiting_linked.0)) in
    (
      update h₁ (last_node n ns).0 link,
      rw⁻¹ t (rw (other, v.cell, something, at) refl),
      record {
        cell = job;
        holds = record {
          cell = ground (arith, other, v.cell, last-apart p n ns before);
          waiting = v.waiting;
          granted = v.granted;
          waiting_linked = Linked-snoc h₁ n ns q r linked z g (ground arith);
          granted_linked =
              Linked-update h₁ (last_node n ns).0 link ys (Apart-last n ns ys v.apart)
                (Linked-update h q new ys f v.granted_linked);
          apart = Apart-snoc q r (n ∷ ns) ys f v.apart;
        };
        same = refl;
        free = λ s d m. ground (arith, d, m, last);
      },
    )

-- Cells that are free, at different addresses.
abbrev pub Fresh : Heap → Nodes → Type 0
Fresh h [] = Unit {0}
Fresh h ((q, r) ∷ xs) = (0 < q) × (h q ≡ none) × (is_in q xs ≡ false) × Fresh h xs

Fresh-kept :
    (q : ℕ) (h h' : Heap) (xs : Nodes)
    → ((s : ℕ) → (s == q) ≡ false → h s ≡ none → h' s ≡ none)
    → is_in q xs ≡ false
    → Fresh h xs
    → Fresh h' xs
Fresh-kept q h h' [] k e f = tt
Fresh-kept q h h' ((s, r) ∷ xs) k e f =
    (f.0, k s (ground (arith, e)) f.1, f.2, Fresh-kept q h h' xs k (ground (arith, e)) f.3)

last_node-snoc :
    (n : ℕ × PendingResource) (ns : Nodes) (m : ℕ × PendingResource)
    → last_node n (ns ++ m ∷ []) ≡ m
last_node-snoc n [] m = refl
last_node-snoc n (n' ∷ ns) m = last_node-snoc n' ns m

tail_of-snoc :
    (t : ℕ) (xs : Nodes) (q : ℕ) (r : PendingResource) → tail_of t (xs ++ (q, r) ∷ []) ≡ q
tail_of-snoc t [] q r = refl
tail_of-snoc t (n ∷ ns) q r = ap (λ (m : ℕ × PendingResource). m.0) (last_node-snoc n ns (q, r))

snoc-append :
    (xs : Nodes) (n : ℕ × PendingResource) (ys : Nodes) → (xs ++ n ∷ []) ++ ys ≡ xs ++ n ∷ ys
snoc-append [] n ys = refl
snoc-append (x ∷ xs) n ys = ap (◌∷◌ x) (snoc-append xs n ys)

append_nil : (xs : Nodes) → xs ++ [] ≡ xs
append_nil [] = refl
append_nil (x ∷ xs) = ap (◌∷◌ x) (append_nil xs)

append_requests-Holds :
    (reqs : Nodes) (tail p : ℕ) (h : Heap) (job : JobCell) (xs ys : Nodes)
    → Holds h p job xs ys
    → tail_of tail xs ≡ tail
    → Fresh h reqs
    → (h' : Heap) × (cell : JobCell) × (append_requests reqs tail p h ≡ some h')
      × Holds h' p cell (xs ++ reqs) ys
      × (record cell { next_req = job.next_req } ≡ job)
unfolding append_requests
append_requests-Holds [] tail p h job xs ys v t f = (h, job, refl, rw (append_nil xs) v, refl)
append_requests-Holds ((q, r) ∷ reqs) tail p h job xs ys v t f =
    let (h₁, one, k) = append_request-Appends r q tail p h job xs ys v t f.0 f.1 in
    let (h₂, cell, more, v', e) =
      append_requests-Holds reqs q p h₁ k.cell (xs ++ (q, r) ∷ []) ys k.holds
        (tail_of-snoc q xs q r) (Fresh-kept q h h₁ reqs k.free f.2 f.3) in
    (
      h₂,
      cell,
      rw one more,
      rw⁻¹ (snoc-append xs (q, r) reqs) v',
      ap (λ (c : JobCell). record c { next_req = job.next_req }) e ∙ k.same,
    )

nil-requests : (xs : Nodes) → requests xs ≡ [] → xs ≡ []
nil-requests [] e = refl
nil-requests (x ∷ xs) e = absurd (cc)

module _ (reqs : Nodes) (tail p : ℕ) (h : Heap) (j : LocalJob) where
  -- Where a job on the heap represents a job of Client whose list of requests is empty, the loop of
  -- JOB_REQUEST, with new requests in free cells, ends without a fault, and the job that it leaves
  -- represents the one with these requests in the order in which they were parsed.
  pub append_requests-Represents :
      Represents h p j
      → j.next_req ≡ []
      → Fresh h reqs
      → (h' : Heap) × (append_requests reqs tail p h ≡ some h')
        × Represents h' p (record j { next_req = requests reqs })
  append_requests-Represents v none_yet f =
      let (h', cell, done, v', same) =
        append_requests-Holds reqs tail p h v.cell [] v.ys
          (rw⁻¹ (nil-requests v.xs (sym v.next_req ∙ none_yet)) v.holds) refl f in
      (
        h',
        done,
        record {
          cell = cell;
          xs = reqs;
          ys = v.ys;
          holds = v';
          job_id = ap (λ (c : JobCell). c.job_id) same ∙ v.job_id;
          erlang_socket = ap (λ (c : JobCell). c.erlang_socket) same ∙ v.erlang_socket;
          origin_socket = ap (λ (c : JobCell). c.origin_socket) same ∙ v.origin_socket;
          timer = ap (λ (c : JobCell). c.timer) same ∙ v.timer;
          next_req = refl;
          granted_reqs = v.granted_reqs;
        },
      )
