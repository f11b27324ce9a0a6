-- ===== src/JobHeap/Links.antt =====
-- The writes to the links of a job's lists do on the heap what Client does to the lists.
use tp_sistemas_operativos_i.Prelude.{
  ℕ, ◌≡◌, refl, ap, List, [], ◌∷◌, map, false, some, ◌==◌, arith,
}
use tp_sistemas_operativos_i.Prelude.Int.{ℤ}
use tp_sistemas_operativos_i.Domain.{PendingResource, LocalJob}
use tp_sistemas_operativos_i.Client.Remote.{advanced}
use tp_sistemas_operativos_i.Client.Grants.{advanced-next}
use tp_sistemas_operativos_i.JobHeap.{
  JobCell, resource_block, job_block, Heap, update, granted_cell, grant_head,
}
use tp_sistemas_operativos_i.JobHeap.Linked.{
  Nodes, head_address, Holds, Linked-update, job-is_in, Apart-head, Apart-tail,
}

abbrev pub requests : Nodes → List PendingResource
requests xs = map (λ n. n.1) xs

-- The job at `p`, with its lists, is the record `j` of Client.
pub record Represents (h : Heap) (p : ℕ) (j : LocalJob) : Type 0 where
  pub cell : JobCell
  pub xs : Nodes
  pub ys : Nodes
  pub holds : Holds h p cell xs ys
  pub job_id : cell.job_id ≡ j.job_id
  pub erlang_socket : cell.erlang_socket ≡ j.erlang_socket
  pub origin_socket : cell.origin_socket ≡ j.origin_socket
  pub timer : cell.timer ≡ j.timer
  pub next_req : j.next_req ≡ requests xs
  pub granted_reqs : j.granted_reqs ≡ requests ys

-- On the heap, the request at the head of `next_req` goes to the head of `granted_reqs`.
grant_head-Holds :
    (fd : ℤ) (h : Heap) (p : ℕ) (job : JobCell) (q : ℕ) (r : PendingResource) (xs ys : Nodes)
    → Holds h p job ((q, r) ∷ xs) ys
    → (h' : Heap) × (grant_head fd p h ≡ some h')
      × Holds h' p
          (record job { next_req = head_address xs; granted_reqs = q })
          xs
          ((q, record r { provider_fd = fd }) ∷ ys)
unfolding grant_head
grant_head-Holds fd h p job q r xs ys v =
    let l = v.waiting_linked in
    let new_req =
      resource_block (granted_cell fd job (record { resource = r; next = head_address xs })) in
    let new_job = job_block (record job { next_req = head_address xs; granted_reqs = q }) in
    let other = job-is_in h p job ((q, r) ∷ xs) v.cell l in
    let here : (q == 0) ≡ false = ground arith in
    let gone = Apart-head q r xs ys v.apart in
    let h₁ = update h q (some new_req) in
    (
      update h₁ p (some new_job),
      rw (v.cell, v.waiting, here, l.1) refl,
      record {
        cell = ground arith;
        waiting = refl;
        granted = refl;
        waiting_linked =
            Linked-update h₁ p (some new_job) xs (ground (arith, other))
              (Linked-update h q (some new_req) xs l.2 l.3);
        granted_linked = (
          l.0,
          ground (arith, other, v.granted),
          gone,
          Linked-update h₁ p (some new_job) ys (job-is_in h p job ys v.cell v.granted_linked)
              (Linked-update h q (some new_req) ys gone v.granted_linked),
        );
        apart = (l.2, Apart-tail q r xs ys v.apart);
      },
    )

module _ (fd : ℤ) (j : LocalJob) where
  advanced-nil : j.next_req ≡ [] → advanced fd j ≡ j
  advanced-nil e = ground arith

grant_head-done :
    (fd : ℤ) (h : Heap) (p : ℕ) (j : LocalJob) (job : JobCell) (xs ys : Nodes)
    → Holds h p job xs ys
    → job.job_id ≡ j.job_id
    → job.erlang_socket ≡ j.erlang_socket
    → job.origin_socket ≡ j.origin_socket
    → job.timer ≡ j.timer
    → j.next_req ≡ requests xs
    → j.granted_reqs ≡ requests ys
    → (h' : Heap) × (grant_head fd p h ≡ some h') × Represents h' p (advanced fd j)
unfolding grant_head
grant_head-done fd h p j job [] ys v id erlang origin time next granted = (
  h,
  rw (v.cell, v.waiting) refl,
  rw (advanced-nil fd j next) (record {
    cell = job;
    xs = [];
    ys = ys;
    holds = v;
    job_id = id;
    erlang_socket = erlang;
    origin_socket = origin;
    timer = time;
    next_req = next;
    granted_reqs = granted;
  }),
)
grant_head-done fd h p j job ((q, r) ∷ xs) ys v id erlang origin time next granted =
    let (h', done, v') = grant_head-Holds fd h p job q r xs ys v in
    (
      h',
      done,
      rw (advanced-next fd j r (requests xs) next) (record {
        cell = record job { next_req = head_address xs; granted_reqs = q };
        xs = xs;
        ys = (q, record r { provider_fd = fd }) ∷ ys;
        holds = v';
        job_id = id;
        erlang_socket = erlang;
        origin_socket = origin;
        timer = time;
        next_req = refl;
        granted_reqs = ap (◌∷◌ (record r { provider_fd = fd })) granted;
      }),
    )

-- Where a job on the heap represents a job of Client, the writes of GRANTED to its links end without a
-- fault, and the job that they leave represents the one that `advanced` gives.
pub grant_head-Represents :
    (fd : ℤ) (h : Heap) (p : ℕ) (j : LocalJob)
    → Represents h p j
    → (h' : Heap) × (grant_head fd p h ≡ some h') × Represents h' p (advanced fd j)
grant_head-Represents fd h p j v =
    grant_head-done fd h p j v.cell v.xs v.ys v.holds v.job_id v.erlang_socket v.origin_socket
      v.timer v.next_req v.granted_reqs
