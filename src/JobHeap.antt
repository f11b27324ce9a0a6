-- ===== src/JobHeap.antt =====
-- The two linked lists of a `local_job_t` (ResourceManager/hash.h) on an explicit heap: what
-- agent/communications.c writes to the links, the walk of `release_resources` of agent/utils.c, and
-- `destr_localjob` of ResourceManager/hash.c, which frees them. `none` is a fault: an access through
-- NULL or to freed memory, or a second `free`.
pub mod Linked
pub mod Destroy
pub mod Links
pub mod Tails
pub mod Appending
pub mod Releasing
use tp_sistemas_operativos_i.Prelude.{
  ℕ, zero, suc, List, [], ◌∷◌, Option, none, some, ◌==◌, if◌then◌else◌,
}
use tp_sistemas_operativos_i.Prelude.Int.{ℤ}
use tp_sistemas_operativos_i.Domain.{PendingResource}
use tp_sistemas_operativos_i.Kernel.{Effect}
use tp_sistemas_operativos_i.ResourceQueue.{◌>>=◌}
use tp_sistemas_operativos_i.Client.{given_up, release_provider}

-- A `pending_resource_t` in memory, with the address of the next one; 0 is NULL.
pub record ResourceCell : Type 0 where
  pub resource : PendingResource
  pub next : ℕ

-- A `local_job_t` in memory, with the addresses of the heads of its lists.
pub record JobCell : Type 0 where
  pub job_id : ℤ
  pub erlang_socket : ℤ
  pub origin_socket : ℤ
  pub next_req : ℕ
  pub granted_reqs : ℕ
  pub timer : ℤ

-- What `malloc` has allocated at an address.
pub data Block : Type 0 where
  resource_block : ResourceCell → Block
  job_block : JobCell → Block

abbrev pub Heap : Type 0
Heap = ℕ → Option Block

abbrev pub update : Heap → ℕ → Option Block → Heap
update h p b q = if q == p then b else h q

abbrev resource_of : Option Block → Option ResourceCell
resource_of (some (resource_block c)) = some c
resource_of _ = none

abbrev job_of : Option Block → Option JobCell
job_of (some (job_block j)) = some j
job_of _ = none

-- A read of `*r`, and of `*job`.
abbrev pub read_resource : ℕ → Heap → Option ResourceCell
read_resource r h = resource_of (h r)

abbrev pub read_job : ℕ → Heap → Option JobCell
read_job p h = job_of (h p)

abbrev freed : ℕ → Heap → Option Block → Option Heap
freed p h none = none
freed p h (some b) = some (update h p none)

-- `free(p)`
unfoldable pub free : ℕ → Heap → Option Heap
free p h = freed p h (h p)

-- One loop of `destr_localjob`, with fuel: it reads `r->next` before it frees `r`.
unfoldable pub free_list : ℕ → ℕ → Heap → Option Heap
unfolding free
free_list zero r h = none
free_list (suc fuel) r h =
    if r == 0 then some h else (do c ← read_resource r h; h' ← free r h; free_list fuel c.next h')

unfoldable pub destr_localjob : ℕ → ℕ → Heap → Option Heap
unfolding free_list
destr_localjob fuel p h = do
  job ← read_job p h
  h₁ ← free_list fuel job.next_req h
  job₁ ← read_job p h₁
  h₂ ← free_list fuel job₁.granted_reqs h₁
  free p h₂

-- `req->provider_fd = current_fd; req->next = job->granted_reqs;`
abbrev pub granted_cell : ℤ → JobCell → ResourceCell → ResourceCell
granted_cell fd job req = record {
  resource = record req.resource { provider_fd = fd };
  next = job.granted_reqs;
}

-- GRANTED: the request at the head of `next_req` goes to the head of `granted_reqs`.
unfoldable pub grant_head : ℤ → ℕ → Heap → Option Heap
grant_head fd p h = do
  job ← read_job p h
  if job.next_req == 0 then some h else (do
    req ← read_resource job.next_req h
    some (
        update (update h job.next_req (some (resource_block (granted_cell fd job req)))) p
          (some (job_block (record job { next_req = req.next; granted_reqs = job.next_req })))))

abbrev pub new_cell : PendingResource → ResourceCell
new_cell r = record { resource = r; next = 0 }

-- JOB_REQUEST: the request that was allocated at `req` goes to the end of `next_req`, where `tail` is
-- the last of the list.
unfoldable pub append_request : PendingResource → ℕ → ℕ → ℕ → Heap → Option Heap
append_request r req tail p h = do
  let h₁ = update h req (some (resource_block (new_cell r)))
  job ← read_job p h₁
  if job.next_req == 0
      then some (update h₁ p (some (job_block (record job { next_req = req }))))
      else (do
        last ← read_resource tail h₁
        some (update h₁ tail (some (resource_block (record last { next = req })))))

-- The loop of JOB_REQUEST, from the requests that it allocates, each with its address.
unfoldable pub append_requests : List (ℕ × PendingResource) → ℕ → ℕ → Heap → Option Heap
unfolding append_request
append_requests [] tail p h = some h
append_requests ((req, r) ∷ reqs) tail p h = do
  h' ← append_request r req tail p h
  append_requests reqs req p h'

-- The loop of `release_resources` from the request at `r`, with fuel: it sends RELEASE to a provider that
-- is held, closes the connection and writes `provider_fd`; then it reads the link.
unfoldable pub release_cells : ℕ → ℤ → ℕ → Heap → List Effect → Option (Heap × List Effect)
release_cells zero id r h trace = none
release_cells (suc fuel) id r h trace = if r == 0 then some (h, trace) else (do
  req ← read_resource r h
  release_cells fuel id req.next
      (update h r (some (resource_block (record req { resource = given_up req.resource }))))
      (release_provider id req.resource trace))

unfoldable pub release_granted : ℕ → ℕ → Heap → List Effect → Option (Heap × List Effect)
unfolding release_cells
release_granted fuel p h trace = do
  job ← read_job p h
  release_cells fuel job.job_id job.granted_reqs h trace
