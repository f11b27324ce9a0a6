-- ===== src/ResourceQueue.antt =====
-- ResourceManager/resource_queue.h and resource_queue.c, and the part of `drain_queue`
-- (agent/utils.c) that runs under the queue's mutex: the intrusive FIFO on an explicit heap.
-- `none` is a fault: a failed assertion, or an access through NULL or a dangling pointer.
pub mod Linked
pub mod Fifo
pub mod Waiting
pub mod Drain
use tp_sistemas_operativos_i.Prelude.{
  ap, ◌≡◌, ℕ, zero, suc, List, [], Option, none, some, true, false, ◌==◌, if◌then◌else◌,
}
use tp_sistemas_operativos_i.Prelude.Int.{ℤ, ◌-ℤ◌, leb_ℤ}

-- `request`, without its link.
pub record Request : Type 0 where
  pub job_id : ℤ
  pub origin_socket : ℤ
  pub amount_requested : ℤ
  pub asked_resource : List ℕ

-- A `request` in memory, with the address of the next one; 0 is NULL.
pub record Cell : Type 0 where
  pub request : Request
  pub next_req : ℕ

abbrev pub Heap : Type 0
Heap = ℕ → Option Cell

-- `request_queue`
pub record RequestQueue : Type 0 where
  pub resources_left : ℤ
  pub first : ℕ
  pub last : ℕ

abbrev pub update : Heap → ℕ → Option Cell → Heap
update h p c q = if q == p then c else h q

infixl 5 ◌>>=◌
abbrev pub ◌>>=◌ : {A B : Type 0} → Option A → (A → Option B) → Option B
none >>= f = none
some a >>= f = f a

pub bind-some :
    {A B : Type 0} (o : Option A) (x : A) (f : A → Option B) → o ≡ some x → (o >>= f) ≡ f x
bind-some o x f e = ap (λ o'. o' >>= f) e

-- `p->next_req = n`
unfoldable pub set_next : ℕ → ℕ → Heap → Option Heap
set_next p n h = elim (h p) [
  | none ↦ none
  | some c ↦ some (update h p (some (record c { next_req = n })))
]

-- `malloc` has returned `p`.
unfoldable pub make_request : ℤ → ℤ → ℤ → ℕ → Heap → Option Heap
make_request jid socketfd amount p h =
    if p == 0
    then none
    else some (
        update h p (
          some (record {
            request = record {
              job_id = jid;
              origin_socket = socketfd;
              amount_requested = amount;
              asked_resource = [];
            };
            next_req = 0;
          })))

-- `free(req)`
unfoldable pub destr_request : ℕ → Heap → Heap
destr_request p h = update h p none

unfoldable pub make_queue : ℤ → RequestQueue
make_queue resources = record { resources_left = resources; first = 0; last = 0 }

unfoldable pub enqueue_request : RequestQueue → ℕ → Heap → Option (RequestQueue × Heap)
unfolding set_next
enqueue_request queue request h =
    if queue.first == 0
    then (do h' ← set_next request 0 h; some (record queue { first = request; last = request }, h'))
    else (do
      h' ← set_next queue.last request h
      h'' ← set_next request 0 h'
      some (record queue { last = request }, h''))

-- The address of the head, or NULL, with the queue and the heap that it leaves.
unfoldable pub dequeue_request_locked : RequestQueue → Heap → Option (ℕ × RequestQueue × Heap)
unfolding set_next
dequeue_request_locked queue h = if queue.first == 0 then some (0, queue, h) else (do
  c ← h queue.first
  h' ← set_next queue.first 0 h
  some (
    queue.first,
    (record queue { first = c.next_req; last = if c.next_req == 0 then 0 else queue.last }),
    h',
  ))

-- The loop of `drain_queue` under the lock, with fuel: the queue, the heap and the stash `ready`.
unfoldable pub drain_locked : ℕ → RequestQueue → ℕ → Heap → Option (RequestQueue × ℕ × Heap)
drain_locked zero q ready h = none
drain_locked (suc fuel) q ready h = if q.first == 0 then some (q, ready, h) else (do
  head ← h q.first
  elim (leb_ℤ head.request.amount_requested q.resources_left) [
    | false ↦ some (q, ready, h)
    | true ↦ (do
      (req, q', h') ← dequeue_request_locked q h
      c ← h' req
      h'' ← set_next req ready h'
      drain_locked fuel
          (record q' { resources_left = q'.resources_left -ℤ c.request.amount_requested }) req h'')
  ])
