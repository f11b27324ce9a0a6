-- ===== src/Server/Conservation.antt =====
-- No call of the server side makes or loses an amount of a resource.
use mathlib.Core.List.{append-nil}
use tp_sistemas_operativos_i.Prelude.{
  ◌≡◌, refl, sym, ap, ◌∙◌, List, [], ◌∷◌, Bool-cases, if◌then◌else◌, true, inl, inr,
}
use tp_sistemas_operativos_i.Prelude.Int.{
  ℤ, pos, pos_part, neg_part, ◌+ℤ◌, sum_ℤ, sum_ℤ-reverse, int_laws,
}
use tp_sistemas_operativos_i.Kernel.{sent}
use tp_sistemas_operativos_i.HashTable.Valid.{IsValid, insert-IsValid}
use tp_sistemas_operativos_i.HashTable.Total.{total}
use tp_sistemas_operativos_i.Domain.{job_callbacks}
use tp_sistemas_operativos_i.Domain.Keys.{job_callbacks-IsKeyed}
use tp_sistemas_operativos_i.ResourceQueue.{Request}
use tp_sistemas_operativos_i.ResourceQueue.Waiting.{drain_list-Drains}
use tp_sistemas_operativos_i.Server.Ledger.{
  granted_of, granted_total, ledger, plus_zero, same, credit, total-granted_job,
}
use tp_sistemas_operativos_i.Server.{
  Resource, cpu, mem, gpu, type_name, Server, Queue, Peers, queue, set_queue, address_of,
  record_granted, grant_ready, granted_message, amount, drained, drained_queue, drain_queue,
}

-- The table of granted reservations is well formed.
abbrev pub IsSound : Server → Type 0
IsSound s = IsValid job_callbacks s.table_nodejobs

-- The server after one round of the loop outside the lock.
abbrev pub granted_one : Peers → Resource → Request → Server → Server
granted_one peer r req s =
    let s' =
      record_granted peer s req.job_id req.origin_socket (type_name r) req.amount_requested in
    record s' { trace = sent req.origin_socket (granted_message req.job_id) ∷ s'.trace }

pub granted_one-IsSound :
    (peer : Peers) (r : Resource) (req : Request) (s : Server)
    → IsSound s
    → IsSound (granted_one peer r req s)
unfolding record_granted
granted_one-IsSound peer r req s v =
    insert-IsValid job_callbacks job_callbacks-IsKeyed s.table_nodejobs _ v

granted_one-total :
    (peer : Peers) (r k : Resource) (req : Request) (s : Server)
    → IsSound s
    → granted_total (granted_one peer r req s) k
      ≡ granted_total s k +ℤ credit r k req.amount_requested
unfolding record_granted
granted_one-total peer r k req s v =
    total-granted_job s.table_nodejobs req.job_id (address_of (peer req.origin_socket))
      req.origin_socket r k req.amount_requested v

granted_one-queue :
    (peer : Peers) (r k : Resource) (req : Request) (s : Server)
    → queue (granted_one peer r req s) k ≡ queue s k
unfolding record_granted
granted_one-queue peer r cpu req s = refl
granted_one-queue peer r mem req s = refl
granted_one-queue peer r gpu req s = refl

pub grant_ready-IsSound :
    (peer : Peers) (r : Resource) (ready : List Request) (s : Server)
    → IsSound s
    → IsSound (grant_ready peer (type_name r) ready s)
unfolding grant_ready
grant_ready-IsSound peer r [] s v = v
grant_ready-IsSound peer r (req ∷ ready) s v =
    grant_ready-IsSound peer r ready (granted_one peer r req s) (granted_one-IsSound peer r req s v)

pub grant_ready-queue :
    (peer : Peers) (r k : Resource) (ready : List Request) (s : Server)
    → queue (grant_ready peer (type_name r) ready s) k ≡ queue s k
unfolding grant_ready
grant_ready-queue peer r k [] s = refl
grant_ready-queue peer r k (req ∷ ready) s =
    grant_ready-queue peer r k ready (granted_one peer r req s) ∙ granted_one-queue peer r k req s

pub credit-sum : (r k : Resource) (a b : ℤ) → credit r k (a +ℤ b) ≡ credit r k a +ℤ credit r k b
credit-sum r k a b = elim (Bool-cases (same r k)) [
  | inl own ↦ rw own
  | inr other ↦ rw other (omega int_laws)
]

credit-zero : (r k : Resource) (a : ℤ) → a ≡ a +ℤ credit r k (pos 0)
credit-zero r k a = elim (Bool-cases (same r k)) [
  | inl own ↦ rw own (omega int_laws)
  | inr other ↦ rw other (omega int_laws)
]

grant_ready-total :
    (peer : Peers) (r k : Resource) (ready : List Request) (s : Server)
    → IsSound s
    → granted_total (grant_ready peer (type_name r) ready s) k
      ≡ granted_total s k +ℤ credit r k (sum_ℤ amount ready)
unfolding grant_ready sum_ℤ
grant_ready-total peer r k [] s v = credit-zero r k (granted_total s k)
grant_ready-total peer r k (req ∷ ready) s v =
    let ih =
      grant_ready-total peer r k ready (granted_one peer r req s)
        (granted_one-IsSound peer r req s v) in
    let one = granted_one-total peer r k req s v in
    let split = credit-sum r k req.amount_requested (sum_ℤ amount ready) in
    omega (
      int_laws,
      ap pos_part ih,
      ap neg_part ih,
      ap pos_part one,
      ap neg_part one,
      ap pos_part split,
      ap neg_part split,
    )

pub same→eq : (r k : Resource) → same r k ≡ true → r ≡ k
same→eq cpu cpu h = refl
same→eq mem mem h = refl
same→eq gpu gpu h = refl
same→eq cpu mem h = cc
same→eq cpu gpu h = cc
same→eq mem cpu h = cc
same→eq mem gpu h = cc
same→eq gpu cpu h = cc
same→eq gpu mem h = cc

pub queue-set_queue :
    (s : Server) (r k : Resource) (q : Queue)
    → queue (set_queue s r q) k ≡ (if same r k then q else queue s k)
queue-set_queue s cpu cpu q = refl
queue-set_queue s cpu mem q = refl
queue-set_queue s cpu gpu q = refl
queue-set_queue s mem cpu q = refl
queue-set_queue s mem mem q = refl
queue-set_queue s mem gpu q = refl
queue-set_queue s gpu cpu q = refl
queue-set_queue s gpu mem q = refl
queue-set_queue s gpu gpu q = refl

pub set_queue-table :
    (s : Server) (r : Resource) (q : Queue) → (set_queue s r q).table_nodejobs ≡ s.table_nodejobs
set_queue-table s cpu q = refl
set_queue-table s mem q = refl
set_queue-table s gpu q = refl

pub set_queue-IsSound :
    (s : Server) (r : Resource) (q : Queue) → IsSound s → IsSound (set_queue s r q)
set_queue-IsSound s cpu q v = v
set_queue-IsSound s mem q v = v
set_queue-IsSound s gpu q v = v

pub drain_queue-IsSound :
    (peer : Peers) (s : Server) (r : Resource) → IsSound s → IsSound (drain_queue peer s r)
unfolding drain_queue
drain_queue-IsSound peer s r v =
    grant_ready-IsSound peer r (drained (queue s r)).ready
      (set_queue s r (drained_queue (queue s r)))
      (set_queue-IsSound s r (drained_queue (queue s r)) v)

-- The queue that a drain leaves, for each resource.
pub drain_queue-queue :
    (peer : Peers) (s : Server) (r k : Resource)
    → queue (drain_queue peer s r) k ≡ (if same r k then drained_queue (queue s r) else queue s k)
unfolding drain_queue
drain_queue-queue peer s r k =
    grant_ready-queue peer r k (drained (queue s r)).ready
      (set_queue s r (drained_queue (queue s r)))
    ∙ queue-set_queue s r k (drained_queue (queue s r))

pub stash-sum : (q : Queue) → (drained q).left +ℤ sum_ℤ amount (drained q).ready ≡ q.resources_left
stash-sum q =
    let d = drain_list-Drains amount q.resources_left q.waiting [] in
    rw (d.stash, append-nil, sum_ℤ-reverse) d.conserves

books :
    (left new old total' total₀ granted before : ℤ)
    → left ≡ new
    → total' ≡ total₀ +ℤ granted
    → total₀ ≡ before
    → new +ℤ granted ≡ old
    → left +ℤ total' ≡ old +ℤ before
books left new old total' total₀ g b l t z m = rw (l, t, z, ← m) (omega int_laws)

-- Draining a queue moves amounts from what is free to what is granted.
pub ledger-drain_queue :
    (peer : Peers) (s : Server) (r k : Resource)
    → IsSound s
    → ledger (drain_queue peer s r) k ≡ ledger s k
unfolding drain_queue
ledger-drain_queue peer s r k v =
    let q = drained_queue (queue s r) in
    let ready = (drained (queue s r)).ready in
    let total' = grant_ready-total peer r k ready (set_queue s r q) (set_queue-IsSound s r q v) in
    let moved = stash-sum (queue s r) in
    let table = ap (total (granted_of k)) (set_queue-table s r q) in
    let left =
      ap (λ (x : Queue). x.resources_left)
        (grant_ready-queue peer r k ready (set_queue s r q) ∙ queue-set_queue s r k q) in
    elim (Bool-cases (same r k)) [
      | inl own ↦
          books _ _ _ _ _ (sum_ℤ amount ready) _ (rw own at left) (rw own at total') table
            (moved ∙ ap (λ (x : Resource). (queue s x).resources_left) (same→eq r k own))
      | inr other ↦
          books _ _ _ _ _ (pos 0) _ (rw other at left) (rw other at total') table
            (sym (plus_zero _))
    ]
