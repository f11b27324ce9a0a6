-- ===== src/Server/Safety.antt =====
-- No negative amount is free, granted or asked for: draining a queue keeps that.
use tp_sistemas_operativos_i.Prelude.{
  ◌≡◌, refl, List, [], ◌∷◌, arith, Bool-cases, inl, inr, All, Option, none, some,
}
use tp_sistemas_operativos_i.Prelude.Int.{ℤ, pos, ◌≤ℤ◌, int_laws}
use tp_sistemas_operativos_i.Prelude.Text.{str_eq}
use tp_sistemas_operativos_i.HashTable.{HashTable, tablahash_find}
use tp_sistemas_operativos_i.HashTable.Every.{Every, insert-Every, find-Every}
use tp_sistemas_operativos_i.Domain.{ReceivedJob, job_callbacks}
use tp_sistemas_operativos_i.ResourceQueue.{Request}
use tp_sistemas_operativos_i.ResourceQueue.Waiting.{
  drain_list-left, drain_list-waiting-All, drain_list-ready-All,
}
use tp_sistemas_operativos_i.Server.Conservation.{
  IsSound, granted_one, granted_one-IsSound, drain_queue-queue, drain_queue-IsSound,
  queue-set_queue, set_queue-IsSound, set_queue-table,
}
use tp_sistemas_operativos_i.Server.Ledger.{same}
use tp_sistemas_operativos_i.Server.{
  Resource, cpu, mem, gpu, type_name, Server, Queue, Peers, queue, set_queue, address_of, job_key,
  existing_or, add_granted, record_granted, grant_ready, amount, drained, drained_queue,
  drain_queue,
}

-- A reservation holds no negative amount.
abbrev pub IsNonneg : ReceivedJob → Type 0
IsNonneg j = (pos 0 ≤ℤ j.cpu_granted) × (pos 0 ≤ℤ j.mem_granted) × (pos 0 ≤ℤ j.gpu_granted)

abbrev pub Asks : Request → Type 0
Asks r = pos 0 ≤ℤ r.amount_requested

abbrev pub IsSafeQueue : Queue → Type 0
IsSafeQueue q = (pos 0 ≤ℤ q.resources_left) × All Asks q.waiting

pub record IsSafe (s : Server) : Type 0 where
  pub sound : IsSound s
  pub queues : (k : Resource) → IsSafeQueue (queue s k)
  pub table : Every IsNonneg s.table_nodejobs

pub add_granted-IsNonneg :
    (r : Resource) (a : ℤ) (rj : ReceivedJob)
    → pos 0 ≤ℤ a
    → IsNonneg rj
    → IsNonneg (add_granted (type_name r) a rj)
unfolding add_granted str_eq
add_granted-IsNonneg cpu a rj h n = omega int_laws
add_granted-IsNonneg mem a rj h n = omega int_laws
add_granted-IsNonneg gpu a rj h n = omega int_laws

pub existing-IsNonneg :
    (t : HashTable ReceivedJob) (id : ℤ) (address : ℤ × ℤ) (socket : ℤ) (found : Option ReceivedJob)
    → tablahash_find job_callbacks t (job_key id address) ≡ found
    → Every IsNonneg t
    → IsNonneg (record (existing_or (job_key id address) found) { original_socket = socket })
existing-IsNonneg t id address socket none e h = omega arith
existing-IsNonneg t id address socket (some x) e h =
    find-Every IsNonneg job_callbacks t (job_key id address) x h e

granted_one-table :
    (peer : Peers) (r : Resource) (req : Request) (s : Server)
    → IsSound s
    → Asks req
    → Every IsNonneg s.table_nodejobs
    → Every IsNonneg (granted_one peer r req s).table_nodejobs
unfolding record_granted
granted_one-table peer r req s v a h =
    insert-Every IsNonneg job_callbacks s.table_nodejobs _ v
      (add_granted-IsNonneg r req.amount_requested _ a (
        existing-IsNonneg s.table_nodejobs req.job_id (address_of (peer req.origin_socket))
          req.origin_socket _ refl h))
      h

grant_ready-table :
    (peer : Peers) (r : Resource) (ready : List Request) (s : Server)
    → IsSound s
    → All Asks ready
    → Every IsNonneg s.table_nodejobs
    → Every IsNonneg (grant_ready peer (type_name r) ready s).table_nodejobs
unfolding grant_ready
grant_ready-table peer r [] s v a h = h
grant_ready-table peer r (req ∷ ready) s v a h =
    grant_ready-table peer r ready (granted_one peer r req s) (granted_one-IsSound peer r req s v)
      a.1 (granted_one-table peer r req s v a.0 h)

pub set_queue-IsSafe :
    (s : Server) (r : Resource) (q : Queue) → IsSafeQueue q → IsSafe s → IsSafe (set_queue s r q)
set_queue-IsSafe s r q h v = record {
  sound = set_queue-IsSound s r q v.sound;
  queues = λ k. elim (Bool-cases (same r k)) [
    | inl own ↦ rw (queue-set_queue s r k q, own) h
    | inr other ↦ rw (queue-set_queue s r k q, other) (v.queues k)
  ];
  table = rw (set_queue-table s r q) v.table;
}

pub drained_queue-IsSafe : (q : Queue) → IsSafeQueue q → IsSafeQueue (drained_queue q)
drained_queue-IsSafe q h = (
  drain_list-left amount q.resources_left q.waiting [] h.0,
  drain_list-waiting-All amount Asks q.resources_left q.waiting [] h.1,
)

pub drain_queue-IsSafe :
    (peer : Peers) (s : Server) (r : Resource) → IsSafe s → IsSafe (drain_queue peer s r)
unfolding drain_queue
drain_queue-IsSafe peer s r v =
    let q = queue s r in
    let w = set_queue-IsSafe s r (drained_queue q) (drained_queue-IsSafe q (v.queues r)) v in
    record {
      sound = drain_queue-IsSound peer s r v.sound;
      queues = λ k. elim (Bool-cases (same r k)) [
        | inl own ↦ rw (drain_queue-queue peer s r k, own) (drained_queue-IsSafe q (v.queues r))
        | inr other ↦ rw (drain_queue-queue peer s r k, other) (v.queues k)
      ];
      table =
          grant_ready-table peer r (drained q).ready (set_queue s r (drained_queue q)) w.sound
            (drain_list-ready-All amount Asks q.resources_left q.waiting [] (v.queues r).1 tt)
            w.table;
    }
