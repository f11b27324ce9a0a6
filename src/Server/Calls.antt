-- ===== src/Server/Calls.antt =====
-- The whole calls of the server side, and any sequence of them, keep the books of every resource.
use tp_sistemas_operativos_i.Prelude.{
  ℕ, ◌≡◌, refl, sym, ap, ◌∙◌, List, [], ◌∷◌, Bool-cases, inl, inr,
}
use tp_sistemas_operativos_i.Prelude.Int.{ℤ, ◌+ℤ◌, sum_ℤ, sum_ℤ-nil, int_laws}
use tp_sistemas_operativos_i.HashTable.{HashTable}
use tp_sistemas_operativos_i.HashTable.Sweep.{sweep, sweep-IsValid, total-sweep}
use tp_sistemas_operativos_i.HashTable.Total.{total}
use tp_sistemas_operativos_i.HashTable.Valid.{IsValid, create-IsValid}
use tp_sistemas_operativos_i.Domain.{ReceivedJob, job_callbacks, create_table_jobs}
use tp_sistemas_operativos_i.Server.Conservation.{
  IsSound, drain_queue-IsSound, ledger-drain_queue, queue-set_queue, set_queue-table,
  set_queue-IsSound, same→eq,
}
use tp_sistemas_operativos_i.Server.Ledger.{granted_of, granted_total, ledger, plus_zero, same}
use tp_sistemas_operativos_i.Server.Events.{Event, reserves, releases, step, run}
use tp_sistemas_operativos_i.Server.{
  Resource, cpu, mem, gpu, Server, Queue, Peers, queue, set_queue, start, drain_queue,
  reserve_elements, select_queue, enqueue, new_request, enqueue_jobs, granted_on, give_back,
  give_back_found, release_client_by_fd,
}

pub reserve_elements-IsSound :
    (peer : Peers) (s : Server) → IsSound s → IsSound (reserve_elements peer s)
unfolding reserve_elements
reserve_elements-IsSound peer s v =
    let s₁ = drain_queue peer s cpu in
    drain_queue-IsSound peer (drain_queue peer s₁ mem) gpu
      (drain_queue-IsSound peer s₁ mem (drain_queue-IsSound peer s cpu v))

pub ledger-reserve_elements :
    (peer : Peers) (s : Server) (k : Resource)
    → IsSound s
    → ledger (reserve_elements peer s) k ≡ ledger s k
unfolding reserve_elements
ledger-reserve_elements peer s k v =
    let s₁ = drain_queue peer s cpu in
    let v₁ = drain_queue-IsSound peer s cpu v in
    ledger-drain_queue peer (drain_queue peer s₁ mem) gpu k (drain_queue-IsSound peer s₁ mem v₁)
    ∙ ledger-drain_queue peer s₁ mem k v₁
    ∙ ledger-drain_queue peer s cpu k v

enqueue-left :
    (s : Server) (r k : Resource) (q : Queue)
    → q.resources_left ≡ (queue s r).resources_left
    → (queue (set_queue s r q) k).resources_left ≡ (queue s k).resources_left
enqueue-left s r k q e = elim (Bool-cases (same r k)) [
  | inl own ↦
      rw (queue-set_queue s r k q, own)
        (e ∙ ap (λ (x : Resource). (queue s x).resources_left) (same→eq r k own))
  | inr other ↦ rw (queue-set_queue s r k q, other)
]

pub ledger-enqueue_jobs :
    (peer : Peers) (s : Server) (resource : List ℕ) (job_id amount fd : ℤ) (k : Resource)
    → IsSound s
    → ledger (enqueue_jobs peer s resource job_id amount fd) k ≡ ledger s k
unfolding enqueue_jobs
ledger-enqueue_jobs peer s resource job_id amount fd k v =
    let r = select_queue resource in
    let q = enqueue (queue s r) (new_request job_id fd amount) in
    ledger-reserve_elements peer (set_queue s r q) k (set_queue-IsSound s r q v)
    ∙ (rw (enqueue-left s r k q refl, set_queue-table s r q) refl)

give_back-ledger :
    (s : Server) (t : HashTable ReceivedJob) (jobs : List ReceivedJob) (k : Resource)
    → total (granted_of k) t +ℤ sum_ℤ (granted_of k) jobs ≡ granted_total s k
    → ledger (give_back s t jobs) k ≡ ledger s k
give_back-ledger s t jobs cpu e = rw (← e) (omega int_laws)
give_back-ledger s t jobs mem e = rw (← e) (omega int_laws)
give_back-ledger s t jobs gpu e = rw (← e) (omega int_laws)

ledger-table :
    (s : Server) (t : HashTable ReceivedJob) (k : Resource)
    → total (granted_of k) t ≡ granted_total s k
    → ledger (record s { table_nodejobs = t }) k ≡ ledger s k
ledger-table s t cpu e = rw e
ledger-table s t mem e = rw e
ledger-table s t gpu e = rw e

give_back_found-ledger :
    (peer : Peers) (s : Server) (t : HashTable ReceivedJob) (jobs : List ReceivedJob) (k : Resource)
    → IsValid job_callbacks t
    → ((r : Resource) → total (granted_of r) t +ℤ sum_ℤ (granted_of r) jobs ≡ granted_total s r)
    → ledger (give_back_found peer s t jobs) k ≡ ledger s k
give_back_found-ledger peer s t [] k v e = ledger-table s t k (
    plus_zero _
    ∙ ap (λ (x : ℤ). total (granted_of k) t +ℤ x) (sym (sum_ℤ-nil (granted_of k)))
    ∙ e k)
give_back_found-ledger peer s t (j ∷ js) k v e =
    ledger-reserve_elements peer (give_back s t (j ∷ js)) k v
    ∙ give_back-ledger s t (j ∷ js) k (e k)

give_back_found-IsSound :
    (peer : Peers) (s : Server) (t : HashTable ReceivedJob) (jobs : List ReceivedJob)
    → IsValid job_callbacks t
    → IsSound (give_back_found peer s t jobs)
give_back_found-IsSound peer s t [] v = v
give_back_found-IsSound peer s t (j ∷ js) v =
    reserve_elements-IsSound peer (give_back s t (j ∷ js)) v

pub ledger-release_client_by_fd :
    (peer : Peers) (s : Server) (fd : ℤ) (k : Resource)
    → IsSound s
    → ledger (release_client_by_fd peer s fd) k ≡ ledger s k
unfolding release_client_by_fd
ledger-release_client_by_fd peer s fd k v =
    let o = sweep (granted_on fd) s.table_nodejobs in
    give_back_found-ledger peer s o.table o.destroyed k
      (sweep-IsValid (granted_on fd) job_callbacks s.table_nodejobs v)
      (λ r. total-sweep (granted_on fd) (granted_of r) s.table_nodejobs)

pub step-IsSound : (s : Server) (e : Event) → IsSound s → IsSound (step s e)
unfolding step enqueue_jobs release_client_by_fd
step-IsSound s (reserves peer resource job_id amount fd) v =
    let r = select_queue resource in
    let q = enqueue (queue s r) (new_request job_id fd amount) in
    reserve_elements-IsSound peer (set_queue s r q) (set_queue-IsSound s r q v)
step-IsSound s (releases peer fd) v =
    let o = sweep (granted_on fd) s.table_nodejobs in
    give_back_found-IsSound peer s o.table o.destroyed
      (sweep-IsValid (granted_on fd) job_callbacks s.table_nodejobs v)

pub ledger-step :
    (s : Server) (e : Event) (k : Resource) → IsSound s → ledger (step s e) k ≡ ledger s k
unfolding step
ledger-step s (reserves peer resource job_id amount fd) k v =
    ledger-enqueue_jobs peer s resource job_id amount fd k v
ledger-step s (releases peer fd) k v = ledger-release_client_by_fd peer s fd k v

pub start-IsSound : IsSound start
unfolding start create_table_jobs
start-IsSound = create-IsValid job_callbacks

pub run-IsSound : (s : Server) (es : List Event) → IsSound s → IsSound (run s es)
unfolding run
run-IsSound s [] v = v
run-IsSound s (e ∷ es) v = run-IsSound (step s e) es (step-IsSound s e v)

-- From a state whose table of reservations is well formed, whatever calls are made, what is free and
-- what is granted of a resource together stay as they were.
pub ledger-run :
    (s : Server) (es : List Event) (k : Resource) → IsSound s → ledger (run s es) k ≡ ledger s k
unfolding run
ledger-run s [] k v = refl
ledger-run s (e ∷ es) k v = ledger-run (step s e) es k (step-IsSound s e v) ∙ ledger-step s e k v
