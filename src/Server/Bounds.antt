-- ===== src/Server/Bounds.antt =====
-- The bounds of what is free and what is granted, over any sequence of calls.
use tp_sistemas_operativos_i.Prelude.{◌≡◌, sym, ap, ◌∙◌, List, [], ◌∷◌, arith, All, All-append}
use tp_sistemas_operativos_i.Prelude.Int.{pos, pos_part, neg_part, ◌≤ℤ◌, sum_ℤ, int_laws}
use tp_sistemas_operativos_i.HashTable.{HashTable}
use tp_sistemas_operativos_i.HashTable.Every.{
  sum_ℤ-nonneg, total-nonneg, create-Every, sweep-Every, destroyed-All,
}
use tp_sistemas_operativos_i.HashTable.Sweep.{sweep, sweep-IsValid}
use tp_sistemas_operativos_i.Domain.{ReceivedJob, job_callbacks, create_table_jobs}
use tp_sistemas_operativos_i.Server.Calls.{start-IsSound, ledger-run}
use tp_sistemas_operativos_i.Server.Ledger.{granted_of, granted_total, ledger, plus_zero}
use tp_sistemas_operativos_i.Server.Events.{Event, reserves, releases, step, run}
use tp_sistemas_operativos_i.Server.{
  Resource, cpu, mem, gpu, Server, Peers, queue, set_queue, start, capacity, drain_queue,
  reserve_elements, select_queue, enqueue, new_request, enqueue_jobs, granted_on, give_back,
  give_back_found, release_client_by_fd,
}
use tp_sistemas_operativos_i.HashTable.Total.{total-create}
use tp_sistemas_operativos_i.Server.Safety.{
  IsNonneg, Asks, IsSafeQueue, IsSafe, set_queue-IsSafe, drain_queue-IsSafe,
}

reserve_elements-IsSafe : (peer : Peers) (s : Server) → IsSafe s → IsSafe (reserve_elements peer s)
unfolding reserve_elements
reserve_elements-IsSafe peer s v =
    let s₁ = drain_queue peer s cpu in
    drain_queue-IsSafe peer (drain_queue peer s₁ mem) gpu
      (drain_queue-IsSafe peer s₁ mem (drain_queue-IsSafe peer s cpu v))

pub IsNonneg-granted : (k : Resource) (j : ReceivedJob) → IsNonneg j → pos 0 ≤ℤ granted_of k j
IsNonneg-granted cpu j h = h.0
IsNonneg-granted mem j h = h.1
IsNonneg-granted gpu j h = h.2

give_back-IsSafe :
    (s : Server) (t : HashTable ReceivedJob) (jobs : List ReceivedJob)
    → IsSafe (record s { table_nodejobs = t })
    → All IsNonneg jobs
    → IsSafe (give_back s t jobs)
give_back-IsSafe s t jobs v h =
    let back : (k : Resource) → pos 0 ≤ℤ sum_ℤ (granted_of k) jobs = elim [
      | cpu ↦ sum_ℤ-nonneg IsNonneg (granted_of cpu) jobs (λ x p. p.0) h
      | mem ↦ sum_ℤ-nonneg IsNonneg (granted_of mem) jobs (λ x p. p.1) h
      | gpu ↦ sum_ℤ-nonneg IsNonneg (granted_of gpu) jobs (λ x p. p.2) h
    ] in
    record {
      sound = v.sound;
      queues = elim [
        | cpu ↦ (omega (int_laws, back cpu, (v.queues cpu).0), (v.queues cpu).1)
        | mem ↦ (omega (int_laws, back mem, (v.queues mem).0), (v.queues mem).1)
        | gpu ↦ (omega (int_laws, back gpu, (v.queues gpu).0), (v.queues gpu).1)
      ];
      table = v.table;
    }

give_back_found-IsSafe :
    (peer : Peers) (s : Server) (t : HashTable ReceivedJob) (jobs : List ReceivedJob)
    → IsSafe (record s { table_nodejobs = t })
    → All IsNonneg jobs
    → IsSafe (give_back_found peer s t jobs)
give_back_found-IsSafe peer s t [] v h = v
give_back_found-IsSafe peer s t (j ∷ js) v h =
    reserve_elements-IsSafe peer (give_back s t (j ∷ js)) (give_back-IsSafe s t (j ∷ js) v h)

-- A RESERVE does not ask for a negative amount.
abbrev pub IsFair : Event → Type 0
IsFair (reserves peer resource job_id amount' fd) = pos 0 ≤ℤ amount'
IsFair (releases peer fd) = Unit {0}

pub swept-queues :
    (s : Server) (t : HashTable ReceivedJob) (k : Resource)
    → IsSafeQueue (queue s k)
    → IsSafeQueue (queue (record s { table_nodejobs = t }) k)
swept-queues s t cpu h = h
swept-queues s t mem h = h
swept-queues s t gpu h = h

pub step-IsSafe : (s : Server) (e : Event) → IsFair e → IsSafe s → IsSafe (step s e)
unfolding step enqueue_jobs release_client_by_fd
step-IsSafe s (reserves peer resource job_id amount' fd) h v =
    let r = select_queue resource in
    let rq = new_request job_id fd amount' in
    let old = v.queues r in
    reserve_elements-IsSafe peer (set_queue s r (enqueue (queue s r) rq)) (
      set_queue-IsSafe s r (enqueue (queue s r) rq)
        (old.0, All-append Asks (queue s r).waiting (rq ∷ []) old.1 (h, tt)) v)
step-IsSafe s (releases peer fd) h v =
    let o = sweep (granted_on fd) s.table_nodejobs in
    give_back_found-IsSafe peer s o.table o.destroyed
      (record {
        sound = sweep-IsValid (granted_on fd) job_callbacks s.table_nodejobs v.sound;
        queues = λ k. swept-queues s o.table k (v.queues k);
        table = sweep-Every IsNonneg (granted_on fd) s.table_nodejobs v.table;
      })
      (destroyed-All IsNonneg (granted_on fd) s.table_nodejobs v.table)

pub start-IsSafe : IsSafe start
unfolding start create_table_jobs
start-IsSafe = record {
  sound = start-IsSound;
  queues = elim [ cpu ↦ (omega arith, tt) | mem ↦ (omega arith, tt) | gpu ↦ (omega arith, tt) ];
  table = create-Every IsNonneg;
}

run-IsSafe : (s : Server) (es : List Event) → All IsFair es → IsSafe s → IsSafe (run s es)
unfolding run
run-IsSafe s [] h v = v
run-IsSafe s (e ∷ es) h v = run-IsSafe (step s e) es h.1 (step-IsSafe s e h.0 v)

pub start-ledger : (k : Resource) → ledger start k ≡ capacity k
unfolding start create_table_jobs
start-ledger cpu = rw (total-create (granted_of cpu)) (sym (plus_zero (pos 4)))
start-ledger mem = rw (total-create (granted_of mem)) (sym (plus_zero (pos 8192)))
start-ledger gpu = rw (total-create (granted_of gpu)) (sym (plus_zero (pos 1)))

-- From the start, however calls follow one another in which no RESERVE asks for a negative amount,
-- what is free and what is granted of each resource stay between 0 and the capacity of the node.
pub run_bounds :
    (es : List Event) (k : Resource)
    → All IsFair es
    → let s = run start es in
      (pos 0 ≤ℤ (queue s k).resources_left)
      × ((queue s k).resources_left ≤ℤ capacity k)
      × (pos 0 ≤ℤ granted_total s k)
      × (granted_total s k ≤ℤ capacity k)
run_bounds es k h =
    let s = run start es in
    let v = run-IsSafe start es h start-IsSafe in
    let books = ledger-run start es k start-IsSound ∙ start-ledger k in
    let granted : pos 0 ≤ℤ granted_total s k =
      total-nonneg IsNonneg (granted_of k) s.table_nodejobs (IsNonneg-granted k) v.table in
    let free = (v.queues k).0 in
    let up = ap pos_part books in
    let down = ap neg_part books in
    (free, omega (int_laws, up, down), granted, omega (int_laws, up, down))
