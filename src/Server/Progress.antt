-- ===== src/Server/Progress.antt =====
-- The whole calls: what they serve, that they leave no head waiting that fits.
use tp_sistemas_operativos_i.Prelude.{
  ℕ, ◌≡◌, refl, ap, ◌∙◌, List, [], ◌∷◌, ◌++◌, map, if◌then◌else◌, true,
}
use tp_sistemas_operativos_i.Prelude.Int.{ℤ, ◌-ℤ◌, ◌≤ℤ◌, le→leb_ℤ}
use tp_sistemas_operativos_i.Kernel.{Effect}
use tp_sistemas_operativos_i.HashTable.{HashTable}
use tp_sistemas_operativos_i.HashTable.Sweep.{sweep}
use tp_sistemas_operativos_i.Domain.{ReceivedJob}
use tp_sistemas_operativos_i.ResourceQueue.Waiting.{Blocked, drain_list-Blocked, drain_list}
use tp_sistemas_operativos_i.Server.Conservation.{queue-set_queue}
use tp_sistemas_operativos_i.Server.Ledger.{same}
use tp_sistemas_operativos_i.Server.Events.{Event, reserves, releases, step, run}
use tp_sistemas_operativos_i.Server.Order.{
  answer, Serves, reserve_elements-queue, reserve_elements-Serves,
}
use tp_sistemas_operativos_i.Server.{
  Resource, cpu, mem, gpu, Server, Peers, queue, set_queue, start, amount, drained_queue,
  reserve_elements, select_queue, enqueue, new_request, enqueue_jobs, granted_on, give_back,
  give_back_found, release_client_by_fd,
}

-- The queues and the trace are as they were, whatever the rest is.
same-Serves :
    (s s₀ s' : Server)
    → ((k : Resource) → (queue s k).waiting ≡ (queue s₀ k).waiting)
    → s₀.trace ≡ s.trace
    → Serves s₀ s'
    → Serves s s'
same-Serves s s₀ s' q t v = record {
  granted = v.granted;
  fifo = λ k. q k ∙ v.fifo k;
  answers =
      v.answers
      ∙ ap
          (λ (l : List Effect).
            map answer (v.granted gpu)
            ++ (map answer (v.granted mem) ++ (map answer (v.granted cpu) ++ l)))
          t;
}

give_back-waiting :
    (s : Server) (t : HashTable ReceivedJob) (jobs : List ReceivedJob) (k : Resource)
    → (queue s k).waiting ≡ (queue (give_back s t jobs) k).waiting
give_back-waiting s t jobs cpu = refl
give_back-waiting s t jobs mem = refl
give_back-waiting s t jobs gpu = refl

table-waiting :
    (s : Server) (t : HashTable ReceivedJob) (k : Resource)
    → (queue s k).waiting ≡ (queue (record s { table_nodejobs = t }) k).waiting
table-waiting s t cpu = refl
table-waiting s t mem = refl
table-waiting s t gpu = refl

give_back_found-Serves :
    (peer : Peers) (s : Server) (t : HashTable ReceivedJob) (jobs : List ReceivedJob)
    → Serves s (give_back_found peer s t jobs)
give_back_found-Serves peer s t [] = record {
  granted = λ k. [];
  fifo = λ k. table-waiting s t k;
  answers = refl;
}
give_back_found-Serves peer s t (j ∷ js) =
    let s₀ = give_back s t (j ∷ js) in
    same-Serves s s₀ (reserve_elements peer s₀) (give_back-waiting s t (j ∷ js)) refl
      (reserve_elements-Serves peer s₀)

-- A RELEASE or a disconnect takes no request out of a queue but by granting it: the requests of the
-- socket `fd` that still wait stay in their queues, and are answered like any other.
pub release_client_by_fd-Serves :
    (peer : Peers) (s : Server) (fd : ℤ) → Serves s (release_client_by_fd peer s fd)
unfolding release_client_by_fd
release_client_by_fd-Serves peer s fd =
    let o = sweep (granted_on fd) s.table_nodejobs in
    give_back_found-Serves peer s o.table o.destroyed

-- No queue has a head that fits into what is free.
abbrev pub IsDrained : Server → Type 0
IsDrained s = (k : Resource) → Blocked amount (queue s k).resources_left (queue s k).waiting

reserve_elements-IsDrained : (peer : Peers) (s : Server) → IsDrained (reserve_elements peer s)
reserve_elements-IsDrained peer s k =
    rw (reserve_elements-queue peer s k)
      (drain_list-Blocked amount (queue s k).resources_left (queue s k).waiting [])

table-IsDrained :
    (s : Server) (t : HashTable ReceivedJob)
    → IsDrained s
    → IsDrained (record s { table_nodejobs = t })
table-IsDrained s t h cpu = h cpu
table-IsDrained s t h mem = h mem
table-IsDrained s t h gpu = h gpu

give_back_found-IsDrained :
    (peer : Peers) (s : Server) (t : HashTable ReceivedJob) (jobs : List ReceivedJob)
    → IsDrained s
    → IsDrained (give_back_found peer s t jobs)
give_back_found-IsDrained peer s t [] h = table-IsDrained s t h
give_back_found-IsDrained peer s t (j ∷ js) h =
    reserve_elements-IsDrained peer (give_back s t (j ∷ js))

pub step-IsDrained : (s : Server) (e : Event) → IsDrained s → IsDrained (step s e)
unfolding step enqueue_jobs release_client_by_fd
step-IsDrained s (reserves peer resource job_id amount' fd) h =
    let r = select_queue resource in
    reserve_elements-IsDrained peer
      (set_queue s r (enqueue (queue s r) (new_request job_id fd amount')))
step-IsDrained s (releases peer fd) h =
    let o = sweep (granted_on fd) s.table_nodejobs in
    give_back_found-IsDrained peer s o.table o.destroyed h

run-IsDrained : (s : Server) (es : List Event) → IsDrained s → IsDrained (run s es)
unfolding run
run-IsDrained s [] h = h
run-IsDrained s (e ∷ es) h = run-IsDrained (step s e) es (step-IsDrained s e h)

pub start-IsDrained : IsDrained start
unfolding start
start-IsDrained = elim [ cpu ↦ tt | mem ↦ tt | gpu ↦ tt ]

-- After any sequence of calls from the start, each queue is empty or its head asks for more than is
-- free.
pub run-start-IsDrained : (es : List Event) → IsDrained (run start es)
run-start-IsDrained es = run-IsDrained start es start-IsDrained

-- The queue that a RESERVE selects, after it; the other queues are drained as they are.
pub enqueue_jobs-queue :
    (peer : Peers) (s : Server) (resource : List ℕ) (job_id amount' fd : ℤ) (k : Resource)
    → queue (enqueue_jobs peer s resource job_id amount' fd) k
      ≡ drained_queue (
          if same (select_queue resource) k
          then enqueue (queue s (select_queue resource)) (new_request job_id fd amount')
          else queue s k)
unfolding enqueue_jobs
enqueue_jobs-queue peer s resource job_id amount' fd k =
    let r = select_queue resource in
    let q = enqueue (queue s r) (new_request job_id fd amount') in
    reserve_elements-queue peer (set_queue s r q) k ∙ ap drained_queue (queue-set_queue s r k q)

pub same_refl : (r : Resource) → same r r ≡ true
same_refl cpu = refl
same_refl mem = refl
same_refl gpu = refl

-- A request that fits and finds its queue empty is granted at once: its amount is taken from what is
-- free, and nothing waits.
pub enqueue_jobs_fits :
    (peer : Peers) (s : Server) (resource : List ℕ) (job_id amount' fd : ℤ)
    → (queue s (select_queue resource)).waiting ≡ []
    → amount' ≤ℤ (queue s (select_queue resource)).resources_left
    → queue (enqueue_jobs peer s resource job_id amount' fd) (select_queue resource) ≡ record {
      resources_left = (queue s (select_queue resource)).resources_left -ℤ amount';
      waiting = [];
    }
unfolding drain_list
enqueue_jobs_fits peer s resource job_id amount' fd none h =
    let r = select_queue resource in
    let fits = le→leb_ℤ amount' (queue s r).resources_left h in
    enqueue_jobs-queue peer s resource job_id amount' fd r
    ∙ (rw (same_refl r, none, drain_list, fits) refl)
