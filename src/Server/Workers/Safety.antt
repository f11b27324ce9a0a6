-- ===== src/Server/Workers/Safety.antt =====
-- No interleaving of the workers of Server.Workers grants what is not free.
use tp_sistemas_operativos_i.Prelude.{refl, List, [], ◌∷◌, All, All-append}
use tp_sistemas_operativos_i.Prelude.Int.{pos, ◌≤ℤ◌, sum_ℤ, int_laws}
use tp_sistemas_operativos_i.Kernel.{Effect}
use tp_sistemas_operativos_i.HashTable.{tablahash_insert}
use tp_sistemas_operativos_i.HashTable.Every.{
  sum_ℤ-nonneg, insert-Every, sweep-Every, destroyed-All,
}
use tp_sistemas_operativos_i.HashTable.Sweep.{sweep, sweep-IsValid}
use tp_sistemas_operativos_i.HashTable.Valid.{insert-IsValid}
use tp_sistemas_operativos_i.Domain.{ReceivedJob, job_callbacks}
use tp_sistemas_operativos_i.Domain.Keys.{job_callbacks-IsKeyed}
use tp_sistemas_operativos_i.ResourceQueue.Waiting.{drain_list-ready-All}
use tp_sistemas_operativos_i.Server.Bounds.{IsNonneg-granted, swept-queues}
use tp_sistemas_operativos_i.Server.Ledger.{granted_of}
use tp_sistemas_operativos_i.Server.Safety.{
  IsNonneg, Asks, IsSafe, add_granted-IsNonneg, existing-IsNonneg, set_queue-IsSafe,
  drained_queue-IsSafe,
}
use tp_sistemas_operativos_i.Server.{
  Resource, cpu, mem, gpu, Server, Peers, queue, amount, job_key, existing_or, drained_queue,
  select_queue, enqueue, new_request, granted_on, add_left, address_of,
}
use tp_sistemas_operativos_i.Server.Workers.{
  Task, reserving, releasing, giving, draining, granting, inserting, answering, reservation,
  after_sweep, advance, Call, reserve, release, Turn, calls, works,
}

-- A worker holds no negative amount and no request for one.
abbrev pub IsSafeTask : Task → Type 0
IsSafeTask (reserving resource id a fd) = pos 0 ≤ℤ a
IsSafeTask (releasing fd) = Unit {0}
IsSafeTask (giving rs jobs) = All IsNonneg jobs
IsSafeTask (draining rs) = Unit {0}
IsSafeTask (granting r ready rs) = All Asks ready
IsSafeTask (inserting r req address found ready rs) =
    Asks req × IsNonneg (existing_or (job_key req.job_id address) found) × All Asks ready
IsSafeTask (answering r req ready rs) = All Asks ready

-- A RESERVE does not ask for a negative amount.
abbrev pub IsFairCall : Call → Type 0
IsFairCall (reserve resource id a fd) = pos 0 ≤ℤ a
IsFairCall (release fd) = Unit {0}

abbrev pub IsFairTurn : Turn → Type 0
IsFairTurn (calls i c) = IsFairCall c
IsFairTurn (works i peer) = Unit {0}

after_sweep-IsSafeTask :
    (jobs : List ReceivedJob) → All IsNonneg jobs → IsSafeTask (after_sweep jobs)
after_sweep-IsSafeTask [] h = tt
after_sweep-IsSafeTask (j ∷ js) h = h

pub granted-nonneg :
    (r : Resource) (jobs : List ReceivedJob)
    → All IsNonneg jobs
    → pos 0 ≤ℤ sum_ℤ (granted_of r) jobs
granted-nonneg r jobs h = sum_ℤ-nonneg IsNonneg (granted_of r) jobs (IsNonneg-granted r) h

traced-IsSafe : (s : Server) (t : List Effect) → IsSafe s → IsSafe (record s { trace = t })
traced-IsSafe s t v = record {
  sound = v.sound;
  queues = elim [ cpu ↦ v.queues cpu | mem ↦ v.queues mem | gpu ↦ v.queues gpu ];
  table = v.table;
}

pub advance-IsSafe :
    (peer : Peers) (t : Task) (s : Server)
    → IsSafe s
    → IsSafeTask t
    → IsSafe (advance peer t s).1 × IsSafeTask (advance peer t s).0
unfolding advance
advance-IsSafe peer (reserving resource id a fd) s v h =
    let r = select_queue resource in
    let rq = new_request id fd a in
    let old = v.queues r in
    (
      set_queue-IsSafe s r (enqueue (queue s r) rq)
          (old.0, All-append Asks (queue s r).waiting (rq ∷ []) old.1 (h, tt)) v,
      tt,
    )
advance-IsSafe peer (releasing fd) s v h =
    let o = sweep (granted_on fd) s.table_nodejobs in
    (
      record {
        sound = sweep-IsValid (granted_on fd) job_callbacks s.table_nodejobs v.sound;
        queues = λ k. swept-queues s o.table k (v.queues k);
        table = sweep-Every IsNonneg (granted_on fd) s.table_nodejobs v.table;
      },
      after_sweep-IsSafeTask o.destroyed
          (destroyed-All IsNonneg (granted_on fd) s.table_nodejobs v.table),
    )
advance-IsSafe peer (giving [] jobs) s v h = (v, tt)
advance-IsSafe peer (giving (r ∷ rs) jobs) s v h =
    let back = granted-nonneg r jobs h in
    let old = v.queues r in
    (
      set_queue-IsSafe s r (add_left (queue s r) (sum_ℤ (granted_of r) jobs))
          (omega (int_laws, back, old.0), old.1) v,
      h,
    )
advance-IsSafe peer (draining []) s v h = (v, tt)
advance-IsSafe peer (draining (r ∷ rs)) s v h =
    let q = queue s r in
    (
      set_queue-IsSafe s r (drained_queue q) (drained_queue-IsSafe q (v.queues r)) v,
      drain_list-ready-All amount Asks q.resources_left q.waiting [] (v.queues r).1 tt,
    )
advance-IsSafe peer (granting r [] rs) s v h = (v, tt)
advance-IsSafe peer (granting r (req ∷ ready) rs) s v h = (
  v,
  (
    h.0,
    existing-IsNonneg s.table_nodejobs req.job_id (address_of (peer req.origin_socket))
        req.origin_socket _ refl v.table,
    h.1,
  ),
)
advance-IsSafe peer (inserting r req address found ready rs) s v h =
    let rj = reservation r req address found in
    let o = tablahash_insert job_callbacks s.table_nodejobs rj in
    (
      record {
        sound = insert-IsValid job_callbacks job_callbacks-IsKeyed s.table_nodejobs rj v.sound;
        queues = λ k. swept-queues s o.table k (v.queues k);
        table =
            insert-Every IsNonneg job_callbacks s.table_nodejobs rj v.sound
              (add_granted-IsNonneg r req.amount_requested _ h.0 h.1) v.table;
      },
      h.2,
    )
advance-IsSafe peer (answering r req ready rs) s v h = (traced-IsSafe s _ v, h)
