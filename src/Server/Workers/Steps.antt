-- ===== src/Server/Workers/Steps.antt =====
-- One step of a worker of Server.Workers keeps the table well formed and the books of each resource.
use tp_sistemas_operativos_i.Prelude.{
  ◌≡◌, refl, sym, ap, ◌∙◌, List, [], ◌∷◌, Option, none, some, Bool-cases, inl, inr,
}
use tp_sistemas_operativos_i.Prelude.Int.{
  ℤ, pos, pos_part, neg_part, ◌+ℤ◌, sum_ℤ, sum_ℤ-nil, sum_ℤ-cons, int_laws,
}
use tp_sistemas_operativos_i.Kernel.{Effect, sent}
use tp_sistemas_operativos_i.HashTable.{HashTable, tablahash_find, tablahash_insert}
use tp_sistemas_operativos_i.HashTable.Sweep.{sweep, sweep-IsValid, total-sweep}
use tp_sistemas_operativos_i.HashTable.Valid.{insert-IsValid}
use tp_sistemas_operativos_i.HashTable.Lookup.{find-comp}
use tp_sistemas_operativos_i.HashTable.Total.{total}
use tp_sistemas_operativos_i.Domain.{ReceivedJob, job_callbacks, comp_job}
use tp_sistemas_operativos_i.Domain.Keys.{job_callbacks-IsKeyed}
use tp_sistemas_operativos_i.Server.Conservation.{
  IsSound, set_queue-table, set_queue-IsSound, stash-sum, credit-sum,
}
use tp_sistemas_operativos_i.Server.Ledger.{
  granted_of, granted_total, ledger, same, credit, plus_zero,
}
use tp_sistemas_operativos_i.Server.{
  Resource, cpu, mem, gpu, Server, Queue, Peers, queue, set_queue, amount, job_key, existing_or,
  drained, drained_queue, select_queue, enqueue, new_request, granted_on, add_left, address_of,
  granted_message,
}
use tp_sistemas_operativos_i.Server.Workers.{
  Task, reserving, releasing, giving, draining, granting, inserting, answering, reservation,
  set_table, after_sweep, advance,
}
use tp_sistemas_operativos_i.Server.Workers.Accounts.{
  owed, held, slip, HasKey, left-set_queue, total-reservation, recorded,
}

credit-nothing : (r k : Resource) → credit r k (pos 0) ≡ pos 0
credit-nothing r k = elim (Bool-cases (same r k)) [
  | inl own ↦ rw own refl
  | inr other ↦ rw other refl
]

-- A write of a queue that takes `d` from it and puts `x` into it.
ledger-set_queue :
    (s : Server) (r k : Resource) (q : Queue) (d x : ℤ)
    → q.resources_left +ℤ d ≡ (queue s r).resources_left +ℤ x
    → ledger (set_queue s r q) k +ℤ credit r k d ≡ ledger s k +ℤ credit r k x
ledger-set_queue s r k q d x e =
    let left = left-set_queue s r k q d x e in
    let table = ap (total (granted_of k)) (set_queue-table s r q) in
    omega (int_laws, ap pos_part left, ap neg_part left, ap pos_part table, ap neg_part table)

ledger-set_table :
    (s : Server) (t : HashTable ReceivedJob) (k : Resource) (d x : ℤ)
    → total (granted_of k) t +ℤ d ≡ granted_total s k +ℤ x
    → ledger (set_table s t) k +ℤ d ≡ ledger s k +ℤ x
ledger-set_table s t cpu d x e = omega (int_laws, ap pos_part e, ap neg_part e)
ledger-set_table s t mem d x e = omega (int_laws, ap pos_part e, ap neg_part e)
ledger-set_table s t gpu d x e = omega (int_laws, ap pos_part e, ap neg_part e)

held-after_sweep :
    (k : Resource) (jobs : List ReceivedJob) → held k (after_sweep jobs) ≡ sum_ℤ (granted_of k) jobs
unfolding held owed sum_ℤ
held-after_sweep k [] = refl
held-after_sweep cpu (j ∷ js) = omega int_laws
held-after_sweep mem (j ∷ js) = omega int_laws
held-after_sweep gpu (j ∷ js) = omega int_laws

found-HasKey :
    (t : HashTable ReceivedJob) (key : ReceivedJob) (found : Option ReceivedJob)
    → tablahash_find job_callbacks t key ≡ found
    → comp_job (existing_or key found) key ≡ 0
found-HasKey t key none e = job_callbacks-IsKeyed.comp_refl key
found-HasKey t key (some old) e = find-comp job_callbacks t key old e

after_sweep-HasKey : (jobs : List ReceivedJob) → HasKey (after_sweep jobs)
after_sweep-HasKey [] = tt
after_sweep-HasKey (j ∷ js) = tt

-- The table stays well formed, and what a search found is under its key.
pub advance-IsSound :
    (peer : Peers) (t : Task) (s : Server)
    → IsSound s
    → IsSound (advance peer t s).1 × HasKey (advance peer t s).0
unfolding advance
advance-IsSound peer (reserving resource id a fd) s v =
    let r = select_queue resource in
    (set_queue-IsSound s r (enqueue (queue s r) (new_request id fd a)) v, tt)
advance-IsSound peer (releasing fd) s v = (
  sweep-IsValid (granted_on fd) job_callbacks s.table_nodejobs v,
  after_sweep-HasKey (sweep (granted_on fd) s.table_nodejobs).destroyed,
)
advance-IsSound peer (giving [] jobs) s v = (v, tt)
advance-IsSound peer (giving (r ∷ rs) jobs) s v =
    (set_queue-IsSound s r (add_left (queue s r) (sum_ℤ (granted_of r) jobs)) v, tt)
advance-IsSound peer (draining []) s v = (v, tt)
advance-IsSound peer (draining (r ∷ rs)) s v =
    (set_queue-IsSound s r (drained_queue (queue s r)) v, tt)
advance-IsSound peer (granting r [] rs) s v = (v, tt)
advance-IsSound peer (granting r (req ∷ ready) rs) s v = (
  v,
  found-HasKey s.table_nodejobs (job_key req.job_id (address_of (peer req.origin_socket))) _ refl,
)
advance-IsSound peer (inserting r req address found ready rs) s v = (
  insert-IsValid job_callbacks job_callbacks-IsKeyed s.table_nodejobs
      (reservation r req address found) v,
  tt,
)
advance-IsSound peer (answering r req ready rs) s v = (v, tt)

ledger-traced :
    (s : Server) (trace : List Effect) (k : Resource)
    → ledger (record s { trace = trace }) k ≡ ledger s k
ledger-traced s trace cpu = refl
ledger-traced s trace mem = refl
ledger-traced s trace gpu = refl

-- A step moves amounts between what is free, what is granted and what the worker holds; an insertion
-- loses its slip.
pub advance-books :
    (peer : Peers) (t : Task) (s : Server) (k : Resource)
    → IsSound s
    → HasKey t
    → ledger (advance peer t s).1 k +ℤ held k (advance peer t s).0 +ℤ slip k t s
      ≡ ledger s k +ℤ held k t
unfolding advance held slip owed
advance-books peer (reserving resource id a fd) s k v h =
    let r = select_queue resource in
    let e =
      ledger-set_queue s r k (enqueue (queue s r) (new_request id fd a)) (pos 0) (pos 0) refl in
    let z = credit-nothing r k in
    omega (int_laws, ap pos_part e, ap neg_part e, ap pos_part z, ap neg_part z)
advance-books peer (releasing fd) s k v h =
    let o = sweep (granted_on fd) s.table_nodejobs in
    let gone = held-after_sweep k o.destroyed in
    let e =
      ledger-set_table s o.table k (sum_ℤ (granted_of k) o.destroyed) (pos 0)
        (total-sweep (granted_on fd) (granted_of k) s.table_nodejobs ∙ plus_zero _) in
    omega (int_laws, ap pos_part e, ap neg_part e, ap pos_part gone, ap neg_part gone)
advance-books peer (giving [] jobs) s k v h = omega int_laws
advance-books peer (giving (r ∷ rs) jobs) s k v h =
    let back = sum_ℤ (granted_of r) jobs in
    let e = ledger-set_queue s r k (add_left (queue s r) back) (pos 0) back (sym (plus_zero _)) in
    let z = credit-nothing r k in
    omega (int_laws, ap pos_part e, ap neg_part e, ap pos_part z, ap neg_part z)
advance-books peer (draining []) s k v h = omega int_laws
advance-books peer (draining (r ∷ rs)) s k v h =
    let q = queue s r in
    let e =
      ledger-set_queue s r k (drained_queue q) (sum_ℤ amount (drained q).ready) (pos 0)
        (stash-sum q ∙ plus_zero _) in
    let z = credit-nothing r k in
    omega (int_laws, ap pos_part e, ap neg_part e, ap pos_part z, ap neg_part z)
advance-books peer (granting r [] rs) s k v h =
    let z = ap (credit r k) (sum_ℤ-nil amount) ∙ credit-nothing r k in
    omega (int_laws, ap pos_part z, ap neg_part z)
advance-books peer (granting r (req ∷ ready) rs) s k v h =
    let one = ap (credit r k) (sum_ℤ-cons amount req ready) in
    omega (int_laws, ap pos_part one, ap neg_part one)
advance-books peer (inserting r req address found ready rs) s k v h =
    let t = s.table_nodejobs in
    let o = tablahash_insert job_callbacks t (reservation r req address found) in
    let key = job_key req.job_id address in
    let e =
      ledger-set_table s o.table k (recorded k (tablahash_find job_callbacks t key))
        (recorded k found +ℤ credit r k req.amount_requested)
        (total-reservation r req address found t k v h ∙ (omega int_laws)) in
    let split = credit-sum r k req.amount_requested (sum_ℤ amount ready) in
    omega (int_laws, ap pos_part e, ap neg_part e, ap pos_part split, ap neg_part split)
advance-books peer (answering r req ready rs) s k v h =
    let e = ledger-traced s (sent req.origin_socket (granted_message req.job_id) ∷ s.trace) k in
    omega (int_laws, ap pos_part e, ap neg_part e)
