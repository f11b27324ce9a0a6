-- ===== src/Server/Workers/Accounts.antt =====
-- What a worker of Server.Workers holds of a resource between two steps: amounts that it has taken from
-- a queue and not recorded yet, or removed from the table and not given back yet.
use tp_sistemas_operativos_i.Prelude.{◌≡◌, refl, ap, Option, List, [], ◌∷◌, Bool-cases, inl, inr}
use tp_sistemas_operativos_i.Prelude.Int.{ℤ, pos, pos_part, neg_part, ◌+ℤ◌, ◌-ℤ◌, sum_ℤ, int_laws}
use tp_sistemas_operativos_i.HashTable.{tablahash_find, tablahash_insert, HashTable}
use tp_sistemas_operativos_i.HashTable.Chain.{sum_option}
use tp_sistemas_operativos_i.HashTable.Valid.{IsValid}
use tp_sistemas_operativos_i.HashTable.Lookup.{find-congr}
use tp_sistemas_operativos_i.HashTable.Total.{total, total-insert}
use tp_sistemas_operativos_i.Domain.{ReceivedJob, job_callbacks, comp_job}
use tp_sistemas_operativos_i.Domain.Keys.{job_callbacks-IsKeyed}
use tp_sistemas_operativos_i.ResourceQueue.{Request}
use tp_sistemas_operativos_i.Server.Conservation.{queue-set_queue, same→eq}
use tp_sistemas_operativos_i.Server.Ledger.{
  granted_of, same, credit, granted-add, add-key, existing-granted,
}
use tp_sistemas_operativos_i.Server.{
  Resource, Server, Queue, queue, set_queue, amount, job_key, existing_or,
}
use tp_sistemas_operativos_i.Server.Workers.{
  Task, reserving, releasing, giving, draining, granting, inserting, answering, reservation,
}

-- What is still owed to queue `k`.
unfoldable pub owed : Resource → List Resource → List ReceivedJob → ℤ
owed k [] jobs = pos 0
owed k (r ∷ rs) jobs = credit r k (sum_ℤ (granted_of r) jobs) +ℤ owed k rs jobs

unfoldable pub held : Resource → Task → ℤ
unfolding owed
held k (reserving resource job_id amount' fd) = pos 0
held k (releasing fd) = pos 0
held k (giving rs jobs) = owed k rs jobs
held k (draining rs) = pos 0
held k (granting r ready rs) = credit r k (sum_ℤ amount ready)
held k (inserting r req address found ready rs) =
    credit r k (req.amount_requested +ℤ sum_ℤ amount ready)
held k (answering r req ready rs) = credit r k (sum_ℤ amount ready)

-- What the reservation of a key holds of `k`.
abbrev pub recorded : Resource → Option ReceivedJob → ℤ
recorded k o = sum_option (granted_of k) o

-- What the next step of a worker takes off the books: where it inserts, what the table holds under the
-- key by then, less what the worker's search found there.
unfoldable pub slip : Resource → Task → Server → ℤ
slip k (inserting r req address found ready rs) s =
    recorded k (tablahash_find job_callbacks s.table_nodejobs (job_key req.job_id address))
    -ℤ recorded k found
slip k _ s = pos 0

-- What a search found is under the key that was looked up.
abbrev pub HasKey : Task → Type 0
HasKey (inserting r req address found ready rs) =
    comp_job (existing_or (job_key req.job_id address) found) (job_key req.job_id address) ≡ 0
HasKey _ = Unit {0}

-- A write of queue `r` in the books of `k`.
pub left-set_queue :
    (s : Server) (r k : Resource) (q : Queue) (d x : ℤ)
    → q.resources_left +ℤ d ≡ (queue s r).resources_left +ℤ x
    → (queue (set_queue s r q) k).resources_left +ℤ credit r k d
      ≡ (queue s k).resources_left +ℤ credit r k x
left-set_queue s r k q d x e = elim (Bool-cases (same r k)) [
  | inl own ↦
      let moved = ap (λ (y : Resource). (queue s y).resources_left) (same→eq r k own) in
      rw (queue-set_queue s r k q, own, ← moved) e
  | inr other ↦ rw (queue-set_queue s r k q, other) refl
]

module _ (r : Resource) (req : Request) (address : ℤ × ℤ) (found : Option ReceivedJob) where
  abbrev key : ReceivedJob
  key = job_key req.job_id address

  reservation-key :
      comp_job (existing_or key found) key ≡ 0 → comp_job (reservation r req address found) key ≡ 0
  unfolding comp_job
  reservation-key h = add-key r req.amount_requested _ key h

  pub recorded-reservation :
      (k : Resource)
      → granted_of k (reservation r req address found)
        ≡ recorded k found +ℤ credit r k req.amount_requested
  recorded-reservation k =
      let old = existing-granted req.job_id address req.origin_socket k found in
      rw
        (
          granted-add r k req.amount_requested
              (record (existing_or key found) { original_socket = req.origin_socket }),
          old,
        )
        refl

  -- An insertion adds the amount of the request, and what the search found in place of what the table
  -- holds under the key.
  pub total-reservation :
      (t : HashTable ReceivedJob) (k : Resource)
      → IsValid job_callbacks t
      → comp_job (existing_or key found) key ≡ 0
      → total
            (granted_of k)
            (tablahash_insert job_callbacks t (reservation r req address found)).table
          +ℤ recorded k (tablahash_find job_callbacks t key)
        ≡ total (granted_of k) t +ℤ recorded k found +ℤ credit r k req.amount_requested
  total-reservation t k v h =
      let rj = reservation r req address found in
      let ins = total-insert job_callbacks (granted_of k) t rj v in
      let here =
        ap (recorded k)
          (find-congr job_callbacks job_callbacks-IsKeyed t rj key (reservation-key h)) in
      let new = recorded-reservation k in
      omega (
        int_laws,
        ap pos_part ins,
        ap neg_part ins,
        ap pos_part here,
        ap neg_part here,
        ap pos_part new,
        ap neg_part new,
      )
