-- ===== src/Server/Ledger.antt =====
-- The books of one resource: what is free in its queue and what the table says is granted.
use tp_sistemas_operativos_i.Prelude.{
  ◌≡◌, refl, ap, Option, none, some, Bool, true, false, if◌then◌else◌,
}
use tp_sistemas_operativos_i.Prelude.Int.{ℤ, pos, pos_part, neg_part, ◌+ℤ◌, int_laws}
use tp_sistemas_operativos_i.Prelude.Text.{str_eq}
use tp_sistemas_operativos_i.HashTable.{HashTable, tablahash_find, tablahash_insert}
use tp_sistemas_operativos_i.HashTable.Chain.{sum_option}
use tp_sistemas_operativos_i.HashTable.Valid.{IsValid}
use tp_sistemas_operativos_i.HashTable.Lookup.{find-congr, find-comp}
use tp_sistemas_operativos_i.HashTable.Total.{total, total-insert}
use tp_sistemas_operativos_i.Domain.{ReceivedJob, job_callbacks, comp_job}
use tp_sistemas_operativos_i.Domain.Keys.{job_callbacks-IsKeyed}
use tp_sistemas_operativos_i.Server.{
  Resource, cpu, mem, gpu, type_name, Server, queue, job_key, existing_or, add_granted, granted_job,
}

abbrev pub granted_of : Resource → ReceivedJob → ℤ
granted_of cpu j = j.cpu_granted
granted_of mem j = j.mem_granted
granted_of gpu j = j.gpu_granted

-- All that the table says is granted of a resource.
abbrev pub granted_total : Server → Resource → ℤ
granted_total s k = total (granted_of k) s.table_nodejobs

-- What is free together with what is granted.
abbrev pub ledger : Server → Resource → ℤ
ledger s k = (queue s k).resources_left +ℤ granted_total s k

abbrev pub same : Resource → Resource → Bool
same cpu cpu = true
same mem mem = true
same gpu gpu = true
same _ _ = false

-- An amount of resource `r`, seen in the books of `k`.
abbrev pub credit : Resource → Resource → ℤ → ℤ
credit r k a = if same r k then a else pos 0

pub plus_zero : (x : ℤ) → x ≡ x +ℤ pos 0
plus_zero x = omega int_laws

pub granted-add :
    (r k : Resource) (a : ℤ) (rj : ReceivedJob)
    → granted_of k (add_granted (type_name r) a rj) ≡ granted_of k rj +ℤ credit r k a
unfolding add_granted str_eq
granted-add cpu cpu a rj = refl
granted-add cpu mem a rj = plus_zero rj.mem_granted
granted-add cpu gpu a rj = plus_zero rj.gpu_granted
granted-add mem cpu a rj = plus_zero rj.cpu_granted
granted-add mem mem a rj = refl
granted-add mem gpu a rj = plus_zero rj.gpu_granted
granted-add gpu cpu a rj = plus_zero rj.cpu_granted
granted-add gpu mem a rj = plus_zero rj.mem_granted
granted-add gpu gpu a rj = refl

pub add-key :
    (r : Resource) (a : ℤ) (rj key : ReceivedJob)
    → comp_job rj key ≡ 0
    → comp_job (add_granted (type_name r) a rj) key ≡ 0
unfolding add_granted str_eq comp_job
add-key cpu a rj key h = h
add-key mem a rj key h = h
add-key gpu a rj key h = h

pub existing-key :
    (key : ReceivedJob) (found : Option ReceivedJob) (t : HashTable ReceivedJob) (socket : ℤ)
    → tablahash_find job_callbacks t key ≡ found
    → comp_job (record (existing_or key found) { original_socket = socket }) key ≡ 0
unfolding comp_job
existing-key key none t socket e = job_callbacks-IsKeyed.comp_refl key
existing-key key (some old) t socket e = find-comp job_callbacks t key old e

pub existing-granted :
    (job_id : ℤ) (address : ℤ × ℤ) (socket : ℤ) (k : Resource) (found : Option ReceivedJob)
    → granted_of k
        (record (existing_or (job_key job_id address) found) { original_socket = socket })
      ≡ sum_option (granted_of k) found
existing-granted job_id address socket cpu none = refl
existing-granted job_id address socket mem none = refl
existing-granted job_id address socket gpu none = refl
existing-granted job_id address socket cpu (some e) = refl
existing-granted job_id address socket mem (some e) = refl
existing-granted job_id address socket gpu (some e) = refl

module _ (t : HashTable ReceivedJob) (job_id : ℤ) (address : ℤ × ℤ) (socket : ℤ) where
  -- The reservation that `record_granted` inserts is under the key that it looked up.
  pub granted_job-key :
      (r : Resource) (a : ℤ)
      → comp_job (granted_job t job_id address socket (type_name r) a) (job_key job_id address) ≡ 0
  granted_job-key r a =
      add-key r a _ (job_key job_id address) (existing-key (job_key job_id address) _ t socket refl)

  -- Recording a grant adds its amount to the total of its resource, and to no other total.
  pub total-granted_job :
      (r k : Resource) (a : ℤ)
      → IsValid job_callbacks t
      → total
          (granted_of k)
          (tablahash_insert job_callbacks t
            (granted_job t job_id address socket (type_name r) a)).table
        ≡ total (granted_of k) t +ℤ credit r k a
  total-granted_job r k a v =
      let key = job_key job_id address in
      let rj = granted_job t job_id address socket (type_name r) a in
      let ins = total-insert job_callbacks (granted_of k) t rj v in
      let found =
        ap (sum_option (granted_of k))
          (find-congr job_callbacks job_callbacks-IsKeyed t rj key (granted_job-key r a)) in
      let adds = granted-add r k a (record (existing_or key (tablahash_find job_callbacks t key)) {
        original_socket = socket;
      }) in
      let old = existing-granted job_id address socket k (tablahash_find job_callbacks t key) in
      omega (
        int_laws,
        ap pos_part ins,
        ap neg_part ins,
        ap pos_part found,
        ap neg_part found,
        ap pos_part adds,
        ap neg_part adds,
        ap pos_part old,
        ap neg_part old,
      )
