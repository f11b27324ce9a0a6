-- ===== src/Domain.antt =====
-- ResourceManager/hash.h and hash.c: the structs of the agent, and the callbacks and factories of
-- its four tables. A list linked through `next` is a list. A fixed `char` array is the list of the
-- bytes before its terminator. A pointer to a local job is an address; 0 is NULL.
pub mod Keys
use tp_sistemas_operativos_i.Prelude.{ℕ, List, Bool, ◌&&◌, not, if◌then◌else◌}
use tp_sistemas_operativos_i.Prelude.Int.{ℤ, ◌+ℤ◌, eq_ℤ, to_unsigned}
use tp_sistemas_operativos_i.HashTable.{Callbacks, HashTable, tablahash_create}

-- `typedef struct pending_resource`
pub record PendingResource : Type 0 where
  pub kind : List ℕ
  pub amount : ℤ
  pub dest_ip : List ℕ
  pub dest_port : ℤ
  pub provider_fd : ℤ

-- `received_node`
pub record ReceivedNode : Type 0 where
  pub ip : ℤ
  pub port : ℤ
  pub gpu : ℤ
  pub mem : ℤ
  pub cpu : ℤ
  pub time : ℤ

-- `received_job`
pub record ReceivedJob : Type 0 where
  pub id : ℤ
  pub ip : ℤ
  pub port : ℤ
  pub cpu_granted : ℤ
  pub mem_granted : ℤ
  pub gpu_granted : ℤ
  pub original_socket : ℤ

-- `local_job_t`
pub record LocalJob : Type 0 where
  pub job_id : ℤ
  pub erlang_socket : ℤ
  pub origin_socket : ℤ
  pub next_req : List PendingResource
  pub granted_reqs : List PendingResource
  pub timer : ℤ

-- What the owner table stores for a `local_job_t *`: the address, with the `job_id` that the callbacks
-- read there. The program never changes the `job_id` of a job that it has inserted.
pub record JobRef : Type 0 where
  pub job_id : ℤ
  pub address : ℕ

-- `fd_job_entry`
pub record FdJobEntry : Type 0 where
  pub fd : ℤ
  pub job : ℕ

-- `!(b)` as an `int`.
abbrev pub int_of_not : Bool → ℕ
int_of_not b = if b then 0 else 1

unfoldable pub func_hash_node : ReceivedNode → ℕ
func_hash_node node = to_unsigned node.ip

unfoldable pub comp_node : ReceivedNode → ReceivedNode → ℕ
comp_node a b = int_of_not (eq_ℤ a.ip b.ip)

-- The `int` sum wraps as compiled; its residue is that of the exact sum.
unfoldable pub func_hash_job : ReceivedJob → ℕ
func_hash_job job = to_unsigned (job.id +ℤ job.ip +ℤ job.port)

unfoldable pub comp_job : ReceivedJob → ReceivedJob → ℕ
comp_job a b = int_of_not (eq_ℤ a.id b.id && eq_ℤ a.ip b.ip && eq_ℤ a.port b.port)

unfoldable pub func_hash_fd : FdJobEntry → ℕ
func_hash_fd e = to_unsigned e.fd

unfoldable pub comp_fd : FdJobEntry → FdJobEntry → ℕ
comp_fd a b = int_of_not (eq_ℤ a.fd b.fd)

unfoldable pub func_hash_localjob : JobRef → ℕ
func_hash_localjob job = to_unsigned job.job_id

unfoldable pub comp_localjob : JobRef → JobRef → ℕ
comp_localjob a b = int_of_not (eq_ℤ a.job_id b.job_id)

-- The callbacks that each factory hands to `tablahash_create`.
abbrev pub node_callbacks : Callbacks ReceivedNode
node_callbacks = record { hash = func_hash_node; comp = comp_node }

abbrev pub job_callbacks : Callbacks ReceivedJob
job_callbacks = record { hash = func_hash_job; comp = comp_job }

abbrev pub fd_callbacks : Callbacks FdJobEntry
fd_callbacks = record { hash = func_hash_fd; comp = comp_fd }

abbrev pub localjob_callbacks : Callbacks JobRef
localjob_callbacks = record { hash = func_hash_localjob; comp = comp_localjob }

unfoldable pub create_table_nodes : HashTable ReceivedNode
create_table_nodes = tablahash_create

unfoldable pub create_table_jobs : HashTable ReceivedJob
create_table_jobs = tablahash_create

unfoldable pub create_table_fd_jobs : HashTable FdJobEntry
create_table_fd_jobs = tablahash_create

unfoldable pub create_table_local_jobs : HashTable JobRef
create_table_local_jobs = tablahash_create
