-- ===== src/Server.antt =====
-- agent/utils.c, server side: `enqueue_jobs`, `record_granted`, `drain_queue`, `reserve_elements` and
-- `release_client_by_fd`, over the three queues and the table `table_nodejobs`. The queues are lists
-- here: ResourceQueue shows that the linked ones refine them. `getpeername` is the argument `peer`.
pub mod Events
pub mod Ledger
pub mod Conservation
pub mod Calls
pub mod Safety
pub mod Order
pub mod Progress
pub mod Negative
pub mod Bounds
pub mod Interleaving
pub mod Commutation
pub mod Workers
use tp_sistemas_operativos_i.Prelude.{
  ℕ, List, [], ◌∷◌, ◌++◌, Option, none, some, if◌then◌else◌, Bool, true, false,
}
use tp_sistemas_operativos_i.Prelude.Int.{ℤ, pos, ◌+ℤ◌, eq_ℤ, sum_ℤ}
use tp_sistemas_operativos_i.Prelude.Text.{codes, str_eq}
use tp_sistemas_operativos_i.Kernel.{Effect, sent}
use tp_sistemas_operativos_i.HashTable.{HashTable, Outcome, tablahash_find, tablahash_insert}
use tp_sistemas_operativos_i.HashTable.Sweep.{sweep}
use tp_sistemas_operativos_i.Domain.{ReceivedJob, job_callbacks, create_table_jobs}
use tp_sistemas_operativos_i.ResourceQueue.{Request}
use tp_sistemas_operativos_i.ResourceQueue.Waiting.{Drained, drain_list}
use tp_sistemas_operativos_i.Wire.{print_int}

-- Which of `cpu_queue`, `mem_queue` and `gpu_queue` a pointer points at.
pub data Resource : Type 0 where
  cpu mem gpu : Resource

-- The second argument of `drain_queue` for each queue.
abbrev pub type_name : Resource → List ℕ
type_name cpu = codes "cpu"
type_name mem = codes "mem"
type_name gpu = codes "gpu"

-- A `request_queue`, its chain as a list.
pub record Queue : Type 0 where
  pub resources_left : ℤ
  pub waiting : List Request

pub record Server : Type 0 where
  pub cpu_queue : Queue
  pub mem_queue : Queue
  pub gpu_queue : Queue
  pub table_nodejobs : HashTable ReceivedJob
  -- newest first
  pub trace : List Effect

-- The peer's address and port, or none where `getpeername` fails.
abbrev pub Peers : Type 0
Peers = ℤ → Option (ℤ × ℤ)

abbrev pub queue : Server → Resource → Queue
queue s cpu = s.cpu_queue
queue s mem = s.mem_queue
queue s gpu = s.gpu_queue

abbrev pub set_queue : Server → Resource → Queue → Server
set_queue s cpu q = record s { cpu_queue = q }
set_queue s mem q = record s { mem_queue = q }
set_queue s gpu q = record s { gpu_queue = q }

-- LOCAL_CPU, LOCAL_MEM and LOCAL_GPU of main.c.
abbrev pub capacity : Resource → ℤ
capacity cpu = pos 4
capacity mem = pos 8192
capacity gpu = pos 1

-- The queues and the table of `main`.
unfoldable pub start : Server
start = record {
  cpu_queue = record { resources_left = capacity cpu; waiting = [] };
  mem_queue = record { resources_left = capacity mem; waiting = [] };
  gpu_queue = record { resources_left = capacity gpu; waiting = [] };
  table_nodejobs = create_table_jobs;
  trace = [];
}

abbrev pub address_of : Option (ℤ × ℤ) → ℤ × ℤ
address_of none = (pos 0, pos 0)
address_of (some a) = a

-- A zeroed `received_job` with its key.
abbrev pub job_key : ℤ → ℤ × ℤ → ReceivedJob
job_key id (ip, port) = record {
  id = id;
  ip = ip;
  port = port;
  cpu_granted = pos 0;
  mem_granted = pos 0;
  gpu_granted = pos 0;
  original_socket = pos 0;
}

abbrev pub existing_or : ReceivedJob → Option ReceivedJob → ReceivedJob
existing_or key none = key
existing_or key (some e) = e

unfoldable pub add_granted : List ℕ → ℤ → ReceivedJob → ReceivedJob
add_granted type' amount rj =
    if str_eq type' (codes "cpu")
    then record rj { cpu_granted = rj.cpu_granted +ℤ amount }
    else (if str_eq type' (codes "mem")
        then record rj { mem_granted = rj.mem_granted +ℤ amount }
        else record rj { gpu_granted = rj.gpu_granted +ℤ amount })

-- The reservation that `record_granted` inserts.
abbrev pub granted_job : HashTable ReceivedJob → ℤ → ℤ × ℤ → ℤ → List ℕ → ℤ → ReceivedJob
granted_job t job_id address socket type' amount =
    let rj =
      existing_or (job_key job_id address)
        (tablahash_find job_callbacks t (job_key job_id address)) in
    add_granted type' amount (record rj { original_socket = socket })

unfoldable pub record_granted : Peers → Server → ℤ → ℤ → List ℕ → ℤ → Server
record_granted peer s job_id origin_socket type' amount = record s {
  table_nodejobs =
      (tablahash_insert job_callbacks s.table_nodejobs (
        granted_job s.table_nodejobs job_id (address_of (peer origin_socket)) origin_socket type'
          amount)).table;
}

-- "GRANTED %d\n"
unfoldable pub granted_message : ℤ → List ℕ
granted_message job_id = codes "GRANTED " ++ (print_int job_id ++ 10 ∷ [])

-- The loop of `drain_queue` outside the lock, over the stash of granted requests.
unfoldable pub grant_ready : Peers → List ℕ → List Request → Server → Server
unfolding record_granted
grant_ready peer type' [] s = s
grant_ready peer type' (req ∷ ready) s =
    let s' = record_granted peer s req.job_id req.origin_socket type' req.amount_requested in
    grant_ready peer type' ready
      (record s' { trace = sent req.origin_socket (granted_message req.job_id) ∷ s'.trace })

abbrev pub amount : Request → ℤ
amount r = r.amount_requested

-- What the locked loop of `drain_queue` leaves of a queue, and the requests that it stashes.
abbrev pub drained : Queue → Drained Request
drained q = drain_list amount q.resources_left q.waiting []

abbrev pub drained_queue : Queue → Queue
drained_queue q = record { resources_left = (drained q).left; waiting = (drained q).waiting }

unfoldable pub drain_queue : Peers → Server → Resource → Server
unfolding grant_ready drain_list
drain_queue peer s r =
    grant_ready peer (type_name r) (drained (queue s r)).ready
      (set_queue s r (drained_queue (queue s r)))

unfoldable pub reserve_elements : Peers → Server → Server
unfolding drain_queue
reserve_elements peer s = drain_queue peer (drain_queue peer (drain_queue peer s cpu) mem) gpu

-- Which queue the name of a resource selects: any name but "cpu" and "mem" means the gpu.
unfoldable pub select_queue : List ℕ → Resource
select_queue resource =
    if str_eq resource (codes "cpu")
    then cpu
    else (if str_eq resource (codes "mem") then mem else gpu)

abbrev pub new_request : ℤ → ℤ → ℤ → Request
new_request job_id socket amount' = record {
  job_id = job_id;
  origin_socket = socket;
  amount_requested = amount';
  asked_resource = [];
}

abbrev pub enqueue : Queue → Request → Queue
enqueue q rq = record q { waiting = q.waiting ++ rq ∷ [] }

unfoldable pub enqueue_jobs : Peers → Server → List ℕ → ℤ → ℤ → ℤ → Server
unfolding select_queue reserve_elements
enqueue_jobs peer s resource job_id amount' current_fd =
    let r = select_queue resource in
    reserve_elements peer
      (set_queue s r (enqueue (queue s r) (new_request job_id current_fd amount')))

abbrev pub granted_on : ℤ → ReceivedJob → Bool
granted_on fd job = eq_ℤ job.original_socket fd

abbrev pub add_left : Queue → ℤ → Queue
add_left q n = record q { resources_left = q.resources_left +ℤ n }

-- The amounts of the destroyed reservations go back to the queues.
abbrev pub give_back : Server → HashTable ReceivedJob → List ReceivedJob → Server
give_back s t jobs = record s {
  table_nodejobs = t;
  cpu_queue = add_left s.cpu_queue (sum_ℤ (λ j. j.cpu_granted) jobs);
  mem_queue = add_left s.mem_queue (sum_ℤ (λ j. j.mem_granted) jobs);
  gpu_queue = add_left s.gpu_queue (sum_ℤ (λ j. j.gpu_granted) jobs);
}

-- `if (!found_any) return;`
abbrev pub give_back_found : Peers → Server → HashTable ReceivedJob → List ReceivedJob → Server
give_back_found peer s t [] = record s { table_nodejobs = t }
give_back_found peer s t (j ∷ js) = reserve_elements peer (give_back s t (j ∷ js))

unfoldable pub release_client_by_fd : Peers → Server → ℤ → Server
unfolding sweep reserve_elements
release_client_by_fd peer s fd =
    let o = sweep (granted_on fd) s.table_nodejobs in give_back_found peer s o.table o.destroyed
