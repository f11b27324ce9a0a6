-- ===== src/Server/Workers.antt =====
-- The workers of agent/agent.c on the server side of agent/utils.c, at the granularity of its locks: a
-- step is what a worker does between a lock and its unlock, or one system call outside the locks. Each
-- of these stretches holds one mutex and touches what that mutex guards, so it is one step here. The
-- order of the workers' steps is the list of turns.
pub mod Accounts
pub mod Steps
pub mod Books
pub mod Keeping
pub mod Safety
pub mod Bounds
pub mod Quiet
pub mod Alone
pub mod Fifo
pub mod Answers
pub mod Ending
use tp_sistemas_operativos_i.Prelude.{ℕ, zero, suc, List, [], ◌∷◌, Option, replicate}
use tp_sistemas_operativos_i.Prelude.Int.{ℤ, sum_ℤ}
use tp_sistemas_operativos_i.Kernel.{sent}
use tp_sistemas_operativos_i.HashTable.{HashTable, tablahash_find, tablahash_insert}
use tp_sistemas_operativos_i.HashTable.Sweep.{sweep}
use tp_sistemas_operativos_i.Domain.{ReceivedJob, job_callbacks}
use tp_sistemas_operativos_i.ResourceQueue.{Request}
use tp_sistemas_operativos_i.Server.{
  Resource, cpu, mem, gpu, Server, Peers, type_name, queue, set_queue, start, address_of, job_key,
  existing_or, add_granted, granted_message, drained, drained_queue, select_queue, enqueue,
  new_request, granted_on, add_left,
}
use tp_sistemas_operativos_i.Server.Ledger.{granted_of}

-- Where a worker stands, with the locals of the functions that it is in.
pub data Task : Type 0 where
  -- `enqueue_jobs` is called: resource, job_id, amount, current_fd.
  reserving : List ℕ → ℤ → ℤ → ℤ → Task
  -- `release_client_by_fd` is called.
  releasing : ℤ → Task
  -- It gives what it removed back to the queues that are listed.
  giving : List Resource → List ReceivedJob → Task
  -- `reserve_elements` is before `drain_queue` of the queues that are listed. With none it is done.
  draining : List Resource → Task
  -- `drain_queue` of a queue is outside the lock, with `ready` and the queues to drain after it.
  granting : Resource → List Request → List Resource → Task
  -- `record_granted` is between its search and its insertion: the request, `ip` and `port`, and
  -- what `existing` points to. The code reads that after the unlock; here the search reads it.
  inserting : Resource → Request → ℤ × ℤ → Option ReceivedJob → List Request → List Resource → Task
  -- The reservation of the request is recorded, and GRANTED is not sent.
  answering : Resource → Request → List Request → List Resource → Task

abbrev pub idle : Task
idle = draining []

abbrev pub all_queues : List Resource
all_queues = cpu ∷ mem ∷ gpu ∷ []

-- What `record_granted` inserts, from what its search found.
abbrev pub reservation : Resource → Request → ℤ × ℤ → Option ReceivedJob → ReceivedJob
reservation r req address found =
    add_granted (type_name r) req.amount_requested
      (record (existing_or (job_key req.job_id address) found) {
        original_socket = req.origin_socket;
      })

abbrev pub set_table : Server → HashTable ReceivedJob → Server
set_table s t = record s { table_nodejobs = t }

-- `if (!found_any) return;`
abbrev pub after_sweep : List ReceivedJob → Task
after_sweep [] = idle
after_sweep (j ∷ js) = giving all_queues (j ∷ js)

-- One step of a worker, and what `getpeername` answers if it asks.
unfoldable pub advance : Peers → Task → Server → Task × Server
advance peer (reserving resource job_id amount fd) s =
    let r = select_queue resource in
    (draining all_queues, set_queue s r (enqueue (queue s r) (new_request job_id fd amount)))
advance peer (releasing fd) s =
    let o = sweep (granted_on fd) s.table_nodejobs in (after_sweep o.destroyed, set_table s o.table)
advance peer (giving [] jobs) s = (draining all_queues, s)
advance peer (giving (r ∷ rs) jobs) s =
    (giving rs jobs, set_queue s r (add_left (queue s r) (sum_ℤ (granted_of r) jobs)))
advance peer (draining []) s = (idle, s)
advance peer (draining (r ∷ rs)) s =
    (granting r (drained (queue s r)).ready rs, set_queue s r (drained_queue (queue s r)))
advance peer (granting r [] rs) s = (draining rs, s)
advance peer (granting r (req ∷ ready) rs) s =
    let address = address_of (peer req.origin_socket) in
    let found = tablahash_find job_callbacks s.table_nodejobs (job_key req.job_id address) in
    (inserting r req address found ready rs, s)
advance peer (inserting r req address found ready rs) s =
    let o = tablahash_insert job_callbacks s.table_nodejobs (reservation r req address found) in
    (answering r req ready rs, set_table s o.table)
advance peer (answering r req ready rs) s = (
  granting r ready rs,
  record s { trace = sent req.origin_socket (granted_message req.job_id) ∷ s.trace },
)

-- A call that the event loop makes on the server side.
pub data Call : Type 0 where
  reserve : List ℕ → ℤ → ℤ → ℤ → Call
  release : ℤ → Call

abbrev pub task_of : Call → Task
task_of (reserve resource job_id amount fd) = reserving resource job_id amount fd
task_of (release fd) = releasing fd

-- A worker takes a call when it has finished the one before.
unfoldable pub begin : Call → Task → Task
begin c (draining []) = task_of c
begin c t = t

-- The shared state, and where each worker stands.
pub record World : Type 0 where
  pub server : Server
  pub tasks : List Task

-- Worker `i` gets a call, or makes a step.
pub data Turn : Type 0 where
  calls : ℕ → Call → Turn
  works : ℕ → Peers → Turn

abbrev pub Action : Type 0
Action = Task → Server → Task × Server

-- An action of worker `i`.
unfoldable pub act : ℕ → Action → List Task → Server → List Task × Server
act i a [] s = ([], s)
act zero a (t ∷ ts) s = let (t', s') = a t s in (t' ∷ ts, s')
act (suc i) a (t ∷ ts) s = let (ts', s') = act i a ts s in (t ∷ ts', s')

abbrev pub worker : Turn → ℕ
worker (calls i c) = i
worker (works i peer) = i

unfoldable pub action : Turn → Action
unfolding begin advance
action (calls i c) t s = (begin c t, s)
action (works i peer) t s = advance peer t s

unfoldable pub turn : World → Turn → World
unfolding act action
turn w t =
    let (ts, s) = act (worker t) (action t) w.tasks w.server in record { server = s; tasks = ts }

unfoldable pub run_turns : World → List Turn → World
unfolding turn
run_turns w [] = w
run_turns w (t ∷ ts) = run_turns (turn w t) ts

-- NUM_WORKERS workers, on the queues and the table of `main`.
unfoldable pub start_workers : World
unfolding start
start_workers = record { server = start; tasks = replicate 4 idle }
