-- ===== src/Client.antt =====
-- The client side: the jobs of the local scheduler, from agent/utils.c (release_resources,
-- handle_outbound_disconnect), agent/communications.c (ask_for_next_resource, C_to_erlang) and
-- agent/loopfunc.c (send_request). A `local_job_t` is a cell of a heap, owned by `table_localjobs`;
-- `table_ourjobs` maps a socket to the cell's address. `none` is an access to a cell that is not
-- there, so a use after free.
pub mod Remote
pub mod Scheduler
pub mod Timeouts
pub mod Messages
pub mod Grants
pub mod Destinations
pub mod Requests
pub mod Ownership
pub mod Removal
pub mod Freeing
pub mod Arrays
pub mod Asking
pub mod Giving
pub mod Expiry
pub mod Sweeping
pub mod Sessions
pub mod Races
pub mod Serving
pub mod Bystanders
pub mod Dispatch
pub mod Commands
pub mod Rejection
pub mod Admission
use tp_sistemas_operativos_i.Prelude.{
  ℕ, zero, suc, ◌+◌, List, [], ◌∷◌, ◌++◌, Option, none, some, Bool, true, false, ltb, ◌==◌,
  if◌then◌else◌, length, map, take,
}
use tp_sistemas_operativos_i.Prelude.Int.{ℤ, pos, negsuc, leb_ℤ}
use tp_sistemas_operativos_i.Prelude.Text.{codes}
use tp_sistemas_operativos_i.Kernel.{
  Effect, sent, closed, epoll_add, epoll_mod, epoll_del, connecting,
}
use tp_sistemas_operativos_i.HashTable.{
  HashTable, tablahash_find, tablahash_insert, tablahash_remove,
}
use tp_sistemas_operativos_i.Domain.{
  PendingResource, ReceivedNode, LocalJob, JobRef, FdJobEntry, fd_callbacks, localjob_callbacks,
}
use tp_sistemas_operativos_i.ResourceQueue.{◌>>=◌}
use tp_sistemas_operativos_i.Server.{Server, Peers}
use tp_sistemas_operativos_i.Wire.{print_int}
use tp_sistemas_operativos_i.Wire.Messages.{
  Instruction, granted, rejected, waiting, timeout, word_of, response, request_line,
  release_message, reserve_message,
}
use tp_sistemas_operativos_i.Framing.{buffer_len}

abbrev pub JobHeap : Type 0
JobHeap = ℕ → Option LocalJob

pub record Agent : Type 0 where
  pub server : Server
  pub table_localjobs : HashTable JobRef
  pub table_ourjobs : HashTable FdJobEntry
  pub table_nodes : HashTable ReceivedNode
  pub jobs : JobHeap
  pub erlangfd : ℤ

-- How the calls of `ask_for_next_resource` go: `socket` fails; `connect` fails; all succeed;
-- `epoll_ctl` fails.
pub data Attempt : Type 0 where
  no_socket : Attempt
  refused opened unregistered : ℤ → Attempt

-- What the operating system answers during a call.
pub record Env : Type 0 where
  pub peer : Peers
  pub attempt : Attempt
  pub now : ℤ
  -- the address that `malloc` returns for a job
  pub fresh : ℕ
  pub inet_addr : List ℕ → ℤ

abbrev pub emit : Effect → Agent → Agent
emit e a = record a { server = record a.server { trace = e ∷ a.server.trace } }

abbrev pub write_job : ℕ → Option LocalJob → Agent → Agent
write_job p c a = record a { jobs = λ q. if q == p then c else a.jobs q }

-- A message that does not fit into the array of `buffer_len` bytes is not sent.
unfoldable pub C_to_erlang : Instruction → List ℕ → Agent → Agent
C_to_erlang instruction job_id a =
    let msg = response (word_of instruction) job_id in
    let trace' =
      if ltb (length msg) buffer_len
      then sent a.erlangfd msg ∷ a.server.trace
      else a.server.trace in
    record a { server = record a.server { trace = trace' } }

abbrev pub is_held : PendingResource → Bool
is_held r = leb_ℤ (pos 0) r.provider_fd

abbrev pub given_up : PendingResource → PendingResource
given_up r = if is_held r then record r { provider_fd = negsuc 0 } else r

-- The RELEASE to one provider, and the end of its connection.
abbrev pub release_provider : ℤ → PendingResource → List Effect → List Effect
release_provider id r trace =
    if is_held r
    then closed r.provider_fd
      ∷ epoll_del r.provider_fd
      ∷ sent r.provider_fd (release_message id r)
      ∷ trace
    else trace

-- The loop over `granted_reqs`.
unfoldable pub release_all : ℤ → List PendingResource → List Effect → List Effect
unfolding release_message
release_all id [] trace = trace
release_all id (r ∷ rs) trace = release_all id rs (release_provider id r trace)

unfoldable pub release_resources : ℕ → Agent → Option Agent
unfolding release_all
release_resources p a = do
  job ← a.jobs p
  some (
      write_job p (some (record job { granted_reqs = map given_up job.granted_reqs })) (record a {
        server = record a.server { trace = release_all job.job_id job.granted_reqs a.server.trace };
      }))

-- `destr_localjob` of each job that a table hands to it.
unfoldable pub destr_localjobs : List JobRef → Agent → Option Agent
destr_localjobs [] a = some a
destr_localjobs (r ∷ rs) a = do
  job ← a.jobs r.address
  destr_localjobs rs (write_job r.address none a)

-- `tablahash_remove_lock(table_localjobs, job)`
unfoldable pub remove_localjob : ℕ → Agent → Option Agent
unfolding destr_localjobs
remove_localjob p a = do
  job ← a.jobs p
  let o =
      tablahash_remove localjob_callbacks a.table_localjobs
        (record { job_id = job.job_id; address = p })
  destr_localjobs o.destroyed (record a { table_localjobs = o.table })

abbrev pub fd_key : ℤ → FdJobEntry
fd_key fd = record { fd = fd; job = 0 }

-- `tablahash_remove_lock(table_ourjobs, &key)`
abbrev pub remove_fd : ℤ → Agent → Agent
remove_fd fd a = record a {
  table_ourjobs = (tablahash_remove fd_callbacks a.table_ourjobs (fd_key fd)).table;
}

-- The entry of the socket, unless its `job` is NULL.
abbrev pub job_of : Option FdJobEntry → Option ℕ
job_of none = none
job_of (some e) = if e.job == 0 then none else some e.job

unfoldable pub find_job : ℤ → Agent → Option ℕ
find_job fd a = job_of (tablahash_find fd_callbacks a.table_ourjobs (fd_key fd))

-- The socket of the request in flight, registered for its job.
unfoldable pub register : ℤ → ℕ → LocalJob → PendingResource → Agent → Agent
register fd p job req a =
    let a' =
      write_job p (some (record job { origin_socket = fd }))
        (emit (connecting fd req.dest_ip req.dest_port) a) in
    record a' {
      table_ourjobs =
          (tablahash_insert fd_callbacks a'.table_ourjobs (record { fd = fd; job = p })).table;
    }

abbrev attempted : Attempt → ℕ → LocalJob → PendingResource → Agent → Agent
attempted no_socket p job req a = a
attempted (refused fd) p job req a =
    emit (closed fd) (emit (connecting fd req.dest_ip req.dest_port) a)
attempted (opened fd) p job req a = emit (epoll_add fd) (register fd p job req a)
attempted (unregistered fd) p job req a = emit (closed fd) (remove_fd fd (register fd p job req a))

abbrev pub next_asked : Attempt → ℕ → LocalJob → List PendingResource → Agent → Agent
next_asked attempt p job [] a = C_to_erlang granted (print_int job.job_id) a
next_asked attempt p job (req ∷ reqs) a = attempted attempt p job req a

unfoldable pub ask_for_next_resource : Attempt → ℕ → Agent → Option Agent
unfolding C_to_erlang register
ask_for_next_resource attempt p a = do
  job ← a.jobs p
  some (next_asked attempt p job job.next_req a)

-- The common end of a rejection: the entry of the socket, the providers, the answer, the job.
unfoldable pub reject_job : ℤ → ℕ → Agent → Option Agent
unfolding release_resources C_to_erlang remove_localjob
reject_job fd p a = do
  job ← a.jobs p
  a' ← release_resources p (remove_fd fd a)
  remove_localjob p (C_to_erlang rejected (print_int job.job_id) a')

abbrev pub rejected_at : ℤ → Agent → Option ℕ → Option Agent
rejected_at fd a none = some a
rejected_at fd a (some p) = reject_job fd p a

unfoldable pub handle_outbound_disconnect : ℤ → Agent → Option Agent
unfolding find_job reject_job
handle_outbound_disconnect fd a = rejected_at fd a (find_job fd a)

abbrev pub reserve_sent : ℤ → LocalJob → List PendingResource → Agent → Agent
reserve_sent fd job [] a = a
reserve_sent fd job (req ∷ reqs) a =
    emit (epoll_mod fd) (emit (sent fd (reserve_message job.job_id req)) a)

abbrev pub sent_for : ℤ → Agent → Option ℕ → Option Agent
sent_for fd a none = some a
sent_for fd a (some p) = do job ← a.jobs p; some (reserve_sent fd job job.next_req a)

unfoldable pub send_request : ℤ → Agent → Option Agent
unfolding find_job reserve_message
send_request fd a = sent_for fd a (find_job fd a)

-- The request in flight of a job that is given up: its socket is closed, if it is still indexed.
unfoldable pub tear_down : ℕ → Agent → Option Agent
unfolding find_job
tear_down p a = do
  job ← a.jobs p
  some (
      if leb_ℤ (pos 0) job.origin_socket
      then (elim (tablahash_find fd_callbacks a.table_ourjobs (fd_key job.origin_socket)) [
        | none ↦ a
        | some e ↦
            emit (closed job.origin_socket)
              (emit (epoll_del job.origin_socket) (remove_fd job.origin_socket a))
      ])
      else a)

-- `tablahash_find(table_localjobs, &job_key)`
unfoldable pub find_localjob : ℤ → Agent → Option JobRef
find_localjob id a =
    tablahash_find localjob_callbacks a.table_localjobs (record { job_id = id; address = 0 })
