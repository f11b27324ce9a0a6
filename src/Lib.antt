-- ===== src/Lib.antt =====
-- The agent of a distributed resource manager (C): each node offers cpu, memory and gpu, serves
-- the RESERVE and RELEASE lines of its peers, announces itself over UDP, and forwards the jobs of
-- the local Erlang scheduler to the peers. Integers printed as `%d` are unbounded integers (ℤ)
-- here.
--
-- Files, and the code that each is about:
-- HashTable is for ResourceManager/hashtable.c, the chained table with its callbacks, as a list
--   of chains; `numElems` wraps at 2 ^ 32. HashTable.Sweep is the deleting walk that
--   agent/utils.c and agent/timer.c write out. What a callback `destr` gets is part of the
--   result.
-- ListNodes is for the chain of one bucket of that table as nodes on a heap: `find_in_list`,
--   `tablahash_insert` and `tablahash_remove` with the data that `copy` allocates and `destr` frees
--   (ResourceManager/hash.c), with fuel: one unit more than the chain has nodes is enough.
-- Domain is for ResourceManager/hash.c and hash.h, the four tables' structs, hashes and
--   comparisons.
-- ResourceQueue is for ResourceManager/resource_queue.c on an explicit heap (address to cell,
--   `none` where nothing is allocated), and the locked loop of `drain_queue` of agent/utils.c on
--   that heap, with fuel: one unit more than the queue has nodes is enough. ResourceQueue.Waiting
--   is that loop on the list of requests, which Server uses.
-- Wire is for the text of the protocol, `get_token` and `get_quantity` of
--   agent/read_instructions.c with what they use of `strtok_r`, `atoi` and `%d`; Wire.Messages is
--   the lines that Client sends. An `atoi` of a number outside `int` is not modelled (the C
--   standard leaves it undefined).
-- Framing is for `Connection` and `read_until_newline` of agent/read_instructions.c; what `recv`
--   answers is a parameter.
-- Nodes is for the directory of peers: the ANNOUNCE line of `udp_broadcast` and its reading in
--   `udp_datagram_from_remote` (agent/loopfunc.c), `check_nodes_timeouts` (agent/timer.c) and
--   `get_nodes_instance` (agent/read_instructions.c).
-- Server is for the server side of agent/utils.c with the queues and tables of main.c; each call
--   of `enqueue_jobs` or `release_client_by_fd` is one step. What `getpeername` answers is an
--   argument of a step. Server.Interleaving is `record_granted` in two workers at once, between the
--   two locks that it takes. Server.Workers is the whole server side in any number of workers, lock
--   by lock: `advance` is what a worker does between a lock and its unlock or in one system call,
--   and a list of turns says which worker is next.
-- Client is for the jobs of the local scheduler: `release_resources` and
--   `handle_outbound_disconnect` (agent/utils.c), `ask_for_next_resource` and `C_to_erlang`
--   (agent/communications.c), `send_request` (agent/loopfunc.c). Client.Remote is
--   `client_to_myserver`, Client.Scheduler is `erlang_to_C`, both of agent/communications.c, and
--   Client.Timeouts is `check_ourjob_timeouts` of agent/timer.c. Jobs are cells of a heap; a step
--   that reads a freed cell is `none`. Client.Sessions is the workers on these jobs: a handler looks
--   a job up and then works on it, and other workers run between the two.
-- JobHeap is for the lists of a `local_job_t` as linked cells of a heap: `destr_localjob` of
--   ResourceManager/hash.c and the loop of `release_resources` of agent/utils.c, with fuel (one unit
--   more than a list has requests is enough), and the links that GRANTED and JOB_REQUEST write
--   (agent/communications.c). Client has those lists as lists.
-- Handlers is for the handlers of agent/loopfunc.c: the loops over `read_until_newline` with what
--   follows them, the new connections and the announcement. What `recv` and the other calls answer
--   in each turn is an argument. The fuel is a bound of the calls of `read_until_newline`: a full
--   buffer more than the turns in which bytes arrive is enough.
-- EventLoop is for `event_loop` of agent/agent.c with one worker, from the state of main.c on: a
--   round is a list of events, each with what the system calls answer while it is handled.
-- Startup is for `setup_epoll` and `initialize_listen_sockets` of agent/agent.c and `make_timer` of
--   agent/timer.c: the system calls in order, up to the first that fails.
-- Kernel is for the system calls that have an effect outside the process, as a trace, newest
--   first.
-- Examples is for runs at concrete inputs.
--
-- How they interact: a line that Framing cuts is tokenized by Wire; RESERVE and RELEASE become
-- steps of Server, which keeps reservations in a HashTable of Domain and requests in queues;
-- other lines become steps of Client, which sends the lines that the Server of a peer reads;
-- datagrams update the HashTable of Nodes, in which Client looks up ports.
--
-- EventLoop hands each event to one of Handlers by its descriptor; Handlers reads lines with Framing
-- and gives them to Client.Remote or Client.Scheduler.
--
-- Server.Workers runs the calls of Server in steps. The handlers of EventLoop run one after the
-- other: their server side may interleave as in Server.Workers.
--
-- Not modelled: interleavings of the worker threads on the client side that are finer than a look-up
-- and what follows it (each is one step of Client.Sessions, though the code takes and releases locks
-- in it), the read of `*existing` in `record_granted` as a step of its own (Server.Workers makes it one
-- with the search, while the code reads after the unlock), failures of `malloc`, the `printf` and
-- `perror` lines, the end of `setup_epoll` behind workers that do not end, and the Erlang scheduler.
pub mod Prelude
pub mod HashTable
pub mod Domain
pub mod ResourceQueue
pub mod Wire
pub mod Kernel
pub mod Server
pub mod Examples
pub mod Framing
pub mod Nodes
pub mod Client
pub mod JobHeap
pub mod ListNodes
pub mod Handlers
pub mod EventLoop
pub mod Startup
