-- ===== src/Client/Scheduler.antt =====
-- agent/communications.c: `erlang_to_C`, the line of the local scheduler.
use tp_sistemas_operativos_i.Prelude.{ℕ, List, [], ◌∷◌, ◌==◌, Option, none, some, if◌then◌else◌}
use tp_sistemas_operativos_i.Prelude.Int.{ℤ, pos, negsuc}
use tp_sistemas_operativos_i.Prelude.Text.{codes, str_eq}
use tp_sistemas_operativos_i.Kernel.{sent}
use tp_sistemas_operativos_i.HashTable.{HashTable, tablahash_find, tablahash_insert}
use tp_sistemas_operativos_i.Domain.{
  PendingResource, ReceivedNode, LocalJob, JobRef, node_callbacks, localjob_callbacks,
}
use tp_sistemas_operativos_i.ResourceQueue.{◌>>=◌}
use tp_sistemas_operativos_i.Wire.{atoi, strtok, is_colon, is_blank, get_token, bounded_copy}
use tp_sistemas_operativos_i.Framing.{buffer_len}
use tp_sistemas_operativos_i.Nodes.{c_string, get_nodes_instance}
use tp_sistemas_operativos_i.Wire.Messages.{Instruction, granted, rejected, waiting, timeout}
use tp_sistemas_operativos_i.Client.{
  Agent, Env, emit, write_job, C_to_erlang, ask_for_next_resource, tear_down, release_resources,
  remove_localjob, destr_localjobs, find_localjob,
}

abbrev port_of : Option ReceivedNode → ℤ
port_of none = pos 4200
port_of (some node) = node.port

-- The port that the directory has for an address.
unfoldable pub resolve_port : HashTable ReceivedNode → ℤ → ℤ
resolve_port nodes ip = port_of (
    tablahash_find node_callbacks nodes
      (record { ip = ip; port = pos 0; gpu = pos 0; mem = pos 0; cpu = pos 0; time = pos 0 }))

abbrev pub skip_at : List ℕ → List ℕ
skip_at [] = []
skip_at (c ∷ cs) = if c == b'@' then cs else c ∷ cs

-- "@ip:res:amount"
unfoldable pub parse_request : Env → HashTable ReceivedNode → List ℕ → Option PendingResource
unfolding strtok resolve_port
parse_request env nodes token = do
  ip ← strtok is_colon (skip_at (bounded_copy 256 token))
  res ← strtok is_colon ip.1
  amt ← strtok is_blank res.1
  some (record {
    kind = bounded_copy 8 res.0;
    amount = atoi amt.0;
    dest_ip = bounded_copy 16 ip.0;
    dest_port = resolve_port nodes (env.inet_addr ip.0);
    provider_fd = negsuc 0;
  })

abbrev prepend : Option PendingResource → List PendingResource → List PendingResource
prepend none rs = rs
prepend (some r) rs = r ∷ rs

-- The list that the loop builds; a token of another shape is skipped.
unfoldable pub parse_requests : Env → HashTable ReceivedNode → List (List ℕ) → List PendingResource
unfolding parse_request
parse_requests env nodes [] = []
parse_requests env nodes (t ∷ ts) =
    prepend (parse_request env nodes t) (parse_requests env nodes ts)

-- The new job in its table, and the first request.
unfoldable pub start_job : Env → ℤ → List PendingResource → Agent → Option Agent
unfolding destr_localjobs ask_for_next_resource
start_job env job_id reqs a = do
  let p = env.fresh
  let o =
      tablahash_insert localjob_callbacks a.table_localjobs
        (record { job_id = job_id; address = p })
  let job : LocalJob = record {
    job_id = job_id;
    erlang_socket = a.erlangfd;
    origin_socket = negsuc 0;
    next_req = reqs;
    granted_reqs = [];
    timer = env.now;
  }
  a' ← destr_localjobs o.destroyed (record (write_job p (some job) a) { table_localjobs = o.table })
  ask_for_next_resource env.attempt p a'

abbrev pub on_job_request : Env → List (List ℕ) → Agent → Option Agent
on_job_request env [] a = some a
on_job_request env (id ∷ []) a = some (C_to_erlang rejected id a)
on_job_request env (id ∷ dest ∷ dests) a =
    start_job env (atoi id) (parse_requests env a.table_nodes (dest ∷ dests)) a

-- The request in flight, the providers, and the job.
unfoldable pub release_job : ℕ → Agent → Option Agent
unfolding tear_down release_resources remove_localjob
release_job p a = do a₁ ← tear_down p a; a₂ ← release_resources p a₁; remove_localjob p a₂

abbrev pub released_at : Agent → Option JobRef → Option Agent
released_at a none = some a
released_at a (some r) = release_job r.address a

abbrev pub on_job_release : List (List ℕ) → Agent → Option Agent
on_job_release [] a = some a
on_job_release (id ∷ more) a = released_at a (find_localjob (atoi id) a)

abbrev pub status_of : List PendingResource → Instruction
status_of [] = granted
status_of (r ∷ rs) = waiting

abbrev pub status_at : List ℕ → Agent → Option JobRef → Option Agent
status_at id a none = some (C_to_erlang timeout id a)
status_at id a (some r) = do
  job ← a.jobs r.address
  some (C_to_erlang (status_of job.next_req) id a)

abbrev pub on_job_status : List (List ℕ) → Agent → Option Agent
on_job_status [] a = some a
on_job_status (id ∷ more) a = status_at id a (find_localjob (atoi id) a)

abbrev pub on_command : Env → List (List ℕ) → Agent → Option Agent
on_command env [] a = some a
on_command env (word ∷ args) a =
    if str_eq word (codes "JOB_REQUEST")
    then on_job_request env args a
    else (if str_eq word (codes "JOB_RELEASE")
        then on_job_release args a
        else (if str_eq word (codes "JOB_STATUS")
            then on_job_status args a
            else (if str_eq word (codes "GET_NODES")
                then some (emit (sent a.erlangfd (get_nodes_instance a.table_nodes)) a)
                else some a)))

unfoldable pub erlang_to_C : Env → List ℕ → Agent → Option Agent
unfolding get_token start_job release_job find_localjob parse_requests get_nodes_instance
    C_to_erlang
erlang_to_C env instruction a =
    on_command env (get_token (bounded_copy buffer_len (c_string instruction)) 32) a
