-- ===== src/Examples/Jobs.antt =====
-- A job of the local scheduler that asks two peers, one after the other.
use tp_sistemas_operativos_i.Prelude.{◌≡◌, refl, [], ◌∷◌, ◌++◌, Option, none, some, arith, flatten}
use tp_sistemas_operativos_i.Prelude.Int.{ℤ, pos, negsuc, ◌+ℤ◌, ◌-ℤ◌}
use tp_sistemas_operativos_i.Prelude.Text.{codes, str_eq}
use tp_sistemas_operativos_i.Kernel.{sent, closed, epoll_add, epoll_mod, epoll_del, connecting}
use tp_sistemas_operativos_i.HashTable.{
  tablahash_create, tablahash_find, tablahash_insert, tablahash_remove, find_in_list, overwrite,
  unlink,
}
use tp_sistemas_operativos_i.Domain.{
  PendingResource, LocalJob, create_table_nodes, create_table_jobs, create_table_fd_jobs,
  create_table_local_jobs, func_hash_fd, comp_fd, func_hash_localjob, comp_localjob, func_hash_node,
  comp_node, fd_callbacks,
}
use tp_sistemas_operativos_i.ResourceQueue.{◌>>=◌}
use tp_sistemas_operativos_i.Wire.{
  print_int, print_nat, print_digits, atoi, skip, read_signed, read_digits, until, after, strtok,
  get_token,
}
use tp_sistemas_operativos_i.Server.{start, enqueue_jobs, granted_message}
use tp_sistemas_operativos_i.Wire.Messages.{release_message, reserve_message}
use tp_sistemas_operativos_i.Client.{
  Agent, Env, opened, C_to_erlang, release_all, release_resources, destr_localjobs, remove_localjob,
  find_job, register, ask_for_next_resource, reject_job, send_request, tear_down, find_localjob,
}
use tp_sistemas_operativos_i.Client.Remote.{client_to_myserver, grant_job}
use tp_sistemas_operativos_i.Client.Scheduler.{
  erlang_to_C, resolve_port, parse_request, parse_requests, start_job, release_job,
}
use tp_sistemas_operativos_i.Client.Timeouts.{
  expired_ids, expire_job, expire_jobs, check_ourjob_timeouts,
}
use tp_sistemas_operativos_i.HashTable.Valid.{IsValid, create-IsValid, insert-IsValid}
use tp_sistemas_operativos_i.Domain.Keys.{fd_callbacks-IsKeyed}
use tp_sistemas_operativos_i.Client.Grants.{Grants, client_to_myserver-granted_message-Grants}
use tp_sistemas_operativos_i.Client.Messages.{client_to_myserver-reserve_message}
use tp_sistemas_operativos_i.Client.Destinations.{destination, parse_request-destination}
use tp_sistemas_operativos_i.Client.Requests.{trace_of}

abbrev idle : Agent
idle = record {
  server = start;
  table_localjobs = create_table_local_jobs;
  table_ourjobs = create_table_fd_jobs;
  table_nodes = create_table_nodes;
  jobs = λ p. none;
  erlangfd = pos 5;
}

-- The socket of the next request is `fd`.
abbrev env_at : ℤ → Env
env_at fd = record {
  peer = λ s. some (pos 7, s);
  attempt = opened fd;
  now = pos 100;
  fresh = 64;
  inet_addr = λ text. pos 1;
}

running : Unit {0}
unfolding start create_table_nodes create_table_jobs create_table_fd_jobs create_table_local_jobs
    tablahash_create tablahash_find tablahash_insert tablahash_remove find_in_list overwrite unlink
    func_hash_fd comp_fd func_hash_localjob comp_localjob func_hash_node comp_node print_int
    print_nat print_digits atoi skip read_signed read_digits until after strtok get_token str_eq
    granted_message C_to_erlang release_message reserve_message release_all release_resources
    destr_localjobs remove_localjob find_job register ask_for_next_resource reject_job send_request
    tear_down find_localjob client_to_myserver grant_job erlang_to_C resolve_port parse_request
    parse_requests start_job release_job expired_ids expire_job expire_jobs check_ourjob_timeouts
    ◌+ℤ◌ ◌-ℤ◌ flatten
running = tt

abbrev granted_once : Option Agent
granted_once = do
  a₁ ←
      erlang_to_C (env_at (pos 20))
        (codes "JOB_REQUEST 7 @10.0.0.1:cpu:2 @10.0.0.2:mem:64" ++ 10 ∷ []) idle
  a₂ ← send_request (pos 20) a₁
  client_to_myserver (env_at (pos 21)) (pos 20) (granted_message (pos 7)) a₂

granted_once_trace :
    trace_of granted_once
    ≡ some (
        epoll_add (pos 21)
        ∷ connecting (pos 21) (codes "10.0.0.2") (pos 4200)
        ∷ epoll_del (pos 20)
        ∷ epoll_mod (pos 20)
        ∷ sent (pos 20) (codes "RESERVE 7 cpu 2" ++ 10 ∷ [])
        ∷ epoll_add (pos 20)
        ∷ connecting (pos 20) (codes "10.0.0.1") (pos 4200)
        ∷ [])
unfolding running
granted_once_trace = refl

-- The second peer does not answer for 30 seconds.
timed_out_trace :
    trace_of (granted_once >>= check_ourjob_timeouts (pos 130))
    ≡ some (
        sent (pos 5) (codes "JOB_TIMEOUT 7" ++ 10 ∷ [])
        ∷ closed (pos 20)
        ∷ epoll_del (pos 20)
        ∷ sent (pos 20) (codes "RELEASE 7 cpu 2" ++ 10 ∷ [])
        ∷ closed (pos 21)
        ∷ epoll_del (pos 21)
        ∷ epoll_add (pos 21)
        ∷ connecting (pos 21) (codes "10.0.0.2") (pos 4200)
        ∷ epoll_del (pos 20)
        ∷ epoll_mod (pos 20)
        ∷ sent (pos 20) (codes "RESERVE 7 cpu 2" ++ 10 ∷ [])
        ∷ epoll_add (pos 20)
        ∷ connecting (pos 20) (codes "10.0.0.1") (pos 4200)
        ∷ [])
unfolding running
timed_out_trace = refl

-- A second JOB_REQUEST for job 7 frees the first one while its socket is still indexed: the next
-- event on that socket reads freed memory.
freed_job :
    (do
      a₁ ← erlang_to_C (env_at (pos 20)) (codes "JOB_REQUEST 7 @10.0.0.1:cpu:2" ++ 10 ∷ []) idle
      a₂ ←
          erlang_to_C
            (record (env_at (pos 21)) { fresh = 128 })
            (codes "JOB_REQUEST 7 @10.0.0.1:cpu:2" ++ 10 ∷ [])
            a₁
      send_request (pos 20) a₂)
    ≡ none
unfolding running
freed_job = refl

abbrev two_cpus : PendingResource
two_cpus = record {
  kind = codes "cpu";
  amount = pos 2;
  dest_ip = codes "10.0.0.1";
  dest_port = pos 4200;
  provider_fd = pos 20;
}

abbrev holding : LocalJob
holding = record {
  job_id = pos 7;
  erlang_socket = pos 5;
  origin_socket = pos 21;
  next_req = record two_cpus { kind = codes "mem"; provider_fd = negsuc 0 } ∷ [];
  granted_reqs = two_cpus ∷ [];
  timer = pos 100;
}

abbrev busy : Agent
busy = record idle {
  jobs = λ p. some holding;
  table_ourjobs =
      (tablahash_insert fd_callbacks create_table_fd_jobs (record { fd = pos 21; job = 64 })).table;
}

client_to_myserver-reserve_message_example :
    client_to_myserver (env_at (pos 22)) (pos 9) (reserve_message (pos 7) two_cpus) idle
    ≡ some (record idle {
      server = enqueue_jobs (env_at (pos 22)).peer start (codes "cpu") (pos 7) (pos 2) (pos 9);
    })
unfolding print_int print_nat print_digits
client_to_myserver-reserve_message_example =
    client_to_myserver-reserve_message (env_at (pos 22)) (pos 9) (pos 7) two_cpus idle
      (ground arith) (omega arith)

busy-IsValid : IsValid fd_callbacks busy.table_ourjobs
unfolding create_table_fd_jobs
busy-IsValid =
    insert-IsValid fd_callbacks fd_callbacks-IsKeyed create_table_fd_jobs
      (record { fd = pos 21; job = 64 }) (create-IsValid fd_callbacks)

client_to_myserver-granted_message-Grants_example :
    (a' : Agent) × (client_to_myserver (env_at (pos 22)) (pos 21) (granted_message (pos 7)) busy
      ≡ some a')
    × Grants
        (opened (pos 22))
        (env_at (pos 22)).now
        (pos 21)
        64
        holding
        (record two_cpus { kind = codes "mem"; provider_fd = negsuc 0 })
        []
        busy
        a'
unfolding running
client_to_myserver-granted_message-Grants_example =
    client_to_myserver-granted_message-Grants (env_at (pos 22)) (pos 21) busy 64 holding
      (record two_cpus { kind = codes "mem"; provider_fd = negsuc 0 }) [] busy-IsValid (omega arith)
      refl refl refl

parse_request-destination_example :
    parse_request
      (env_at (pos 22))
      create_table_nodes
      (destination (codes "10.0.0.1") (codes "cpu") (pos 2))
    ≡ some (record {
      kind = codes "cpu";
      amount = pos 2;
      dest_ip = codes "10.0.0.1";
      dest_port = resolve_port create_table_nodes (pos 1);
      provider_fd = negsuc 0;
    })
unfolding print_int print_nat print_digits
parse_request-destination_example =
    parse_request-destination (env_at (pos 22)) create_table_nodes (codes "10.0.0.1") (codes "cpu")
      (pos 2) (ground arith) (ground arith) (omega arith) (omega arith) (omega arith)
