-- ===== src/Examples/Runs.antt =====
-- Two peers that compete for the cpus of the node.
use tp_sistemas_operativos_i.Prelude.{◌≡◌, refl, List, [], ◌∷◌, ◌++◌, some, arith}
use tp_sistemas_operativos_i.Prelude.Int.{pos, negsuc, ◌+ℤ◌, ◌-ℤ◌, ◌≤ℤ◌, ◌<ℤ◌, sum_ℤ}
use tp_sistemas_operativos_i.Prelude.Text.{codes, str_eq}
use tp_sistemas_operativos_i.Kernel.{sent}
use tp_sistemas_operativos_i.HashTable.{
  tablahash_create, tablahash_find, tablahash_insert, find_in_list, overwrite,
}
use tp_sistemas_operativos_i.HashTable.Sweep.{sweep}
use tp_sistemas_operativos_i.Domain.{func_hash_job, comp_job, create_table_jobs}
use tp_sistemas_operativos_i.ResourceQueue.Waiting.{drain_list}
use tp_sistemas_operativos_i.Wire.{print_int, print_nat, print_digits}
use tp_sistemas_operativos_i.Server.Events.{Event, reserves, releases, step, run}
use tp_sistemas_operativos_i.Server.Bounds.{run_bounds}
use tp_sistemas_operativos_i.Server.Order.{Serves, reserve_elements-Serves}
use tp_sistemas_operativos_i.Server.Ledger.{granted_total}
use tp_sistemas_operativos_i.Server.Progress.{release_client_by_fd-Serves, start-IsDrained}
use tp_sistemas_operativos_i.Server.Negative.{enqueue_jobs_negative}
use tp_sistemas_operativos_i.Server.{
  cpu, Server, Peers, queue, start, capacity, add_granted, record_granted, granted_message,
  grant_ready, drain_queue, reserve_elements, select_queue, enqueue_jobs, release_client_by_fd,
  new_request,
}

-- Every socket has a peer at one address, with the port of the socket's number.
abbrev peers : Peers
peers fd = some (pos 7, fd)

abbrev calls : List Event
calls =
    reserves peers (codes "cpu") (pos 1) (pos 3) (pos 9)
    ∷ reserves peers (codes "cpu") (pos 2) (pos 2) (pos 10)
    ∷ reserves peers (codes "mem") (pos 2) (pos 100) (pos 10)
    ∷ releases peers (pos 9)
    ∷ []

serving : Unit {0}
unfolding start create_table_jobs tablahash_create tablahash_find tablahash_insert find_in_list
    overwrite sweep func_hash_job comp_job drain_list add_granted record_granted granted_message
    grant_ready drain_queue reserve_elements select_queue enqueue_jobs release_client_by_fd step run
    str_eq print_int print_nat print_digits ◌+ℤ◌ ◌-ℤ◌ sum_ℤ
serving = tt

-- Job 2 waits for its cpus until job 1 gives its own back.
run_trace :
    (run start calls).trace
    ≡ sent (pos 10) (codes "GRANTED 2" ++ 10 ∷ [])
      ∷ sent (pos 10) (codes "GRANTED 2" ++ 10 ∷ [])
      ∷ sent (pos 9) (codes "GRANTED 1" ++ 10 ∷ [])
      ∷ []
unfolding serving
run_trace = refl

run_left : (queue (run start calls) cpu).resources_left ≡ pos 2
unfolding serving
run_left = refl

run_bounds_example :
    (pos 0 ≤ℤ (queue (run start calls) cpu).resources_left)
    × ((queue (run start calls) cpu).resources_left ≤ℤ capacity cpu)
    × (pos 0 ≤ℤ granted_total (run start calls) cpu)
    × (granted_total (run start calls) cpu ≤ℤ capacity cpu)
run_bounds_example = run_bounds calls cpu (omega arith)

-- Job 2 still waits when its peer disconnects.
abbrev contended : Server
contended = run start (
    reserves peers (codes "cpu") (pos 1) (pos 3) (pos 9)
    ∷ reserves peers (codes "cpu") (pos 2) (pos 2) (pos 10)
    ∷ [])

release_client_by_fd-Serves_example :
    Serves contended (release_client_by_fd peers contended (pos 10))
release_client_by_fd-Serves_example = release_client_by_fd-Serves peers contended (pos 10)

reserve_elements-Serves_example : Serves contended (reserve_elements peers contended)
reserve_elements-Serves_example = reserve_elements-Serves peers contended

still_waits :
    (queue (release_client_by_fd peers contended (pos 10)) cpu).waiting
    ≡ new_request (pos 2) (pos 10) (pos 2) ∷ []
unfolding serving
still_waits = refl

-- The start, after a RESERVE of five cpus less than none.
abbrev overdrawn : Server
overdrawn = enqueue_jobs peers start (codes "cpu") (pos 1) (negsuc 4) (pos 9)

enqueue_jobs_negative_example :
    (overdrawn.trace ≡ sent (pos 9) (granted_message (pos 1)) ∷ [])
    × (queue overdrawn cpu ≡ record { resources_left = pos 9; waiting = [] })
    × (pos 4 <ℤ (queue overdrawn cpu).resources_left)
    × ((queue overdrawn cpu).resources_left ≤ℤ pos 2147483647)
unfolding start select_queue str_eq ◌-ℤ◌
enqueue_jobs_negative_example =
    enqueue_jobs_negative peers start (codes "cpu") (pos 1) (negsuc 4) (pos 9) start-IsDrained refl
      (omega arith) (omega arith) (omega arith)
