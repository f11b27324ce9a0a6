-- ===== src/Examples/Interleaved.antt =====
-- Runs of two of the four workers: two grants to job 1 of one peer, and a RELEASE of that peer between
-- the search and the insertion of the second grant.
use tp_sistemas_operativos_i.Prelude.{
  ℕ, ◌<◌, ◌≤◌, ◌+◌, ◌*◌, ◌≡◌, refl, some, List, ◌∷◌, ◌++◌, replicate, arith, length, get_or,
  flatten,
}
use tp_sistemas_operativos_i.Prelude.Int.{pos, negsuc, ◌+ℤ◌, ◌-ℤ◌, sum_ℤ, ◌≤ℤ◌}
use tp_sistemas_operativos_i.Prelude.Text.{codes, str_eq}
use tp_sistemas_operativos_i.HashTable.{
  tablahash_create, tablahash_insert, tablahash_find, find_in_list, overwrite,
}
use tp_sistemas_operativos_i.HashTable.Sweep.{sweep, keep_all, keep, reap_all, reap, decrement_by}
use tp_sistemas_operativos_i.Domain.{create_table_jobs, func_hash_job, comp_job}
use tp_sistemas_operativos_i.ResourceQueue.Waiting.{drain_list}
use tp_sistemas_operativos_i.Server.{Peers, cpu, queue, start, add_granted, select_queue, capacity}
use tp_sistemas_operativos_i.Server.Ledger.{granted_total}
use tp_sistemas_operativos_i.Server.Workers.{
  reserve, release, World, Turn, calls, works, idle, act, action, advance, begin, turn, run_turns,
  start_workers,
}
use tp_sistemas_operativos_i.Server.Events.{reserves, step}
use tp_sistemas_operativos_i.Server.Progress.{IsDrained, start-IsDrained}
use tp_sistemas_operativos_i.Server.Workers.Accounts.{slip}
use tp_sistemas_operativos_i.Server.Workers.Books.{total_slip, books, run_turns-books}
use tp_sistemas_operativos_i.Server.Workers.Bounds.{start-IsSoundWorld, run_turns-bounds}
use tp_sistemas_operativos_i.Server.Workers.Quiet.{AllIdle, run_turns-IsDrained}
use tp_sistemas_operativos_i.Server.Workers.Answers.{ServesOnce, run_turns-ServesOnce}
use tp_sistemas_operativos_i.Server.Workers.Ending.{
  busy_turns, call_turns, work_left, run_turns-end,
}
use tp_sistemas_operativos_i.Server.Workers.Alone.{run_turns-alone}

abbrev peer : Peers
peer fd = some (pos 167772162, pos 4200)

-- Worker 0 serves a RESERVE of 2 cpus for job 1.
abbrev first_grant : List Turn
first_grant = calls 0 (reserve (codes "cpu") (pos 1) (pos 2) (pos 12)) ∷ replicate 10 (works 0 peer)

-- It searches for the reservation of job 1, to which it adds one more cpu.
abbrev second_search : List Turn
second_search =
    calls 0 (reserve (codes "cpu") (pos 1) (pos 1) (pos 12)) ∷ replicate 3 (works 0 peer)

-- Worker 1 serves a RELEASE of the peer, and worker 0 goes on.
abbrev release_between : List Turn
release_between =
    (calls 1 (release (pos 12)) ∷ replicate 11 (works 1 peer)) ++ replicate 7 (works 0 peer)

abbrev overtaken : List Turn
overtaken = first_grant ++ (second_search ++ release_between)

abbrev final : World
final = run_turns start_workers overtaken

-- The node has 4 cpus. After the run 3 are free and the table says that 3 are granted: the 2 of the
-- first grant are given back and are in the reservation that the second grant inserts.
free : (queue final.server cpu).resources_left ≡ pos 3
unfolding add_granted str_eq start_workers run_turns turn act action begin advance start
    create_table_jobs tablahash_create tablahash_find tablahash_insert find_in_list overwrite
    func_hash_job comp_job ◌+ℤ◌ ◌-ℤ◌ sum_ℤ drain_list select_queue sweep keep_all keep reap_all reap
    decrement_by
free = refl

granted : granted_total final.server cpu ≡ pos 3
unfolding add_granted str_eq start_workers run_turns turn act action begin advance start
    create_table_jobs tablahash_create tablahash_find tablahash_insert find_in_list overwrite
    func_hash_job comp_job ◌+ℤ◌ ◌-ℤ◌ sum_ℤ drain_list select_queue sweep keep_all keep reap_all reap
    decrement_by flatten
granted = refl

-- At the insertion the table has nothing under the key, and the search had found 2.
slipped : total_slip cpu start_workers overtaken ≡ negsuc 1
unfolding add_granted str_eq start_workers run_turns turn act action begin advance start
    create_table_jobs tablahash_create tablahash_find tablahash_insert find_in_list overwrite
    func_hash_job comp_job ◌+ℤ◌ ◌-ℤ◌ sum_ℤ drain_list select_queue sweep keep_all keep reap_all reap
    decrement_by total_slip slip
slipped = refl

all_done : AllIdle final
unfolding add_granted str_eq start_workers run_turns turn act action begin advance start
    create_table_jobs tablahash_create tablahash_find tablahash_insert find_in_list overwrite
    func_hash_job comp_job ◌+ℤ◌ ◌-ℤ◌ sum_ℤ drain_list select_queue sweep keep_all keep reap_all reap
    decrement_by
all_done = (refl, (refl, (refl, (refl, tt))))

workers-IsDrained : IsDrained start_workers.server
unfolding start_workers
workers-IsDrained = start-IsDrained

run_turns-books_example :
    books final cpu +ℤ total_slip cpu start_workers overtaken ≡ books start_workers cpu
run_turns-books_example = run_turns-books start_workers overtaken cpu start-IsSoundWorld

run_turns-bounds_example :
    (pos 0 ≤ℤ (queue final.server cpu).resources_left)
    × (pos 0 ≤ℤ granted_total final.server cpu)
    × ((queue final.server cpu).resources_left
          +ℤ granted_total final.server cpu
          +ℤ total_slip cpu start_workers overtaken
        ≤ℤ capacity cpu)
run_turns-bounds_example = run_turns-bounds overtaken cpu (omega arith)

run_turns-IsDrained_example : IsDrained final.server
run_turns-IsDrained_example = run_turns-IsDrained start_workers overtaken workers-IsDrained all_done

run_turns-ServesOnce_example : ServesOnce start_workers overtaken
run_turns-ServesOnce_example = run_turns-ServesOnce start_workers overtaken

four_workers : 2 < length start_workers.tasks
unfolding start_workers
four_workers = omega arith

third_idle : get_or start_workers.tasks 2 idle ≡ idle
unfolding start_workers
third_idle = refl

run_turns-alone_example :
    (n : ℕ) × (run_turns start_workers
        (calls 2 (reserve (codes "cpu") (pos 7) (pos 2) (pos 12)) ∷ replicate n (works 2 peer))
      ≡ record {
        server = step start_workers.server (reserves peer (codes "cpu") (pos 7) (pos 2) (pos 12));
        tasks = start_workers.tasks;
      })
run_turns-alone_example =
    run_turns-alone peer start_workers 2 (reserve (codes "cpu") (pos 7) (pos 2) (pos 12))
      four_workers third_idle

run_turns-end_example :
    busy_turns start_workers overtaken + work_left final
    ≤ work_left start_workers + 11 * call_turns overtaken
run_turns-end_example = run_turns-end start_workers overtaken
