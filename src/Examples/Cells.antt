-- ===== src/Examples/Cells.antt =====
-- A job on the heap with two requests that wait and one that is granted.
use tp_sistemas_operativos_i.Prelude.{
  ◌≡◌, refl, ℕ, [], ◌∷◌, map, none, some, Option, if◌then◌else◌, arith,
}
use tp_sistemas_operativos_i.Prelude.Int.{ℤ, pos, negsuc}
use tp_sistemas_operativos_i.Prelude.Text.{codes}
use tp_sistemas_operativos_i.Domain.{PendingResource, LocalJob}
use tp_sistemas_operativos_i.Client.Remote.{advanced}
use tp_sistemas_operativos_i.JobHeap.{
  Heap, JobCell, resource_block, job_block, update, destr_localjob, grant_head, append_requests,
  release_granted,
}
use tp_sistemas_operativos_i.JobHeap.Appending.{append_requests-Represents}
use tp_sistemas_operativos_i.JobHeap.Releasing.{release_granted-Represents}
use tp_sistemas_operativos_i.Client.{given_up, release_all}
use tp_sistemas_operativos_i.JobHeap.Linked.{Nodes, Holds}
use tp_sistemas_operativos_i.JobHeap.Destroy.{is_part, destr_localjob-frees}
use tp_sistemas_operativos_i.JobHeap.Links.{Represents, grant_head-Represents}

abbrev request : ℕ → ℤ → PendingResource
request amount fd = record {
  kind = codes "cpu";
  amount = pos amount;
  dest_ip = codes "10.0.0.2";
  dest_port = pos 4200;
  provider_fd = fd;
}

abbrev job : JobCell
job = record {
  job_id = pos 7;
  erlang_socket = pos 6;
  origin_socket = pos 21;
  next_req = 20;
  granted_reqs = 40;
  timer = pos 100;
}

abbrev waiting : Nodes
waiting = (20, request 2 (negsuc 0)) ∷ (30, request 1 (negsuc 0)) ∷ []

abbrev granted : Nodes
granted = (40, request 3 (pos 15)) ∷ []

-- The cell at 50 is another job's.
abbrev heap : Heap
heap =
    update
      (update
        (update
          (update (update (λ q. none) 10 (some (job_block job))) 20
            (some (resource_block (record { resource = request 2 (negsuc 0); next = 30 }))))
          30 (some (resource_block (record { resource = request 1 (negsuc 0); next = 0 }))))
        40 (some (resource_block (record { resource = request 3 (pos 15); next = 0 }))))
      50 (some (resource_block (record { resource = request 9 (negsuc 0); next = 0 })))

heap-Holds : Holds heap 10 job waiting granted
heap-Holds = record {
  cell = refl;
  waiting = refl;
  granted = refl;
  waiting_linked = (omega arith, refl, refl, (omega arith, refl, refl, tt));
  granted_linked = (omega arith, refl, refl, tt);
  apart = (refl, tt);
}

destr_localjob-frees_example :
    (h' : Heap) × (destr_localjob 3 10 heap ≡ some h')
    × ((q : ℕ) → h' q ≡ (if is_part q 10 waiting granted then none else heap q))
destr_localjob-frees_example =
    destr_localjob-frees 3 heap 10 job waiting granted (omega arith) (omega arith) heap-Holds

abbrev is_freed : Option Heap → ℕ → Option (Option (Unit {0}))
is_freed none q = none
is_freed (some h) q = some (elim (h q) [ none ↦ none | some b ↦ some tt ])

-- Its own cells are freed, and the other's stays.
first_freed : is_freed (destr_localjob 3 10 heap) 20 ≡ some none
unfolding destr_localjob
first_freed = refl

other_stays : is_freed (destr_localjob 3 10 heap) 50 ≡ some (some tt)
unfolding destr_localjob
other_stays = refl

-- A list that is both: the second loop frees a cell twice.
shared_list :
    is_freed
      (destr_localjob 3 10 (update heap 10 (some (job_block (record job { granted_reqs = 30 })))))
      10
    ≡ none
unfolding destr_localjob
shared_list = refl

abbrev local_job : LocalJob
local_job = record {
  job_id = pos 7;
  erlang_socket = pos 6;
  origin_socket = pos 21;
  next_req = request 2 (negsuc 0) ∷ request 1 (negsuc 0) ∷ [];
  granted_reqs = request 3 (pos 15) ∷ [];
  timer = pos 100;
}

heap-Represents : Represents heap 10 local_job
heap-Represents = record {
  cell = job;
  xs = waiting;
  ys = granted;
  holds = heap-Holds;
  job_id = refl;
  erlang_socket = refl;
  origin_socket = refl;
  timer = refl;
  next_req = refl;
  granted_reqs = refl;
}

grant_head-Represents_example :
    (h' : Heap) × (grant_head (pos 21) 10 heap ≡ some h')
    × Represents h' 10 (advanced (pos 21) local_job)
grant_head-Represents_example = grant_head-Represents (pos 21) heap 10 local_job heap-Represents

release_granted-Represents_example :
    (h' : Heap) × (release_granted 2 10 heap []
      ≡ some (h', release_all (pos 7) (request 3 (pos 15) ∷ []) []))
    × Represents h' 10 (record local_job { granted_reqs = map given_up local_job.granted_reqs })
release_granted-Represents_example =
    release_granted-Represents 2 heap 10 local_job [] (omega arith) heap-Represents

abbrev no_request : JobCell
no_request = record job { next_req = 0; granted_reqs = 0 }

abbrev new_job : LocalJob
new_job = record local_job { next_req = []; granted_reqs = [] }

-- The heap of a job that has no request yet.
abbrev new_heap : Heap
new_heap = update (λ q. none) 10 (some (job_block no_request))

new_heap-Represents : Represents new_heap 10 new_job
new_heap-Represents = record {
  cell = no_request;
  xs = [];
  ys = [];
  holds = record {
    cell = refl;
    waiting = refl;
    granted = refl;
    waiting_linked = tt;
    granted_linked = tt;
    apart = tt;
  };
  job_id = refl;
  erlang_socket = refl;
  origin_socket = refl;
  timer = refl;
  next_req = refl;
  granted_reqs = refl;
}

append_requests-Represents_example :
    (h' : Heap) × (append_requests waiting 0 10 new_heap ≡ some h')
    × Represents h' 10
        (record new_job { next_req = request 2 (negsuc 0) ∷ request 1 (negsuc 0) ∷ [] })
append_requests-Represents_example =
    append_requests-Represents waiting 0 10 new_heap new_job new_heap-Represents refl
      (omega arith, refl, refl, (omega arith, refl, refl, tt))
