-- ===== src/Examples/Queues.antt =====
-- The linked queue with two requests in it, on a small heap.
use tp_sistemas_operativos_i.Prelude.{ℕ, ◌≡◌, refl, [], ◌∷◌, none, some, arith}
use tp_sistemas_operativos_i.Prelude.Int.{pos}
use tp_sistemas_operativos_i.ResourceQueue.{
  Request, Heap, RequestQueue, update, enqueue_request, drain_locked,
}
use tp_sistemas_operativos_i.ResourceQueue.Linked.{head_address, Linked, Holds}
use tp_sistemas_operativos_i.ResourceQueue.Fifo.{enqueue-Holds}
use tp_sistemas_operativos_i.ResourceQueue.Drain.{drain-Holds, node_amount}
use tp_sistemas_operativos_i.ResourceQueue.Waiting.{drain_list}

abbrev asks : ℕ → ℕ → Request
asks id n = record {
  job_id = pos id;
  origin_socket = pos (id);
  amount_requested = pos n;
  asked_resource = [];
}

abbrev empty_heap : Heap
empty_heap p = none

abbrev with_one : Heap
with_one = update empty_heap 16 (some (record { request = asks 1 3; next_req = 0 }))

abbrev with_two : Heap
with_two =
    update (update with_one 16 (some (record { request = asks 1 3; next_req = 32 }))) 32
      (some (record { request = asks 2 2; next_req = 0 }))

abbrev one_waits : RequestQueue
one_waits = record { resources_left = pos 4; first = 16; last = 16 }

abbrev two_wait : RequestQueue
two_wait = record { resources_left = pos 4; first = 16; last = 32 }

one_waits-Holds : Holds with_one one_waits ((16, asks 1 3) ∷ [])
one_waits-Holds = record { first = refl; last = refl; linked = (omega arith, refl, tt, tt) }

two_wait-Holds : Holds with_two two_wait ((16, asks 1 3) ∷ (32, asks 2 2) ∷ [])
two_wait-Holds = record {
  first = refl;
  last = refl;
  linked = (omega arith, refl, (omega arith, tt), (omega arith, refl, tt, tt));
}

abbrev fresh_two : Heap
fresh_two = update with_one 32 (some (record { request = asks 2 2; next_req = 7 }))

enqueue-Holds_example :
    (q' : RequestQueue) × (h' : Heap) × (enqueue_request one_waits 32 fresh_two ≡ some (q', h'))
    × Holds h' q' ((16, asks 1 3) ∷ (32, asks 2 2) ∷ [])
    × (q'.resources_left ≡ pos 4)
enqueue-Holds_example =
    enqueue-Holds fresh_two one_waits 32 7 (asks 2 2) ((16, asks 1 3) ∷ [])
      (record { first = refl; last = refl; linked = (omega arith, refl, tt, tt) }) (omega arith)
      refl (omega arith, tt)

-- The first request is granted; the second waits, since 1 is left.
drain-Holds_example :
    let d = drain_list node_amount (pos 4) ((16, asks 1 3) ∷ (32, asks 2 2) ∷ []) [] in
    (q' : RequestQueue) × (h' : Heap) × (drain_locked 3 two_wait 0 with_two
      ≡ some (q', head_address d.ready, h'))
    × Holds h' q' d.waiting
    × Linked h' d.ready
    × (q'.resources_left ≡ d.left)
drain-Holds_example =
    drain-Holds 3 with_two two_wait ((16, asks 1 3) ∷ (32, asks 2 2) ∷ []) [] two_wait-Holds tt
      (tt, (tt, tt)) (omega arith)
