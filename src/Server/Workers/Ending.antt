-- ===== src/Server/Workers/Ending.antt =====
-- The calls of the workers of Server.Workers end, however their steps are ordered.
use tp_sistemas_operativos_i.Prelude.{
  ℕ, zero, suc, ◌+◌, ◌*◌, ◌≤◌, ◌≡◌, refl, List, [], ◌∷◌, length, length-append, get_or, arith,
  Bool-cases, inl, inr,
}
use tp_sistemas_operativos_i.Prelude.Int.{ℤ, leb_ℤ, ◌-ℤ◌, sum_ℤ}
use tp_sistemas_operativos_i.HashTable.Sweep.{sweep}
use tp_sistemas_operativos_i.Domain.{ReceivedJob}
use tp_sistemas_operativos_i.ResourceQueue.{Request}
use tp_sistemas_operativos_i.ResourceQueue.Waiting.{drain_list}
use tp_sistemas_operativos_i.Server.Ledger.{granted_of}
use tp_sistemas_operativos_i.Server.{
  Resource, cpu, mem, gpu, Server, Queue, Peers, queue, set_queue, amount, drained, drained_queue,
  select_queue, enqueue, new_request, granted_on, add_left,
}
use tp_sistemas_operativos_i.Server.Workers.{
  Task, reserving, releasing, giving, draining, granting, inserting, answering, idle, after_sweep,
  advance, Call, reserve, release, begin, World, Turn, calls, works, act, action, turn, run_turns,
}

-- A bound of the steps that a worker has before it, in the queues as they are.
unfoldable pub steps_left : Task → ℕ
steps_left (reserving resource id a fd) = 10
steps_left (releasing fd) = 11
steps_left (giving rs jobs) = length rs + 7
steps_left (draining rs) = 2 * length rs
steps_left (granting r ready rs) = 1 + 3 * length ready + 2 * length rs
steps_left (inserting r req address found ready rs) = 3 + 3 * length ready + 2 * length rs
steps_left (answering r req ready rs) = 2 + 3 * length ready + 2 * length rs

-- A request takes three steps of the worker that grants it.
abbrev pub waiting_steps : Server → ℕ
waiting_steps s =
    3 * (length s.cpu_queue.waiting + length s.mem_queue.waiting + length s.gpu_queue.waiting)

-- 1 where the worker is in a call.
unfoldable pub busy : Task → ℕ
busy (draining []) = 0
busy _ = 1

drain_list-length :
    (left : ℤ) (rs ready : List Request)
    → let d = drain_list amount left rs ready in
      length d.waiting + length d.ready ≡ length rs + length ready
unfolding drain_list
drain_list-length left [] ready = refl
drain_list-length left (r ∷ rs) ready = elim (Bool-cases (leb_ℤ (amount r) left)) [
  | inr stop ↦ rw stop refl
  | inl fits ↦
      let e = drain_list-length (left -ℤ amount r) rs (r ∷ ready) in rw fits (omega (arith, e))
]

-- A write of a queue that takes `k` requests out of it.
waiting_steps-set_queue :
    (s : Server) (r : Resource) (q : Queue) (k n : ℕ)
    → length q.waiting + k ≡ length (queue s r).waiting + n
    → waiting_steps (set_queue s r q) + 3 * k ≡ waiting_steps s + 3 * n
waiting_steps-set_queue s cpu q k n e = omega (arith, e)
waiting_steps-set_queue s mem q k n e = omega (arith, e)
waiting_steps-set_queue s gpu q k n e = omega (arith, e)

after_sweep-steps_left : (jobs : List ReceivedJob) → steps_left (after_sweep jobs) ≤ 10
unfolding steps_left
after_sweep-steps_left [] = omega arith
after_sweep-steps_left (j ∷ js) = omega arith

advance-steps_left :
    (peer : Peers) (t : Task) (s : Server)
    → busy t + (steps_left (advance peer t s).0 + waiting_steps (advance peer t s).1)
      ≤ steps_left t + waiting_steps s
unfolding advance steps_left busy
advance-steps_left peer (reserving resource id a fd) s =
    let r = select_queue resource in
    let rq = new_request id fd a in
    let more = length-append (queue s r).waiting (rq ∷ []) in
    let e = waiting_steps-set_queue s r (enqueue (queue s r) rq) 0 1 (omega (arith, more)) in
    omega (arith, e)
advance-steps_left peer (releasing fd) s =
    omega (arith, after_sweep-steps_left (sweep (granted_on fd) s.table_nodejobs).destroyed)
advance-steps_left peer (giving [] jobs) s = omega arith
advance-steps_left peer (giving (r ∷ rs) jobs) s =
    let q = add_left (queue s r) (sum_ℤ (granted_of r) jobs) in
    omega (arith, waiting_steps-set_queue s r q 0 0 refl)
advance-steps_left peer (draining []) s = omega arith
advance-steps_left peer (draining (r ∷ rs)) s =
    let q = queue s r in
    let e = drain_list-length q.resources_left q.waiting [] in
    omega (
      arith,
      waiting_steps-set_queue s r (drained_queue q) (length (drained q).ready) 0 (omega (arith, e)),
    )
advance-steps_left peer (granting r [] rs) s = omega arith
advance-steps_left peer (granting r (req ∷ ready) rs) s = omega arith
advance-steps_left peer (inserting r req address found ready rs) s = omega arith
advance-steps_left peer (answering r req ready rs) s = omega arith

-- A bound of the steps that all workers have before them.
unfoldable pub sum_steps : List Task → ℕ
sum_steps [] = 0
sum_steps (t ∷ ts) = steps_left t + sum_steps ts

abbrev pub work_left : World → ℕ
work_left w = sum_steps w.tasks + waiting_steps w.server

-- 1 where the turn is a step of a worker that is in a call.
abbrev pub turn_busy : World → Turn → ℕ
turn_busy w (calls i c) = 0
turn_busy w (works i peer) = busy (get_or w.tasks i idle)

abbrev pub turn_calls : Turn → ℕ
turn_calls (calls i c) = 1
turn_calls (works i peer) = 0

-- How many of the turns are steps of a worker that is in a call, and how many are calls.
unfoldable pub busy_turns : World → List Turn → ℕ
busy_turns w [] = 0
busy_turns w (t ∷ ts) = turn_busy w t + busy_turns (turn w t) ts

unfoldable pub call_turns : List Turn → ℕ
call_turns [] = 0
call_turns (t ∷ ts) = turn_calls t + call_turns ts

acted-steps_left :
    (peer : Peers) (i : ℕ) (ts : List Task) (s : Server)
    → busy (get_or ts i idle)
        + (sum_steps (act i (advance peer) ts s).0 + waiting_steps (act i (advance peer) ts s).1)
      ≤ sum_steps ts + waiting_steps s
unfolding act sum_steps busy
acted-steps_left peer i [] s = omega arith
acted-steps_left peer zero (t ∷ ts) s = omega (arith, advance-steps_left peer t s)
acted-steps_left peer (suc i) (t ∷ ts) s = omega (arith, acted-steps_left peer i ts s)

begin-steps_left : (c : Call) (t : Task) → steps_left (begin c t) ≤ steps_left t + 11
unfolding begin steps_left
begin-steps_left (reserve resource id a fd) (draining []) = omega arith
begin-steps_left (release fd) (draining []) = omega arith
begin-steps_left c t = omega arith

begun-steps_left :
    (i : ℕ) (c : Call) (ts : List Task) (s : Server)
    → sum_steps (act i (action (calls i c)) ts s).0
        + waiting_steps (act i (action (calls i c)) ts s).1
      ≤ sum_steps ts + waiting_steps s + 11
unfolding act action sum_steps
begun-steps_left i c [] s = omega arith
begun-steps_left zero c (t ∷ ts) s = omega (arith, begin-steps_left c t)
begun-steps_left (suc i) c (t ∷ ts) s = omega (arith, begun-steps_left i c ts s)

turn-work_left :
    (w : World) (t : Turn) → turn_busy w t + work_left (turn w t) ≤ work_left w + 11 * turn_calls t
unfolding turn action
turn-work_left w (calls i c) = omega (arith, begun-steps_left i c w.tasks w.server)
turn-work_left w (works i peer) = omega (arith, acted-steps_left peer i w.tasks w.server)

-- However the workers interleave, their calls end: every step of a worker that is in a call takes one
-- off a bound of the steps that are left, which only a call raises, by 11 at most.
pub run_turns-end :
    (w : World) (ts : List Turn)
    → busy_turns w ts + work_left (run_turns w ts) ≤ work_left w + 11 * call_turns ts
unfolding run_turns busy_turns call_turns
run_turns-end w [] = omega arith
run_turns-end w (t ∷ ts) = omega (arith, turn-work_left w t, run_turns-end (turn w t) ts)
