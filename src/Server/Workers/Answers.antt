-- ===== src/Server/Workers/Answers.antt =====
-- Every request that leaves a queue is answered once, while the workers of Server.Workers interleave.
use mathlib.Core.List.{append_assoc, map-append}
use tp_sistemas_operativos_i.Prelude.{
  ℕ, zero, suc, ◌≡◌, refl, sym, ap, ◌∙◌, List, [], ◌∷◌, ◌++◌, map, get_or,
}
use tp_sistemas_operativos_i.Prelude.Int.{
  ℤ, pos, pos_part, neg_part, ◌+ℤ◌, sum_ℤ, sum_ℤ-nil, sum_ℤ-append, sum_ℤ-reverse, int_laws,
}
use tp_sistemas_operativos_i.Kernel.{Effect}
use tp_sistemas_operativos_i.Domain.{ReceivedJob}
use tp_sistemas_operativos_i.ResourceQueue.{Request}
use tp_sistemas_operativos_i.Server.Order.{answer, set_queue-trace}
use tp_sistemas_operativos_i.Server.{
  Resource, cpu, mem, gpu, Server, Peers, queue, drained, select_queue, granted_on,
}
use tp_sistemas_operativos_i.HashTable.Sweep.{sweep}
use tp_sistemas_operativos_i.Server.Workers.{
  Task, reserving, releasing, giving, draining, granting, inserting, answering, idle, after_sweep,
  advance, Call, reserve, release, begin, World, Turn, calls, works, act, action, turn, run_turns,
}
use tp_sistemas_operativos_i.Server.Workers.Fifo.{
  leaves, entered, left_queue, turn_leaves, begun-server, run_turns-waiting,
}

-- The request that the next step of a worker answers.
unfoldable pub answers : Task → List Request
answers (answering r req ready rs) = req ∷ []
answers _ = []

abbrev turn_answers : World → Turn → List Request
turn_answers w (calls i c) = []
turn_answers w (works i peer) = answers (get_or w.tasks i idle)

-- The requests that are answered, newest first.
unfoldable pub answered : World → List Turn → List Request
answered w [] = []
answered w (t ∷ ts) = answered (turn w t) ts ++ turn_answers w t

-- The requests that a worker has taken from a queue and not answered.
unfoldable pub in_hand : Task → List Request
in_hand (granting r ready rs) = ready
in_hand (inserting r req address found ready rs) = req ∷ ready
in_hand (answering r req ready rs) = req ∷ ready
in_hand _ = []

advance-trace :
    (peer : Peers) (t : Task) (s : Server)
    → (advance peer t s).1.trace ≡ map answer (answers t) ++ s.trace
unfolding advance answers
advance-trace peer (reserving resource id a fd) s = set_queue-trace s (select_queue resource) _
advance-trace peer (releasing fd) s = refl
advance-trace peer (giving [] jobs) s = refl
advance-trace peer (giving (r ∷ rs) jobs) s = set_queue-trace s r _
advance-trace peer (draining []) s = refl
advance-trace peer (draining (r ∷ rs)) s = set_queue-trace s r _
advance-trace peer (granting r [] rs) s = refl
advance-trace peer (granting r (req ∷ ready) rs) s = refl
advance-trace peer (inserting r req address found ready rs) s = refl
advance-trace peer (answering r req ready rs) s = refl

-- What a worker takes from any queue, counted by a weight.
abbrev taken : (Request → ℤ) → Task → Server → ℤ
taken f t s = sum_ℤ f (leaves cpu t s) +ℤ sum_ℤ f (leaves mem t s) +ℤ sum_ℤ f (leaves gpu t s)

taken-draining :
    (f : Request → ℤ) (r : Resource) (rs : List Resource) (s : Server)
    → taken f (draining (r ∷ rs)) s ≡ sum_ℤ f (drained (queue s r)).ready
unfolding leaves sum_ℤ
taken-draining f cpu rs s =
    let e = sum_ℤ-reverse f (drained s.cpu_queue).ready in
    omega (int_laws, ap pos_part e, ap neg_part e)
taken-draining f mem rs s =
    let e = sum_ℤ-reverse f (drained s.mem_queue).ready in
    omega (int_laws, ap pos_part e, ap neg_part e)
taken-draining f gpu rs s =
    let e = sum_ℤ-reverse f (drained s.gpu_queue).ready in
    omega (int_laws, ap pos_part e, ap neg_part e)

abbrev pub weight : (Request → ℤ) → Task → ℤ
weight f t = sum_ℤ f (in_hand t)

after_sweep-weight :
    (f : Request → ℤ) (jobs : List ReceivedJob) → weight f (after_sweep jobs) ≡ pos 0
unfolding in_hand sum_ℤ
after_sweep-weight f [] = refl
after_sweep-weight f (j ∷ js) = refl

advance-weight :
    (f : Request → ℤ) (peer : Peers) (t : Task) (s : Server)
    → sum_ℤ f (answers t) +ℤ weight f (advance peer t s).0 ≡ weight f t +ℤ taken f t s
unfolding advance answers in_hand leaves sum_ℤ
advance-weight f peer (reserving resource id a fd) s = omega int_laws
advance-weight f peer (releasing fd) s =
    let e = after_sweep-weight f (sweep (granted_on fd) s.table_nodejobs).destroyed in
    omega (int_laws, ap pos_part e, ap neg_part e)
advance-weight f peer (giving [] jobs) s = omega int_laws
advance-weight f peer (giving (r ∷ rs) jobs) s = omega int_laws
advance-weight f peer (draining []) s = omega int_laws
advance-weight f peer (draining (r ∷ rs)) s =
    let e = taken-draining f r rs s in omega (int_laws, ap pos_part e, ap neg_part e)
advance-weight f peer (granting r [] rs) s = omega int_laws
advance-weight f peer (granting r (req ∷ ready) rs) s = omega int_laws
advance-weight f peer (inserting r req address found ready rs) s = omega int_laws
advance-weight f peer (answering r req ready rs) s = omega int_laws

begin-weight : (f : Request → ℤ) (c : Call) (t : Task) → weight f (begin c t) ≡ weight f t
unfolding begin in_hand
begin-weight f (reserve resource id a fd) (draining []) = refl
begin-weight f (release fd) (draining []) = refl
begin-weight f c t = refl

begun-weight :
    (f : Request → ℤ) (i : ℕ) (c : Call) (ts : List Task) (s : Server)
    → sum_ℤ (weight f) (act i (action (calls i c)) ts s).0 ≡ sum_ℤ (weight f) ts
unfolding act action sum_ℤ
begun-weight f i c [] s = refl
begun-weight f zero c (t ∷ ts) s = rw (begin-weight f c t) refl
begun-weight f (suc i) c (t ∷ ts) s = ap (λ (x : ℤ). weight f t +ℤ x) (begun-weight f i c ts s)

acted-weight :
    (f : Request → ℤ) (peer : Peers) (i : ℕ) (ts : List Task) (s : Server)
    → sum_ℤ f (answers (get_or ts i idle)) +ℤ sum_ℤ (weight f) (act i (advance peer) ts s).0
      ≡ sum_ℤ (weight f) ts +ℤ taken f (get_or ts i idle) s
unfolding act sum_ℤ answers leaves
acted-weight f peer i [] s = omega int_laws
acted-weight f peer zero (t ∷ ts) s =
    let e = advance-weight f peer t s in omega (int_laws, ap pos_part e, ap neg_part e)
acted-weight f peer (suc i) (t ∷ ts) s =
    let e = acted-weight f peer i ts s in omega (int_laws, ap pos_part e, ap neg_part e)

acted-trace :
    (peer : Peers) (i : ℕ) (ts : List Task) (s : Server)
    → (act i (advance peer) ts s).1.trace ≡ map answer (answers (get_or ts i idle)) ++ s.trace
unfolding act answers
acted-trace peer i [] s = refl
acted-trace peer zero (t ∷ ts) s = advance-trace peer t s
acted-trace peer (suc i) (t ∷ ts) s = acted-trace peer i ts s

-- What a turn takes from any queue, and what turns take, counted by a weight.
abbrev turn_taken : (Request → ℤ) → World → Turn → ℤ
turn_taken f w t =
    sum_ℤ f (turn_leaves cpu w t) +ℤ sum_ℤ f (turn_leaves mem w t) +ℤ sum_ℤ f (turn_leaves gpu w t)

abbrev pub all_taken : (Request → ℤ) → World → List Turn → ℤ
all_taken f w ts =
    sum_ℤ f (left_queue cpu w ts) +ℤ sum_ℤ f (left_queue mem w ts) +ℤ sum_ℤ f (left_queue gpu w ts)

turn-weight :
    (f : Request → ℤ) (w : World) (t : Turn)
    → sum_ℤ f (turn_answers w t) +ℤ sum_ℤ (weight f) (turn w t).tasks
      ≡ sum_ℤ (weight f) w.tasks +ℤ turn_taken f w t
unfolding turn action sum_ℤ
turn-weight f w (calls i c) =
    let e = begun-weight f i c w.tasks w.server in omega (int_laws, ap pos_part e, ap neg_part e)
turn-weight f w (works i peer) = acted-weight f peer i w.tasks w.server

turn-trace :
    (w : World) (t : Turn)
    → (turn w t).server.trace ≡ map answer (turn_answers w t) ++ w.server.trace
unfolding turn action
turn-trace w (calls i c) = ap (λ (s : Server). s.trace) (begun-server i c w.tasks w.server)
turn-trace w (works i peer) = acted-trace peer i w.tasks w.server

run_turns-trace :
    (w : World) (ts : List Turn)
    → (run_turns w ts).server.trace ≡ map answer (answered w ts) ++ w.server.trace
unfolding run_turns answered
run_turns-trace w [] = refl
run_turns-trace w (t ∷ ts) =
    let later = answered (turn w t) ts in
    run_turns-trace (turn w t) ts
    ∙ ap (λ (l : List Effect). map answer later ++ l) (turn-trace w t)
    ∙ sym (append_assoc (map answer later) (map answer (turn_answers w t)) w.server.trace)
    ∙ ap (λ (l : List Effect). l ++ w.server.trace)
        (sym (map-append answer later (turn_answers w t)))

run_turns-weight :
    (f : Request → ℤ) (w : World) (ts : List Turn)
    → sum_ℤ f (answered w ts) +ℤ sum_ℤ (weight f) (run_turns w ts).tasks
      ≡ sum_ℤ (weight f) w.tasks +ℤ all_taken f w ts
unfolding run_turns answered left_queue
run_turns-weight f w [] = let e = sum_ℤ-nil f in omega (int_laws, ap pos_part e, ap neg_part e)
run_turns-weight f w (t ∷ ts) =
    let w' = turn w t in
    let one = turn-weight f w t in
    let rest = run_turns-weight f w' ts in
    let a = sum_ℤ-append f (answered w' ts) (turn_answers w t) in
    let c = sum_ℤ-append f (turn_leaves cpu w t) (left_queue cpu w' ts) in
    let m = sum_ℤ-append f (turn_leaves mem w t) (left_queue mem w' ts) in
    let g = sum_ℤ-append f (turn_leaves gpu w t) (left_queue gpu w' ts) in
    omega (
      int_laws,
      ap pos_part one,
      ap neg_part one,
      ap pos_part rest,
      ap neg_part rest,
      ap pos_part a,
      ap neg_part a,
      ap pos_part c,
      ap neg_part c,
      ap pos_part m,
      ap neg_part m,
      ap pos_part g,
      ap neg_part g,
    )

-- From `w`, the turns `ts` serve the queues: each queue is first in, first out; what was sent are the
-- GRANTED messages of the answered requests; and however requests are weighted, what was answered and
-- what the workers have in hand at the end weigh as much as what they had in hand at first and what
-- left the queues.
pub record ServesOnce (w : World) (ts : List Turn) : Type 0 where
  pub fifo :
      (k : Resource)
      → (queue w.server k).waiting ++ entered k w ts
        ≡ left_queue k w ts ++ (queue (run_turns w ts).server k).waiting
  pub sends : (run_turns w ts).server.trace ≡ map answer (answered w ts) ++ w.server.trace
  pub once :
      (f : Request → ℤ)
      → sum_ℤ f (answered w ts) +ℤ sum_ℤ (weight f) (run_turns w ts).tasks
        ≡ sum_ℤ (weight f) w.tasks +ℤ all_taken f w ts

-- However the workers interleave, every queue is first in, first out, and each request that leaves
-- its queue is answered with one GRANTED or is still in the hands of a worker; nothing else is sent.
pub run_turns-ServesOnce : (w : World) (ts : List Turn) → ServesOnce w ts
run_turns-ServesOnce w ts = record {
  fifo = run_turns-waiting w ts;
  sends = run_turns-trace w ts;
  once = λ f. run_turns-weight f w ts;
}
