-- ===== src/Server/Workers/Fifo.antt =====
-- Which requests enter a queue, leave it and are answered, while the workers of Server.Workers
-- interleave.
use mathlib.Core.List.{append_assoc, append-nil}
use tp_sistemas_operativos_i.Prelude.{
  ℕ, zero, suc, ◌≡◌, refl, sym, ap, ◌∙◌, List, [], ◌∷◌, ◌++◌, reverse, if◌then◌else◌, Bool-cases,
  inl, inr, get_or,
}
use tp_sistemas_operativos_i.Prelude.Int.{sum_ℤ}
use tp_sistemas_operativos_i.Kernel.{Effect, sent}
use tp_sistemas_operativos_i.HashTable.{HashTable, tablahash_insert}
use tp_sistemas_operativos_i.HashTable.Sweep.{sweep}
use tp_sistemas_operativos_i.Domain.{ReceivedJob, job_callbacks}
use tp_sistemas_operativos_i.ResourceQueue.{Request}
use tp_sistemas_operativos_i.Server.Conservation.{queue-set_queue, same→eq}
use tp_sistemas_operativos_i.Server.Ledger.{same, granted_of}
use tp_sistemas_operativos_i.Server.Order.{drained-served, served-waiting}
use tp_sistemas_operativos_i.Server.{
  Resource, cpu, mem, gpu, Server, Queue, Peers, queue, set_queue, drained, drained_queue,
  select_queue, enqueue, new_request, granted_on, granted_message, add_left,
}
use tp_sistemas_operativos_i.Server.Workers.{
  Task, reserving, releasing, giving, draining, granting, inserting, answering, idle, reservation,
  set_table, advance, Call, World, Turn, calls, works, act, action, turn, run_turns,
}

-- The requests, where `k` is their queue.
abbrev pub for_queue : Resource → Resource → List Request → List Request
for_queue r k rs = if same r k then rs else []

-- The request that the next step of a worker puts into queue `k`.
unfoldable pub enters : Resource → Task → List Request
enters k (reserving resource id a fd) =
    for_queue (select_queue resource) k (new_request id fd a ∷ [])
enters k _ = []

-- The requests that it takes out of queue `k`, oldest first.
unfoldable pub leaves : Resource → Task → Server → List Request
leaves k (draining (r ∷ rs)) s = for_queue r k (reverse (drained (queue s r)).ready)
leaves k _ s = []

for_queue-nil : (r k : Resource) → for_queue r k [] ≡ []
for_queue-nil r k = elim (Bool-cases (same r k)) [
  | inl own ↦ rw own refl
  | inr other ↦ rw other refl
]

-- A write of queue `r` that takes `gone` from its front and puts `new` at its end.
waiting-set_queue :
    (s : Server) (r k : Resource) (q : Queue) (new gone : List Request)
    → (queue s r).waiting ++ new ≡ gone ++ q.waiting
    → (queue s k).waiting ++ for_queue r k new
      ≡ for_queue r k gone ++ (queue (set_queue s r q) k).waiting
waiting-set_queue s r k q new gone e = elim (Bool-cases (same r k)) [
  | inl own ↦
      let moved = ap (λ (y : Resource). (queue s y).waiting) (same→eq r k own) in
      rw (queue-set_queue s r k q, own, ← moved) e
  | inr other ↦ rw (queue-set_queue s r k q, other) (append-nil (queue s k).waiting)
]

waiting-set_table :
    (s : Server) (t : HashTable ReceivedJob) (k : Resource)
    → (queue s k).waiting ++ [] ≡ (queue (set_table s t) k).waiting
waiting-set_table s t cpu = append-nil _
waiting-set_table s t mem = append-nil _
waiting-set_table s t gpu = append-nil _

waiting-traced :
    (s : Server) (t : List Effect) (k : Resource)
    → (queue s k).waiting ++ [] ≡ (queue (record s { trace = t }) k).waiting
waiting-traced s t cpu = append-nil _
waiting-traced s t mem = append-nil _
waiting-traced s t gpu = append-nil _

-- A step puts what enters at the end of a queue, and takes what leaves from its front.
advance-waiting :
    (peer : Peers) (t : Task) (s : Server) (k : Resource)
    → (queue s k).waiting ++ enters k t ≡ leaves k t s ++ (queue (advance peer t s).1 k).waiting
unfolding advance enters leaves
advance-waiting peer (reserving resource id a fd) s k =
    let r = select_queue resource in
    let new = new_request id fd a ∷ [] in
    let q = enqueue (queue s r) (new_request id fd a) in
    waiting-set_queue s r k q new [] refl
    ∙ ap (λ (l : List Request). l ++ (queue (set_queue s r q) k).waiting) (for_queue-nil r k)
advance-waiting peer (releasing fd) s k =
    waiting-set_table s (sweep (granted_on fd) s.table_nodejobs).table k
advance-waiting peer (giving [] jobs) s k = append-nil _
advance-waiting peer (giving (r ∷ rs) jobs) s k =
    let q = add_left (queue s r) (sum_ℤ (granted_of r) jobs) in
    let e = waiting-set_queue s r k q [] [] (append-nil _) in rw (for_queue-nil r k) at e
advance-waiting peer (draining []) s k = append-nil _
advance-waiting peer (draining (r ∷ rs)) s k =
    let q = queue s r in
    let gone = reverse (drained q).ready in
    let left =
      append-nil _
      ∙ served-waiting q
      ∙ ap (λ (l : List Request). l ++ (drained_queue q).waiting) (sym (drained-served q)) in
    ap (λ (l : List Request). (queue s k).waiting ++ l) (sym (for_queue-nil r k))
    ∙ waiting-set_queue s r k (drained_queue q) [] gone left
advance-waiting peer (granting r [] rs) s k = append-nil _
advance-waiting peer (granting r (req ∷ ready) rs) s k = append-nil _
advance-waiting peer (inserting r req address found ready rs) s k =
    waiting-set_table s
      (tablahash_insert job_callbacks s.table_nodejobs (reservation r req address found)).table k
advance-waiting peer (answering r req ready rs) s k =
    waiting-traced s (sent req.origin_socket (granted_message req.job_id) ∷ s.trace) k

-- What a turn puts into queue `k`, and takes out of it.
abbrev pub turn_enters : Resource → World → Turn → List Request
turn_enters k w (calls i c) = []
turn_enters k w (works i peer) = enters k (get_or w.tasks i idle)

abbrev pub turn_leaves : Resource → World → Turn → List Request
turn_leaves k w (calls i c) = []
turn_leaves k w (works i peer) = leaves k (get_or w.tasks i idle) w.server

-- What all turns put into queue `k`, in their order, and what they take out of it.
unfoldable pub entered : Resource → World → List Turn → List Request
entered k w [] = []
entered k w (t ∷ ts) = turn_enters k w t ++ entered k (turn w t) ts

unfoldable pub left_queue : Resource → World → List Turn → List Request
left_queue k w [] = []
left_queue k w (t ∷ ts) = turn_leaves k w t ++ left_queue k (turn w t) ts

act-waiting :
    (k : Resource) (peer : Peers) (i : ℕ) (ts : List Task) (s : Server)
    → (queue s k).waiting ++ enters k (get_or ts i idle)
      ≡ leaves k (get_or ts i idle) s ++ (queue (act i (advance peer) ts s).1 k).waiting
unfolding act advance
act-waiting k peer i [] s = advance-waiting peer idle s k
act-waiting k peer zero (t ∷ ts) s = advance-waiting peer t s k
act-waiting k peer (suc i) (t ∷ ts) s = act-waiting k peer i ts s

pub begun-server :
    (i : ℕ) (c : Call) (ts : List Task) (s : Server) → (act i (action (calls i c)) ts s).1 ≡ s
unfolding act action
begun-server i c [] s = refl
begun-server zero c (t ∷ ts) s = refl
begun-server (suc i) c (t ∷ ts) s = begun-server i c ts s

turn-waiting :
    (w : World) (t : Turn) (k : Resource)
    → (queue w.server k).waiting ++ turn_enters k w t
      ≡ turn_leaves k w t ++ (queue (turn w t).server k).waiting
unfolding turn action
turn-waiting w (calls i c) k =
    append-nil _
    ∙ ap (λ (s : Server). (queue s k).waiting) (sym (begun-server i c w.tasks w.server))
turn-waiting w (works i peer) k = act-waiting k peer i w.tasks w.server

-- However the workers interleave, a queue is first in, first out: what waited in it and what entered
-- it are what left it and what waits in it, in this order.
pub run_turns-waiting :
    (w : World) (ts : List Turn) (k : Resource)
    → (queue w.server k).waiting ++ entered k w ts
      ≡ left_queue k w ts ++ (queue (run_turns w ts).server k).waiting
unfolding run_turns entered left_queue
run_turns-waiting w [] k = append-nil _
run_turns-waiting w (t ∷ ts) k =
    let w' = turn w t in
    sym (append_assoc (queue w.server k).waiting (turn_enters k w t) (entered k w' ts))
    ∙ ap (λ (l : List Request). l ++ entered k w' ts) (turn-waiting w t k)
    ∙ append_assoc (turn_leaves k w t) (queue w'.server k).waiting (entered k w' ts)
    ∙ ap (λ (l : List Request). turn_leaves k w t ++ l) (run_turns-waiting w' ts k)
    ∙ sym (append_assoc (turn_leaves k w t) (left_queue k w' ts) _)
