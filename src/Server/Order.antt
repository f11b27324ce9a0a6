-- ===== src/Server/Order.antt =====
-- Who is served, and in which order: the queues are first in, first out, every request that leaves
-- its queue gets one GRANTED, and no head that fits is left waiting.
use mathlib.Core.List.{append_assoc, append-nil, reverse-cons, reverse-reverse, map-append}
use tp_sistemas_operativos_i.Prelude.{◌≡◌, refl, sym, ap, ◌∙◌, List, [], ◌∷◌, ◌++◌, map, reverse}
use tp_sistemas_operativos_i.Prelude.Int.{◌+ℤ◌, sum_ℤ}
use tp_sistemas_operativos_i.Kernel.{Effect, sent}
use tp_sistemas_operativos_i.ResourceQueue.{Request}
use tp_sistemas_operativos_i.ResourceQueue.Waiting.{drain_list-Drains}
use tp_sistemas_operativos_i.Server.Conservation.{granted_one, drain_queue-queue}
use tp_sistemas_operativos_i.Server.{
  Resource, cpu, mem, gpu, type_name, Server, Queue, Peers, queue, set_queue, record_granted,
  grant_ready, granted_message, amount, drained, drained_queue, drain_queue, reserve_elements,
}

-- The message that answers a request.
abbrev pub answer : Request → Effect
answer r = sent r.origin_socket (granted_message r.job_id)

grant_ready-trace :
    (peer : Peers) (r : Resource) (ready : List Request) (s : Server)
    → (grant_ready peer (type_name r) ready s).trace ≡ map answer (reverse ready) ++ s.trace
unfolding grant_ready record_granted
grant_ready-trace peer r [] s = refl
grant_ready-trace peer r (req ∷ ready) s =
    grant_ready-trace peer r ready (granted_one peer r req s)
    ∙ sym (
        ap (λ (l : List Request). map answer l ++ s.trace) (reverse-cons req ready)
        ∙ ap (λ (l : List Effect). l ++ s.trace) (map-append answer (reverse ready) (req ∷ []))
        ∙ append_assoc (map answer (reverse ready)) (answer req ∷ []) s.trace)

-- The requests that a drain of a queue grants, oldest first.
pub served : Queue → List Request
served q = (drain_list-Drains amount q.resources_left q.waiting []).granted

pub served-waiting : (q : Queue) → q.waiting ≡ served q ++ (drained_queue q).waiting
unfolding served
served-waiting q = (drain_list-Drains amount q.resources_left q.waiting []).fifo

pub served-left :
    (q : Queue) → (drained_queue q).resources_left +ℤ sum_ℤ amount (served q) ≡ q.resources_left
unfolding served
served-left q = (drain_list-Drains amount q.resources_left q.waiting []).conserves

pub drained-served : (q : Queue) → reverse (drained q).ready ≡ served q
unfolding served
drained-served q =
    let d = drain_list-Drains amount q.resources_left q.waiting [] in
    ap reverse (d.stash ∙ append-nil (reverse d.granted)) ∙ reverse-reverse d.granted

pub set_queue-trace : (s : Server) (r : Resource) (q : Queue) → (set_queue s r q).trace ≡ s.trace
set_queue-trace s cpu q = refl
set_queue-trace s mem q = refl
set_queue-trace s gpu q = refl

drain_queue-trace :
    (peer : Peers) (s : Server) (r : Resource)
    → (drain_queue peer s r).trace ≡ map answer (served (queue s r)) ++ s.trace
unfolding drain_queue
drain_queue-trace peer s r =
    let q = queue s r in
    grant_ready-trace peer r (drained q).ready (set_queue s r (drained_queue q))
    ∙ (rw (drained-served q, set_queue-trace s r (drained_queue q)) refl)

-- Each queue after `reserve_elements` is the drain of what it was.
pub reserve_elements-queue :
    (peer : Peers) (s : Server) (k : Resource)
    → queue (reserve_elements peer s) k ≡ drained_queue (queue s k)
unfolding reserve_elements
reserve_elements-queue peer s cpu =
    drain_queue-queue peer (drain_queue peer (drain_queue peer s cpu) mem) gpu cpu
    ∙ drain_queue-queue peer (drain_queue peer s cpu) mem cpu
    ∙ drain_queue-queue peer s cpu cpu
reserve_elements-queue peer s mem =
    drain_queue-queue peer (drain_queue peer (drain_queue peer s cpu) mem) gpu mem
    ∙ drain_queue-queue peer (drain_queue peer s cpu) mem mem
    ∙ ap drained_queue (drain_queue-queue peer s cpu mem)
reserve_elements-queue peer s gpu =
    drain_queue-queue peer (drain_queue peer (drain_queue peer s cpu) mem) gpu gpu
    ∙ ap drained_queue
        (drain_queue-queue peer (drain_queue peer s cpu) mem gpu ∙ drain_queue-queue peer s cpu gpu)

-- The answers of a drain of the three queues, the newest first.
pub reserve_elements-trace :
    (peer : Peers) (s : Server)
    → (reserve_elements peer s).trace
      ≡ map answer (served (queue s gpu))
        ++ (map answer (served (queue s mem)) ++ (map answer (served (queue s cpu)) ++ s.trace))
unfolding reserve_elements
reserve_elements-trace peer s =
    let s₁ = drain_queue peer s cpu in
    let s₂ = drain_queue peer s₁ mem in
    drain_queue-trace peer s₂ gpu
    ∙ ap (λ (q : Queue). map answer (served q) ++ s₂.trace)
        (drain_queue-queue peer s₁ mem gpu ∙ drain_queue-queue peer s cpu gpu)
    ∙ ap (λ (l : List Effect). map answer (served (queue s gpu)) ++ l)
        (drain_queue-trace peer s₁ mem
          ∙ ap (λ (q : Queue). map answer (served q) ++ s₁.trace) (drain_queue-queue peer s cpu mem)
          ∙ ap (λ (l : List Effect). map answer (served (queue s mem)) ++ l)
              (drain_queue-trace peer s cpu))

-- From `s` to `s'` each queue lost a prefix, and every request of those prefixes got a GRANTED, of
-- one queue the youngest first.
pub record Serves (s s' : Server) : Type 0 where
  pub granted : Resource → List Request
  pub fifo : (k : Resource) → (queue s k).waiting ≡ granted k ++ (queue s' k).waiting
  pub answers :
      s'.trace
      ≡ map answer (granted gpu)
        ++ (map answer (granted mem) ++ (map answer (granted cpu) ++ s.trace))

-- A drain of the three queues takes requests from the front of each, and answers each of them with
-- one GRANTED: those of the cpu queue first, then mem, then gpu. Within a queue the answers go out in
-- the reverse order of the requests.
pub reserve_elements-Serves : (peer : Peers) (s : Server) → Serves s (reserve_elements peer s)
reserve_elements-Serves peer s = record {
  granted = λ k. served (queue s k);
  fifo = λ k. rw (reserve_elements-queue peer s k) (served-waiting (queue s k));
  answers = reserve_elements-trace peer s;
}
