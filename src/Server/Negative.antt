-- ===== src/Server/Negative.antt =====
-- A RESERVE of a negative amount: `atoi` gives it to `enqueue_jobs` (agent/communications.c), and nothing
-- tests it.
use tp_sistemas_operativos_i.Prelude.{
  ℕ, ◌≡◌, refl, sym, ap, ◌∙◌, List, [], ◌∷◌, ◌++◌, map, reverse, if◌then◌else◌, ◌-◌, ◌^◌,
}
use tp_sistemas_operativos_i.Prelude.Int.{ℤ, pos, ◌-ℤ◌, ◌≤ℤ◌, ◌<ℤ◌, le→leb_ℤ, int_laws}
use tp_sistemas_operativos_i.Kernel.{Effect, sent}
use tp_sistemas_operativos_i.ResourceQueue.{Request}
use tp_sistemas_operativos_i.ResourceQueue.Waiting.{
  Drained, Blocked, drain_list, drain_list-Blocked_lem,
}
use tp_sistemas_operativos_i.Server.Ledger.{same}
use tp_sistemas_operativos_i.Server.Order.{
  answer, served, drained-served, reserve_elements-trace, set_queue-trace,
}
use tp_sistemas_operativos_i.Server.Progress.{IsDrained, enqueue_jobs_fits}
use tp_sistemas_operativos_i.Server.{
  Resource, cpu, mem, gpu, Server, Queue, Peers, queue, set_queue, amount, reserve_elements,
  select_queue, enqueue, new_request, enqueue_jobs, granted_message,
}

-- A queue whose head does not fit serves nobody.
served-Blocked : (q : Queue) → Blocked amount q.resources_left q.waiting → served q ≡ []
served-Blocked q b =
    sym (drained-served q)
    ∙ ap (λ (d : Drained Request). reverse d.ready)
        (drain_list-Blocked_lem amount q.resources_left q.waiting [] b)

-- A request that fits and is alone in its queue is served.
served-alone :
    (q : Queue) (rq : Request)
    → q.waiting ≡ []
    → amount rq ≤ℤ q.resources_left
    → served (enqueue q rq) ≡ rq ∷ []
unfolding drain_list
served-alone q rq none h =
    let fits = le→leb_ℤ (amount rq) q.resources_left h in
    sym (drained-served (enqueue q rq)) ∙ (rw (none, drain_list, fits) refl)

-- Only one queue serves, and it serves one request.
answers-alone :
    (r : Resource) (granted : Resource → List Request) (rq : Request) (trace : List Effect)
    → ((k : Resource) → granted k ≡ (if same r k then rq ∷ [] else []))
    → map answer (granted gpu) ++ (map answer (granted mem) ++ (map answer (granted cpu) ++ trace))
      ≡ answer rq ∷ trace
answers-alone cpu granted rq trace e = rw (e cpu, e mem, e gpu) refl
answers-alone mem granted rq trace e = rw (e cpu, e mem, e gpu) refl
answers-alone gpu granted rq trace e = rw (e cpu, e mem, e gpu) refl

module _ (s : Server) (rq : Request) (drained_before : IsDrained s) where
  abbrev with_request : Resource → Server
  with_request r = set_queue s r (enqueue (queue s r) rq)

  served-with_request :
      (r k : Resource)
      → (queue s r).waiting ≡ []
      → amount rq ≤ℤ (queue s r).resources_left
      → served (queue (with_request r) k) ≡ (if same r k then rq ∷ [] else [])
  served-with_request cpu cpu none h = served-alone (queue s cpu) rq none h
  served-with_request cpu mem none h = served-Blocked (queue s mem) (drained_before mem)
  served-with_request cpu gpu none h = served-Blocked (queue s gpu) (drained_before gpu)
  served-with_request mem cpu none h = served-Blocked (queue s cpu) (drained_before cpu)
  served-with_request mem mem none h = served-alone (queue s mem) rq none h
  served-with_request mem gpu none h = served-Blocked (queue s gpu) (drained_before gpu)
  served-with_request gpu cpu none h = served-Blocked (queue s cpu) (drained_before cpu)
  served-with_request gpu mem none h = served-Blocked (queue s mem) (drained_before mem)
  served-with_request gpu gpu none h = served-alone (queue s gpu) rq none h

  trace-with_request :
      (peer : Peers) (r : Resource)
      → (queue s r).waiting ≡ []
      → amount rq ≤ℤ (queue s r).resources_left
      → (reserve_elements peer (with_request r)).trace ≡ answer rq ∷ s.trace
  trace-with_request peer r none h =
      reserve_elements-trace peer (with_request r)
      ∙ answers-alone r (λ k. served (queue (with_request r) k)) rq (with_request r).trace
          (λ k. served-with_request r k none h)
      ∙ ap (◌∷◌ (answer rq)) (set_queue-trace s r (enqueue (queue s r) rq))

-- A RESERVE of a negative amount is granted where its queue is empty, what is free is not negative, no
-- head of another queue fits, and what is free less the amount is at most INT_MAX: GRANTED is sent, no
-- other message is, nothing waits in the queue, and more is free than before, by the amount without its
-- sign.
pub enqueue_jobs_negative :
    (peer : Peers) (s : Server) (resource : List ℕ) (job_id amount' fd : ℤ)
    → IsDrained s
    → (queue s (select_queue resource)).waiting ≡ []
    → pos 0 ≤ℤ (queue s (select_queue resource)).resources_left
    → amount' <ℤ pos 0
    → (queue s (select_queue resource)).resources_left -ℤ amount' ≤ℤ pos (2 ^ 31 - 1)
    → let s' = enqueue_jobs peer s resource job_id amount' fd in
      let q = queue s (select_queue resource) in
      let q' = queue s' (select_queue resource) in
      (s'.trace ≡ sent fd (granted_message job_id) ∷ s.trace)
      × (q' ≡ record { resources_left = q.resources_left -ℤ amount'; waiting = [] })
      × (q.resources_left <ℤ q'.resources_left)
      × (q'.resources_left ≤ℤ pos (2 ^ 31 - 1))
unfolding enqueue_jobs
enqueue_jobs_negative peer s resource job_id amount' fd blocked none left neg fits =
    let r = select_queue resource in
    let e = enqueue_jobs_fits peer s resource job_id amount' fd none (omega int_laws) in
    (
      trace-with_request s (new_request job_id fd amount') blocked peer r none (omega int_laws),
      e,
      rw e (omega int_laws),
      rw e fits,
    )
