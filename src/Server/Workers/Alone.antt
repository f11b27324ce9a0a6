-- ===== src/Server/Workers/Alone.antt =====
-- A worker of Server.Workers that no other worker interrupts does what the call of agent/utils.c does
-- as one step in Server.
use tp_sistemas_operativos_i.Prelude.{
  ℕ, zero, suc, ◌+◌, ◌<◌, ◌≡◌, refl, sym, ap, ◌∙◌, List, [], ◌∷◌, replicate, length, get_or, set,
  arith, get_or-set_self, length-set, set-set, set-get_or,
}
use tp_sistemas_operativos_i.HashTable.{HashTable}
use tp_sistemas_operativos_i.HashTable.Sweep.{sweep}
use tp_sistemas_operativos_i.Domain.{ReceivedJob}
use tp_sistemas_operativos_i.ResourceQueue.{Request}
use tp_sistemas_operativos_i.Server.Conservation.{granted_one}
use tp_sistemas_operativos_i.Server.Events.{Event, reserves, releases, step}
use tp_sistemas_operativos_i.Server.{
  Resource, cpu, mem, gpu, Server, Peers, type_name, queue, set_queue, drained, drained_queue,
  record_granted, grant_ready, drain_queue, reserve_elements, enqueue_jobs, select_queue, enqueue,
  new_request, granted_on, give_back, give_back_found, release_client_by_fd,
}
use tp_sistemas_operativos_i.Server.Workers.{
  Task, draining, granting, idle, all_queues, set_table, after_sweep, advance, Call, reserve,
  release, task_of, begin, World, Turn, calls, works, Action, act, action, worker, turn, run_turns,
}

-- The call as one step.
abbrev pub event_of : Peers → Call → Event
event_of peer (reserve resource id a fd) = reserves peer resource id a fd
event_of peer (release fd) = releases peer fd

module _ (peer : Peers) where
  work : ℕ → Task × Server → Task × Server
  work zero p = p
  work (suc n) (t, s) = work n (advance peer t s)

  abbrev Leads : Task × Server → Task × Server → Type 0
  Leads p q = (n : ℕ) × (work n p ≡ q)

  at_once : (p : Task × Server) → Leads p p
  unfolding work
  at_once p = (0, refl)

  after : (t : Task) (s : Server) (q : Task × Server) → Leads (advance peer t s) q → Leads (t, s) q
  unfolding work
  after t s q (n, e) = (suc n, e)

  work-add : (n m : ℕ) (p : Task × Server) → work (n + m) p ≡ work m (work n p)
  unfolding work
  work-add zero m p = let e : 0 + m ≡ m = omega arith in rw e refl
  work-add (suc n) m (t, s) =
      let e : suc n + m ≡ suc (n + m) = omega arith in rw e (work-add n m (advance peer t s))

  followed : (p q r : Task × Server) → Leads p q → Leads q r → Leads p r
  followed p q r (n, e) (m, f) = (n + m, work-add n m p ∙ ap (work m) e ∙ f)

  granting-Leads :
      (r : Resource) (ready : List Request) (rs : List Resource) (s : Server)
      → Leads (granting r ready rs, s) (draining rs, grant_ready peer (type_name r) ready s)
  unfolding advance grant_ready record_granted
  granting-Leads r [] rs s = after (granting r [] rs) s _ (at_once (draining rs, s))
  granting-Leads r (req ∷ ready) rs s =
      after _ _ _ (after _ _ _ (after _ _ _ (granting-Leads r ready rs (granted_one peer r req s))))

  draining-Leads :
      (r : Resource) (rs : List Resource) (s : Server)
      → Leads (draining (r ∷ rs), s) (draining rs, drain_queue peer s r)
  unfolding advance drain_queue
  draining-Leads r rs s =
      after _ _ _ (
        granting-Leads r (drained (queue s r)).ready rs (set_queue s r (drained_queue (queue s r))))

  reserve_elements-Leads :
      (s : Server) → Leads (draining all_queues, s) (idle, reserve_elements peer s)
  unfolding reserve_elements
  reserve_elements-Leads s =
      let s₁ = drain_queue peer s cpu in
      let s₂ = drain_queue peer s₁ mem in
      followed _ (draining (mem ∷ gpu ∷ []), s₁) _ (draining-Leads cpu (mem ∷ gpu ∷ []) s)
        (followed _ (draining (gpu ∷ []), s₂) _ (draining-Leads mem (gpu ∷ []) s₁)
          (draining-Leads gpu [] s₂))

  swept-Leads :
      (s : Server) (t : HashTable ReceivedJob) (jobs : List ReceivedJob)
      → Leads (after_sweep jobs, set_table s t) (idle, give_back_found peer s t jobs)
  unfolding advance
  swept-Leads s t [] = at_once _
  swept-Leads s t (j ∷ js) =
      after _ _ _
        (after _ _ _ (after _ _ _ (after _ _ _ (reserve_elements-Leads (give_back s t (j ∷ js))))))

  call-Leads : (c : Call) (s : Server) → Leads (task_of c, s) (idle, step s (event_of peer c))
  unfolding advance step enqueue_jobs release_client_by_fd
  call-Leads (reserve resource id a fd) s =
      let r = select_queue resource in
      after _ _ _
        (reserve_elements-Leads (set_queue s r (enqueue (queue s r) (new_request id fd a))))
  call-Leads (release fd) s =
      let o = sweep (granted_on fd) s.table_nodejobs in
      after _ _ _ (swept-Leads s o.table o.destroyed)

  act-at :
      (i : ℕ) (a : Action) (ts : List Task) (s : Server)
      → i < length ts
      → act i a ts s ≡ (set ts i (a (get_or ts i idle) s).0, (a (get_or ts i idle) s).1)
  unfolding act
  act-at i a [] s h = elim h [ ]
  act-at zero a (t ∷ ts) s h = refl
  act-at (suc i) a (t ∷ ts) s h =
      ap (λ (p : List Task × Server). (t ∷ p.0, p.1)) (act-at i a ts s (omega arith))

  abbrev placed : World → ℕ → Task × Server → World
  placed w i p = record { server = p.1; tasks = set w.tasks i p.0 }

  turn-at :
      (w : World) (i : ℕ) (t : Turn)
      → worker t ≡ i
      → i < length w.tasks
      → turn w t ≡ placed w i (action t (get_or w.tasks i idle) w.server)
  unfolding turn
  turn-at w i t e h = rw e (
      ap (λ (p : List Task × Server). record { server = p.1; tasks = p.0 })
        (act-at i (action t) w.tasks w.server h))

  -- The turns of one worker.
  turns-work :
      (i n : ℕ) (t : Task) (w : World)
      → i < length w.tasks
      → get_or w.tasks i idle ≡ t
      → run_turns w (replicate n (works i peer)) ≡ placed w i (work n (t, w.server))
  unfolding run_turns action work
  turns-work i zero t w h e =
      ap (λ (l : List Task). record { server = w.server; tasks = l })
        (sym (set-get_or w.tasks i idle) ∙ ap (set w.tasks i) e)
  turns-work i (suc n) t w h e =
      let p = advance peer t w.server in
      ap (λ (v : World). run_turns v (replicate n (works i peer)))
        (turn-at w i (works i peer) refl h
          ∙ ap (λ (x : Task). placed w i (advance peer x w.server)) e)
      ∙ turns-work i n p.0 (placed w i p) (rw (length-set w.tasks i p.0) h)
          (get_or-set_self w.tasks i p.0 idle h)
      ∙ ap (λ (l : List Task). record { server = (work n p).1; tasks = l })
          (set-set w.tasks i p.0 (work n p).0)

  -- A worker that is done with its calls gets a call, and no other worker interrupts it: after some
  -- number of its turns it is done, no other worker has moved, and the state is the one after
  -- `enqueue_jobs` or `release_client_by_fd` as one step.
  pub run_turns-alone :
      (w : World) (i : ℕ) (c : Call)
      → i < length w.tasks
      → get_or w.tasks i idle ≡ idle
      → (n : ℕ) × (run_turns w (calls i c ∷ replicate n (works i peer))
          ≡ record { server = step w.server (event_of peer c); tasks = w.tasks })
  unfolding run_turns action begin
  run_turns-alone w i c h e =
      let (n, leads) = call-Leads c w.server in
      let w' = placed w i (task_of c, w.server) in
      (
        n,
        ap (λ (v : World). run_turns v (replicate n (works i peer)))
              (turn-at w i (calls i c) refl h
                ∙ ap (λ (x : Task). placed w i (begin c x, w.server)) e)
            ∙ turns-work i n (task_of c) w' (rw (length-set w.tasks i (task_of c)) h)
                (get_or-set_self w.tasks i (task_of c) idle h)
            ∙ ap (placed w' i) leads
            ∙ ap (λ (l : List Task). record { server = step w.server (event_of peer c); tasks = l })
                (set-set w.tasks i (task_of c) idle
                  ∙ ap (set w.tasks i) (sym e)
                  ∙ set-get_or w.tasks i idle),
      )
