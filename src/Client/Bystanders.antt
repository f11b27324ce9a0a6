-- ===== src/Client/Bystanders.antt =====
-- The commands of the scheduler (`erlang_to_C` of agent/communications.c) and the timeouts of jobs
-- (agent/timer.c) leave the queues and the reservations of the server side as they are.
use tp_sistemas_operativos_i.Prelude.{
  ℕ, List, [], ◌∷◌, flatten, Option, none, some, Bool-cases, Option-cases, inl, inr,
}
use tp_sistemas_operativos_i.Prelude.Int.{ℤ, pos, negsuc, leb_ℤ}
use tp_sistemas_operativos_i.Prelude.Text.{codes, str_eq}
use tp_sistemas_operativos_i.HashTable.{tablahash_find, tablahash_insert}
use tp_sistemas_operativos_i.Domain.{
  PendingResource, LocalJob, JobRef, fd_callbacks, localjob_callbacks,
}
use tp_sistemas_operativos_i.Wire.{print_int, atoi, get_token, bounded_copy}
use tp_sistemas_operativos_i.Wire.Messages.{timeout}
use tp_sistemas_operativos_i.Framing.{buffer_len}
use tp_sistemas_operativos_i.Nodes.{c_string}
use tp_sistemas_operativos_i.Server.{Server}
use tp_sistemas_operativos_i.Client.{
  Agent, Env, C_to_erlang, release_resources, destr_localjobs, tear_down, fd_key, find_localjob,
  write_job,
}
use tp_sistemas_operativos_i.Client.Scheduler.{
  erlang_to_C, on_command, on_job_request, on_job_release, on_job_status, start_job, parse_requests,
  release_job, released_at, status_at,
}
use tp_sistemas_operativos_i.Client.Timeouts.{
  expired_ids, expire_job, expire_jobs, expired_at, check_ourjob_timeouts, max_timeouts_per_tick,
}
use tp_sistemas_operativos_i.Client.Serving
use tp_sistemas_operativos_i.Client.Serving.{IsKept}

module _ (J : Server → Type 0) (kept : IsKept J) where
  abbrev Stays : Option Agent → Type 0
  Stays = Serving.Stays J kept

  tear_down-Stays : (p : ℕ) (a : Agent) → J a.server → Stays (tear_down p a)
  unfolding tear_down
  tear_down-Stays p a j = Serving.any-Stays J kept (a.jobs p) _ (λ job.
      elim (Bool-cases (leb_ℤ (pos 0) job.origin_socket)) [
        | inr idle ↦ rw idle j
        | inl flies ↦
            elim (Option-cases
              (tablahash_find fd_callbacks a.table_ourjobs (fd_key job.origin_socket))) [
                | inl absent ↦ rw (flies, absent) j
                | inr (entry, found) ↦ rw (flies, found) (kept.untraced a.server _ j)
              ]
      ])

  release_job-Stays : (p : ℕ) (a : Agent) → J a.server → Stays (release_job p a)
  unfolding release_job
  release_job-Stays p a j =
      Serving.bind-Stays J kept (tear_down p a) _ (tear_down-Stays p a j) (λ a₁ j₁.
        Serving.bind-Stays J kept (release_resources p a₁) _
          (Serving.release_resources-Stays J kept p a₁ j₁)
          (λ a₂ j₂. Serving.remove_localjob-Stays J kept p a₂ j₂))

  expire_job-Stays : (p : ℕ) (a : Agent) → J a.server → Stays (expire_job p a)
  unfolding expire_job C_to_erlang
  expire_job-Stays p a j = Serving.any-Stays J kept (a.jobs p) _ (λ job.
      Serving.bind-Stays J kept (tear_down p a) _ (tear_down-Stays p a j) (λ a₁ j₁.
        Serving.bind-Stays J kept (release_resources p a₁) _
          (Serving.release_resources-Stays J kept p a₁ j₁)
          (λ a₂ j₂.
            Serving.remove_localjob-Stays J kept p (C_to_erlang timeout (print_int job.job_id) a₂)
              (kept.untraced a₂.server _ j₂))))

  expired_at-Stays : (a : Agent) (o : Option JobRef) → J a.server → Stays (expired_at a o)
  expired_at-Stays a none j = j
  expired_at-Stays a (some r) j = expire_job-Stays r.address a j

  expire_jobs-Stays : (ids : List ℤ) (a : Agent) → J a.server → Stays (expire_jobs ids a)
  unfolding expire_jobs
  expire_jobs-Stays [] a j = j
  expire_jobs-Stays (id ∷ ids) a j =
      Serving.bind-Stays J kept (expired_at a (find_localjob id a)) (expire_jobs ids)
        (expired_at-Stays a (find_localjob id a) j) (λ a' j'. expire_jobs-Stays ids a' j')

  pub check_ourjob_timeouts-Stays :
      (now : ℤ) (a : Agent) → J a.server → Stays (check_ourjob_timeouts now a)
  unfolding check_ourjob_timeouts
  check_ourjob_timeouts-Stays now a j =
      Serving.any-Stays J kept
        (expired_ids max_timeouts_per_tick now a.jobs (flatten a.table_localjobs.elems)) _
        (λ ids. expire_jobs-Stays ids a j)

  start_job-Stays :
      (env : Env) (id : ℤ) (reqs : List PendingResource) (a : Agent)
      → J a.server
      → Stays (start_job env id reqs a)
  unfolding start_job
  start_job-Stays env id reqs a j =
      let p = env.fresh in
      let job : LocalJob = record {
        job_id = id;
        erlang_socket = a.erlangfd;
        origin_socket = negsuc 0;
        next_req = reqs;
        granted_reqs = [];
        timer = env.now;
      } in
      let o =
        tablahash_insert localjob_callbacks a.table_localjobs
          (record { job_id = id; address = p }) in
      let a₁ : Agent = record (write_job p (some job) a) { table_localjobs = o.table } in
      Serving.bind-Stays J kept (destr_localjobs o.destroyed a₁) _
        (Serving.destr_localjobs-Stays J kept o.destroyed a₁ j)
        (λ a₂ j₂. Serving.ask_for_next_resource-Stays J kept env.attempt p a₂ j₂)

  on_job_request-Stays :
      (env : Env) (args : List (List ℕ)) (a : Agent)
      → J a.server
      → Stays (on_job_request env args a)
  unfolding C_to_erlang
  on_job_request-Stays env [] a j = j
  on_job_request-Stays env (id ∷ []) a j = kept.untraced a.server _ j
  on_job_request-Stays env (id ∷ dest ∷ dests) a j =
      start_job-Stays env (atoi id) (parse_requests env a.table_nodes (dest ∷ dests)) a j

  released_at-Stays : (a : Agent) (o : Option JobRef) → J a.server → Stays (released_at a o)
  released_at-Stays a none j = j
  released_at-Stays a (some r) j = release_job-Stays r.address a j

  on_job_release-Stays :
      (args : List (List ℕ)) (a : Agent) → J a.server → Stays (on_job_release args a)
  on_job_release-Stays [] a j = j
  on_job_release-Stays (id ∷ more) a j = released_at-Stays a (find_localjob (atoi id) a) j

  status_at-Stays :
      (id : List ℕ) (a : Agent) (o : Option JobRef) → J a.server → Stays (status_at id a o)
  unfolding C_to_erlang
  status_at-Stays id a none j = kept.untraced a.server _ j
  status_at-Stays id a (some r) j =
      Serving.any-Stays J kept (a.jobs r.address) _ (λ job. kept.untraced a.server _ j)

  on_job_status-Stays :
      (args : List (List ℕ)) (a : Agent) → J a.server → Stays (on_job_status args a)
  on_job_status-Stays [] a j = j
  on_job_status-Stays (id ∷ more) a j = status_at-Stays id a (find_localjob (atoi id) a) j

  on_command-Stays :
      (env : Env) (words : List (List ℕ)) (a : Agent) → J a.server → Stays (on_command env words a)
  on_command-Stays env [] a j = j
  on_command-Stays env (word ∷ args) a j =
      Serving.if-Stays J kept (str_eq word (codes "JOB_REQUEST")) _ _
        (on_job_request-Stays env args a j)
        (Serving.if-Stays J kept (str_eq word (codes "JOB_RELEASE")) _ _
          (on_job_release-Stays args a j)
          (Serving.if-Stays J kept (str_eq word (codes "JOB_STATUS")) _ _
            (on_job_status-Stays args a j)
            (Serving.if-Stays J kept (str_eq word (codes "GET_NODES")) _ _
              (kept.untraced a.server _ j) j)))

  pub erlang_to_C-Stays :
      (env : Env) (instruction : List ℕ) (a : Agent)
      → J a.server
      → Stays (erlang_to_C env instruction a)
  unfolding erlang_to_C
  erlang_to_C-Stays env instruction a j =
      on_command-Stays env (get_token (bounded_copy buffer_len (c_string instruction)) 32) a j
