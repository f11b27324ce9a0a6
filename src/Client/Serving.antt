-- ===== src/Client/Serving.antt =====
-- What the client side does to the server side of its agent: a RESERVE and a RELEASE are its calls,
-- and everything else leaves the queues and the reservations as they are (agent/communications.c,
-- agent/utils.c, agent/timer.c, `send_request` of agent/loopfunc.c).
use tp_sistemas_operativos_i.Prelude.{
  ℕ, List, [], ◌∷◌, Option, none, some, Bool, true, false, if◌then◌else◌,
}
use tp_sistemas_operativos_i.Prelude.Int.{ℤ, eq_ℤ}
use tp_sistemas_operativos_i.Prelude.Text.{codes, str_eq}
use tp_sistemas_operativos_i.Kernel.{Effect}
use tp_sistemas_operativos_i.HashTable.{tablahash_remove}
use tp_sistemas_operativos_i.Domain.{PendingResource, LocalJob, JobRef, localjob_callbacks}
use tp_sistemas_operativos_i.ResourceQueue.{◌>>=◌}
use tp_sistemas_operativos_i.Wire.{print_int, atoi, get_token, bounded_copy}
use tp_sistemas_operativos_i.Wire.Messages.{rejected}
use tp_sistemas_operativos_i.Framing.{buffer_len}
use tp_sistemas_operativos_i.Nodes.{c_string}
use tp_sistemas_operativos_i.Server.{Server}
use tp_sistemas_operativos_i.Server.Events.{Event, reserves, releases, step}
use tp_sistemas_operativos_i.Client.{
  Agent, Env, Attempt, no_socket, refused, opened, unregistered, C_to_erlang, register,
  release_resources, destr_localjobs, remove_localjob, ask_for_next_resource, next_asked,
  reject_job, handle_outbound_disconnect, rejected_at, send_request, sent_for, reserve_sent,
  find_job, remove_fd,
}
use tp_sistemas_operativos_i.Client.Remote.{
  client_to_myserver, dispatched, on_reserve, on_granted, on_denied, granted_at, denied_at,
  grant_job, granted_if, progressed,
}

-- An invariant of the server side that does not speak of the trace, and that its calls keep.
pub record IsKept (J : Server → Type 0) : Type 0 where
  pub untraced : (s : Server) (t : List Effect) → J s → J (record s { trace = t })
  pub served : (s : Server) (e : Event) → J s → J (step s e)

module _ (J : Server → Type 0) (kept : IsKept J) where
  -- What the step gives, if it gives something, satisfies the invariant.
  abbrev pub Stays : Option Agent → Type 0
  Stays none = Unit {0}
  Stays (some a) = J a.server

  pub bind-Stays :
      (o : Option Agent) (f : Agent → Option Agent)
      → Stays o
      → ((a : Agent) → J a.server → Stays (f a))
      → Stays (o >>= f)
  bind-Stays none f h k = tt
  bind-Stays (some a) f h k = k a h

  pub any-Stays :
      {A : Type 0} (o : Option A) (f : A → Option Agent) → ((x : A) → Stays (f x)) → Stays (o >>= f)
  any-Stays none f k = tt
  any-Stays (some x) f k = k x

  pub release_resources-Stays : (p : ℕ) (a : Agent) → J a.server → Stays (release_resources p a)
  unfolding release_resources
  release_resources-Stays p a j = any-Stays (a.jobs p) _ (λ job. kept.untraced a.server _ j)

  pub destr_localjobs-Stays :
      (rs : List JobRef) (a : Agent) → J a.server → Stays (destr_localjobs rs a)
  unfolding destr_localjobs
  destr_localjobs-Stays [] a j = j
  destr_localjobs-Stays (r ∷ rs) a j =
      any-Stays (a.jobs r.address) _ (λ job. destr_localjobs-Stays rs _ j)

  pub remove_localjob-Stays : (p : ℕ) (a : Agent) → J a.server → Stays (remove_localjob p a)
  unfolding remove_localjob
  remove_localjob-Stays p a j = any-Stays (a.jobs p) _ (λ job.
      let o =
        tablahash_remove localjob_callbacks a.table_localjobs
          (record { job_id = job.job_id; address = p }) in
      destr_localjobs-Stays o.destroyed (record a { table_localjobs = o.table }) j)

  next_asked-J :
      (attempt : Attempt) (p : ℕ) (job : LocalJob) (reqs : List PendingResource) (a : Agent)
      → J a.server
      → J (next_asked attempt p job reqs a).server
  unfolding C_to_erlang register
  next_asked-J attempt p job [] a j = kept.untraced a.server _ j
  next_asked-J no_socket p job (req ∷ reqs) a j = j
  next_asked-J (refused fd) p job (req ∷ reqs) a j = kept.untraced a.server _ j
  next_asked-J (opened fd) p job (req ∷ reqs) a j = kept.untraced a.server _ j
  next_asked-J (unregistered fd) p job (req ∷ reqs) a j = kept.untraced a.server _ j

  pub ask_for_next_resource-Stays :
      (attempt : Attempt) (p : ℕ) (a : Agent)
      → J a.server
      → Stays (ask_for_next_resource attempt p a)
  unfolding ask_for_next_resource
  ask_for_next_resource-Stays attempt p a j =
      any-Stays (a.jobs p) _ (λ job. next_asked-J attempt p job job.next_req a j)

  reject_job-Stays : (fd : ℤ) (p : ℕ) (a : Agent) → J a.server → Stays (reject_job fd p a)
  unfolding reject_job C_to_erlang
  reject_job-Stays fd p a j = any-Stays (a.jobs p) _ (λ job.
      bind-Stays (release_resources p (remove_fd fd a)) _
        (release_resources-Stays p (remove_fd fd a) j)
        (λ a' j'.
          remove_localjob-Stays p (C_to_erlang rejected (print_int job.job_id) a')
            (kept.untraced a'.server _ j')))

  rejected_at-Stays : (fd : ℤ) (a : Agent) (o : Option ℕ) → J a.server → Stays (rejected_at fd a o)
  rejected_at-Stays fd a none j = j
  rejected_at-Stays fd a (some p) j = reject_job-Stays fd p a j

  pub handle_outbound_disconnect-Stays :
      (fd : ℤ) (a : Agent) → J a.server → Stays (handle_outbound_disconnect fd a)
  unfolding handle_outbound_disconnect
  handle_outbound_disconnect-Stays fd a j = rejected_at-Stays fd a (find_job fd a) j

  sent_for-Stays : (fd : ℤ) (a : Agent) (o : Option ℕ) → J a.server → Stays (sent_for fd a o)
  sent_for-Stays fd a none j = j
  sent_for-Stays fd a (some p) j = any-Stays (a.jobs p) _ (λ job. asked job job.next_req)
    where
      asked : (job : LocalJob) (reqs : List PendingResource) → J (reserve_sent fd job reqs a).server
      asked job [] = j
      asked job (req ∷ reqs) = kept.untraced a.server _ j

  pub send_request-Stays : (fd : ℤ) (a : Agent) → J a.server → Stays (send_request fd a)
  unfolding send_request
  send_request-Stays fd a j = sent_for-Stays fd a (find_job fd a) j

  granted_if-Stays :
      (same : Bool) (env : Env) (fd : ℤ) (p : ℕ) (job : LocalJob) (a : Agent)
      → J a.server
      → Stays (granted_if same env fd p job a)
  granted_if-Stays true env fd p job a j =
      ask_for_next_resource-Stays env.attempt p (progressed env fd p job a)
        (kept.untraced a.server _ j)
  granted_if-Stays false env fd p job a j = j

  granted_at-Stays :
      (env : Env) (fd id : ℤ) (a : Agent) (o : Option ℕ)
      → J a.server
      → Stays (granted_at env fd id a o)
  unfolding grant_job
  granted_at-Stays env fd id a none j = j
  granted_at-Stays env fd id a (some p) j =
      any-Stays (a.jobs p) _ (λ job. granted_if-Stays (eq_ℤ job.job_id id) env fd p job a j)

  denied_at-Stays : (fd : ℤ) (a : Agent) (o : Option ℕ) → J a.server → Stays (denied_at fd a o)
  denied_at-Stays fd a none j = j
  denied_at-Stays fd a (some p) j = reject_job-Stays fd p a j

  on_reserve-J :
      (env : Env) (fd : ℤ) (args : List (List ℕ)) (a : Agent)
      → J a.server
      → J (on_reserve env fd args a).server
  unfolding step
  on_reserve-J env fd [] a j = j
  on_reserve-J env fd (id ∷ []) a j = j
  on_reserve-J env fd (id ∷ kind ∷ []) a j = j
  on_reserve-J env fd (id ∷ kind ∷ amount ∷ more) a j =
      kept.served a.server (reserves env.peer kind _ _ fd) j

  pub if-Stays : (b : Bool) (x y : Option Agent) → Stays x → Stays y → Stays (if b then x else y)
  if-Stays true x y h k = h
  if-Stays false x y h k = k

  on_granted-Stays :
      (env : Env) (fd : ℤ) (args : List (List ℕ)) (a : Agent)
      → J a.server
      → Stays (on_granted env fd args a)
  on_granted-Stays env fd [] a j = j
  on_granted-Stays env fd (id ∷ more) a j = granted_at-Stays env fd (atoi id) a (find_job fd a) j

  on_denied-Stays :
      (fd : ℤ) (args : List (List ℕ)) (a : Agent) → J a.server → Stays (on_denied fd args a)
  on_denied-Stays fd [] a j = j
  on_denied-Stays fd (id ∷ more) a j = denied_at-Stays fd a (find_job fd a) j

  dispatched-Stays :
      (env : Env) (fd : ℤ) (words : List (List ℕ)) (a : Agent)
      → J a.server
      → Stays (dispatched env fd words a)
  unfolding step
  dispatched-Stays env fd [] a j = j
  dispatched-Stays env fd (word ∷ args) a j =
      if-Stays (str_eq word (codes "RESERVE")) _ _ (on_reserve-J env fd args a j) (
        if-Stays (str_eq word (codes "RELEASE")) _ _ (kept.served a.server (releases env.peer fd) j)
          (if-Stays (str_eq word (codes "GRANTED")) _ _ (on_granted-Stays env fd args a j)
            (on_denied-Stays fd args a j)))

  pub client_to_myserver-Stays :
      (env : Env) (fd : ℤ) (instruction : List ℕ) (a : Agent)
      → J a.server
      → Stays (client_to_myserver env fd instruction a)
  unfolding client_to_myserver
  client_to_myserver-Stays env fd instruction a j =
      dispatched-Stays env fd (get_token (bounded_copy buffer_len (c_string instruction)) 10) a j
