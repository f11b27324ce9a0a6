-- ===== src/Client/Remote.antt =====
-- agent/communications.c: `client_to_myserver`, the line of a peer.
use tp_sistemas_operativos_i.Prelude.{
  ℕ, List, [], ◌∷◌, Bool, true, false, Option, none, some, if◌then◌else◌,
}
use tp_sistemas_operativos_i.Prelude.Int.{ℤ, eq_ℤ}
use tp_sistemas_operativos_i.Prelude.Text.{codes, str_eq}
use tp_sistemas_operativos_i.Kernel.{epoll_del}
use tp_sistemas_operativos_i.Domain.{LocalJob}
use tp_sistemas_operativos_i.ResourceQueue.{◌>>=◌}
use tp_sistemas_operativos_i.Server.{enqueue_jobs, release_client_by_fd}
use tp_sistemas_operativos_i.Wire.{atoi, get_token, bounded_copy}
use tp_sistemas_operativos_i.Framing.{buffer_len}
use tp_sistemas_operativos_i.Nodes.{c_string}
use tp_sistemas_operativos_i.Client.{
  Agent, Env, emit, write_job, remove_fd, find_job, ask_for_next_resource, reject_job,
}

-- The head of `next_req` becomes the head of `granted_reqs`.
abbrev pub advanced : ℤ → LocalJob → LocalJob
advanced fd job = elim job.next_req [
  | [] ↦ job
  | req ∷ reqs ↦ record job {
    next_req = reqs;
    granted_reqs = record req { provider_fd = fd } ∷ job.granted_reqs;
  }
]

-- The job has made progress: its clock restarts, and its socket leaves the index and epoll.
abbrev pub progressed : Env → ℤ → ℕ → LocalJob → Agent → Agent
progressed env fd p job a =
    emit (epoll_del fd)
      (remove_fd fd (write_job p (some (record (advanced fd job) { timer = env.now })) a))

abbrev pub granted_if : Bool → Env → ℤ → ℕ → LocalJob → Agent → Option Agent
granted_if true env fd p job a = ask_for_next_resource env.attempt p (progressed env fd p job a)
granted_if false env fd p job a = some a

unfoldable pub grant_job : Env → ℤ → ℤ → ℕ → Agent → Option Agent
unfolding ask_for_next_resource
grant_job env fd received_job_id p a = do
  job ← a.jobs p
  granted_if (eq_ℤ job.job_id received_job_id) env fd p job a

abbrev pub granted_at : Env → ℤ → ℤ → Agent → Option ℕ → Option Agent
granted_at env fd id a none = some a
granted_at env fd id a (some p) = grant_job env fd id p a

abbrev pub on_reserve : Env → ℤ → List (List ℕ) → Agent → Agent
on_reserve env fd (id ∷ resource ∷ amount ∷ more) a = record a {
  server = enqueue_jobs env.peer a.server resource (atoi id) (atoi amount) fd;
}
on_reserve env fd _ a = a

abbrev pub on_granted : Env → ℤ → List (List ℕ) → Agent → Option Agent
on_granted env fd (id ∷ more) a = granted_at env fd (atoi id) a (find_job fd a)
on_granted env fd [] a = some a

abbrev pub denied_at : ℤ → Agent → Option ℕ → Option Agent
denied_at fd a none = some a
denied_at fd a (some p) = reject_job fd p a

abbrev pub on_denied : ℤ → List (List ℕ) → Agent → Option Agent
on_denied fd (id ∷ more) a = denied_at fd a (find_job fd a)
on_denied fd [] a = some a

abbrev pub dispatched : Env → ℤ → List (List ℕ) → Agent → Option Agent
dispatched env fd [] a = some a
dispatched env fd (word ∷ args) a =
    if str_eq word (codes "RESERVE")
    then some (on_reserve env fd args a)
    else (if str_eq word (codes "RELEASE")
        then some (record a { server = release_client_by_fd env.peer a.server fd })
        else (if str_eq word (codes "GRANTED")
            then on_granted env fd args a
            else on_denied fd args a))

unfoldable pub client_to_myserver : Env → ℤ → List ℕ → Agent → Option Agent
unfolding get_token enqueue_jobs release_client_by_fd grant_job reject_job find_job
client_to_myserver env fd instruction a =
    dispatched env fd (get_token (bounded_copy buffer_len (c_string instruction)) 10) a
