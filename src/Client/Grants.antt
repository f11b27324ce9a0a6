-- ===== src/Client/Grants.antt =====
-- What a GRANTED line does to a job that waits for it (`client_to_myserver` and `ask_for_next_resource`
-- of agent/communications.c): the job, the index of sockets and the calls, written out.
use tp_sistemas_operativos_i.Prelude.{
  ℕ, ◌≤◌, ◌≡◌, refl, ap, ◌∙◌, List, [], ◌∷◌, ◌++◌, none, some, Option, true, false, ◌==◌, ltb,
  lt→ltb, if◌then◌else◌, Bool-cases, inl, inr, length, arith,
}
use tp_sistemas_operativos_i.Prelude.Int.{ℤ, eq_ℤ}
use tp_sistemas_operativos_i.Prelude.Text.{codes}
use tp_sistemas_operativos_i.Kernel.{Effect, sent, closed, connecting, epoll_add, epoll_del}
use tp_sistemas_operativos_i.HashTable.{tablahash_find}
use tp_sistemas_operativos_i.HashTable.Valid.{IsValid, remove-IsValid, insert-IsValid}
use tp_sistemas_operativos_i.Domain.{PendingResource, LocalJob, fd_callbacks}
use tp_sistemas_operativos_i.Domain.Keys.{fd_callbacks-IsKeyed}
use tp_sistemas_operativos_i.Wire.{print_int}
use tp_sistemas_operativos_i.Server.{granted_message}
use tp_sistemas_operativos_i.Framing.{buffer_len}
use tp_sistemas_operativos_i.Client.{
  Agent, Env, Attempt, no_socket, refused, opened, unregistered, find_job, fd_key,
  ask_for_next_resource, next_asked, register, C_to_erlang,
}
use tp_sistemas_operativos_i.Client.Remote.{advanced, client_to_myserver}
use tp_sistemas_operativos_i.Client.Ownership.{
  job_at, without_fd, job_at-without_fd, write, write_self,
}
use tp_sistemas_operativos_i.Client.Admission.{with_fd, job_at-with_fd}
use tp_sistemas_operativos_i.Client.Messages.{client_to_myserver-granted_message}
use tp_sistemas_operativos_i.Client.Asking.{job_of-address}

pub advanced-next :
    (fd : ℤ) (j : LocalJob) (r : PendingResource) (rs : List PendingResource)
    → j.next_req ≡ r ∷ rs
    → advanced fd j
      ≡ record j { next_req = rs; granted_reqs = record r { provider_fd = fd } ∷ j.granted_reqs }
advanced-next fd j r rs e = ground arith

-- The calls for what is left of a job's requests, the newest first.
abbrev pub asked : Attempt → ℤ → ℤ → List PendingResource → List Effect
asked attempt erlangfd id [] =
    sent erlangfd (codes "JOB_GRANTED " ++ (print_int id ++ 10 ∷ [])) ∷ []
asked no_socket erlangfd id (r ∷ rs) = []
asked (refused s) erlangfd id (r ∷ rs) = closed s ∷ connecting s r.dest_ip r.dest_port ∷ []
asked (opened s) erlangfd id (r ∷ rs) = epoll_add s ∷ connecting s r.dest_ip r.dest_port ∷ []
asked (unregistered s) erlangfd id (r ∷ rs) = closed s ∷ connecting s r.dest_ip r.dest_port ∷ []

-- The socket that the job has for its next request.
abbrev pub socket_after : Attempt → ℤ → List PendingResource → ℤ
socket_after attempt fd [] = fd
socket_after no_socket fd (r ∷ rs) = fd
socket_after (refused s) fd (r ∷ rs) = fd
socket_after (opened s) fd (r ∷ rs) = s
socket_after (unregistered s) fd (r ∷ rs) = s

-- The job at `p` that a socket leads to, from what it led to before.
abbrev pub index_after : Attempt → ℕ → List PendingResource → ℤ → Option ℕ → Option ℕ
index_after attempt p [] fd before = before
index_after no_socket p (r ∷ rs) fd before = before
index_after (refused s) p (r ∷ rs) fd before = before
index_after (opened s) p (r ∷ rs) fd before = if eq_ℤ s fd then some p else before
index_after (unregistered s) p (r ∷ rs) fd before = if eq_ℤ s fd then none else before

-- The job after the grant of its first request `req` at the time `now`, with `reqs` behind it.
abbrev pub job_after :
    Attempt → ℤ → ℤ → LocalJob → PendingResource → List PendingResource → LocalJob
job_after attempt now fd job req reqs = record {
  job_id = job.job_id;
  erlang_socket = job.erlang_socket;
  origin_socket = socket_after attempt job.origin_socket reqs;
  next_req = reqs;
  granted_reqs = record req { provider_fd = fd } ∷ job.granted_reqs;
  timer = now;
}

-- What a GRANTED on `fd` for the job at `p` makes of the agent `a`: the job changes and no other does,
-- `fd` leaves the index, and the next request is made.
pub record Grants (attempt : Attempt) (now fd : ℤ) (p : ℕ) (job : LocalJob) (req : PendingResource)
    (reqs : List PendingResource) (a a' : Agent) : Type 0 where
  pub granted : a'.jobs p ≡ some (job_after attempt now fd job req reqs)
  pub others : (q : ℕ) → (q == p) ≡ false → a'.jobs q ≡ a.jobs q
  pub index :
      (fd' : ℤ)
      → find_job fd' a'
        ≡ index_after attempt p reqs fd' (if eq_ℤ fd fd' then none else find_job fd' a)
  pub owner : a'.table_localjobs ≡ a.table_localjobs
  pub nodes : a'.table_nodes ≡ a.table_nodes
  pub scheduler : a'.erlangfd ≡ a.erlangfd
  pub server : a'.server ≡ record a.server {
    trace = asked attempt a.erlangfd job.job_id reqs ++ epoll_del fd ∷ a.server.trace;
  }

write_twice :
    (a : Agent) (p q : ℕ) (j k : LocalJob)
    → (q == p) ≡ false
    → write (write a.jobs p (some j)) p (some k) q ≡ a.jobs q
write_twice a p q j k e = rw e refl

module _ (now fd : ℤ) (p : ℕ) (job : LocalJob) (req : PendingResource) (a : Agent)
    (valid : IsValid fd_callbacks a.table_ourjobs) (address : (p == 0) ≡ false) where
  -- The job that has made progress, and the agent.
  abbrev advanced_job : List PendingResource → LocalJob
  advanced_job reqs = record job {
    next_req = reqs;
    granted_reqs = record req { provider_fd = fd } ∷ job.granted_reqs;
    timer = now;
  }

  abbrev between : List PendingResource → Agent
  between reqs = record a {
    jobs = write a.jobs p (some (advanced_job reqs));
    table_ourjobs = without_fd a.table_ourjobs fd;
    server = record a.server { trace = epoll_del fd ∷ a.server.trace };
  }

  unwatched :
      (fd' : ℤ)
      → job_at (without_fd a.table_ourjobs fd) fd'
        ≡ (if eq_ℤ fd fd' then none else job_at a.table_ourjobs fd')
  unwatched fd' = job_at-without_fd a.table_ourjobs fd fd' valid

  unwatched-IsValid : IsValid fd_callbacks (without_fd a.table_ourjobs fd)
  unwatched-IsValid =
      remove-IsValid fd_callbacks fd_callbacks-IsKeyed a.table_ourjobs (fd_key fd) valid

  watched :
      (s fd' : ℤ)
      → job_at (with_fd (without_fd a.table_ourjobs fd) s p) fd' ≡ (
          if eq_ℤ s fd' then some p else (if eq_ℤ fd fd' then none else job_at a.table_ourjobs fd'))
  watched s fd' =
      job_at-with_fd (without_fd a.table_ourjobs fd) s fd' p address unwatched-IsValid
      ∙ ap (λ (o : Option ℕ). if eq_ℤ s fd' then some p else o) (unwatched fd')

  given_back :
      (s fd' : ℤ)
      → job_at (without_fd (with_fd (without_fd a.table_ourjobs fd) s p) s) fd'
        ≡ (if eq_ℤ s fd' then none else (if eq_ℤ fd fd' then none else job_at a.table_ourjobs fd'))
  given_back s fd' =
      job_at-without_fd (with_fd (without_fd a.table_ourjobs fd) s p) s fd' (
        insert-IsValid fd_callbacks fd_callbacks-IsKeyed (without_fd a.table_ourjobs fd)
          (record { fd = s; job = p }) unwatched-IsValid)
      ∙ elim (Bool-cases (eq_ℤ s fd')) [
        | inl same ↦ rw same refl
        | inr other ↦ rw other (watched s fd' ∙ (rw other refl))
      ]

  next_asked-Grants :
      (attempt : Attempt) (reqs : List PendingResource)
      → length (granted_message job.job_id) ≤ 63
      → Grants attempt now fd p job req reqs a
          (next_asked attempt p (advanced_job reqs) reqs (between reqs))
  unfolding C_to_erlang register find_job granted_message
  next_asked-Grants attempt [] short =
      let fits : ltb (length (codes "JOB_GRANTED " ++ (print_int job.job_id ++ 10 ∷ []))) buffer_len
          ≡ true =
        lt→ltb _ _ (omega arith) in
      record {
        granted = write_self a.jobs p (some (advanced_job []));
        others = λ q e. rw e refl;
        index = unwatched;
        owner = refl;
        nodes = refl;
        scheduler = refl;
        server = rw fits refl;
      }
  next_asked-Grants no_socket (r ∷ rs) short = record {
    granted = write_self a.jobs p (some (advanced_job (r ∷ rs)));
    others = λ q e. rw e refl;
    index = unwatched;
    owner = refl;
    nodes = refl;
    scheduler = refl;
    server = refl;
  }
  next_asked-Grants (refused s) (r ∷ rs) short = record {
    granted = write_self a.jobs p (some (advanced_job (r ∷ rs)));
    others = λ q e. rw e refl;
    index = unwatched;
    owner = refl;
    nodes = refl;
    scheduler = refl;
    server = refl;
  }
  next_asked-Grants (opened s) (r ∷ rs) short =
      let flying = some (record (advanced_job (r ∷ rs)) { origin_socket = s }) in
      record {
        granted = write_self (write a.jobs p (some (advanced_job (r ∷ rs)))) p flying;
        others = λ q e. write_twice a p q (advanced_job (r ∷ rs)) _ e;
        index = watched s;
        owner = refl;
        nodes = refl;
        scheduler = refl;
        server = refl;
      }
  next_asked-Grants (unregistered s) (r ∷ rs) short =
      let flying = some (record (advanced_job (r ∷ rs)) { origin_socket = s }) in
      record {
        granted = write_self (write a.jobs p (some (advanced_job (r ∷ rs)))) p flying;
        others = λ q e. write_twice a p q (advanced_job (r ∷ rs)) _ e;
        index = given_back s;
        owner = refl;
        nodes = refl;
        scheduler = refl;
        server = refl;
      }

-- The GRANTED that a peer sends for a job, on a connection `fd` that the index, a valid table, maps to
-- that live job, which waits for `req` and then for `reqs`, where the message fits in the 64 bytes of
-- the sender's array. No fault occurs. The job holds `req` with `fd` as its provider, waits for `reqs`
-- and has its clock restarted; no other job changes. The index loses `fd`. The agent takes `fd` out of
-- epoll. Without a next request it sends JOB_GRANTED to the scheduler; otherwise it connects for the
-- next request if `socket` succeeds, closes the new socket if `connect` or `epoll_ctl` fails, and has it
-- in the index for the job if both succeed. It makes no other call.
pub client_to_myserver-granted_message-Grants :
    (env : Env) (fd : ℤ) (a : Agent) (p : ℕ) (job : LocalJob) (req : PendingResource)
    (reqs : List PendingResource)
    → IsValid fd_callbacks a.table_ourjobs
    → length (granted_message job.job_id) ≤ 63
    → find_job fd a ≡ some p
    → a.jobs p ≡ some job
    → job.next_req ≡ req ∷ reqs
    → (a' : Agent) × (client_to_myserver env fd (granted_message job.job_id) a ≡ some a')
      × Grants env.attempt env.now fd p job req reqs a a'
unfolding ask_for_next_resource find_job
client_to_myserver-granted_message-Grants env fd a p job req reqs valid short found live waits =
    let address =
      job_of-address (tablahash_find fd_callbacks a.table_ourjobs (fd_key fd)) p found in
    let k = next_asked-Grants env.now fd p job req a valid address env.attempt reqs short in
    let here : (p == p) ≡ true = ground arith in
    (
      next_asked env.attempt p (advanced_job env.now fd p job req a valid address reqs) reqs
          (between env.now fd p job req a valid address reqs),
      client_to_myserver-granted_message env fd job.job_id a p job (omega arith) found live refl
          ∙ (rw (advanced-next fd job req reqs waits, here) refl),
      k,
    )
