-- ===== src/Client/Commands.antt =====
-- The lines of the scheduler (`erlang_to_C` of agent/communications.c) keep the tables consistent.
use tp_sistemas_operativos_i.Prelude.{
  ℕ, ◌≡◌, ◌≢◌, refl, sym, ap, ◌∙◌, List, [], ◌∷◌, Option, none, some, true, false, ◌==◌,
  if◌then◌else◌, Bool-cases, Option-cases, inl, inr, arith,
}
use tp_sistemas_operativos_i.Prelude.Int.{ℤ, negsuc, eq_ℤ_iff}
use tp_sistemas_operativos_i.Prelude.Text.{codes, str_eq}
use tp_sistemas_operativos_i.HashTable.{tablahash_insert}
use tp_sistemas_operativos_i.HashTable.Total.{destroyed-insert, to_list}
use tp_sistemas_operativos_i.HashTable.Lookup.{find-congr}
use tp_sistemas_operativos_i.Domain.{PendingResource, LocalJob, localjob_callbacks, comp_localjob}
use tp_sistemas_operativos_i.Domain.Keys.{localjob_callbacks-IsKeyed}
use tp_sistemas_operativos_i.ResourceQueue.{bind-some}
use tp_sistemas_operativos_i.Wire.{atoi, get_token, bounded_copy}
use tp_sistemas_operativos_i.Wire.Messages.{rejected, timeout}
use tp_sistemas_operativos_i.Framing.{buffer_len}
use tp_sistemas_operativos_i.Nodes.{c_string}
use tp_sistemas_operativos_i.Client.{
  Agent, Env, JobHeap, C_to_erlang, find_localjob, destr_localjobs, write_job,
}
use tp_sistemas_operativos_i.Client.Scheduler.{
  erlang_to_C, status_of, on_command, on_job_request, on_job_release, on_job_status, start_job,
  parse_requests, released_at, status_at,
}
use tp_sistemas_operativos_i.Client.Dispatch.{if-Continues}
use tp_sistemas_operativos_i.Client.Ownership.{IsConsistent, Owned, ref_of, write, write_self}
use tp_sistemas_operativos_i.Client.Removal.{Unindexed}
use tp_sistemas_operativos_i.Client.Freeing.{Continues}
use tp_sistemas_operativos_i.Client.Asking.{AttemptFits, ask_for_next_resource-Continues}
use tp_sistemas_operativos_i.Client.Giving.{find_localjob-Owned, release_job-Continues}
use tp_sistemas_operativos_i.Client.Admission.{with_job, with_job-Consistent, ref_at-with_job}

-- What the operating system owes a command: `malloc` returns an address that is neither NULL nor in
-- use, and `socket` no negative descriptor.
pub record EnvFits (env : Env) (jobs : JobHeap) : Type 0 where
  pub allocated : (env.fresh == 0) ≡ false
  pub unused : jobs env.fresh ≡ none
  pub opens : AttemptFits env.attempt

none≢live : (job : LocalJob) → none ≢ some job
none≢live job e = cc

-- A JOB_REQUEST whose id is not in use.
start_job-Continues :
    (env : Env) (id : ℤ) (reqs : List PendingResource) (a : Agent)
    → EnvFits env a.jobs
    → find_localjob id a ≡ none
    → IsConsistent a
    → Continues (start_job env id reqs a)
unfolding start_job destr_localjobs find_localjob comp_localjob
start_job-Continues env id reqs a fits unlisted c =
    let p = env.fresh in
    let job : LocalJob = record {
      job_id = id;
      erlang_socket = a.erlangfd;
      origin_socket = negsuc 0;
      next_req = reqs;
      granted_reqs = [];
      timer = env.now;
    } in
    let t = with_job a.table_localjobs (ref_of job p) in
    let nothing : (tablahash_insert localjob_callbacks a.table_localjobs (ref_of job p)).destroyed
        ≡ [] =
      destroyed-insert localjob_callbacks a.table_localjobs (ref_of job p)
      ∙ ap to_list (
          find-congr localjob_callbacks localjob_callbacks-IsKeyed a.table_localjobs (ref_of job p)
            (record { job_id = id; address = 0 }) (ground (arith, (eq_ℤ_iff id id).1 refl))
          ∙ unlisted) in
    let own : Owned t (write a.jobs p (some job)) p job = (
      write_self a.jobs p (some job),
      ref_at-with_job a.table_localjobs (ref_of job p) id c.jobs_valid
          ∙ (let same = (eq_ℤ_iff id id).1 refl in rw same refl),
    ) in
    let free : Unindexed a.table_ourjobs p = λ fd e.
      let (other, owns, flies) = c.indexed fd p e in none≢live other (sym fits.unused ∙ owns.0) in
    let (a', e, c') =
      ask_for_next_resource-Continues env.attempt p job
        (record (write_job p (some job) a) { table_localjobs = t }) fits.opens own fits.allocated
        free
        (with_job-Consistent a.table_localjobs a.table_ourjobs a.jobs p job fits.unused unlisted
          c) in
    (a', (rw nothing e), c')

-- The id of a JOB_REQUEST that has destinations.
abbrev requested_of : List (List ℕ) → Option ℤ
requested_of (word ∷ id ∷ dest ∷ dests) =
    if str_eq word (codes "JOB_REQUEST") then some (atoi id) else none
requested_of _ = none

abbrev pub requested : List ℕ → Option ℤ
requested instruction = requested_of (get_token (bounded_copy buffer_len (c_string instruction)) 32)

on_job_release-Continues :
    (args : List (List ℕ)) (a : Agent) → IsConsistent a → Continues (on_job_release args a)
on_job_release-Continues [] a c = (a, refl, c)
on_job_release-Continues (id ∷ more) a c = elim (Option-cases (find_localjob (atoi id) a)) [
  | inl absent ↦ (a, ap (released_at a) absent, c)
  | inr (r, found) ↦
      let (job, own, _) = find_localjob-Owned a (atoi id) r c found in
      let (a', e, c') = release_job-Continues r.address job a own c in
      (a', ap (released_at a) found ∙ e, c')
]

on_job_status-Continues :
    (args : List (List ℕ)) (a : Agent) → IsConsistent a → Continues (on_job_status args a)
unfolding C_to_erlang
on_job_status-Continues [] a c = (a, refl, c)
on_job_status-Continues (id ∷ more) a c = elim (Option-cases (find_localjob (atoi id) a)) [
  | inl absent ↦ (C_to_erlang timeout id a, ap (status_at id a) absent, c)
  | inr (r, found) ↦
      let (job, own, _) = find_localjob-Owned a (atoi id) r c found in
      (
        C_to_erlang (status_of job.next_req) id a,
        ap (status_at id a) found ∙ bind-some (a.jobs r.address) job _ own.0,
        c,
      )
]

on_command-Continues :
    (env : Env) (words : List (List ℕ)) (a : Agent)
    → EnvFits env a.jobs
    → ((id : ℤ) → requested_of words ≡ some id → find_localjob id a ≡ none)
    → IsConsistent a
    → Continues (on_command env words a)
unfolding C_to_erlang
on_command-Continues env [] a fits new c = (a, refl, c)
on_command-Continues env (word ∷ args) a fits new c =
    elim (Bool-cases (str_eq word (codes "JOB_REQUEST"))) [
      | inl asks ↦ rw asks (requests args new asks)
      | inr other ↦ rw other (
          if-Continues (str_eq word (codes "JOB_RELEASE")) _ _ (on_job_release-Continues args a c) (
            if-Continues (str_eq word (codes "JOB_STATUS")) _ _ (on_job_status-Continues args a c)
              (if-Continues (str_eq word (codes "GET_NODES")) _ _ (_, refl, c) (a, refl, c))))
    ]
  where
    requests :
        (args : List (List ℕ))
        → ((id : ℤ) → requested_of (word ∷ args) ≡ some id → find_localjob id a ≡ none)
        → str_eq word (codes "JOB_REQUEST") ≡ true
        → Continues (on_job_request env args a)
    requests [] new asks = (a, refl, c)
    requests (id ∷ []) new asks = (C_to_erlang rejected id a, refl, c)
    requests (id ∷ dest ∷ dests) new asks =
        start_job-Continues env (atoi id) (parse_requests env a.table_nodes (dest ∷ dests)) a fits
          (new (atoi id) (rw asks refl)) c

-- From a consistent state, any line of the scheduler is handled to the end without a read of a freed
-- job, and leaves a consistent state, when a JOB_REQUEST brings an id that is not in use and the
-- operating system returns a fresh address and no negative descriptor.
pub erlang_to_C-IsConsistent :
    (env : Env) (instruction : List ℕ) (a : Agent)
    → EnvFits env a.jobs
    → ((id : ℤ) → requested instruction ≡ some id → find_localjob id a ≡ none)
    → IsConsistent a
    → (a' : Agent) × (erlang_to_C env instruction a ≡ some a') × IsConsistent a'
unfolding erlang_to_C
erlang_to_C-IsConsistent env instruction a fits new c =
    on_command-Continues env (get_token (bounded_copy buffer_len (c_string instruction)) 32) a fits
      new c
