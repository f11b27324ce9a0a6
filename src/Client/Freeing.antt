-- ===== src/Client/Freeing.antt =====
-- How a job is given up: its request in flight is torn down, its providers are released, and it
-- leaves its table (`release_resources` of agent/utils.c, and the ends of JOB_RELEASE in
-- agent/communications.c and of a timeout in agent/timer.c).
use tp_sistemas_operativos_i.Prelude.{
  ℕ, ◌≡◌, ◌≢◌, refl, sym, ap, ◌∙◌, map, Option, none, some, Bool-cases, Option-cases, inl, inr,
  arith,
}
use tp_sistemas_operativos_i.Prelude.Int.{ℤ, pos, eq_ℤ, eq_ℤ_iff, leb_ℤ}
use tp_sistemas_operativos_i.HashTable.{HashTable, tablahash_find}
use tp_sistemas_operativos_i.Domain.{LocalJob, JobRef, FdJobEntry, fd_callbacks}
use tp_sistemas_operativos_i.ResourceQueue.{◌>>=◌, bind-some}
use tp_sistemas_operativos_i.Kernel.{closed, epoll_del}
use tp_sistemas_operativos_i.Client.{
  Agent, JobHeap, release_resources, remove_localjob, write_job, given_up, release_all, tear_down,
  job_of, fd_key, emit, remove_fd,
}
use tp_sistemas_operativos_i.Client.Ownership.{
  Owned, Consistent, IsConsistent, ref_of, job_at, without_fd, without_job, write,
  job_at-without_fd, if-some, without_fd-Consistent, some-injective, changed-Consistent,
}
use tp_sistemas_operativos_i.Client.Removal.{Unindexed, dropped-Consistent, remove_localjob-Owned}

-- The step reads no freed job, and what it gives is consistent.
abbrev pub Continues : Option Agent → Type 0
Continues o = (a' : Agent) × (o ≡ some a') × IsConsistent a'

pub bind-Continues :
    (o : Option Agent) (f : Agent → Option Agent)
    → Continues o
    → ((a : Agent) → o ≡ some a → IsConsistent a → Continues (f a))
    → Continues (o >>= f)
bind-Continues o f (a, e, c) h = let (a', e', c') = h a e c in (a', bind-some o a f e ∙ e', c')

abbrev pub released : LocalJob → LocalJob
released job = record job { granted_reqs = map given_up job.granted_reqs }

-- The agent when the providers of a job are released.
abbrev pub let_go : ℕ → LocalJob → Agent → Agent
let_go p job a = write_job p (some (released job)) (record a {
  server = record a.server { trace = release_all job.job_id job.granted_reqs a.server.trace };
})

pub release_resources-live :
    (p : ℕ) (job : LocalJob) (a : Agent)
    → a.jobs p ≡ some job
    → release_resources p a ≡ some (let_go p job a)
unfolding release_resources
release_resources-live p job a live = bind-some (a.jobs p) job _ live

pub let_go-Consistent :
    (p : ℕ) (job : LocalJob) (a : Agent)
    → Owned a.table_localjobs a.jobs p job
    → IsConsistent a
    → Consistent a.table_localjobs a.table_ourjobs (write a.jobs p (some (released job)))
let_go-Consistent p job a own c =
    changed-Consistent a.table_localjobs a.table_ourjobs a.jobs p job (released job) own.0 refl refl
      c

-- The socket of an owned job's request in flight is the only one that is mapped to it.
pub own-Unindexed :
    (t : HashTable JobRef) (fds : HashTable FdJobEntry) (jobs : JobHeap) (p : ℕ) (job : LocalJob)
    → Consistent t fds jobs
    → Owned t jobs p job
    → (fd : ℤ) → job_at fds fd ≡ some p
    → job.origin_socket ≡ fd
own-Unindexed t fds jobs p job c own fd e =
    let (job', own', flies) = c.indexed fd p e in
    let equal = some-injective job job' (sym own.0 ∙ own'.0) in
    ap (λ (j : LocalJob). j.origin_socket) equal ∙ flies

pub without_fd-Unindexed :
    (t : HashTable JobRef) (fds : HashTable FdJobEntry) (jobs : JobHeap) (p : ℕ) (job : LocalJob)
    → Consistent t fds jobs
    → Owned t jobs p job
    → Unindexed (without_fd fds job.origin_socket) p
without_fd-Unindexed t fds jobs p job c own fd e =
    let (apart, old) =
      if-some (eq_ℤ job.origin_socket fd) (job_at fds fd) p
        (sym (job_at-without_fd fds job.origin_socket fd c.fds_valid) ∙ e) in
    let same = own-Unindexed t fds jobs p job c own fd old in
    ground (arith, (eq_ℤ_iff job.origin_socket fd).1 same, apart)

pub mapped-Unindexed :
    (t : HashTable JobRef) (fds : HashTable FdJobEntry) (jobs : JobHeap) (fd : ℤ) (p : ℕ)
    → Consistent t fds jobs
    → job_at fds fd ≡ some p
    → Unindexed (without_fd fds fd) p
mapped-Unindexed t fds jobs fd p c e =
    let (job, own, flies) = c.indexed fd p e in
    rw (← flies) (without_fd-Unindexed t fds jobs p job c own)

none-some : (p : ℕ) → none ≢ some p
none-some p e = cc

-- A job whose request in flight is torn down is still owned, and no socket is mapped to it.
pub tear_down-live :
    (p : ℕ) (job : LocalJob) (a : Agent)
    → Owned a.table_localjobs a.jobs p job
    → IsConsistent a
    → (a' : Agent) × (tear_down p a ≡ some a')
      × IsConsistent a'
      × Owned a'.table_localjobs a'.jobs p job
      × Unindexed a'.table_ourjobs p
      × (a'.table_localjobs ≡ a.table_localjobs)
      × (a'.jobs ≡ a.jobs)
unfolding tear_down
tear_down-live p job a own c = elim (Bool-cases (leb_ℤ (pos 0) job.origin_socket)) [
  | inr idle ↦ (
    a,
    bind-some (a.jobs p) job _ own.0 ∙ (rw idle refl),
    c,
    own,
    λ fd e.
        let flown = c.flying fd p e in
        let same = own-Unindexed a.table_localjobs a.table_ourjobs a.jobs p job c own fd e in
        ground (arith, ap (leb_ℤ (pos 0)) same, flown, idle),
    refl,
    refl,
  )
  | inl flies ↦
      elim (Option-cases (tablahash_find fd_callbacks a.table_ourjobs (fd_key job.origin_socket))) [
        | inl absent ↦ (
          a,
          bind-some (a.jobs p) job _ own.0 ∙ (rw (flies, absent) refl),
          c,
          own,
          λ fd e.
              let same = own-Unindexed a.table_localjobs a.table_ourjobs a.jobs p job c own fd e in
              none-some p (sym (ap job_of absent) ∙ ap (job_at a.table_ourjobs) same ∙ e),
          refl,
          refl,
        )
        | inr (entry, found) ↦ (
          emit (closed job.origin_socket)
              (emit (epoll_del job.origin_socket) (remove_fd job.origin_socket a)),
          bind-some (a.jobs p) job _ own.0 ∙ (rw (flies, found) refl),
          without_fd-Consistent a.table_localjobs a.table_ourjobs a.jobs job.origin_socket c,
          own,
          without_fd-Unindexed a.table_localjobs a.table_ourjobs a.jobs p job c own,
          refl,
          refl,
        )
      ]
]

-- An owned job that no socket is mapped to leaves its table and is freed.
pub remove_localjob-Continues :
    (p : ℕ) (job : LocalJob) (a : Agent)
    → Owned a.table_localjobs a.jobs p job
    → Unindexed a.table_ourjobs p
    → IsConsistent a
    → Continues (remove_localjob p a)
remove_localjob-Continues p job a own free c = (
  write_job p none (record a { table_localjobs = without_job a.table_localjobs (ref_of job p) }),
  remove_localjob-Owned a p job own,
  dropped-Consistent a.table_localjobs a.table_ourjobs a.jobs p job own free c,
)
