-- ===== src/Client/Ownership.antt =====
-- Who owns the jobs: `table_localjobs` holds live cells under their own ids, and `table_ourjobs` maps
-- the socket of a request in flight to a job that is owned. A rejection keeps that, and so reads no
-- freed cell.
use tp_sistemas_operativos_i.Prelude.{
  ℕ, ◌≡◌, refl, sym, ap, ◌∙◌, Option, none, some, Bool, true, false, ◌==◌, if◌then◌else◌,
  Bool-cases, inl, inr, arith,
}
use tp_sistemas_operativos_i.Prelude.Int.{ℤ, pos, eq_ℤ, leb_ℤ}
use tp_sistemas_operativos_i.HashTable.{HashTable, tablahash_find, tablahash_remove}
use tp_sistemas_operativos_i.HashTable.Valid.{IsValid, remove-IsValid}
use tp_sistemas_operativos_i.HashTable.Lookup.{find-remove}
use tp_sistemas_operativos_i.Domain.{
  LocalJob, JobRef, FdJobEntry, comp_fd, comp_localjob, fd_callbacks, localjob_callbacks,
}
use tp_sistemas_operativos_i.Domain.Keys.{fd_callbacks-IsKeyed, localjob_callbacks-IsKeyed}
use tp_sistemas_operativos_i.Client.{Agent, JobHeap, fd_key, job_of}

abbrev pub ref_of : LocalJob → ℕ → JobRef
ref_of job p = record { job_id = job.job_id; address = p }

abbrev pub job_at : HashTable FdJobEntry → ℤ → Option ℕ
job_at t fd = job_of (tablahash_find fd_callbacks t (fd_key fd))

abbrev pub ref_at : HashTable JobRef → ℤ → Option JobRef
ref_at t id = tablahash_find localjob_callbacks t (record { job_id = id; address = 0 })

-- A live cell that the owner's table has under its id.
abbrev pub Owned : HashTable JobRef → JobHeap → ℕ → LocalJob → Type 0
Owned t jobs p job = (jobs p ≡ some job) × (ref_at t job.job_id ≡ some (ref_of job p))

-- The owner's table holds live cells under their ids, and the index maps a socket to an owned job
-- whose request is in flight on that socket, which is not negative.
pub record Consistent (t : HashTable JobRef) (fds : HashTable FdJobEntry) (jobs : JobHeap)
    : Type 0 where
  pub jobs_valid : IsValid localjob_callbacks t
  pub fds_valid : IsValid fd_callbacks fds
  pub owned :
      (id : ℤ) (r : JobRef)
      → ref_at t id ≡ some r
      → (job : LocalJob) × (jobs r.address ≡ some job) × (job.job_id ≡ id)
  pub indexed :
      (fd : ℤ) (p : ℕ)
      → job_at fds fd ≡ some p
      → (job : LocalJob) × Owned t jobs p job × (job.origin_socket ≡ fd)
  pub flying : (fd : ℤ) (p : ℕ) → job_at fds fd ≡ some p → leb_ℤ (pos 0) fd ≡ true

abbrev pub IsConsistent : Agent → Type 0
IsConsistent a = Consistent a.table_localjobs a.table_ourjobs a.jobs

abbrev pub without_fd : HashTable FdJobEntry → ℤ → HashTable FdJobEntry
without_fd fds fd = (tablahash_remove fd_callbacks fds (fd_key fd)).table

abbrev pub without_job : HashTable JobRef → JobRef → HashTable JobRef
without_job t r = (tablahash_remove localjob_callbacks t r).table

abbrev pub write : JobHeap → ℕ → Option LocalJob → JobHeap
write jobs p c q = if q == p then c else jobs q

pub job_at-without_fd :
    (fds : HashTable FdJobEntry) (fd fd' : ℤ)
    → IsValid fd_callbacks fds
    → job_at (without_fd fds fd) fd' ≡ (if eq_ℤ fd fd' then none else job_at fds fd')
unfolding comp_fd
job_at-without_fd fds fd fd' v =
    ap job_of (find-remove fd_callbacks fd_callbacks-IsKeyed fds (fd_key fd) (fd_key fd') v)
    ∙ elim (Bool-cases (eq_ℤ fd fd')) [ inl same ↦ rw same refl | inr other ↦ rw other refl ]

pub ref_at-without_job :
    (t : HashTable JobRef) (r : JobRef) (id : ℤ)
    → IsValid localjob_callbacks t
    → ref_at (without_job t r) id ≡ (if eq_ℤ r.job_id id then none else ref_at t id)
unfolding comp_localjob
ref_at-without_job t r id v =
    find-remove localjob_callbacks localjob_callbacks-IsKeyed t r
      (record { job_id = id; address = 0 }) v
    ∙ elim (Bool-cases (eq_ℤ r.job_id id)) [ inl same ↦ rw same refl | inr other ↦ rw other refl ]

pub if-some :
    {A : Type 0} (b : Bool) (o : Option A) (x : A)
    → (if b then none else o) ≡ some x
    → (b ≡ false) × (o ≡ some x)
if-some true o x e = absurd cc
if-some false o x e = (refl, e)

-- Taking a socket out of the index.
pub without_fd-Consistent :
    (t : HashTable JobRef) (fds : HashTable FdJobEntry) (jobs : JobHeap) (fd : ℤ)
    → Consistent t fds jobs
    → Consistent t (without_fd fds fd) jobs
without_fd-Consistent t fds jobs fd c = record {
  jobs_valid = c.jobs_valid;
  fds_valid = remove-IsValid fd_callbacks fd_callbacks-IsKeyed fds (fd_key fd) c.fds_valid;
  owned = c.owned;
  indexed = λ fd' p e.
      c.indexed fd' p
        (if-some (eq_ℤ fd fd') (job_at fds fd') p
          (sym (job_at-without_fd fds fd fd' c.fds_valid) ∙ e)).1;
  flying = λ fd' p e.
      c.flying fd' p
        (if-some (eq_ℤ fd fd') (job_at fds fd') p
          (sym (job_at-without_fd fds fd fd' c.fds_valid) ∙ e)).1;
}

pub some-injective : {A : Type 0} (x y : A) → some x ≡ some y → x ≡ y
some-injective x y e = cc

pub write_self : (jobs : JobHeap) (p : ℕ) (c : Option LocalJob) → write jobs p c p ≡ c
write_self jobs p c = let same : (p == p) ≡ true = ground arith in rw same refl

pub write-other :
    (jobs : JobHeap) (p q : ℕ) (c : Option LocalJob) → (q == p) ≡ false → write jobs p c q ≡ jobs q
write-other jobs p q c e = rw e refl

-- Changing a live job, but for its id and its socket.
changed-live :
    (jobs : JobHeap) (p q : ℕ) (old new job : LocalJob)
    → jobs p ≡ some old
    → new.job_id ≡ old.job_id
    → new.origin_socket ≡ old.origin_socket
    → jobs q ≡ some job
    → (job' : LocalJob) × (write jobs p (some new) q ≡ some job')
      × (job'.job_id ≡ job.job_id)
      × (job'.origin_socket ≡ job.origin_socket)
changed-live jobs p q old new job live id socket at = elim (Bool-cases (q == p)) [
  | inr other ↦ (job, write-other jobs p q (some new) other ∙ at, refl, refl)
  | inl same ↦
      let here : q ≡ p = ground arith in
      let equal = some-injective old job (sym live ∙ ap jobs (sym here) ∙ at) in
      (
        new,
        ap (write jobs p (some new)) here ∙ write_self jobs p (some new),
        id ∙ ap (λ (j : LocalJob). j.job_id) equal,
        socket ∙ ap (λ (j : LocalJob). j.origin_socket) equal,
      )
]

pub changed-Consistent :
    (t : HashTable JobRef) (fds : HashTable FdJobEntry) (jobs : JobHeap) (p : ℕ)
    (old new : LocalJob)
    → jobs p ≡ some old
    → new.job_id ≡ old.job_id
    → new.origin_socket ≡ old.origin_socket
    → Consistent t fds jobs
    → Consistent t fds (write jobs p (some new))
changed-Consistent t fds jobs p old new live id socket c = record {
  jobs_valid = c.jobs_valid;
  fds_valid = c.fds_valid;
  owned = λ id' r e.
      let (job, at, named) = c.owned id' r e in
      let (job', at', same, _) = changed-live jobs p r.address old new job live id socket at in
      (job', at', same ∙ named);
  indexed = λ fd q e.
      let (job, own, flies) = c.indexed fd q e in
      let (job', at', same, same') = changed-live jobs p q old new job live id socket own.0 in
      (
        job',
        (
          at',
          ap (ref_at t) same
              ∙ own.1
              ∙ ap (λ (i : ℤ). some (record { job_id = i; address = q })) (sym same),
        ),
        same' ∙ flies,
      );
  flying = c.flying;
}
