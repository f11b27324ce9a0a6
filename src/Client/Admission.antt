-- ===== src/Client/Admission.antt =====
-- A new job and a new socket of a request in flight keep the tables consistent.
use tp_sistemas_operativos_i.Prelude.{
  ℕ, ◌≡◌, ◌≢◌, refl, sym, ap, ◌∙◌, none, some, true, false, ◌==◌, if◌then◌else◌, Bool-cases, inl,
  inr, arith,
}
use tp_sistemas_operativos_i.Prelude.Int.{ℤ, pos, eq_ℤ, eq_ℤ_iff, leb_ℤ}
use tp_sistemas_operativos_i.HashTable.{HashTable, tablahash_insert, tablahash_create}
use tp_sistemas_operativos_i.HashTable.Valid.{IsValid, insert-IsValid, create-IsValid}
use tp_sistemas_operativos_i.HashTable.Lookup.{find-insert, find-create}
use tp_sistemas_operativos_i.Domain.{
  LocalJob, JobRef, FdJobEntry, comp_fd, comp_localjob, fd_callbacks, localjob_callbacks,
}
use tp_sistemas_operativos_i.Domain.Keys.{fd_callbacks-IsKeyed, localjob_callbacks-IsKeyed}
use tp_sistemas_operativos_i.Client.{JobHeap, job_of, fd_key}
use tp_sistemas_operativos_i.Client.Ownership.{
  Owned, Consistent, ref_of, ref_at, job_at, write, some-injective, write-other, write_self,
}

abbrev pub with_job : HashTable JobRef → JobRef → HashTable JobRef
with_job t r = (tablahash_insert localjob_callbacks t r).table

abbrev pub with_fd : HashTable FdJobEntry → ℤ → ℕ → HashTable FdJobEntry
with_fd fds fd p = (tablahash_insert fd_callbacks fds (record { fd = fd; job = p })).table

pub ref_at-with_job :
    (t : HashTable JobRef) (r : JobRef) (id : ℤ)
    → IsValid localjob_callbacks t
    → ref_at (with_job t r) id ≡ (if eq_ℤ r.job_id id then some r else ref_at t id)
unfolding comp_localjob
ref_at-with_job t r id v =
    find-insert localjob_callbacks localjob_callbacks-IsKeyed t r
      (record { job_id = id; address = 0 }) v
    ∙ elim (Bool-cases (eq_ℤ r.job_id id)) [ inl same ↦ rw same refl | inr other ↦ rw other refl ]

pub job_at-with_fd :
    (fds : HashTable FdJobEntry) (fd fd' : ℤ) (p : ℕ)
    → (p == 0) ≡ false
    → IsValid fd_callbacks fds
    → job_at (with_fd fds fd p) fd' ≡ (if eq_ℤ fd fd' then some p else job_at fds fd')
unfolding comp_fd
job_at-with_fd fds fd fd' p address v =
    ap job_of (
      find-insert fd_callbacks fd_callbacks-IsKeyed fds (record { fd = fd; job = p }) (fd_key fd')
        v)
    ∙ elim (Bool-cases (eq_ℤ fd fd')) [
      | inl same ↦ rw (same, address) refl
      | inr other ↦ rw other refl
    ]

none≢ref : (r : JobRef) → none ≢ some r
none≢ref r e = cc

none≢address : (p : ℕ) → none ≢ some p
none≢address p e = cc

none≢job : (job : LocalJob) → none ≢ some job
none≢job job e = cc

new-id :
    (t : HashTable JobRef) (p q : ℕ) (job other : LocalJob)
    → ref_at t job.job_id ≡ none
    → ref_at t other.job_id ≡ some (ref_of other q)
    → eq_ℤ job.job_id other.job_id ≡ false
new-id t p q job other unlisted listed = elim (Bool-cases (eq_ℤ job.job_id other.job_id)) [
  | inr differ ↦ differ
  | inl equal ↦
      let same = (eq_ℤ_iff job.job_id other.job_id).0 equal in
      absurd (none≢ref (ref_of other q) (sym unlisted ∙ ap (ref_at t) same ∙ listed))
]

-- The tables of an agent that starts.
pub created-Consistent : (jobs : JobHeap) → Consistent tablahash_create tablahash_create jobs
created-Consistent jobs = record {
  jobs_valid = create-IsValid localjob_callbacks;
  fds_valid = create-IsValid fd_callbacks;
  owned = λ id r e. absurd (
      none≢ref r (
        sym (
          find-create localjob_callbacks localjob_callbacks-IsKeyed
            (record { job_id = id; address = 0 }))
        ∙ e));
  indexed = λ fd p e. absurd (
      none≢address p
        (sym (ap job_of (find-create fd_callbacks fd_callbacks-IsKeyed (fd_key fd))) ∙ e));
  flying = λ fd p e. absurd (
      none≢address p
        (sym (ap job_of (find-create fd_callbacks fd_callbacks-IsKeyed (fd_key fd))) ∙ e));
}

apart-none :
    (jobs : JobHeap) (p q : ℕ) (job : LocalJob)
    → jobs p ≡ none
    → jobs q ≡ some job
    → (q == p) ≡ false
apart-none jobs p q job free at = elim (Bool-cases (q == p)) [
  | inr other ↦ other
  | inl same ↦
      let here : q ≡ p = ground arith in absurd (none≢job job (sym free ∙ ap jobs (sym here) ∙ at))
]

-- A job at a fresh address, under an id that the owner's table does not have.
pub with_job-Consistent :
    (t : HashTable JobRef) (fds : HashTable FdJobEntry) (jobs : JobHeap) (p : ℕ) (job : LocalJob)
    → jobs p ≡ none
    → ref_at t job.job_id ≡ none
    → Consistent t fds jobs
    → Consistent (with_job t (ref_of job p)) fds (write jobs p (some job))
with_job-Consistent t fds jobs p job free unlisted c = record {
  jobs_valid =
      insert-IsValid localjob_callbacks localjob_callbacks-IsKeyed t (ref_of job p) c.jobs_valid;
  fds_valid = c.fds_valid;
  owned = λ id r e. elim (Bool-cases (eq_ℤ job.job_id id)) [
    | inl same ↦
        let found : some (ref_of job p) ≡ some r =
          sym (ref_at-with_job t (ref_of job p) id c.jobs_valid ∙ (rw same refl)) ∙ e in
        let here = ap (λ (r' : JobRef). r'.address) (some-injective (ref_of job p) r found) in
        (
          job,
          ap (write jobs p (some job)) (sym here) ∙ write_self jobs p (some job),
          (eq_ℤ_iff job.job_id id).0 same,
        )
    | inr other ↦
        let (job', at, named) =
          c.owned id r
            (sym (ref_at-with_job t (ref_of job p) id c.jobs_valid ∙ (rw other refl)) ∙ e) in
        (
          job',
          write-other jobs p r.address (some job) (apart-none jobs p r.address job' free at) ∙ at,
          named,
        )
  ];
  indexed = λ fd q e.
      let (job', own, flies) = c.indexed fd q e in
      let apart = apart-none jobs p q job' free own.0 in
      let named = new-id t p q job job' unlisted own.1 in
      (
        job',
        (
          write-other jobs p q (some job) apart ∙ own.0,
          ref_at-with_job t (ref_of job p) job'.job_id c.jobs_valid ∙ (rw named own.1),
        ),
        flies,
      );
  flying = c.flying;
}

-- The socket of an owned job's request.
pub with_fd-Consistent :
    (t : HashTable JobRef) (fds : HashTable FdJobEntry) (jobs : JobHeap) (p : ℕ) (job : LocalJob)
    (fd : ℤ)
    → Owned t jobs p job
    → job.origin_socket ≡ fd
    → (p == 0) ≡ false
    → leb_ℤ (pos 0) fd ≡ true
    → Consistent t fds jobs
    → Consistent t (with_fd fds fd p) jobs
with_fd-Consistent t fds jobs p job fd own flies address flown c = record {
  jobs_valid = c.jobs_valid;
  fds_valid =
      insert-IsValid fd_callbacks fd_callbacks-IsKeyed fds (record { fd = fd; job = p })
        c.fds_valid;
  owned = c.owned;
  indexed = λ fd' q e. elim (Bool-cases (eq_ℤ fd fd')) [
    | inl same ↦
        let found : some p ≡ some q =
          sym (job_at-with_fd fds fd fd' p address c.fds_valid ∙ (rw same refl)) ∙ e in
        let here = some-injective p q found in
        (
          job,
          (ap jobs (sym here) ∙ own.0, own.1 ∙ ap (λ (q' : ℕ). some (ref_of job q')) here),
          flies ∙ (eq_ℤ_iff fd fd').0 same,
        )
    | inr other ↦
        c.indexed fd' q
          (sym (job_at-with_fd fds fd fd' p address c.fds_valid ∙ (rw other refl)) ∙ e)
  ];
  flying = λ fd' q e. elim (Bool-cases (eq_ℤ fd fd')) [
    | inl same ↦ ap (leb_ℤ (pos 0)) (sym ((eq_ℤ_iff fd fd').0 same)) ∙ flown
    | inr other ↦
        c.flying fd' q (sym (job_at-with_fd fds fd fd' p address c.fds_valid ∙ (rw other refl)) ∙ e)
  ];
}
