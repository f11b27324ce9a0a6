-- ===== src/Client/Asking.antt =====
-- A job asks for its next resource (`ask_for_next_resource` of agent/communications.c), and a job
-- that is granted one moves on: what they do to the tables of jobs and of sockets.
use tp_sistemas_operativos_i.Prelude.{
  ℕ, ◌≡◌, refl, sym, ap, ◌∙◌, List, [], ◌∷◌, Option, none, some, true, false, ◌==◌, Bool-cases, inl,
  inr, arith,
}
use tp_sistemas_operativos_i.Prelude.Int.{ℤ, pos, leb_ℤ, eq_ℤ}
use tp_sistemas_operativos_i.HashTable.{HashTable, tablahash_find}
use tp_sistemas_operativos_i.Domain.{PendingResource, LocalJob, JobRef, FdJobEntry, fd_callbacks}
use tp_sistemas_operativos_i.ResourceQueue.{bind-some}
use tp_sistemas_operativos_i.Client.{
  Agent, JobHeap, Env, Attempt, no_socket, refused, opened, unregistered, ask_for_next_resource,
  next_asked, job_of, find_job, fd_key, register, C_to_erlang,
}
use tp_sistemas_operativos_i.Client.Remote.{grant_job, progressed, advanced}
use tp_sistemas_operativos_i.Client.Ownership.{
  Owned, Consistent, IsConsistent, ref_at, without_fd, write, without_fd-Consistent, some-injective,
  write_self, write-other, changed-Consistent,
}
use tp_sistemas_operativos_i.Client.Removal.{Unindexed, apart-address}
use tp_sistemas_operativos_i.Client.Freeing.{Continues, mapped-Unindexed}
use tp_sistemas_operativos_i.Client.Admission.{with_fd, with_fd-Consistent}

-- `socket` returns a descriptor that is not negative, or fails.
abbrev pub AttemptFits : Attempt → Type 0
AttemptFits no_socket = Unit
AttemptFits (refused fd) = leb_ℤ (pos 0) fd ≡ true
AttemptFits (opened fd) = leb_ℤ (pos 0) fd ≡ true
AttemptFits (unregistered fd) = leb_ℤ (pos 0) fd ≡ true

-- A mapped socket has a job, whose address is not NULL.
pub job_of-address : (o : Option FdJobEntry) (p : ℕ) → job_of o ≡ some p → (p == 0) ≡ false
job_of-address none p e = absurd cc
job_of-address (some entry) p e = elim (Bool-cases (entry.job == 0)) [
  | inl null ↦ absurd (let e' : none ≡ some p = rw null at e in cc)
  | inr address ↦
      let e' : some entry.job ≡ some p = rw address at e in
      ap (λ (q : ℕ). q == 0) (sym (some-injective entry.job p e')) ∙ address
]

-- A new socket for an owned job that no socket is mapped to.
rewritten-Consistent :
    (t : HashTable JobRef) (fds : HashTable FdJobEntry) (jobs : JobHeap) (p : ℕ)
    (old new : LocalJob)
    → Owned t jobs p old
    → new.job_id ≡ old.job_id
    → Unindexed fds p
    → Consistent t fds jobs
    → Consistent t fds (write jobs p (some new))
rewritten-Consistent t fds jobs p old new own id free c = record {
  jobs_valid = c.jobs_valid;
  fds_valid = c.fds_valid;
  owned = λ id' r e. elim (Bool-cases (r.address == p)) [
    | inr other ↦
        let (job, at, named) = c.owned id' r e in
        (job, write-other jobs p r.address (some new) other ∙ at, named)
    | inl same ↦
        let here : r.address ≡ p = ground arith in
        let (job, at, named) = c.owned id' r e in
        let equal = some-injective job old (sym at ∙ ap jobs here ∙ own.0) in
        (
          new,
          ap (write jobs p (some new)) here ∙ write_self jobs p (some new),
          id ∙ ap (λ (j : LocalJob). j.job_id) (sym equal) ∙ named,
        )
  ];
  indexed = λ fd q e.
      let (job, owns, flies) = c.indexed fd q e in
      (
        job,
        (write-other jobs p q (some new) (apart-address fds p q fd free e) ∙ owns.0, owns.1),
        flies,
      );
  flying = c.flying;
}

-- The socket of a request in flight, for an owned job that no socket is mapped to.
register-Consistent :
    (t : HashTable JobRef) (fds : HashTable FdJobEntry) (jobs : JobHeap) (p : ℕ) (job : LocalJob)
    (fd : ℤ)
    → Owned t jobs p job
    → (p == 0) ≡ false
    → leb_ℤ (pos 0) fd ≡ true
    → Unindexed fds p
    → Consistent t fds jobs
    → Consistent t (with_fd fds fd p) (write jobs p (some (record job { origin_socket = fd })))
register-Consistent t fds jobs p job fd own address flown free c =
    let job' : LocalJob = record job { origin_socket = fd } in
    with_fd-Consistent t fds (write jobs p (some job')) p job' fd
      (write_self jobs p (some job'), own.1) refl address flown
      (rewritten-Consistent t fds jobs p job job' own refl free c)

-- Asking for the next resource of an owned job that no socket is mapped to.
pub ask_for_next_resource-Continues :
    (attempt : Attempt) (p : ℕ) (job : LocalJob) (a : Agent)
    → AttemptFits attempt
    → Owned a.table_localjobs a.jobs p job
    → (p == 0) ≡ false
    → Unindexed a.table_ourjobs p
    → IsConsistent a
    → Continues (ask_for_next_resource attempt p a)
unfolding ask_for_next_resource C_to_erlang register
ask_for_next_resource-Continues attempt p job a fits own address free c = (
  next_asked attempt p job job.next_req a,
  bind-some (a.jobs p) job _ own.0,
  asked attempt job.next_req fits,
)
  where
    asked :
        (attempt : Attempt) (reqs : List PendingResource)
        → AttemptFits attempt
        → IsConsistent (next_asked attempt p job reqs a)
    asked attempt [] fits = c
    asked no_socket (req ∷ reqs) fits = c
    asked (refused fd) (req ∷ reqs) fits = c
    asked (opened fd) (req ∷ reqs) fits =
        register-Consistent a.table_localjobs a.table_ourjobs a.jobs p job fd own address fits free
          c
    asked (unregistered fd) (req ∷ reqs) fits =
        without_fd-Consistent a.table_localjobs (with_fd a.table_ourjobs fd p)
          (write a.jobs p (some (record job { origin_socket = fd }))) fd
          (register-Consistent a.table_localjobs a.table_ourjobs a.jobs p job fd own address fits
            free c)

advanced-id :
    (fd : ℤ) (job : LocalJob) (reqs : List PendingResource)
    → job.next_req ≡ reqs
    → ((advanced fd job).job_id ≡ job.job_id)
      × ((advanced fd job).origin_socket ≡ job.origin_socket)
advanced-id fd job [] e = rw e (refl, refl)
advanced-id fd job (req ∷ reqs) e = rw e (refl, refl)

-- A GRANTED for the job that the socket is mapped to.
pub grant_job-Continues :
    (env : Env) (fd id : ℤ) (p : ℕ) (a : Agent)
    → AttemptFits env.attempt
    → find_job fd a ≡ some p
    → IsConsistent a
    → Continues (grant_job env fd id p a)
unfolding grant_job find_job
grant_job-Continues env fd id p a fits found c =
    let (job, own, flies) = c.indexed fd p found in
    let (same, still) = advanced-id fd job job.next_req refl in
    let new : LocalJob = record (advanced fd job) { timer = env.now } in
    let fds = without_fd a.table_ourjobs fd in
    let c₁ = without_fd-Consistent a.table_localjobs a.table_ourjobs a.jobs fd c in
    let c₂ = changed-Consistent a.table_localjobs fds a.jobs p job new own.0 same still c₁ in
    let own₂ : Owned a.table_localjobs (write a.jobs p (some new)) p new = (
      write_self a.jobs p (some new),
      ap (ref_at a.table_localjobs) same
          ∙ own.1
          ∙ ap (λ (i : ℤ). some (record { job_id = i; address = p })) (sym same),
    ) in
    elim (Bool-cases (eq_ℤ job.job_id id)) [
      | inr other ↦ (a, bind-some (a.jobs p) job _ own.0 ∙ (rw other refl), c)
      | inl equal ↦
          let (a', e, c') =
            ask_for_next_resource-Continues env.attempt p new (progressed env fd p job a) fits own₂
              (job_of-address (tablahash_find fd_callbacks a.table_ourjobs (fd_key fd)) p found)
              (mapped-Unindexed a.table_localjobs a.table_ourjobs a.jobs fd p c found) c₂ in
          (a', bind-some (a.jobs p) job _ own.0 ∙ (rw equal e), c')
    ]
