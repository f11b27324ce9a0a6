-- ===== src/Client/Rejection.antt =====
-- Rejections free a job once, and leave nothing that points at it: `handle_outbound_disconnect` of
-- agent/utils.c, and the last branch of `client_to_myserver` of agent/communications.c.
use tp_sistemas_operativos_i.Prelude.{
  ℕ, ◌≡◌, ◌≢◌, refl, sym, ap, ◌∙◌, none, some, Option-cases, inl, inr,
}
use tp_sistemas_operativos_i.Prelude.Int.{ℤ, eq_ℤ_iff}
use tp_sistemas_operativos_i.HashTable.{HashTable}
use tp_sistemas_operativos_i.HashTable.Valid.{IsValid}
use tp_sistemas_operativos_i.Domain.{LocalJob, FdJobEntry, fd_callbacks}
use tp_sistemas_operativos_i.ResourceQueue.{bind-some}
use tp_sistemas_operativos_i.Wire.{print_int}
use tp_sistemas_operativos_i.Wire.Messages.{rejected}
use tp_sistemas_operativos_i.Client.{
  Agent, find_job, remove_localjob, reject_job, release_resources, handle_outbound_disconnect,
  write_job, rejected_at, C_to_erlang, release_all, remove_fd,
}
use tp_sistemas_operativos_i.Client.Ownership.{
  Owned, IsConsistent, ref_of, job_at, without_fd, without_job, write, job_at-without_fd,
  without_fd-Consistent, some-injective, write_self, changed-Consistent,
}
use tp_sistemas_operativos_i.Client.Freeing.{released, release_resources-live, mapped-Unindexed}
use tp_sistemas_operativos_i.Client.Removal.{dropped-Consistent, remove_localjob-Owned}

-- The agent when the providers of the job are released and the scheduler is told.
abbrev told : ℤ → ℕ → LocalJob → Agent → Agent
told fd p job a = C_to_erlang rejected (print_int job.job_id) (
    write_job p (some (released job)) (record (remove_fd fd a) {
      server = record a.server { trace = release_all job.job_id job.granted_reqs a.server.trace };
    }))

reject_job-told :
    (fd : ℤ) (p : ℕ) (job : LocalJob) (a : Agent)
    → a.jobs p ≡ some job
    → reject_job fd p a ≡ remove_localjob p (told fd p job a)
unfolding reject_job
reject_job-told fd p job a live =
    bind-some (a.jobs p) job _ live
    ∙ bind-some (release_resources p (remove_fd fd a)) _ _
        (release_resources-live p job (remove_fd fd a) live)

-- The agent after the rejection of an owned job.
abbrev pub rejected_agent : ℤ → ℕ → LocalJob → Agent → Agent
rejected_agent fd p job a =
    write_job p none
      (record (told fd p job a) { table_localjobs = without_job a.table_localjobs (ref_of job p) })

pub rejected-IsConsistent :
    (fd : ℤ) (p : ℕ) (job : LocalJob) (a : Agent)
    → IsConsistent a
    → find_job fd a ≡ some p
    → Owned a.table_localjobs a.jobs p job
    → (reject_job fd p a ≡ some (rejected_agent fd p job a))
      × IsConsistent (rejected_agent fd p job a)
unfolding find_job C_to_erlang
rejected-IsConsistent fd p job a c e own =
    let fds = without_fd a.table_ourjobs fd in
    let jobs = write a.jobs p (some (released job)) in
    let c₁ = without_fd-Consistent a.table_localjobs a.table_ourjobs a.jobs fd c in
    let c₂ =
      changed-Consistent a.table_localjobs fds a.jobs p job (released job) own.0 refl refl c₁ in
    let own₂ : Owned a.table_localjobs jobs p (released job) =
      (write_self a.jobs p (some (released job)), own.1) in
    (
      reject_job-told fd p job a own.0
          ∙ remove_localjob-Owned (told fd p job a) p (released job) own₂,
      dropped-Consistent a.table_localjobs fds jobs p (released job) own₂
          (mapped-Unindexed a.table_localjobs a.table_ourjobs a.jobs fd p c e) c₂,
    )

none-some : (p : ℕ) → none ≢ some p
none-some p e = cc

unmapped :
    (fd : ℤ) (fds : HashTable FdJobEntry)
    → IsValid fd_callbacks fds
    → job_at (without_fd fds fd) fd ≡ none
unmapped fd fds v =
    let same = (eq_ℤ_iff fd fd).1 refl in job_at-without_fd fds fd fd v ∙ (rw same refl)

-- From a consistent state, the disconnect of a socket reads no freed job: it gives a consistent state
-- in which the socket is mapped to no job, and the job that it was mapped to is freed.
pub handle_outbound_disconnect-IsConsistent :
    (fd : ℤ) (a : Agent)
    → IsConsistent a
    → (a' : Agent) × (handle_outbound_disconnect fd a ≡ some a')
      × IsConsistent a'
      × (find_job fd a' ≡ none)
      × ((p : ℕ) → find_job fd a ≡ some p → a'.jobs p ≡ none)
unfolding handle_outbound_disconnect find_job C_to_erlang
handle_outbound_disconnect-IsConsistent fd a c = elim (Option-cases (find_job fd a)) [
  | inl absent ↦
      (a, ap (rejected_at fd a) absent, c, absent, λ p e. absurd (none-some p (sym absent ∙ e)))
  | inr (p, found) ↦
      let (job, own, flies) = c.indexed fd p found in
      let (returns, kept) = rejected-IsConsistent fd p job a c found own in
      (
        rejected_agent fd p job a,
        ap (rejected_at fd a) found ∙ returns,
        kept,
        unmapped fd a.table_ourjobs c.fds_valid,
        λ p' e.
            ap (write (write a.jobs p (some (released job))) p none)
              (some-injective p' p (sym e ∙ found))
            ∙ write_self (write a.jobs p (some (released job))) p none,
      )
]
