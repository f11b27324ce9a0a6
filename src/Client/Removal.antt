-- ===== src/Client/Removal.antt =====
-- `tablahash_remove_lock(table_localjobs, job)`: a job leaves its owner's table and is freed.
use tp_sistemas_operativos_i.Prelude.{
  ℕ, ◌≡◌, ◌≢◌, refl, sym, ap, ◌∙◌, none, some, false, ◌==◌, Bool-cases, inl, inr, arith,
}
use tp_sistemas_operativos_i.Prelude.Int.{ℤ, eq_ℤ, eq_ℤ_iff}
use tp_sistemas_operativos_i.HashTable.{HashTable, tablahash_find}
use tp_sistemas_operativos_i.HashTable.Valid.{remove-IsValid}
use tp_sistemas_operativos_i.HashTable.Lookup.{find-congr}
use tp_sistemas_operativos_i.HashTable.Total.{to_list, destroyed-remove}
use tp_sistemas_operativos_i.Domain.{
  LocalJob, JobRef, FdJobEntry, comp_localjob, localjob_callbacks,
}
use tp_sistemas_operativos_i.Domain.Keys.{localjob_callbacks-IsKeyed}
use tp_sistemas_operativos_i.Client.{Agent, JobHeap, remove_localjob, destr_localjobs, write_job}
use tp_sistemas_operativos_i.Client.Ownership.{
  Owned, Consistent, ref_of, ref_at, job_at, without_job, write, ref_at-without_job, if-some,
  some-injective, write-other,
}

-- No socket is mapped to the job.
abbrev pub Unindexed : HashTable FdJobEntry → ℕ → Type 0
Unindexed fds p = (fd : ℤ) → job_at fds fd ≢ some p

dropped-live :
    (jobs : JobHeap) (p q : ℕ) (job other : LocalJob)
    → jobs p ≡ some job
    → jobs q ≡ some other
    → other.job_id ≢ job.job_id
    → write jobs p none q ≡ some other
dropped-live jobs p q job other live at apart = elim (Bool-cases (q == p)) [
  | inr e ↦ write-other jobs p q none e ∙ at
  | inl e ↦
      let here : q ≡ p = ground arith in
      absurd (
        apart (
          ap (λ (j : LocalJob). j.job_id)
            (some-injective other job (sym at ∙ ap jobs here ∙ live))))
]

pub apart-address :
    (fds : HashTable FdJobEntry) (p q : ℕ) (fd : ℤ)
    → Unindexed fds p
    → job_at fds fd ≡ some q
    → (q == p) ≡ false
apart-address fds p q fd free e = elim (Bool-cases (q == p)) [
  | inr other ↦ other
  | inl same ↦ let here : q ≡ p = ground arith in absurd (free fd (e ∙ ap some here))
]

apart-id :
    (t : HashTable JobRef) (p q : ℕ) (job other : LocalJob)
    → ref_at t job.job_id ≡ some (ref_of job p)
    → ref_at t other.job_id ≡ some (ref_of other q)
    → (q == p) ≡ false
    → eq_ℤ job.job_id other.job_id ≡ false
apart-id t p q job other own owns apart = elim (Bool-cases (eq_ℤ job.job_id other.job_id)) [
  | inr differ ↦ differ
  | inl equal ↦
      let same = (eq_ℤ_iff job.job_id other.job_id).0 equal in
      let refs =
        some-injective (ref_of other q) (ref_of job p)
          (sym owns ∙ ap (ref_at t) (sym same) ∙ own) in
      let here = ap (λ (r : JobRef). r.address) refs in absurd (ground (arith, here, apart))
]

-- Freeing an owned job that no socket is mapped to, with its entry in the owner's table.
pub dropped-Consistent :
    (t : HashTable JobRef) (fds : HashTable FdJobEntry) (jobs : JobHeap) (p : ℕ) (job : LocalJob)
    → Owned t jobs p job
    → Unindexed fds p
    → Consistent t fds jobs
    → Consistent (without_job t (ref_of job p)) fds (write jobs p none)
dropped-Consistent t fds jobs p job own free c = record {
  jobs_valid =
      remove-IsValid localjob_callbacks localjob_callbacks-IsKeyed t (ref_of job p) c.jobs_valid;
  fds_valid = c.fds_valid;
  owned = λ id r e.
      let (apart, old) =
        if-some (eq_ℤ job.job_id id) (ref_at t id) r
          (sym (ref_at-without_job t (ref_of job p) id c.jobs_valid) ∙ e) in
      let (other, at, named) = c.owned id r old in
      (
        other,
        dropped-live jobs p r.address job other own.0 at
            (λ same. ground (arith, (eq_ℤ_iff job.job_id id).1 (sym same ∙ named), apart)),
        named,
      );
  indexed = λ fd q e.
      let (other, owns, flies) = c.indexed fd q e in
      let elsewhere = apart-address fds p q fd free e in
      let named : eq_ℤ job.job_id other.job_id ≡ false =
        apart-id t p q job other own.1 owns.1 elsewhere in
      (
        other,
        (
          write-other jobs p q none elsewhere ∙ owns.0,
          ref_at-without_job t (ref_of job p) other.job_id c.jobs_valid ∙ (rw named owns.1),
        ),
        flies,
      );
  flying = c.flying;
}

Owned-ref :
    (t : HashTable JobRef) (jobs : JobHeap) (p : ℕ) (job : LocalJob)
    → Owned t jobs p job
    → tablahash_find localjob_callbacks t (ref_of job p) ≡ some (ref_of job p)
unfolding comp_localjob
Owned-ref t jobs p job own =
    find-congr localjob_callbacks localjob_callbacks-IsKeyed t (ref_of job p)
      (record { job_id = job.job_id; address = 0 }) (ground arith)
    ∙ own.1

pub remove_localjob-Owned :
    (a : Agent) (p : ℕ) (job : LocalJob)
    → Owned a.table_localjobs a.jobs p job
    → remove_localjob p a
      ≡ some (
          write_job p none
            (record a { table_localjobs = without_job a.table_localjobs (ref_of job p) }))
unfolding remove_localjob destr_localjobs
remove_localjob-Owned a p job own =
    let freed =
      destroyed-remove localjob_callbacks a.table_localjobs (ref_of job p)
      ∙ ap to_list (Owned-ref a.table_localjobs a.jobs p job own) in
    rw (own.0, freed, own.0) refl
