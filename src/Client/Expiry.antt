-- ===== src/Client/Expiry.antt =====
-- The jobs that the second pass of `check_ourjob_timeouts` (agent/timer.c) gives up leave the table,
-- and every other job is as it was.
use tp_sistemas_operativos_i.Prelude.{
  ℕ, ◌≡◌, refl, sym, ap, ◌∙◌, List, [], ◌∷◌, some, none, false, ◌==◌, ◌≢◌, Bool-cases, Option-cases,
  inl, inr, All, arith,
}
use tp_sistemas_operativos_i.Prelude.Int.{ℤ, eq_ℤ, eq_ℤ_iff}
use tp_sistemas_operativos_i.HashTable.{HashTable}
use tp_sistemas_operativos_i.Domain.{LocalJob, JobRef}
use tp_sistemas_operativos_i.ResourceQueue.{bind-some}
use tp_sistemas_operativos_i.Wire.{print_int}
use tp_sistemas_operativos_i.Wire.Messages.{timeout}
use tp_sistemas_operativos_i.Client.{
  Agent, JobHeap, C_to_erlang, release_resources, tear_down, find_localjob, write_job,
}
use tp_sistemas_operativos_i.Client.Timeouts.{expire_job, expire_jobs, expired_at}
use tp_sistemas_operativos_i.Client.Ownership.{
  Owned, IsConsistent, ref_of, ref_at, write, write_self, write-other, without_job,
  ref_at-without_job, if-some, some-injective,
}
use tp_sistemas_operativos_i.Client.Freeing.{
  released, let_go, release_resources-live, let_go-Consistent, tear_down-live,
}
use tp_sistemas_operativos_i.Client.Removal.{dropped-Consistent, remove_localjob-Owned}
use tp_sistemas_operativos_i.Client.Giving.{find_localjob-Owned}

-- The job at `p` is gone, and every other job is as it was.
pub record Drops (p : ℕ) (job : LocalJob) (a a' : Agent) : Type 0 where
  pub consistent : IsConsistent a'
  pub table : a'.table_localjobs ≡ without_job a.table_localjobs (ref_of job p)
  pub others : (q : ℕ) → (q == p) ≡ false → a'.jobs q ≡ a.jobs q
  pub freed : a'.jobs p ≡ none

pub expire_job-Drops :
    (p : ℕ) (job : LocalJob) (a : Agent)
    → Owned a.table_localjobs a.jobs p job
    → IsConsistent a
    → (a' : Agent) × (expire_job p a ≡ some a') × Drops p job a a'
unfolding expire_job C_to_erlang
expire_job-Drops p job a own c =
    let (a₁, torn, c₁, own₁, free, same_table, same_jobs) = tear_down-live p job a own c in
    let b : Agent = C_to_erlang timeout (print_int job.job_id) (let_go p job a₁) in
    let own₂ : Owned b.table_localjobs b.jobs p (released job) =
      (write_self a₁.jobs p (some (released job)), own₁.1) in
    (
      write_job p none
          (record b { table_localjobs = without_job b.table_localjobs (ref_of job p) }),
      bind-some (a.jobs p) job _ own.0
          ∙ bind-some (tear_down p a) a₁ _ torn
          ∙ bind-some (release_resources p a₁) _ _ (release_resources-live p job a₁ own₁.0)
          ∙ remove_localjob-Owned b p (released job) own₂,
      record {
        consistent =
            dropped-Consistent b.table_localjobs b.table_ourjobs b.jobs p (released job) own₂ free
              (let_go-Consistent p job a₁ own₁ c₁);
        table = ap (λ (t : HashTable JobRef). without_job t (ref_of job p)) same_table;
        others = λ q other.
            write-other (write a₁.jobs p (some (released job))) p q none other
            ∙ write-other a₁.jobs p q (some (released job)) other
            ∙ ap (λ (jobs : JobHeap). jobs q) same_jobs;
        freed = write_self (write a₁.jobs p (some (released job))) p none;
      },
    )

-- What is left under an id was there before, as it is now, and the id is not one of these.
abbrev pub Leaves : List ℤ → Agent → Agent → Type 0
Leaves ids a a' =
    (id : ℤ) (r : JobRef)
    → find_localjob id a' ≡ some r
    → (find_localjob id a ≡ some r)
      × (a'.jobs r.address ≡ a.jobs r.address)
      × All (λ i. eq_ℤ i id ≡ false) ids

none≢ref : (r : JobRef) → none ≢ some r
none≢ref r e = cc

dropped-Leaves :
    (p : ℕ) (job : LocalJob) (a a' : Agent)
    → Owned a.table_localjobs a.jobs p job
    → IsConsistent a
    → Drops p job a a'
    → Leaves (job.job_id ∷ []) a a'
unfolding find_localjob
dropped-Leaves p job a a' own c d id r e =
    let (apart, old) = if-some (eq_ℤ job.job_id id) (ref_at a.table_localjobs id) r (
      sym (ref_at-without_job a.table_localjobs (ref_of job p) id c.jobs_valid)
      ∙ ap (λ (t : HashTable JobRef). ref_at t id) (sym d.table)
      ∙ e) in
    let (job', live, named) = c.owned id r old in
    let elsewhere : (r.address == p) ≡ false = elim (Bool-cases (r.address == p)) [
      | inr other ↦ other
      | inl same ↦
          let here : r.address ≡ p = ground arith in
          let equal = some-injective job' job (sym live ∙ ap a.jobs here ∙ own.0) in
          absurd (
            ground (
              arith,
              (eq_ℤ_iff job.job_id id).1 (sym (ap (λ (j : LocalJob). j.job_id) equal) ∙ named),
              apart,
            ))
    ] in
    (old, d.others r.address elsewhere, (apart, tt))

expired_at-Leaves :
    (id : ℤ) (a : Agent)
    → IsConsistent a
    → (a' : Agent) × (expired_at a (find_localjob id a) ≡ some a')
      × IsConsistent a'
      × Leaves (id ∷ []) a a'
expired_at-Leaves id a c = elim (Option-cases (find_localjob id a)) [
  | inl absent ↦ (
    a,
    ap (expired_at a) absent,
    c,
    λ id' r e. (
      e,
      refl,
      elim (Bool-cases (eq_ℤ id id')) [
        | inr other ↦ (other, tt)
        | inl same ↦
            let equal = (eq_ℤ_iff id id').0 same in
            absurd (none≢ref r (sym absent ∙ ap (λ (i : ℤ). find_localjob i a) equal ∙ e))
      ],
    ),
  )
  | inr (r, found) ↦
      let (job, own, named) = find_localjob-Owned a id r c found in
      let (a', e, d) = expire_job-Drops r.address job a own c in
      (
        a',
        ap (expired_at a) found ∙ e,
        d.consistent,
        rw (← named) (dropped-Leaves r.address job a a' own c d),
      )
]

pub expire_jobs-Leaves :
    (ids : List ℤ) (a : Agent)
    → IsConsistent a
    → (a' : Agent) × (expire_jobs ids a ≡ some a') × IsConsistent a' × Leaves ids a a'
unfolding expire_jobs
expire_jobs-Leaves [] a c = (a, refl, c, λ id r e. (e, refl, tt))
expire_jobs-Leaves (id ∷ ids) a c =
    let (a₁, e₁, c₁, first) = expired_at-Leaves id a c in
    let (a₂, e₂, c₂, more) = expire_jobs-Leaves ids a₁ c₁ in
    (
      a₂,
      bind-some (expired_at a (find_localjob id a)) a₁ (expire_jobs ids) e₁ ∙ e₂,
      c₂,
      λ id' r e.
          let (was₁, same₁, apart₁) = more id' r e in
          let (was, same, apart) = first id' r was₁ in (was, same₁ ∙ same, (apart.0, apart₁)),
    )
