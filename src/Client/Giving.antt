-- ===== src/Client/Giving.antt =====
-- A job that is given up by JOB_RELEASE (agent/communications.c): the tables stay consistent.
use tp_sistemas_operativos_i.Prelude.{ℕ, ◌≡◌, sym, ap, ◌∙◌, some, arith}
use tp_sistemas_operativos_i.Prelude.Int.{ℤ, eq_ℤ_iff}
use tp_sistemas_operativos_i.HashTable.Lookup.{find-comp}
use tp_sistemas_operativos_i.Domain.{LocalJob, JobRef, localjob_callbacks, comp_localjob}
use tp_sistemas_operativos_i.ResourceQueue.{bind-some}
use tp_sistemas_operativos_i.Client.{Agent, release_resources, tear_down, find_localjob}
use tp_sistemas_operativos_i.Client.Scheduler.{release_job}
use tp_sistemas_operativos_i.Client.Ownership.{Owned, IsConsistent, ref_at, write_self}
use tp_sistemas_operativos_i.Client.Freeing.{
  Continues, released, let_go, release_resources-live, let_go-Consistent, tear_down-live,
  remove_localjob-Continues,
}

same-id : (r q : JobRef) → localjob_callbacks.comp r q ≡ 0 → r.job_id ≡ q.job_id
unfolding comp_localjob
same-id r q e = (eq_ℤ_iff r.job_id q.job_id).0 (ground (arith, e))

-- What the owner's table has under an id is an owned job.
pub find_localjob-Owned :
    (a : Agent) (id : ℤ) (r : JobRef)
    → IsConsistent a
    → find_localjob id a ≡ some r
    → (job : LocalJob) × Owned a.table_localjobs a.jobs r.address job × (job.job_id ≡ id)
unfolding find_localjob
find_localjob-Owned a id r c found =
    let (job, live, named) = c.owned id r found in
    let listed : r.job_id ≡ id =
      same-id r (record { job_id = id; address = 0 })
        (find-comp localjob_callbacks a.table_localjobs (record { job_id = id; address = 0 }) r
          found) in
    (
      job,
      (
        live,
        ap (ref_at a.table_localjobs) named
            ∙ found
            ∙ ap (λ (i : ℤ). some (record { job_id = i; address = r.address }))
                (listed ∙ sym named),
      ),
      named,
    )

pub release_job-Continues :
    (p : ℕ) (job : LocalJob) (a : Agent)
    → Owned a.table_localjobs a.jobs p job
    → IsConsistent a
    → Continues (release_job p a)
unfolding release_job
release_job-Continues p job a own c =
    let (a₁, torn, c₁, own₁, free, _, _) = tear_down-live p job a own c in
    let (a₂, e, c₂) =
      remove_localjob-Continues p (released job) (let_go p job a₁)
        (write_self a₁.jobs p (some (released job)), own₁.1) free
        (let_go-Consistent p job a₁ own₁ c₁) in
    (
      a₂,
      bind-some (tear_down p a) a₁ _ torn
          ∙ bind-some (release_resources p a₁) _ _ (release_resources-live p job a₁ own₁.0)
          ∙ e,
      c₂,
    )
