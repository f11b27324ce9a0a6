-- ===== src/Client/Sweeping.antt =====
-- `check_ourjob_timeouts` of agent/timer.c, both passes: the expired jobs are given up.
use tp_sistemas_operativos_i.Prelude.{
  ℕ, zero, suc, ◌≡◌, refl, sym, ap, ◌∙◌, List, [], ◌∷◌, flatten, some, false, ◌≤◌, ◌⊎◌, length,
  Bool-cases, inl, inr, All, All-imp, arith,
}
use tp_sistemas_operativos_i.Prelude.Int.{ℤ, eq_ℤ, eq_ℤ_iff}
use tp_sistemas_operativos_i.HashTable.{tablahash_find}
use tp_sistemas_operativos_i.HashTable.Members.{found-All}
use tp_sistemas_operativos_i.HashTable.Every.{find-Every, flatten-Every}
use tp_sistemas_operativos_i.HashTable.Lookup.{find-congr}
use tp_sistemas_operativos_i.Domain.{LocalJob, JobRef, localjob_callbacks, comp_localjob}
use tp_sistemas_operativos_i.Domain.Keys.{localjob_callbacks-IsKeyed}
use tp_sistemas_operativos_i.ResourceQueue.{bind-some}
use tp_sistemas_operativos_i.Client.{Agent, JobHeap, find_localjob}
use tp_sistemas_operativos_i.Client.Timeouts.{
  is_expired, expired_ids, check_ourjob_timeouts, max_timeouts_per_tick,
}
use tp_sistemas_operativos_i.Client.Ownership.{IsConsistent, some-injective}
use tp_sistemas_operativos_i.Client.Expiry.{Leaves, expire_jobs-Leaves}

abbrev IsLive : JobHeap → JobRef → Type 0
IsLive jobs r = (job : LocalJob) × (jobs r.address ≡ some job)

-- A live job that has not expired, unless its id is one of these.
abbrev Covered : ℤ → JobHeap → List ℤ → JobRef → Type 0
Covered now jobs ids r =
    (job : LocalJob) × (jobs r.address ≡ some job)
    × (All (λ i. eq_ℤ i job.job_id ≡ false) ids → is_expired now job ≡ false)

Covered-cons :
    (now : ℤ) (jobs : JobHeap) (id : ℤ) (ids : List ℤ) (r : JobRef)
    → Covered now jobs ids r
    → Covered now jobs (id ∷ ids) r
Covered-cons now jobs id ids r (job, at, fresh) = (job, at, λ apart. fresh apart.1)

-- The walk over the owner's table reads live jobs only, and lists the ids of those that have expired,
-- unless it runs out of room.
expired_ids-Covered :
    (room : ℕ) (now : ℤ) (jobs : JobHeap) (rs : List JobRef)
    → All (IsLive jobs) rs
    → (ids : List ℤ) × (expired_ids room now jobs rs ≡ some ids)
      × ((room ≤ length ids) ⊎ All (Covered now jobs ids) rs)
unfolding expired_ids
expired_ids-Covered zero now jobs rs live = ([], refl, inl (omega arith))
expired_ids-Covered (suc room) now jobs [] live = ([], refl, inr tt)
expired_ids-Covered (suc room) now jobs (r ∷ rs) live =
    let (job, at) = live.0 in
    elim (Bool-cases (is_expired now job)) [
      | inl late ↦
          let (ids, e, covered) = expired_ids-Covered room now jobs rs live.1 in
          (
            job.job_id ∷ ids,
            bind-some (jobs r.address) job _ at ∙ (rw (late, e) refl),
            elim covered [
              | inl full ↦ inl (omega (arith, full))
              | inr all ↦ inr (
                (
                  job,
                  at,
                  λ apart. absurd (
                      let own = (eq_ℤ_iff job.job_id job.job_id).1 refl in
                      ground (arith, own, apart.0)),
                ),
                All-imp (Covered now jobs ids) (Covered now jobs (job.job_id ∷ ids)) rs
                    (Covered-cons now jobs job.job_id ids) all,
              )
            ],
          )
      | inr waits ↦
          let (ids, e, covered) = expired_ids-Covered (suc room) now jobs rs live.1 in
          (
            ids,
            bind-some (jobs r.address) job _ at ∙ (rw waits e),
            elim covered [ inl full ↦ inl full | inr all ↦ inr ((job, at, λ apart. waits), all) ],
          )
    ]

listed-IsLive : (a : Agent) → IsConsistent a → All (IsLive a.jobs) (flatten a.table_localjobs.elems)
unfolding comp_localjob
listed-IsLive a c =
    All-imp (λ (r : JobRef). tablahash_find localjob_callbacks a.table_localjobs r ≡ some r)
      (IsLive a.jobs) (flatten a.table_localjobs.elems)
      (λ r found.
        let key : JobRef = record { job_id = r.job_id; address = 0 } in
        let (job, live, named) = c.owned r.job_id r (
          find-congr localjob_callbacks localjob_callbacks-IsKeyed a.table_localjobs key r
            (ground (arith, (eq_ℤ_iff r.job_id r.job_id).1 refl))
          ∙ found) in
        (job, live))
      (found-All localjob_callbacks localjob_callbacks-IsKeyed a.table_localjobs c.jobs_valid)

-- No listed job has expired.
abbrev pub NoneExpired : ℤ → Agent → Type 0
NoneExpired now a =
    (id : ℤ) (r : JobRef) (job : LocalJob)
    → find_localjob id a ≡ some r
    → a.jobs r.address ≡ some job
    → is_expired now job ≡ false

swept-NoneExpired :
    (now : ℤ) (ids : List ℤ) (a a' : Agent)
    → IsConsistent a
    → All (Covered now a.jobs ids) (flatten a.table_localjobs.elems)
    → Leaves ids a a'
    → NoneExpired now a'
unfolding find_localjob
swept-NoneExpired now ids a a' c covered leaves id r job found live =
    let (was, same, apart) = leaves id r found in
    let (job', at, fresh) =
      find-Every (Covered now a.jobs ids) localjob_callbacks a.table_localjobs
        (record { job_id = id; address = 0 }) r
        (flatten-Every (Covered now a.jobs ids) a.table_localjobs.elems covered) was in
    let (job'', at'', named) = c.owned id r was in
    let equal = some-injective job' job (sym at ∙ sym same ∙ live) in
    let named' : job'.job_id ≡ id =
      ap (λ (j : LocalJob). j.job_id) (some-injective job' job'' (sym at ∙ at'')) ∙ named in
    ap (is_expired now) (sym equal)
    ∙ fresh (
        All-imp (λ (i : ℤ). eq_ℤ i id ≡ false) (λ (i : ℤ). eq_ℤ i job'.job_id ≡ false) ids
          (λ i other. ap (eq_ℤ i) named' ∙ other) apart)

-- From a consistent state, the sweep of the timeouts returns: it reads no freed job, neither in its
-- walk over the table nor while it gives up the expired jobs, and the state that it leaves is
-- consistent. Unless 256 ids or more were collected, no job that is left has expired.
pub check_ourjob_timeouts-IsConsistent :
    (now : ℤ) (a : Agent)
    → IsConsistent a
    → (a' : Agent) × (check_ourjob_timeouts now a ≡ some a')
      × IsConsistent a'
      × (ids : List ℤ) × (expired_ids max_timeouts_per_tick now a.jobs
            (flatten a.table_localjobs.elems)
          ≡ some ids)
      × ((max_timeouts_per_tick ≤ length ids) ⊎ NoneExpired now a')
unfolding check_ourjob_timeouts
check_ourjob_timeouts-IsConsistent now a c =
    let rs = flatten a.table_localjobs.elems in
    let (ids, e, covered) =
      expired_ids-Covered max_timeouts_per_tick now a.jobs rs (listed-IsLive a c) in
    let (a', e', c', leaves) = expire_jobs-Leaves ids a c in
    (
      a',
      bind-some (expired_ids max_timeouts_per_tick now a.jobs rs) ids _ e ∙ e',
      c',
      ids,
      e,
      elim covered [
        | inl full ↦ inl full
        | inr all ↦ inr (swept-NoneExpired now ids a a' c all leaves)
      ],
    )
