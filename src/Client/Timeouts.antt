-- ===== src/Client/Timeouts.antt =====
-- agent/timer.c: `check_ourjob_timeouts`, which gives up the jobs that wait for too long.
use mathlib.Core.Option
use tp_sistemas_operativos_i.Prelude.{
  ℕ, zero, suc, List, [], ◌∷◌, flatten, Bool, true, false, Option, none, some, ◌&&◌,
}
use tp_sistemas_operativos_i.Prelude.Int.{ℤ, pos, ◌-ℤ◌, leb_ℤ}
use tp_sistemas_operativos_i.Domain.{PendingResource, LocalJob, JobRef}
use tp_sistemas_operativos_i.ResourceQueue.{◌>>=◌}
use tp_sistemas_operativos_i.Wire.{print_int}
use tp_sistemas_operativos_i.Wire.Messages.{timeout}
use tp_sistemas_operativos_i.Client.{
  Agent, JobHeap, C_to_erlang, tear_down, release_resources, remove_localjob, find_localjob,
}

abbrev pub job_timeout_sec : ℤ
job_timeout_sec = pos 30

abbrev pub max_timeouts_per_tick : ℕ
max_timeouts_per_tick = 256

abbrev pub is_waiting : List PendingResource → Bool
is_waiting [] = false
is_waiting (r ∷ rs) = true

abbrev pub is_expired : ℤ → LocalJob → Bool
is_expired now job = is_waiting job.next_req && leb_ℤ job_timeout_sec (now -ℤ job.timer)

-- The ids of the expired jobs, in the order of the table, until the array is full.
unfoldable pub expired_ids : ℕ → ℤ → JobHeap → List JobRef → Option (List ℤ)
expired_ids zero now jobs rs = some []
expired_ids (suc room) now jobs [] = some []
expired_ids (suc room) now jobs (r ∷ rs) = do
  job ← jobs r.address
  elim (is_expired now job) [
    | true ↦ Option.map (◌∷◌ job.job_id) (expired_ids room now jobs rs)
    | false ↦ expired_ids (suc room) now jobs rs
  ]

unfoldable pub expire_job : ℕ → Agent → Option Agent
unfolding tear_down release_resources C_to_erlang remove_localjob
expire_job p a = do
  job ← a.jobs p
  a₁ ← tear_down p a
  a₂ ← release_resources p a₁
  remove_localjob p (C_to_erlang timeout (print_int job.job_id) a₂)

abbrev pub expired_at : Agent → Option JobRef → Option Agent
expired_at a none = some a
expired_at a (some r) = expire_job r.address a

-- The second pass, over the ids.
unfoldable pub expire_jobs : List ℤ → Agent → Option Agent
unfolding expire_job find_localjob
expire_jobs [] a = some a
expire_jobs (id ∷ ids) a = do a' ← expired_at a (find_localjob id a); expire_jobs ids a'

unfoldable pub check_ourjob_timeouts : ℤ → Agent → Option Agent
unfolding expired_ids expire_jobs
check_ourjob_timeouts now a = do
  ids ← expired_ids max_timeouts_per_tick now a.jobs (flatten a.table_localjobs.elems)
  expire_jobs ids a
