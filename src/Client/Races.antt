-- ===== src/Client/Races.antt =====
-- One worker of Client.Sessions alone does what the handler does as one step; two workers on one job
-- can make one of them read it when the other has freed it.
use tp_sistemas_operativos_i.Prelude.{ℕ, ◌≡◌, refl, List, [], ◌∷◌, Option, none, some}
use tp_sistemas_operativos_i.Prelude.Int.{ℤ}
use tp_sistemas_operativos_i.Domain.{JobRef}
use tp_sistemas_operativos_i.Client.{
  Agent, Env, find_job, find_localjob, rejected_at, reject_job, send_request, tear_down,
}
use tp_sistemas_operativos_i.Client.Remote.{grant_job, granted_at}
use tp_sistemas_operativos_i.Client.Scheduler.{release_job, released_at}
use tp_sistemas_operativos_i.Client.Timeouts.{expire_job, expired_at}
use tp_sistemas_operativos_i.Client.Ownership.{IsConsistent}
use tp_sistemas_operativos_i.Client.Giving.{find_localjob-Owned}
use tp_sistemas_operativos_i.Client.Expiry.{expire_job-Drops}
use tp_sistemas_operativos_i.Client.Sessions.{
  Handler, grants, rejects, sends, expires, releases, look_up, work_on, Progress, done, Sessions,
  Move, looks, uses, move, run_moves,
}

-- The handler as one step.
abbrev pub handled : Env → Handler → Agent → Option Agent
handled env (grants fd id) a = granted_at env fd id a (find_job fd a)
handled env (rejects fd) a = rejected_at fd a (find_job fd a)
handled env (sends fd) a = send_request fd a
handled env (expires id) a = expired_at a (find_localjob id a)
handled env (releases id) a = released_at a (find_localjob id a)

abbrev continued : Env → Handler → Agent → Option ℕ → Option Agent
continued env h a none = some a
continued env h a (some p) = work_on env h p a

-- A worker that has freed memory in its hands faults.
work_on-freed :
    (env : Env) (h : Handler) (p : ℕ) (a : Agent) → a.jobs p ≡ none → work_on env h p a ≡ none
unfolding work_on grant_job reject_job expire_job release_job tear_down
work_on-freed env (grants fd id) p a e = rw e refl
work_on-freed env (rejects fd) p a e = rw e refl
work_on-freed env (sends fd) p a e = rw e refl
work_on-freed env (expires id) p a e = rw e refl
work_on-freed env (releases id) p a e = rw e refl

abbrev pub two_workers : Agent → Sessions
two_workers a = record { agent = a; phases = done ∷ done ∷ [] }

-- A job expires between the look-up and the use.
abbrev pub overtaken : Handler → ℤ → Env → Env → List Move
overtaken h id env env' = looks 0 h ∷ looks 1 (expires id) ∷ uses 1 env ∷ uses 0 env' ∷ []

-- From a consistent state, let worker 0 look up a job for any handler, and worker 1 handle the timeout
-- of that job before worker 0 goes on: worker 0 reads the freed job.
pub overtaken-faults :
    (h : Handler) (id : ℤ) (r : JobRef) (env env' : Env) (a : Agent)
    → look_up h a ≡ some r.address
    → find_localjob id a ≡ some r
    → IsConsistent a
    → run_moves (two_workers a) (overtaken h id env env') ≡ none
unfolding run_moves move look_up work_on
overtaken-faults h id r env env' a e at c =
    let (job, own, named) = find_localjob-Owned a id r c at in
    let (a', returns, d) = expire_job-Drops r.address job a own c in
    let stale = work_on-freed env' h r.address a' d.freed in rw (at, e, returns, stale) refl

abbrev kept : List Progress → Agent → Option Sessions
kept phases a = some (record { agent = a; phases = phases })
