-- ===== src/Client/Sessions.antt =====
-- The workers of agent/agent.c on the client side. A handler looks a job up under the lock of a table
-- (`table_ourjobs` by the socket, `table_localjobs` by the id) and then works on it outside that lock:
-- these are two steps here, and other workers run between them. The look-up is one step with the read
-- of `found->job`, which the code makes after the unlock. What follows is one step too, though the code
-- takes and releases locks in it.
use tp_sistemas_operativos_i.Prelude.{ℕ, List, [], ◌∷◌, Option, none, some, get_or, set}
use tp_sistemas_operativos_i.Prelude.Int.{ℤ}
use tp_sistemas_operativos_i.Domain.{JobRef}
use tp_sistemas_operativos_i.ResourceQueue.{◌>>=◌}
use tp_sistemas_operativos_i.Client.{Agent, Env, find_job, find_localjob, reject_job, sent_for}
use tp_sistemas_operativos_i.Client.Remote.{grant_job}
use tp_sistemas_operativos_i.Client.Scheduler.{release_job}
use tp_sistemas_operativos_i.Client.Timeouts.{expire_job}

-- A handler that works on one job: GRANTED with an id, DENIED or the disconnect of a socket, a socket
-- that is ready for writing, the timeout of an id, and JOB_RELEASE of an id.
pub data Handler : Type 0 where
  grants : ℤ → ℤ → Handler
  rejects : ℤ → Handler
  sends : ℤ → Handler
  expires : ℤ → Handler
  releases : ℤ → Handler

abbrev pub ref_address : Option JobRef → Option ℕ
ref_address none = none
ref_address (some r) = some r.address

-- The address of the job that the handler looks up.
unfoldable pub look_up : Handler → Agent → Option ℕ
look_up (grants fd id) a = find_job fd a
look_up (rejects fd) a = find_job fd a
look_up (sends fd) a = find_job fd a
look_up (expires id) a = ref_address (find_localjob id a)
look_up (releases id) a = ref_address (find_localjob id a)

-- What the handler does with the job at `p`; `none` where it reads a freed job.
unfoldable pub work_on : Env → Handler → ℕ → Agent → Option Agent
work_on env (grants fd id) p a = grant_job env fd id p a
work_on env (rejects fd) p a = reject_job fd p a
work_on env (sends fd) p a = sent_for fd a (some p)
work_on env (expires id) p a = expire_job p a
work_on env (releases id) p a = release_job p a

pub data Progress : Type 0 where
  done : Progress
  found : Handler → ℕ → Progress

pub record Sessions : Type 0 where
  pub agent : Agent
  pub phases : List Progress

-- Worker `i` looks a job up for a handler, or works on the job that it found.
pub data Move : Type 0 where
  looks : ℕ → Handler → Move
  uses : ℕ → Env → Move

abbrev pub progress_of : Handler → Option ℕ → Progress
progress_of h none = done
progress_of h (some p) = found h p

abbrev pub looked : ℕ → Handler → Sessions → Progress → Sessions
looked i h w done = record w { phases = set w.phases i (progress_of h (look_up h w.agent)) }
looked i h w (found h' p) = w

abbrev pub used : ℕ → Env → Sessions → Progress → Option Sessions
used i env w done = some w
used i env w (found h p) = do
  a ← work_on env h p w.agent
  some (record { agent = a; phases = set w.phases i done })

unfoldable pub move : Sessions → Move → Option Sessions
unfolding look_up work_on
move w (looks i h) = some (looked i h w (get_or w.phases i done))
move w (uses i env) = used i env w (get_or w.phases i done)

unfoldable pub run_moves : Sessions → List Move → Option Sessions
unfolding move
run_moves w [] = some w
run_moves w (t ∷ ts) = do w' ← move w t; run_moves w' ts
