-- ===== src/Server/Events.antt =====
-- The calls that the event loop makes on the server side, one after the other.
use tp_sistemas_operativos_i.Prelude.{ℕ, List, [], ◌∷◌}
use tp_sistemas_operativos_i.Prelude.Int.{ℤ}
use tp_sistemas_operativos_i.Server.{Server, Peers, enqueue_jobs, release_client_by_fd}

-- A RESERVE, and a RELEASE or a disconnect, each with what `getpeername` answers at that time.
pub data Event : Type 0 where
  reserves : Peers → List ℕ → ℤ → ℤ → ℤ → Event
  releases : Peers → ℤ → Event

unfoldable pub step : Server → Event → Server
unfolding enqueue_jobs release_client_by_fd
step s (reserves peer resource job_id amount fd) = enqueue_jobs peer s resource job_id amount fd
step s (releases peer fd) = release_client_by_fd peer s fd

unfoldable pub run : Server → List Event → Server
unfolding step
run s [] = s
run s (e ∷ es) = run (step s e) es
