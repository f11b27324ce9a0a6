-- ===== src/Server/Workers/Keeping.antt =====
-- From one worker of Server.Workers to all: what an action keeps of the shared state and of its worker
-- holds of the shared state and of every worker.
use tp_sistemas_operativos_i.Prelude.{ℕ, zero, suc, List, [], ◌∷◌, All}
use tp_sistemas_operativos_i.Server.{Server}
use tp_sistemas_operativos_i.Server.Workers.{Task, Action, act}

module _ (P : Server → Type 0) (Q : Task → Type 0) (a : Action)
    (step : (t : Task) (s : Server) → P s → Q t → P (a t s).1 × Q (a t s).0) where
  pub act-Keeps :
      (i : ℕ) (ts : List Task) (s : Server)
      → P s
      → All Q ts
      → P (act i a ts s).1 × All Q (act i a ts s).0
  unfolding act
  act-Keeps i [] s v h = (v, tt)
  act-Keeps zero (t ∷ ts) s v h = let (s', t') = step t s v h.0 in (s', (t', h.1))
  act-Keeps (suc i) (t ∷ ts) s v h = let (s', ts') = act-Keeps i ts s v h.1 in (s', (h.0, ts'))
