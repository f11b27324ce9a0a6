-- ===== src/Kernel.antt =====
-- What the agent asks of the operating system, as events of a trace. `perror` and `printf` lines are
-- left out: nothing reads them.
use tp_sistemas_operativos_i.Prelude.{ℕ, List}
use tp_sistemas_operativos_i.Prelude.Int.{ℤ}

-- `send`, `close` and `epoll_ctl` with their file descriptor; `connect` with the address and the port
-- too; a datagram to the broadcast address.
pub data Effect : Type 0 where
  sent : ℤ → List ℕ → Effect
  closed : ℤ → Effect
  epoll_add : ℤ → Effect
  epoll_mod : ℤ → Effect
  epoll_del : ℤ → Effect
  connecting : ℤ → List ℕ → ℤ → Effect
  broadcast : List ℕ → Effect
