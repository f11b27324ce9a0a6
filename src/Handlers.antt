-- ===== src/Handlers.antt =====
-- agent/loopfunc.c: what the event loop does for one event. The lines that arrive during a call are
-- an argument: `turns k` is what `recv` and the other calls answer while the loop of the handler
-- makes its step k. The loops take fuel, one unit for each call of `read_until_newline`.
pub mod Reading
pub mod Returns
pub mod Messages
pub mod Serving
use tp_sistemas_operativos_i.Prelude.{ℕ, zero, suc, List, Option, none, some}
use tp_sistemas_operativos_i.Prelude.Int.{ℤ, negsuc}
use tp_sistemas_operativos_i.Kernel.{closed, epoll_add, epoll_mod, epoll_del, broadcast}
use tp_sistemas_operativos_i.Framing.{
  Connections, Recv, Status, line, incomplete, gone, read_until_newline, clear_connection_buffer,
}
use tp_sistemas_operativos_i.ResourceQueue.{◌>>=◌}
use tp_sistemas_operativos_i.Nodes.{announce_message, udp_datagram_from_remote}
use tp_sistemas_operativos_i.Server.{release_client_by_fd}
use tp_sistemas_operativos_i.Client.{Agent, Env, emit, handle_outbound_disconnect}
use tp_sistemas_operativos_i.Client.Remote.{client_to_myserver}
use tp_sistemas_operativos_i.Client.Scheduler.{erlang_to_C}

-- The agent, with the buffers of its connections.
pub record World : Type 0 where
  pub agent : Agent
  pub connections : Connections

pub record Turn : Type 0 where
  pub recv : ℕ → Recv
  pub env : Env

-- How a handler ends: it returns; it reads a freed job; its fuel is used up.
pub data Handled : Type 0 where
  finished : World → Handled
  faulted unfinished : Handled

-- How `accept4` and `epoll_ctl` go: no connection; a descriptor that is registered; one that is not.
pub data Accepted : Type 0 where
  no_connection : Accepted
  accepted unwatched : ℤ → Accepted

-- The result, with what the calls do.
unfoldable pub connect_erlang : Accepted → Agent → ℤ × Agent
connect_erlang no_connection a = (negsuc 0, a)
connect_erlang (accepted fd) a = (fd, emit (epoll_add fd) a)
connect_erlang (unwatched fd) a = (negsuc 0, emit (closed fd) a)

unfoldable pub connect_client : Accepted → Agent → Agent
connect_client no_connection a = a
connect_client (accepted fd) a = emit (epoll_add fd) a
connect_client (unwatched fd) a = emit (closed fd) a

unfoldable pub udp_broadcast : ℤ → Agent → Agent
unfolding announce_message
udp_broadcast port a =
    emit
      (broadcast (
        announce_message port a.server.cpu_queue.resources_left a.server.mem_queue.resources_left
          a.server.gpu_queue.resources_left))
      a

-- agent/utils.c
abbrev pub restart_epolloneshot : ℤ → Agent → Agent
restart_epolloneshot fd a = emit (epoll_mod fd) a

abbrev pub returned : Connections → Option Agent → Handled
returned cs none = faulted
returned cs (some a) = finished (record { agent = a; connections = cs })

-- `while ((result = read_until_newline(fd, line)) == 1) handle(line);`, then what follows `result`.
module _ (handle : Env → List ℕ → Agent → Option Agent) (conclude : Status → World → Handled) where
  unfoldable pub read_lines : ℕ → (ℕ → Turn) → ℤ → World → Handled
  unfolding read_until_newline
  read_lines zero turns fd w = unfinished
  read_lines (suc n) turns fd w =
      let (status, cs) = read_until_newline fd (turns 0).recv w.connections in
      elim status [
        | incomplete ↦ conclude incomplete (record w { connections = cs })
        | gone ↦ conclude gone (record w { connections = cs })
        | line l ↦ elim (handle (turns 0).env l w.agent) [
          | none ↦ faulted
          | some a ↦ read_lines n (λ k. turns (suc k)) fd (record { agent = a; connections = cs })
        ]
      ]

abbrev pub erlang_concluded : ℤ → Status → World → Handled
erlang_concluded fd gone w = finished (record {
  agent = record (emit (closed w.agent.erlangfd) (emit (epoll_del w.agent.erlangfd) w.agent)) {
    erlangfd = negsuc 0;
  };
  connections = clear_connection_buffer w.agent.erlangfd w.connections;
})
erlang_concluded fd _ w = finished (record w { agent = restart_epolloneshot fd w.agent })

unfoldable pub message_from_erlang : ℕ → (ℕ → Turn) → ℤ → World → Handled
unfolding read_lines clear_connection_buffer erlang_to_C
message_from_erlang fuel turns fd w = read_lines erlang_to_C (erlang_concluded fd) fuel turns fd w

-- What `getpeername` answers once the loop has ended is `env.peer`.
abbrev pub remote_concluded : Env → ℤ → Status → World → Handled
remote_concluded env fd gone w = returned (clear_connection_buffer fd w.connections) (do
  a ←
      handle_outbound_disconnect fd
        (record w.agent { server = release_client_by_fd env.peer w.agent.server fd })
  some (emit (closed fd) (emit (epoll_del fd) a)))
remote_concluded env fd _ w = finished (record w { agent = restart_epolloneshot fd w.agent })

unfoldable pub recive_message_from_remote : ℕ → (ℕ → Turn) → Env → ℤ → World → Handled
unfolding read_lines clear_connection_buffer client_to_myserver handle_outbound_disconnect
    release_client_by_fd
recive_message_from_remote fuel turns env fd w =
    read_lines (λ env' l. client_to_myserver env' fd l) (remote_concluded env fd) fuel turns fd w

-- The directory, with what `recvfrom` and the clock answer.
abbrev pub datagram_handled : Option (List ℕ × ℤ) → ℤ → Agent → Agent
datagram_handled datagram now a = record a {
  table_nodes = udp_datagram_from_remote datagram now a.table_nodes;
}
