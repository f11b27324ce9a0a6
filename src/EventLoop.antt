-- ===== src/EventLoop.antt =====
-- agent/agent.c: `event_loop`, which hands each event to a handler of agent/loopfunc.c by its
-- descriptor, and the state that main.c hands to it. One worker runs here: the events of a round are
-- handled one after the other. What the system calls answer is part of an event.
pub mod Dispatch
pub mod Rounds
pub mod Serving
pub mod Books
use tp_sistemas_operativos_i.Prelude.{
  ℕ, List, [], ◌∷◌, Option, none, some, Bool, true, false, if◌then◌else◌,
}
use tp_sistemas_operativos_i.Prelude.Int.{ℤ, pos, negsuc, eq_ℤ}
use tp_sistemas_operativos_i.Domain.{
  create_table_nodes, create_table_fd_jobs, create_table_local_jobs,
}
use tp_sistemas_operativos_i.ResourceQueue.{◌>>=◌}
use tp_sistemas_operativos_i.Framing.{Connections, initialize_connection_buffers}
use tp_sistemas_operativos_i.Nodes.{check_nodes_timeouts}
use tp_sistemas_operativos_i.Server.{start}
use tp_sistemas_operativos_i.Client.{Agent, Env, send_request}
use tp_sistemas_operativos_i.Client.Timeouts.{check_ourjob_timeouts}
use tp_sistemas_operativos_i.Handlers.{
  World, Turn, Handled, finished, faulted, unfinished, Accepted, connect_erlang, connect_client,
  udp_broadcast, restart_epolloneshot, returned, message_from_erlang, recive_message_from_remote,
  datagram_handled,
}

-- `worker_args_t`
pub record WorkerArgs : Type 0 where
  pub broadcast_timer_fd : ℤ
  pub timeout_timer_fd : ℤ
  pub port : ℤ

-- What the workers know: the sockets of `initialize_listen_sockets`, and their argument.
pub record Endpoints : Type 0 where
  pub socket_server : ℤ
  pub socket_erlang : ℤ
  pub socket_udp : ℤ
  pub args : WorkerArgs

-- An event of `epoll_wait`: its descriptor, whether it has EPOLLOUT, and what the calls of its handler
-- answer: `accept4`, whether the `read` of the timer fails, the first and the second reading of the
-- clock, `recvfrom`, each turn of a loop, and the calls after the loop.
pub record Occurrence : Type 0 where
  pub fd : ℤ
  pub writable : Bool
  pub accept : Accepted
  pub timer_fails : Bool
  pub now : ℤ
  pub later : ℤ
  pub datagram : Option (List ℕ × ℤ)
  pub turns : ℕ → Turn
  pub env : Env

abbrev pub erlang_connected : Occurrence → World → World
erlang_connected o w =
    let (new_fd, a) = connect_erlang o.accept w.agent in
    record w { agent = record a { erlangfd = new_fd } }

abbrev pub broadcast_fired : Endpoints → Occurrence → World → World
broadcast_fired e o w =
    if o.timer_fails
    then w
    else record w { agent = restart_epolloneshot o.fd (udp_broadcast e.args.port w.agent) }

abbrev pub timeouts_checked : Occurrence → Agent → Option Agent
timeouts_checked o a = do
  a' ←
      check_ourjob_timeouts o.later
        (record a { table_nodes = check_nodes_timeouts o.now a.table_nodes })
  some (restart_epolloneshot o.fd a')

abbrev pub timeout_fired : Occurrence → World → Handled
timeout_fired o w =
    if o.timer_fails then finished w else returned w.connections (timeouts_checked o w.agent)

unfoldable pub handle_event : Endpoints → ℕ → Occurrence → World → Handled
unfolding connect_erlang connect_client udp_broadcast check_nodes_timeouts check_ourjob_timeouts
    message_from_erlang send_request recive_message_from_remote
handle_event e fuel o w =
    if eq_ℤ o.fd e.socket_erlang
    then finished (erlang_connected o w)
    else (if eq_ℤ o.fd e.socket_server
        then finished (record w { agent = connect_client o.accept w.agent })
        else (if eq_ℤ o.fd e.args.broadcast_timer_fd
            then finished (broadcast_fired e o w)
            else (if eq_ℤ o.fd e.args.timeout_timer_fd
                then timeout_fired o w
                else (if eq_ℤ o.fd e.socket_udp
                    then finished (record w { agent = datagram_handled o.datagram o.now w.agent })
                    else (if eq_ℤ o.fd w.agent.erlangfd
                        then message_from_erlang fuel o.turns o.fd w
                        else (if o.writable
                            then returned w.connections (send_request o.fd w.agent)
                            else recive_message_from_remote fuel o.turns o.env o.fd w))))))

-- The events of one round.
unfoldable pub handle_events : Endpoints → ℕ → List Occurrence → World → Handled
unfolding handle_event
handle_events e fuel [] w = finished w
handle_events e fuel (o ∷ os) w = elim (handle_event e fuel o w) [
  | finished w' ↦ handle_events e fuel os w'
  | faulted ↦ faulted
  | unfinished ↦ unfinished
]

-- What `epoll_wait` returns: an error, or the events that are ready.
pub data Wakeup : Type 0 where
  wait_failed : Wakeup
  ready : List Occurrence → Wakeup

-- Some rounds of `while (1)`.
unfoldable pub event_loop : Endpoints → ℕ → List Wakeup → World → Handled
unfolding handle_events
event_loop e fuel [] w = finished w
event_loop e fuel (wait_failed ∷ rounds) w = event_loop e fuel rounds w
event_loop e fuel (ready os ∷ rounds) w = elim (handle_events e fuel os w) [
  | finished w' ↦ event_loop e fuel rounds w'
  | faulted ↦ faulted
  | unfinished ↦ unfinished
]

-- The state of `main` before `setup_epoll`; no job is allocated.
unfoldable pub initial : World
unfolding start create_table_nodes create_table_fd_jobs create_table_local_jobs
    initialize_connection_buffers
initial = record {
  agent = record {
    server = start;
    table_localjobs = create_table_local_jobs;
    table_ourjobs = create_table_fd_jobs;
    table_nodes = create_table_nodes;
    jobs = λ p. none;
    erlangfd = negsuc 0;
  };
  connections = initialize_connection_buffers;
}
