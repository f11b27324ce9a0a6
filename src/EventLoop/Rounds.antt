-- ===== src/EventLoop/Rounds.antt =====
-- Rounds of `event_loop` (agent/agent.c) from the state of main.c on.
use tp_sistemas_operativos_i.Prelude.{ℕ, ◌≡◌, refl, List, [], ◌∷◌, none, true, false}
use tp_sistemas_operativos_i.Prelude.Int.{ℤ, negsuc, eq_ℤ}
use tp_sistemas_operativos_i.Domain.{create_table_fd_jobs, create_table_local_jobs}
use tp_sistemas_operativos_i.Client.Admission.{created-Consistent}
use tp_sistemas_operativos_i.Handlers.{
  World, finished, no_connection, connect_erlang, recive_message_from_remote,
}
use tp_sistemas_operativos_i.Handlers.Reading.{initialize_connection_buffers-Held}
use tp_sistemas_operativos_i.Handlers.Returns.{IsSound, Returns}
use tp_sistemas_operativos_i.EventLoop.{
  Endpoints, Occurrence, Wakeup, wait_failed, ready, handle_event, handle_events, event_loop,
  initial,
}
use tp_sistemas_operativos_i.EventLoop.Dispatch.{Permits, handle_event-Returns}

-- Each event is permitted when it comes.
unfoldable pub PermitsEvents : Endpoints → ℕ → List Occurrence → World → Type 0
PermitsEvents e fuel [] w = Unit {0}
PermitsEvents e fuel (o ∷ os) w =
    Permits fuel o w
    × ((w' : World) → handle_event e fuel o w ≡ finished w' → PermitsEvents e fuel os w')

unfoldable pub PermitsRounds : Endpoints → ℕ → List Wakeup → World → Type 0
unfolding PermitsEvents
PermitsRounds e fuel [] w = Unit {0}
PermitsRounds e fuel (wait_failed ∷ rounds) w = PermitsRounds e fuel rounds w
PermitsRounds e fuel (ready os ∷ rounds) w =
    PermitsEvents e fuel os w
    × ((w' : World) → handle_events e fuel os w ≡ finished w' → PermitsRounds e fuel rounds w')

handle_events-Returns :
    (e : Endpoints) (fuel : ℕ) (os : List Occurrence) (w : World)
    → PermitsEvents e fuel os w
    → IsSound w
    → Returns (handle_events e fuel os w)
unfolding handle_events PermitsEvents
handle_events-Returns e fuel [] w permits v = (w, refl, v)
handle_events-Returns e fuel (o ∷ os) w permits v =
    let (w', done, v') = handle_event-Returns e fuel o w permits.0 v in
    rw (done, handle_events) (handle_events-Returns e fuel os w' (permits.1 w' done) v')

event_loop-Returns :
    (e : Endpoints) (fuel : ℕ) (rounds : List Wakeup) (w : World)
    → PermitsRounds e fuel rounds w
    → IsSound w
    → Returns (event_loop e fuel rounds w)
unfolding event_loop PermitsRounds
event_loop-Returns e fuel [] w permits v = (w, refl, v)
event_loop-Returns e fuel (wait_failed ∷ rounds) w permits v =
    event_loop-Returns e fuel rounds w permits v
event_loop-Returns e fuel (ready os ∷ rounds) w permits v =
    let (w', done, v') = handle_events-Returns e fuel os w permits.0 v in
    rw (done, event_loop) (event_loop-Returns e fuel rounds w' (permits.1 w' done) v')

pub initial-IsSound : IsSound initial
unfolding initial create_table_fd_jobs create_table_local_jobs
initial-IsSound = record {
  consistent = created-Consistent (λ p. none);
  held = initialize_connection_buffers-Held;
}

-- From the state that `main` sets up, any number of rounds of the event loop, with any events, is
-- handled to its end: no handler reads a freed job or runs out of fuel, and the tables of jobs and
-- the buffers stay well formed. Each event must be permitted when it comes: its socket has no more
-- bytes from some turn on and the fuel covers those turns and a full buffer, no descriptor is
-- negative, an allocated address is fresh, and a JOB_REQUEST brings an id that is not in use.
pub event_loop-IsSound :
    (e : Endpoints) (fuel : ℕ) (rounds : List Wakeup)
    → PermitsRounds e fuel rounds initial
    → (w : World) × (event_loop e fuel rounds initial ≡ finished w) × IsSound w
event_loop-IsSound e fuel rounds permits =
    event_loop-Returns e fuel rounds initial permits initial-IsSound

-- A descriptor that is none of the agent's own.
pub record IsForeign (e : Endpoints) (fd : ℤ) : Type 0 where
  pub not_erlang : eq_ℤ fd e.socket_erlang ≡ false
  pub not_server : eq_ℤ fd e.socket_server ≡ false
  pub not_broadcast : eq_ℤ fd e.args.broadcast_timer_fd ≡ false
  pub not_timeout : eq_ℤ fd e.args.timeout_timer_fd ≡ false
  pub not_datagrams : eq_ℤ fd e.socket_udp ≡ false
  pub not_negative : eq_ℤ fd (negsuc 0) ≡ false

-- An event of `socket_erlang` in which `accept4` gives no connection makes the agent forget the
-- scheduler that is connected: what that scheduler sends next, on the descriptor that `erlangfd` had,
-- is read as the lines of a peer.
pub forgotten_scheduler :
    (e : Endpoints) (fuel : ℕ) (o next : Occurrence) (w : World)
    → eq_ℤ o.fd e.socket_erlang ≡ true
    → o.accept ≡ no_connection
    → next.fd ≡ w.agent.erlangfd
    → IsForeign e next.fd
    → next.writable ≡ false
    → (w' : World) × (handle_event e fuel o w ≡ finished w')
      × (w'.agent.jobs ≡ w.agent.jobs)
      × (handle_event e fuel next w'
          ≡ recive_message_from_remote fuel next.turns next.env w.agent.erlangfd w')
unfolding handle_event connect_erlang
forgotten_scheduler e fuel o next w here none_there same foreign reads = (
  record w { agent = record w.agent { erlangfd = negsuc 0 } },
  (rw (here, none_there) refl),
  refl,
  (rw
      (
        foreign.not_erlang, foreign.not_server, foreign.not_broadcast, foreign.not_timeout,
        foreign.not_datagrams, foreign.not_negative, reads, same,
      )
      refl),
)
