-- ===== src/EventLoop/Serving.antt =====
-- The events of `event_loop` (agent/agent.c) change the server side by its own calls only.
use tp_sistemas_operativos_i.Prelude.{ℕ, List, [], ◌∷◌, Bool, true, false, if◌then◌else◌}
use tp_sistemas_operativos_i.Prelude.Int.{eq_ℤ}
use tp_sistemas_operativos_i.Nodes.{check_nodes_timeouts}
use tp_sistemas_operativos_i.Server.{Server}
use tp_sistemas_operativos_i.Client.{Agent, send_request}
use tp_sistemas_operativos_i.Client.Timeouts.{check_ourjob_timeouts}
use tp_sistemas_operativos_i.Client.Serving.{IsKept, Stays, bind-Stays, send_request-Stays}
use tp_sistemas_operativos_i.Client.Bystanders.{check_ourjob_timeouts-Stays}
use tp_sistemas_operativos_i.Handlers.{
  World, Handled, finished, faulted, unfinished, Accepted, no_connection, accepted, unwatched,
  connect_client, connect_erlang, udp_broadcast,
}
use tp_sistemas_operativos_i.EventLoop.{
  Endpoints, Occurrence, Wakeup, wait_failed, ready, handle_event, handle_events, event_loop,
  erlang_connected, broadcast_fired, timeouts_checked,
}
use tp_sistemas_operativos_i.Handlers.Serving.{
  Keeps, returned-Keeps, message_from_erlang-Keeps, recive_message_from_remote-Keeps,
}

module _ (J : Server → Type 0) (kept : IsKept J) where
  if-Keeps :
      (b : Bool) (x y : Handled)
      → Keeps J kept x
      → Keeps J kept y
      → Keeps J kept (if b then x else y)
  if-Keeps true x y h k = h
  if-Keeps false x y h k = k

  accepted-J :
      (o : Occurrence) (accept : Accepted) (w : World)
      → J w.agent.server
      → J (erlang_connected (record o { accept = accept }) w).agent.server
  unfolding connect_erlang
  accepted-J o no_connection w j = j
  accepted-J o (accepted fd) w j = kept.untraced w.agent.server _ j
  accepted-J o (unwatched fd) w j = kept.untraced w.agent.server _ j

  connect_client-J :
      (accept : Accepted) (a : Agent) → J a.server → J (connect_client accept a).server
  unfolding connect_client
  connect_client-J no_connection a j = j
  connect_client-J (accepted fd) a j = kept.untraced a.server _ j
  connect_client-J (unwatched fd) a j = kept.untraced a.server _ j

  broadcast-J :
      (e : Endpoints) (o : Occurrence) (fails : Bool) (w : World)
      → J w.agent.server
      → J (broadcast_fired e (record o { timer_fails = fails }) w).agent.server
  unfolding udp_broadcast
  broadcast-J e o true w j = j
  broadcast-J e o false w j = kept.untraced w.agent.server _ j

  timeouts_checked-Stays :
      (o : Occurrence) (a : Agent) → J a.server → Stays J kept (timeouts_checked o a)
  timeouts_checked-Stays o a j =
      let swept : Agent = record a { table_nodes = check_nodes_timeouts o.now a.table_nodes } in
      bind-Stays J kept (check_ourjob_timeouts o.later swept) _
        (check_ourjob_timeouts-Stays J kept o.later swept j) (λ a' j'. kept.untraced a'.server _ j')

  handle_event-Keeps :
      (e : Endpoints) (fuel : ℕ) (o : Occurrence) (w : World)
      → J w.agent.server
      → Keeps J kept (handle_event e fuel o w)
  unfolding handle_event
  handle_event-Keeps e fuel o w j =
      if-Keeps (eq_ℤ o.fd e.socket_erlang) _ _ (accepted-J o o.accept w j) (
        if-Keeps (eq_ℤ o.fd e.socket_server) _ _ (connect_client-J o.accept w.agent j) (
          if-Keeps (eq_ℤ o.fd e.args.broadcast_timer_fd) _ _ (broadcast-J e o o.timer_fails w j) (
            if-Keeps (eq_ℤ o.fd e.args.timeout_timer_fd) _ _
              (if-Keeps o.timer_fails _ _ j (
                returned-Keeps J kept w.connections (timeouts_checked o w.agent)
                  (timeouts_checked-Stays o w.agent j)))
              (if-Keeps (eq_ℤ o.fd e.socket_udp) _ _ j (
                if-Keeps (eq_ℤ o.fd w.agent.erlangfd) _ _
                  (message_from_erlang-Keeps J kept fuel o.turns o.fd w j)
                  (if-Keeps o.writable _ _
                    (returned-Keeps J kept w.connections (send_request o.fd w.agent)
                      (send_request-Stays J kept o.fd w.agent j))
                    (recive_message_from_remote-Keeps J kept fuel o.turns o.env o.fd w j)))))))

  -- The rest of a round, or of the rounds.
  then-Keeps :
      (h : Handled) (f : World → Handled)
      → Keeps J kept h
      → ((w : World) → J w.agent.server → Keeps J kept (f w))
      → Keeps J kept (elim h [ finished w ↦ f w | faulted ↦ faulted | unfinished ↦ unfinished ])
  then-Keeps (finished w) f j k = k w j
  then-Keeps faulted f j k = tt
  then-Keeps unfinished f j k = tt

  handle_events-Keeps :
      (e : Endpoints) (fuel : ℕ) (os : List Occurrence) (w : World)
      → J w.agent.server
      → Keeps J kept (handle_events e fuel os w)
  unfolding handle_events
  handle_events-Keeps e fuel [] w j = j
  handle_events-Keeps e fuel (o ∷ os) w j =
      then-Keeps (handle_event e fuel o w) (handle_events e fuel os)
        (handle_event-Keeps e fuel o w j) (λ w' j'. handle_events-Keeps e fuel os w' j')

  pub event_loop-Keeps :
      (e : Endpoints) (fuel : ℕ) (rounds : List Wakeup) (w : World)
      → J w.agent.server
      → Keeps J kept (event_loop e fuel rounds w)
  unfolding event_loop
  event_loop-Keeps e fuel [] w j = j
  event_loop-Keeps e fuel (wait_failed ∷ rounds) w j = event_loop-Keeps e fuel rounds w j
  event_loop-Keeps e fuel (ready os ∷ rounds) w j =
      then-Keeps (handle_events e fuel os w) (event_loop e fuel rounds)
        (handle_events-Keeps e fuel os w j) (λ w' j'. event_loop-Keeps e fuel rounds w' j')
