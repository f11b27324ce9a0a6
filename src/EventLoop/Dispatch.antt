-- ===== src/EventLoop/Dispatch.antt =====
-- `event_loop` of agent/agent.c keeps the tables of jobs consistent and the buffers well formed, and
-- each event is handled to its end.
use tp_sistemas_operativos_i.Prelude.{
  ℕ, ◌+◌, ◌≤◌, ◌≡◌, refl, ap, Option, Bool, true, false, if◌then◌else◌,
}
use tp_sistemas_operativos_i.Prelude.Int.{eq_ℤ}
use tp_sistemas_operativos_i.Framing.{Connections, buffer_len}
use tp_sistemas_operativos_i.Nodes.{check_nodes_timeouts}
use tp_sistemas_operativos_i.Client.{Agent, send_request}
use tp_sistemas_operativos_i.Client.Scheduler.{erlang_to_C}
use tp_sistemas_operativos_i.Client.Timeouts.{check_ourjob_timeouts}
use tp_sistemas_operativos_i.Client.Ownership.{IsConsistent}
use tp_sistemas_operativos_i.Client.Freeing.{Continues, bind-Continues}
use tp_sistemas_operativos_i.Client.Asking.{AttemptFits}
use tp_sistemas_operativos_i.Client.Sweeping.{check_ourjob_timeouts-IsConsistent}
use tp_sistemas_operativos_i.Client.Dispatch.{send_request-IsConsistent}
use tp_sistemas_operativos_i.Handlers.{
  World, Handled, Accepted, no_connection, accepted, unwatched, connect_client, connect_erlang,
  returned, erlang_concluded, udp_broadcast,
}
use tp_sistemas_operativos_i.Handlers.Reading.{Held}
use tp_sistemas_operativos_i.Handlers.Returns.{IsSound, Returns, Arrives, Admits}
use tp_sistemas_operativos_i.Handlers.Messages.{
  IsServable, message_from_erlang-IsSound, recive_message_from_remote-IsSound,
}
use tp_sistemas_operativos_i.EventLoop.{
  Endpoints, Occurrence, handle_event, erlang_connected, broadcast_fired, timeouts_checked,
}

-- What the environment owes one event: its socket runs out of bytes, with fuel left for what is
-- buffered; no descriptor is negative; and each line of the scheduler is servable.
pub record Permits (fuel : ℕ) (o : Occurrence) (w : World) : Type 0 where
  pub quiet : ℕ
  pub arrives : Arrives o.turns quiet
  pub enough : quiet + buffer_len ≤ fuel
  pub opens : (k : ℕ) → AttemptFits (o.turns k).env.attempt
  pub servable :
      eq_ℤ o.fd w.agent.erlangfd ≡ true
      → Admits erlang_to_C (erlang_concluded o.fd) IsServable fuel o.turns o.fd w

if-Returns :
    (b : Bool) (x y : Handled)
    → (b ≡ true → Returns x)
    → (b ≡ false → Returns y)
    → Returns (if b then x else y)
if-Returns true x y h k = h refl
if-Returns false x y h k = k refl

returned-Returns :
    (cs : Connections) (o : Option Agent) → Held cs → Continues o → Returns (returned cs o)
returned-Returns cs o held (a, e, c) = (
  record { agent = a; connections = cs },
  ap (returned cs) e,
  record { consistent = c; held = held },
)

accepted-IsSound :
    (o : Occurrence) (accept : Accepted) (w : World)
    → IsSound w
    → IsSound (erlang_connected (record o { accept = accept }) w)
unfolding connect_erlang
accepted-IsSound o no_connection w v = record { consistent = v.consistent; held = v.held }
accepted-IsSound o (accepted fd) w v = record { consistent = v.consistent; held = v.held }
accepted-IsSound o (unwatched fd) w v = record { consistent = v.consistent; held = v.held }

connect_client-IsConsistent :
    (accept : Accepted) (a : Agent) → IsConsistent a → IsConsistent (connect_client accept a)
unfolding connect_client
connect_client-IsConsistent no_connection a c = c
connect_client-IsConsistent (accepted fd) a c = c
connect_client-IsConsistent (unwatched fd) a c = c

broadcast-IsSound :
    (e : Endpoints) (o : Occurrence) (fails : Bool) (w : World)
    → IsSound w
    → IsSound (broadcast_fired e (record o { timer_fails = fails }) w)
unfolding udp_broadcast
broadcast-IsSound e o true w v = v
broadcast-IsSound e o false w v = record { consistent = v.consistent; held = v.held }

timeouts_checked-Continues :
    (o : Occurrence) (a : Agent) → IsConsistent a → Continues (timeouts_checked o a)
timeouts_checked-Continues o a c =
    let swept : Agent = record a { table_nodes = check_nodes_timeouts o.now a.table_nodes } in
    let (a', e, c', _, _, _) = check_ourjob_timeouts-IsConsistent o.later swept c in
    bind-Continues (check_ourjob_timeouts o.later swept) _ (a', e, c')
      (λ a'' e' c''. (_, refl, c''))

pub handle_event-Returns :
    (e : Endpoints) (fuel : ℕ) (o : Occurrence) (w : World)
    → Permits fuel o w
    → IsSound w
    → Returns (handle_event e fuel o w)
unfolding handle_event
handle_event-Returns e fuel o w permits v =
    if-Returns (eq_ℤ o.fd e.socket_erlang) _ _ (λ _. (_, refl, accepted-IsSound o o.accept w v))
      (λ _.
        if-Returns (eq_ℤ o.fd e.socket_server) _ _
          (λ _. (
            _,
            refl,
            record {
              consistent = connect_client-IsConsistent o.accept w.agent v.consistent;
              held = v.held;
            },
          ))
          (λ _.
            if-Returns (eq_ℤ o.fd e.args.broadcast_timer_fd) _ _
              (λ _. (_, refl, broadcast-IsSound e o o.timer_fails w v))
              (λ _.
                if-Returns (eq_ℤ o.fd e.args.timeout_timer_fd) _ _
                  (λ _.
                    if-Returns o.timer_fails _ _ (λ _. (w, refl, v))
                      (λ _.
                        returned-Returns w.connections (timeouts_checked o w.agent) v.held
                          (timeouts_checked-Continues o w.agent v.consistent)))
                  (λ _.
                    if-Returns (eq_ℤ o.fd e.socket_udp) _ _
                      (λ _. (_, refl, record { consistent = v.consistent; held = v.held }))
                      (λ _.
                        if-Returns (eq_ℤ o.fd w.agent.erlangfd) _ _
                          (λ own.
                            message_from_erlang-IsSound permits.quiet fuel o.turns o.fd w
                              permits.arrives permits.enough v (permits.servable own))
                          (λ _.
                            if-Returns o.writable _ _
                              (λ _.
                                returned-Returns w.connections (send_request o.fd w.agent) v.held
                                  (send_request-IsConsistent o.fd w.agent v.consistent))
                              (λ _.
                                recive_message_from_remote-IsSound permits.quiet fuel o.turns o.env
                                  o.fd w permits.arrives permits.opens permits.enough v)))))))
