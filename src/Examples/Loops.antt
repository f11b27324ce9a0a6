-- ===== src/Examples/Loops.antt =====
-- Events of the loop: a peer's answer, a command of the scheduler, and a lost connection.
use tp_sistemas_operativos_i.Prelude.{
  ℕ, zero, suc, ◌≤◌, ◌≡◌, refl, sym, ◌∙◌, List, [], ◌∷◌, ◌++◌, none, some, false, arith, leb,
  if◌then◌else◌, length,
}
use tp_sistemas_operativos_i.Prelude.Int.{ℤ, pos}
use tp_sistemas_operativos_i.Prelude.Text.{codes, str_eq}
use tp_sistemas_operativos_i.Framing.{
  Recv, received, would_block, line, incomplete, initialize_connection_buffers, read_until_newline,
  read_line, strchr, extract, make_room, append_bytes,
}
use tp_sistemas_operativos_i.Framing.Lines.{RecvFits}
use tp_sistemas_operativos_i.Wire.{
  atoi, skip, read_signed, read_digits, until, after, strtok, get_token,
}
use tp_sistemas_operativos_i.Client.Asking.{AttemptFits}
use tp_sistemas_operativos_i.Client.Commands.{requested}
use tp_sistemas_operativos_i.Client.Scheduler.{erlang_to_C}
use tp_sistemas_operativos_i.Handlers.{
  World, Turn, finished, no_connection, message_from_erlang, recive_message_from_remote,
  erlang_concluded,
}
use tp_sistemas_operativos_i.Handlers.Reading.{IsQuiet, initialize_connection_buffers-Held}
use tp_sistemas_operativos_i.Handlers.Returns.{
  IsSound, Arrives, Admits, Admits-line, Admits-incomplete,
}
use tp_sistemas_operativos_i.Handlers.Messages.{
  IsServable, message_from_erlang-IsSound, recive_message_from_remote-IsSound,
}
use tp_sistemas_operativos_i.EventLoop.{
  Endpoints, Occurrence, Wakeup, wait_failed, ready, handle_event, event_loop, initial,
}
use tp_sistemas_operativos_i.EventLoop.Dispatch.{Permits}
use tp_sistemas_operativos_i.EventLoop.Rounds.{
  PermitsEvents, PermitsRounds, event_loop-IsSound, forgotten_scheduler,
}
use tp_sistemas_operativos_i.EventLoop.Books.{IsBalanced, event_loop-IsBalanced}
use tp_sistemas_operativos_i.Examples.Disconnects.{agent, agent-IsConsistent}
use tp_sistemas_operativos_i.Examples.Steps.{env, env-EnvFits}

-- One line arrives, where there is space for it.
abbrev arriving : List ℕ → ℕ → Recv
arriving l n = if leb (length l) n then received l else would_block

abbrev silent : ℕ → Recv
silent n = would_block

abbrev turns : List ℕ → ℕ → Turn
turns l zero = record { recv = arriving l; env = env }
turns l (suc k) = record { recv = silent; env = env }

arriving-RecvFits : (l : List ℕ) → RecvFits (arriving l)
arriving-RecvFits l n = ground arith

turns-RecvFits : (l : List ℕ) (k : ℕ) → RecvFits (turns l k).recv
turns-RecvFits l zero = arriving-RecvFits l
turns-RecvFits l (suc k) = λ n. omega arith

turns-IsQuiet : (l : List ℕ) (k : ℕ) → 1 ≤ k → IsQuiet (turns l k).recv
turns-IsQuiet l zero h = absurd (omega arith)
turns-IsQuiet l (suc k) h = λ n. refl

turns-AttemptFits : (l : List ℕ) (k : ℕ) → AttemptFits (turns l k).env.attempt
turns-AttemptFits l zero = refl
turns-AttemptFits l (suc k) = refl

turns-Arrives : (l : List ℕ) → Arrives (turns l) 1
turns-Arrives l = record { fits = turns-RecvFits l; ends = turns-IsQuiet l }

abbrev world : World
world = record { agent = agent; connections = initialize_connection_buffers }

world-IsSound : IsSound world
world-IsSound = record {
  consistent = agent-IsConsistent;
  held = initialize_connection_buffers-Held;
}

abbrev answer : List ℕ
answer = codes "GRANTED 7" ++ 10 ∷ []

recive_message_from_remote-IsSound_example :
    (w' : World) × (recive_message_from_remote 1025 (turns answer) env (pos 21) world ≡ finished w')
    × IsSound w'
recive_message_from_remote-IsSound_example =
    recive_message_from_remote-IsSound 1 1025 (turns answer) env (pos 21) world
      (turns-Arrives answer) (turns-AttemptFits answer) (omega arith) world-IsSound

abbrev query : List ℕ
query = codes "JOB_STATUS 7" ++ 10 ∷ []

query_line :
    (read_until_newline (pos 5) (arriving query) initialize_connection_buffers).0 ≡ line query
unfolding read_until_newline read_line strchr extract make_room append_bytes
    initialize_connection_buffers
query_line = refl

then_silent :
    (read_until_newline
      (pos 5)
      silent
      (read_until_newline (pos 5) (arriving query) initialize_connection_buffers).1).0
    ≡ incomplete
unfolding read_until_newline read_line strchr extract make_room append_bytes
    initialize_connection_buffers
then_silent = refl

query_id : requested query ≡ none
unfolding atoi skip read_signed read_digits until after strtok get_token str_eq
query_id = refl

query-IsServable : IsServable env query agent
query-IsServable =
    (env-EnvFits, λ id asked. absurd (let e : none ≡ some id = sym query_id ∙ asked in cc))

query-Admits :
    (n : ℕ)
    → Admits erlang_to_C (erlang_concluded (pos 5)) IsServable (suc n) (turns query) (pos 5) world
query-Admits n =
    Admits-line erlang_to_C (erlang_concluded (pos 5)) IsServable n (turns query) (pos 5) world
      query query_line query-IsServable
      (λ a.
        Admits-incomplete erlang_to_C (erlang_concluded (pos 5)) IsServable n
          (λ k. turns query (suc k)) (pos 5) _ then_silent)

message_from_erlang-IsSound_example :
    (w' : World) × (message_from_erlang 1025 (turns query) (pos 5) world ≡ finished w') × IsSound w'
message_from_erlang-IsSound_example =
    message_from_erlang-IsSound 1 1025 (turns query) (pos 5) world (turns-Arrives query)
      (omega arith) world-IsSound (query-Admits 1024)

abbrev endpoints : Endpoints
endpoints = record {
  socket_server = pos 4;
  socket_erlang = pos 6;
  socket_udp = pos 7;
  args = record { broadcast_timer_fd = pos 8; timeout_timer_fd = pos 9; port = pos 4200 };
}

abbrev request : List ℕ
request = codes "RESERVE 3 cpu 2" ++ 10 ∷ []

abbrev event : ℤ → List ℕ → Occurrence
event fd l = record {
  fd = fd;
  writable = false;
  accept = no_connection;
  timer_fails = false;
  now = pos 100;
  later = pos 100;
  datagram = none;
  turns = turns l;
  env = env;
}

event-Permits : (l : List ℕ) → Permits 1025 (event (pos 30) l) initial
unfolding initial
event-Permits l = record {
  quiet = 1;
  arrives = turns-Arrives l;
  enough = omega arith;
  opens = turns-AttemptFits l;
  servable = λ own. absurd cc;
}

abbrev rounds : List Wakeup
rounds = wait_failed ∷ ready (event (pos 30) request ∷ []) ∷ []

rounds-PermitsRounds : PermitsRounds endpoints 1025 rounds initial
unfolding PermitsRounds PermitsEvents
rounds-PermitsRounds = ((event-Permits request, λ w' done. tt), λ w' done. tt)

event_loop-IsSound_example :
    (w : World) × (event_loop endpoints 1025 rounds initial ≡ finished w) × IsSound w
event_loop-IsSound_example = event_loop-IsSound endpoints 1025 rounds rounds-PermitsRounds

event_loop-IsBalanced_example :
    (w : World) × (event_loop endpoints 1025 rounds initial ≡ finished w)
    × IsBalanced w.agent.server
event_loop-IsBalanced_example = event_loop-IsBalanced endpoints 1025 rounds rounds-PermitsRounds

forgotten_scheduler_example :
    (w' : World) × (handle_event endpoints 1025 (event (pos 6) []) world ≡ finished w')
    × (w'.agent.jobs ≡ world.agent.jobs)
    × (handle_event endpoints 1025 (event (pos 5) query) w'
        ≡ recive_message_from_remote 1025 (turns query) env (pos 5) w')
forgotten_scheduler_example =
    forgotten_scheduler endpoints 1025 (event (pos 6) []) (event (pos 5) query) world refl refl refl
      (record {
        not_erlang = refl;
        not_server = refl;
        not_broadcast = refl;
        not_timeout = refl;
        not_datagrams = refl;
        not_negative = refl;
      })
      refl
