-- ===== src/Handlers/Messages.antt =====
-- `message_from_erlang` and `recive_message_from_remote` of agent/loopfunc.c, whole: the loop, and what
-- follows it when the socket has no more lines or is closed.
use tp_sistemas_operativos_i.Prelude.{
  ℕ, zero, suc, ◌+◌, ◌≤◌, ◌≡◌, refl, ap, List, [], none, some, Bool-cases, inl, inr, arith,
}
use tp_sistemas_operativos_i.Prelude.Int.{ℤ, pos_part}
use tp_sistemas_operativos_i.Framing.{
  Connections, Status, line, incomplete, gone, buffer_len, clear_connection_buffer, is_valid_fd,
  emptied,
}
use tp_sistemas_operativos_i.ResourceQueue.{bind-some}
use tp_sistemas_operativos_i.Server.{release_client_by_fd}
use tp_sistemas_operativos_i.Client.{Agent, Env, find_localjob, handle_outbound_disconnect}
use tp_sistemas_operativos_i.Client.Remote.{client_to_myserver}
use tp_sistemas_operativos_i.Client.Scheduler.{erlang_to_C}
use tp_sistemas_operativos_i.Client.Rejection.{handle_outbound_disconnect-IsConsistent}
use tp_sistemas_operativos_i.Client.Asking.{AttemptFits}
use tp_sistemas_operativos_i.Client.Dispatch.{client_to_myserver-IsConsistent}
use tp_sistemas_operativos_i.Client.Commands.{EnvFits, requested, erlang_to_C-IsConsistent}
use tp_sistemas_operativos_i.Handlers.{
  World, Turn, finished, message_from_erlang, recive_message_from_remote, erlang_concluded,
  remote_concluded, returned,
}
use tp_sistemas_operativos_i.Handlers.Reading.{Held, store-Held}
use tp_sistemas_operativos_i.Handlers.Returns.{
  IsSound, Returns, Arrives, Admits, read_lines-Returns,
}

clear_connection_buffer-Held :
    (fd : ℤ) (cs : Connections) → Held cs → Held (clear_connection_buffer fd cs)
unfolding clear_connection_buffer
clear_connection_buffer-Held fd cs held = elim (Bool-cases (is_valid_fd fd)) [
  | inr out ↦ rw out held
  | inl valid ↦
      let (bytes, h) = held (pos_part fd) in
      rw valid (
        store-Held cs (pos_part fd) (emptied (cs (pos_part fd))) [] held
          (record { size = h.size; fits = omega arith; counted = refl; terminated = tt }))
]

-- A command that the agent can serve: the operating system keeps its contract, and a JOB_REQUEST
-- brings an id that is not in use.
abbrev pub IsServable : Env → List ℕ → Agent → Type 0
IsServable env l a =
    EnvFits env a.jobs × ((id : ℤ) → requested l ≡ some id → find_localjob id a ≡ none)

erlang_concluded-Returns :
    (fd : ℤ) (status : Status) (w : World) → IsSound w → Returns (erlang_concluded fd status w)
erlang_concluded-Returns fd gone w v = (
  _,
  refl,
  record {
    consistent = v.consistent;
    held = clear_connection_buffer-Held w.agent.erlangfd w.connections v.held;
  },
)
erlang_concluded-Returns fd incomplete w v =
    (_, refl, record { consistent = v.consistent; held = v.held })
erlang_concluded-Returns fd (line l) w v =
    (_, refl, record { consistent = v.consistent; held = v.held })

-- From a sound world, the handler of the scheduler's socket returns, and leaves a sound world: when no
-- bytes arrive from turn `quiet` on, `quiet + 1024` calls of `read_until_newline` are enough. Each line
-- that it reads must be servable when it arrives: the operating system keeps its contract, and a
-- JOB_REQUEST brings an id that is not in use.
pub message_from_erlang-IsSound :
    (quiet fuel : ℕ) (turns : ℕ → Turn) (fd : ℤ) (w : World)
    → Arrives turns quiet
    → quiet + buffer_len ≤ fuel
    → IsSound w
    → Admits erlang_to_C (erlang_concluded fd) IsServable fuel turns fd w
    → (w' : World) × (message_from_erlang fuel turns fd w ≡ finished w') × IsSound w'
unfolding message_from_erlang
message_from_erlang-IsSound quiet fuel turns fd w arrives enough v admits =
    read_lines-Returns erlang_to_C (erlang_concluded fd) IsServable
      (λ env l a fits c. erlang_to_C-IsConsistent env l a fits.0 fits.1 c)
      (erlang_concluded-Returns fd) quiet fuel turns fd w arrives enough v admits

remote_concluded-Returns :
    (env : Env) (fd : ℤ) (status : Status) (w : World)
    → IsSound w
    → Returns (remote_concluded env fd status w)
remote_concluded-Returns env fd gone w v =
    let released : Agent = record w.agent {
      server = release_client_by_fd env.peer w.agent.server fd;
    } in
    let (a, e, c, _, _) = handle_outbound_disconnect-IsConsistent fd released v.consistent in
    (
      _,
      ap (returned (clear_connection_buffer fd w.connections))
          (bind-some (handle_outbound_disconnect fd released) a _ e),
      record { consistent = c; held = clear_connection_buffer-Held fd w.connections v.held },
    )
remote_concluded-Returns env fd incomplete w v =
    (_, refl, record { consistent = v.consistent; held = v.held })
remote_concluded-Returns env fd (line l) w v =
    (_, refl, record { consistent = v.consistent; held = v.held })

remote-Admits :
    (env : Env) (n : ℕ) (turns : ℕ → Turn) (fd : ℤ) (w : World)
    → ((k : ℕ) → AttemptFits (turns k).env.attempt)
    → Admits
        (λ env' l. client_to_myserver env' fd l)
        (remote_concluded env fd)
        (λ env' l a. AttemptFits env'.attempt)
        n
        turns
        fd
        w
unfolding Admits
remote-Admits env zero turns fd w fits = tt
remote-Admits env (suc n) turns fd w fits =
    λ l e. (fits 0, λ a live. remote-Admits env n (λ k. turns (suc k)) fd _ (λ k. fits (suc k)))

-- From a sound world, the handler of a peer's socket returns, and leaves a sound world, whatever the
-- peer sends: when no bytes arrive from turn `quiet` on, `quiet + 1024` calls of
-- `read_until_newline` are enough. `recv` returns no more than it has space for, and `socket` no
-- negative descriptor.
pub recive_message_from_remote-IsSound :
    (quiet fuel : ℕ) (turns : ℕ → Turn) (env : Env) (fd : ℤ) (w : World)
    → Arrives turns quiet
    → ((k : ℕ) → AttemptFits (turns k).env.attempt)
    → quiet + buffer_len ≤ fuel
    → IsSound w
    → (w' : World) × (recive_message_from_remote fuel turns env fd w ≡ finished w') × IsSound w'
unfolding recive_message_from_remote
recive_message_from_remote-IsSound quiet fuel turns env fd w arrives opens enough v =
    read_lines-Returns (λ env' l. client_to_myserver env' fd l) (remote_concluded env fd)
      (λ env' l a. AttemptFits env'.attempt)
      (λ env' l a fits c. client_to_myserver-IsConsistent env' fd l a fits c)
      (remote_concluded-Returns env fd) quiet fuel turns fd w arrives enough v
      (remote-Admits env fuel turns fd w opens)
