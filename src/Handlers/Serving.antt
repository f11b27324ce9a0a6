-- ===== src/Handlers/Serving.antt =====
-- The handlers of agent/loopfunc.c change the server side by its own calls only, which a RESERVE, a
-- RELEASE and a disconnect make.
use tp_sistemas_operativos_i.Prelude.{ℕ, zero, suc, ◌≡◌, refl, List, Option, none, some}
use tp_sistemas_operativos_i.Prelude.Int.{ℤ}
use tp_sistemas_operativos_i.Framing.{
  Connections, Status, line, incomplete, gone, read_until_newline,
}
use tp_sistemas_operativos_i.Server.{Server, release_client_by_fd}
use tp_sistemas_operativos_i.Server.Events.{releases, step}
use tp_sistemas_operativos_i.Client.{Agent, Env, handle_outbound_disconnect}
use tp_sistemas_operativos_i.Client.Remote.{client_to_myserver}
use tp_sistemas_operativos_i.Client.Scheduler.{erlang_to_C}
use tp_sistemas_operativos_i.Client.Serving.{
  IsKept, Stays, bind-Stays, client_to_myserver-Stays, handle_outbound_disconnect-Stays,
}
use tp_sistemas_operativos_i.Client.Bystanders.{erlang_to_C-Stays}
use tp_sistemas_operativos_i.Handlers.{
  World, Turn, Handled, finished, returned, read_lines, erlang_concluded, remote_concluded,
  message_from_erlang, recive_message_from_remote,
}

module _ (J : Server → Type 0) (kept : IsKept J) where
  -- The world that the handler leaves, if it returns, satisfies the invariant.
  abbrev pub Keeps : Handled → Type 0
  Keeps (finished w) = J w.agent.server
  Keeps _ = Unit {0}

  pub returned-Keeps :
      (cs : Connections) (o : Option Agent) → Stays J kept o → Keeps (returned cs o)
  returned-Keeps cs none h = tt
  returned-Keeps cs (some a) h = h

  module _ (handle : Env → List ℕ → Agent → Option Agent) (conclude : Status → World → Handled)
      (stays : (env : Env) (l : List ℕ) (a : Agent) → J a.server → Stays J kept (handle env l a))
      (ends : (status : Status) (w : World) → J w.agent.server → Keeps (conclude status w)) where
    -- One call of `read_until_newline`, and the rest of the loop.
    read_lines-once :
        (n : ℕ) (turns : ℕ → Turn) (fd : ℤ) (w : World)
        → J w.agent.server
        → ((w' : World)
            → J w'.agent.server
            → Keeps (read_lines handle conclude n (λ k. turns (suc k)) fd w'))
        → Keeps (read_lines handle conclude (suc n) turns fd w)
    unfolding read_lines
    read_lines-once n turns fd w j rest =
        ending (read_until_newline fd (turns 0).recv w.connections).0 refl
      where
        cs : Connections
        cs = (read_until_newline fd (turns 0).recv w.connections).1

        next :
            (l : List ℕ) (o : Option Agent)
            → (read_until_newline fd (turns 0).recv w.connections).0 ≡ line l
            → handle (turns 0).env l w.agent ≡ o
            → Stays J kept o
            → Keeps (read_lines handle conclude (suc n) turns fd w)
        next l none e e' h = rw (e, e', read_lines) tt
        next l (some a) e e' h =
            rw (e, e', read_lines) (rest (record { agent = a; connections = cs }) h)

        ending :
            (status : Status)
            → (read_until_newline fd (turns 0).recv w.connections).0 ≡ status
            → Keeps (read_lines handle conclude (suc n) turns fd w)
        ending incomplete e = rw (e, read_lines) (ends incomplete (record w { connections = cs }) j)
        ending gone e = rw (e, read_lines) (ends gone (record w { connections = cs }) j)
        ending (line l) e =
            next l (handle (turns 0).env l w.agent) e refl (stays (turns 0).env l w.agent j)

    read_lines-Keeps :
        (n : ℕ) (turns : ℕ → Turn) (fd : ℤ) (w : World)
        → J w.agent.server
        → Keeps (read_lines handle conclude n turns fd w)
    unfolding read_lines
    read_lines-Keeps zero turns fd w j = tt
    read_lines-Keeps (suc n) turns fd w j =
        read_lines-once n turns fd w j (λ w' j'. read_lines-Keeps n (λ k. turns (suc k)) fd w' j')

  erlang_concluded-Keeps :
      (fd : ℤ) (status : Status) (w : World)
      → J w.agent.server
      → Keeps (erlang_concluded fd status w)
  erlang_concluded-Keeps fd gone w j = kept.untraced w.agent.server _ j
  erlang_concluded-Keeps fd incomplete w j = kept.untraced w.agent.server _ j
  erlang_concluded-Keeps fd (line l) w j = kept.untraced w.agent.server _ j

  remote_concluded-Keeps :
      (env : Env) (fd : ℤ) (status : Status) (w : World)
      → J w.agent.server
      → Keeps (remote_concluded env fd status w)
  unfolding step
  remote_concluded-Keeps env fd gone w j =
      let released : Agent = record w.agent {
        server = release_client_by_fd env.peer w.agent.server fd;
      } in
      returned-Keeps _ _ (
        bind-Stays J kept (handle_outbound_disconnect fd released) _
          (handle_outbound_disconnect-Stays J kept fd released
            (kept.served w.agent.server (releases env.peer fd) j))
          (λ a j'. kept.untraced a.server _ j'))
  remote_concluded-Keeps env fd incomplete w j = kept.untraced w.agent.server _ j
  remote_concluded-Keeps env fd (line l) w j = kept.untraced w.agent.server _ j

  pub message_from_erlang-Keeps :
      (fuel : ℕ) (turns : ℕ → Turn) (fd : ℤ) (w : World)
      → J w.agent.server
      → Keeps (message_from_erlang fuel turns fd w)
  unfolding message_from_erlang
  message_from_erlang-Keeps fuel turns fd w j =
      read_lines-Keeps erlang_to_C (erlang_concluded fd) (erlang_to_C-Stays J kept)
        (erlang_concluded-Keeps fd) fuel turns fd w j

  pub recive_message_from_remote-Keeps :
      (fuel : ℕ) (turns : ℕ → Turn) (env : Env) (fd : ℤ) (w : World)
      → J w.agent.server
      → Keeps (recive_message_from_remote fuel turns env fd w)
  unfolding recive_message_from_remote
  recive_message_from_remote-Keeps fuel turns env fd w j =
      read_lines-Keeps (λ env' l. client_to_myserver env' fd l) (remote_concluded env fd)
        (λ env' l a h. client_to_myserver-Stays J kept env' fd l a h)
        (remote_concluded-Keeps env fd) fuel turns fd w j
