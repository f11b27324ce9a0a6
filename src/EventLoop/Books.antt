-- ===== src/EventLoop/Books.antt =====
-- The server side through whole runs of `event_loop` (agent/agent.c): whatever lines arrive, the books
-- of each resource balance and no request that fits is left waiting.
use tp_sistemas_operativos_i.Prelude.{ℕ, ◌≡◌, ◌∙◌, List}
use tp_sistemas_operativos_i.Kernel.{Effect}
use tp_sistemas_operativos_i.Server.{Server, Resource, cpu, mem, gpu, capacity}
use tp_sistemas_operativos_i.Server.Ledger.{ledger}
use tp_sistemas_operativos_i.Server.Conservation.{IsSound}
use tp_sistemas_operativos_i.Server.Calls.{step-IsSound, ledger-step, start-IsSound}
use tp_sistemas_operativos_i.Server.Bounds.{start-ledger}
use tp_sistemas_operativos_i.Server.Progress.{IsDrained, step-IsDrained, start-IsDrained}
use tp_sistemas_operativos_i.Client.Serving.{IsKept}
use tp_sistemas_operativos_i.Handlers.{World, Handled, finished}
use tp_sistemas_operativos_i.EventLoop.{Endpoints, Wakeup, event_loop, initial}
use tp_sistemas_operativos_i.Handlers.Serving.{Keeps}
use tp_sistemas_operativos_i.EventLoop.Serving.{event_loop-Keeps}
use tp_sistemas_operativos_i.EventLoop.Rounds.{PermitsRounds, event_loop-IsSound}

-- What is free and what is granted of each resource make up its capacity, in a well-formed table, and
-- no queue has a head that fits into what is free.
pub record IsBalanced (s : Server) : Type 0 where
  pub sound : IsSound s
  pub books : (k : Resource) → ledger s k ≡ capacity k
  pub drained : IsDrained s

balanced-untraced :
    (s : Server) (t : List Effect) → IsBalanced s → IsBalanced (record s { trace = t })
balanced-untraced s t v = record {
  sound = v.sound;
  books = elim [ cpu ↦ v.books cpu | mem ↦ v.books mem | gpu ↦ v.books gpu ];
  drained = elim [ cpu ↦ v.drained cpu | mem ↦ v.drained mem | gpu ↦ v.drained gpu ];
}

balanced-IsKept : IsKept IsBalanced
balanced-IsKept = record {
  untraced = balanced-untraced;
  served = λ s e v. record {
    sound = step-IsSound s e v.sound;
    books = λ k. ledger-step s e k v.sound ∙ v.books k;
    drained = step-IsDrained s e v.drained;
  };
}

finished-Keeps :
    (h : Handled) (w : World)
    → h ≡ finished w
    → Keeps IsBalanced balanced-IsKept h
    → IsBalanced w.agent.server
finished-Keeps h w e j = rw e at j

-- From the state that `main` sets up, after any number of rounds of the event loop, the agent runs on
-- with a well-formed table of reservations: what is free and what is granted of each resource make
-- up the capacity of the node, and each queue is empty or its head asks for more than is free. Each
-- event must be permitted when it comes: its socket has no more bytes from some turn on and the fuel
-- covers those turns and a full buffer, no descriptor is negative, an allocated address is fresh, and
-- a JOB_REQUEST brings an id that is not in use.
pub event_loop-IsBalanced :
    (e : Endpoints) (fuel : ℕ) (rounds : List Wakeup)
    → PermitsRounds e fuel rounds initial
    → (w : World) × (event_loop e fuel rounds initial ≡ finished w) × IsBalanced w.agent.server
unfolding initial
event_loop-IsBalanced e fuel rounds permits =
    let (w, done, v) = event_loop-IsSound e fuel rounds permits in
    (
      w,
      done,
      finished-Keeps (event_loop e fuel rounds initial) w done (
          event_loop-Keeps IsBalanced balanced-IsKept e fuel rounds initial
            (record { sound = start-IsSound; books = start-ledger; drained = start-IsDrained })),
    )
