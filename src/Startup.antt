-- ===== src/Startup.antt =====
-- agent/agent.c: `initialize_listen_sockets` and `setup_epoll`, with `make_timer` of agent/timer.c and
-- the port of main.c: the system calls in their order, up to the first that fails. `answer` is what
-- each call returns; no call is made twice with the same arguments.
pub mod Calls
use tp_sistemas_operativos_i.Prelude.{
  ℕ, zero, suc, List, [], ◌∷◌, ◌++◌, Bool, true, false, ◌||◌, if◌then◌else◌, not, ◌%◌, ◌^◌,
}
use tp_sistemas_operativos_i.Prelude.Int.{ℤ, pos, ltb_ℤ, eq_ℤ, to_unsigned}
use tp_sistemas_operativos_i.Prelude.Text.{codes}
use tp_sistemas_operativos_i.Wire.{atoi}
use tp_sistemas_operativos_i.EventLoop.{Endpoints, WorkerArgs}

pub data Socket : Type 0 where
  socket_server socket_erlang socket_udp : Socket

pub data Timer : Type 0 where
  broadcast_timer timeout_timer : Timer

pub data SocketOption : Type 0 where
  so_reuseaddr so_reuseport so_broadcast : SocketOption

-- INADDR_ANY and INADDR_LOOPBACK.
pub data Address : Type 0 where
  inaddr_any inaddr_loopback : Address

-- The calls, in the order of the first run of each. The second and the third argument of
-- `timerfd_settime` are the first expiration and the interval, in seconds.
pub data Call : Type 0 where
  ignore_sigpipe epoll_create1 : Call
  socket : Socket → Call
  setsockopt : Socket → SocketOption → Call
  bind : Socket → Address → ℤ → Call
  listen : Socket → Call
  watch : Socket → Call
  timerfd_create : Timer → Call
  timerfd_settime : Timer → ℤ → ℤ → Call
  watch_timer : Timer → Call
  close_timer : Timer → Call
  pthread_create : ℕ → Call

abbrev pub broadcast_port : ℤ
broadcast_port = pos 12529

abbrev pub num_workers : ℕ
num_workers = 4

-- `fatal_error` ends the process with its message.
pub data Startup (A : Type 0) : Type 0 where
  fatal : List ℕ → List Call → Startup A
  done : A → List Call → Startup A

abbrev pub traced : {A : Type 0} → List Call → Startup A → Startup A
traced before (fatal message calls) = fatal message (before ++ calls)
traced before (done x calls) = done x (before ++ calls)

infixl 20 ◌>>=◌
unfoldable pub ◌>>=◌ : {A B : Type 0} → Startup A → (A → Startup B) → Startup B
fatal message calls >>= f = fatal message calls
done x calls >>= f = traced calls (f x)

-- `pthread_create` returns an error number, the other calls a negative result; what `signal` and
-- `close` return is not tested.
abbrev pub fails : Call → ℤ → Bool
fails ignore_sigpipe r = false
fails (close_timer t) r = false
fails (pthread_create i) r = not (eq_ℤ r (pos 0))
fails _ r = ltb_ℤ r (pos 0)

-- The conditions of the `if`s, as the calls that they make.
abbrev pub reuse_options : List Call
reuse_options =
    setsockopt socket_server so_reuseaddr
    ∷ setsockopt socket_server so_reuseport
    ∷ setsockopt socket_erlang so_reuseaddr
    ∷ setsockopt socket_erlang so_reuseport
    ∷ setsockopt socket_udp so_reuseaddr
    ∷ []

abbrev pub broadcast_option : List Call
broadcast_option = setsockopt socket_udp so_broadcast ∷ []

-- The port to which `sin_port = htons(port)` binds: it keeps 16 bits.
abbrev pub sin_port : ℤ → ℤ
sin_port port = pos (to_unsigned port % 2 ^ 16)

abbrev pub binds : ℤ → List Call
binds port =
    bind socket_server inaddr_any (sin_port port)
    ∷ bind socket_erlang inaddr_loopback (sin_port port)
    ∷ bind socket_udp inaddr_any broadcast_port
    ∷ []

abbrev pub listens : List Call
listens = listen socket_server ∷ listen socket_erlang ∷ []

abbrev pub watches : List Call
watches = watch socket_server ∷ watch socket_erlang ∷ watch socket_udp ∷ []

-- The threads of the pool, from the i-th on.
abbrev pub workers : ℕ → ℕ → List Call
workers zero i = []
workers (suc n) i = pthread_create i ∷ workers n (suc i)

module _ (answer : Call → ℤ) where
  abbrev pub failed : Call → Bool
  failed c = fails c (answer c)

  -- `if (call(...) < 0 || ...) fatal_error(message);`
  unfoldable pub check : List ℕ → List Call → Startup Unit
  check message [] = done tt []
  check message (c ∷ cs) =
      if failed c then fatal message (c ∷ []) else traced (c ∷ []) (check message cs)

  -- The three sockets are created before the first is tested.
  unfoldable pub create_sockets : Startup Unit
  create_sockets =
      let calls = socket socket_server ∷ socket socket_erlang ∷ socket socket_udp ∷ [] in
      if failed (socket socket_server)
        || failed (socket socket_erlang)
        || failed (socket socket_udp)
      then fatal (codes "socket() failed") calls
      else done tt calls

  unfoldable pub initialize_listen_sockets : ℤ → Startup Unit
  unfolding check create_sockets ◌>>=◌
  initialize_listen_sockets port = do
    _ ← create_sockets
    _ ← check (codes "setsockopt REUSEADDR/REUSEPORT failed") reuse_options
    _ ← check (codes "setsockopt SO_BROADCAST failed") broadcast_option
    _ ← check (codes "bind() failed") (binds port)
    check (codes "listen() failed") listens

  -- A timer that cannot be set or registered is closed.
  unfoldable pub check_timer : List ℕ → Timer → Call → Startup Unit
  check_timer message t c =
      if failed c then fatal message (c ∷ close_timer t ∷ []) else done tt (c ∷ [])

  unfoldable pub make_timer : Timer → ℤ → ℤ → Startup Unit
  unfolding check check_timer ◌>>=◌
  make_timer t initial_sec interval_sec = do
    _ ← check (codes "timerfd_create failed") (timerfd_create t ∷ [])
    _ ← check_timer (codes "timerfd_settime failed") t (timerfd_settime t initial_sec interval_sec)
    check_timer (codes "epoll_ctl ADD timer failed") t (watch_timer t)

  -- From `epoll_create1` up to the point where the workers run.
  unfoldable pub open_endpoints : ℤ → Startup Endpoints
  unfolding check initialize_listen_sockets make_timer ◌>>=◌
  open_endpoints port = do
    _ ← check (codes "epoll_create1 failed") (epoll_create1 ∷ [])
    _ ← initialize_listen_sockets port
    _ ← check (codes "epoll_ctl ADD listening sockets failed") watches
    _ ← make_timer broadcast_timer (pos 1) (pos 5)
    _ ← make_timer timeout_timer (pos 5) (pos 5)
    _ ← check (codes "pthread_create failed") (workers num_workers 0)
    done
        (record {
          socket_server = answer (socket socket_server);
          socket_erlang = answer (socket socket_erlang);
          socket_udp = answer (socket socket_udp);
          args = record {
            broadcast_timer_fd = answer (timerfd_create broadcast_timer);
            timeout_timer_fd = answer (timerfd_create timeout_timer);
            port = port;
          };
        })
        []

  unfoldable pub setup_epoll : ℤ → Startup Endpoints
  unfolding open_endpoints
  setup_epoll port = traced (ignore_sigpipe ∷ []) (open_endpoints port)

-- The port of `main`, from its arguments.
unfoldable pub port_of_arguments : List (List ℕ) → ℤ
unfolding atoi
port_of_arguments (name ∷ port ∷ more) = atoi port
port_of_arguments _ = pos 4200
