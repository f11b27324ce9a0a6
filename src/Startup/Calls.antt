-- ===== src/Startup/Calls.antt =====
-- `setup_epoll` of agent/agent.c reaches its workers exactly when every call succeeds, and makes each
-- call once and in order.
use tp_sistemas_operativos_i.Prelude.{
  ℕ, ◌≡◌, refl, ◌∙◌, ◌⊎◌, List, [], ◌∷◌, ◌++◌, Bool, true, false, ◌||◌, ◌&&◌, not, Bool-cases, inl,
  inr, ◌%◌, ◌^◌,
}
use tp_sistemas_operativos_i.Prelude.Int.{ℤ, pos, to_unsigned}
use tp_sistemas_operativos_i.Prelude.Text.{codes}
use tp_sistemas_operativos_i.EventLoop.{Endpoints}
use tp_sistemas_operativos_i.Startup.{
  Timer, Call, Startup, fatal, done, traced, ◌>>=◌, failed, check, create_sockets, check_timer,
  make_timer, initialize_listen_sockets, setup_epoll, open_endpoints, workers, num_workers,
  broadcast_port, reuse_options, broadcast_option, binds, listens, watches, socket_server,
  socket_erlang, socket_udp, broadcast_timer, timeout_timer, so_reuseaddr, so_reuseport,
  so_broadcast, inaddr_any, inaddr_loopback, epoll_create1, ignore_sigpipe, socket, setsockopt,
  bind, listen, timerfd_create, timerfd_settime, watch_timer, close_timer,
}

module _ (answer : Call → ℤ) where
  unfoldable pub all_succeed : List Call → Bool
  all_succeed [] = true
  all_succeed (c ∷ cs) = not (failed answer c) && all_succeed cs

  all_succeed-append :
      (xs ys : List Call) → all_succeed (xs ++ ys) ≡ all_succeed xs && all_succeed ys
  unfolding all_succeed
  all_succeed-append [] ys = refl
  all_succeed-append (x ∷ xs) ys = elim (Bool-cases (failed answer x)) [
    | inl bad ↦ rw bad refl
    | inr good ↦ rw good (all_succeed-append xs ys)
  ]

  -- All of these calls are made and succeed, or the process ends, and one of the calls it made has
  -- failed.
  abbrev pub Runs : {A : Type 0} → List Call → A → Startup A → Type 0
  Runs cs x s =
      ((all_succeed cs ≡ true) × (s ≡ done x cs))
      ⊎ ((all_succeed cs ≡ false)
          × (message : List ℕ) × (calls : List Call) × (s ≡ fatal message calls)
          × (all_succeed calls ≡ false))

  bind-Runs :
      {A B : Type 0} (cs ds : List Call) (x : A) (y : B) (s : Startup A) (f : A → Startup B)
      → Runs cs x s
      → Runs ds y (f x)
      → Runs (cs ++ ds) y (s >>= f)
  unfolding ◌>>=◌
  bind-Runs cs ds x y s f (inr (bad, message, calls, e, seen)) next =
      inr (all_succeed-append cs ds ∙ (rw bad refl), message, calls, (rw e refl), seen)
  bind-Runs cs ds x y s f (inl (good, e)) (inl (good', e')) =
      inl (all_succeed-append cs ds ∙ (rw (good, good') refl), (rw (e, e') refl))
  bind-Runs cs ds x y s f (inl (good, e)) (inr (bad, message, calls, e', seen)) = inr (
    all_succeed-append cs ds ∙ (rw (good, bad) refl),
    message,
    cs ++ calls,
    (rw (e, e') refl),
    all_succeed-append cs calls ∙ (rw (good, seen) refl),
  )

  check-Runs : (message : List ℕ) (cs : List Call) → Runs cs tt (check answer message cs)
  unfolding check all_succeed
  check-Runs message [] = inl (refl, refl)
  check-Runs message (c ∷ cs) = elim (Bool-cases (failed answer c)) [
    | inl bad ↦ inr ((rw bad refl), message, c ∷ [], (rw bad refl), (rw bad refl))
    | inr good ↦ elim (check-Runs message cs) [
      | inl (rest, e) ↦ inl ((rw (good, rest) refl), (rw (good, e) refl))
      | inr (rest, message', calls, e, seen) ↦
          inr (
            (rw (good, rest) refl),
            message',
            c ∷ calls,
            (rw (good, e) refl),
            (rw (good, seen) refl),
          )
    ]
  ]

  check_timer-Runs :
      (message : List ℕ) (t : Timer) (c : Call) → Runs (c ∷ []) tt (check_timer answer message t c)
  unfolding check_timer all_succeed
  check_timer-Runs message t c = elim (Bool-cases (failed answer c)) [
    | inl bad ↦ inr ((rw bad refl), message, c ∷ close_timer t ∷ [], (rw bad refl), (rw bad refl))
    | inr good ↦ inl ((rw good refl), (rw good refl))
  ]

  abbrev sockets : List Call
  sockets = socket socket_server ∷ socket socket_erlang ∷ socket socket_udp ∷ []

  sockets_cases : (a b c : Bool) → (a || b || c) ≡ not (not a && (not b && (not c && true)))
  sockets_cases true b c = refl
  sockets_cases false true c = refl
  sockets_cases false false true = refl
  sockets_cases false false false = refl

  create_sockets-Runs : Runs sockets tt (create_sockets answer)
  unfolding create_sockets all_succeed
  create_sockets-Runs =
      let same =
        sockets_cases (failed answer (socket socket_server)) (failed answer (socket socket_erlang))
          (failed answer (socket socket_udp)) in
      elim (Bool-cases (all_succeed sockets)) [
        | inl good ↦ inl (good, (rw (same, good) refl))
        | inr bad ↦ inr (bad, codes "socket() failed", sockets, (rw (same, bad) refl), bad)
      ]

  abbrev timer_calls : Timer → ℤ → ℤ → List Call
  timer_calls t initial_sec interval_sec =
      timerfd_create t ∷ timerfd_settime t initial_sec interval_sec ∷ watch_timer t ∷ []

  make_timer-Runs :
      (t : Timer) (initial_sec interval_sec : ℤ)
      → Runs
          (timer_calls t initial_sec interval_sec)
          tt
          (make_timer answer t initial_sec interval_sec)
  unfolding make_timer
  make_timer-Runs t initial_sec interval_sec =
      bind-Runs (timerfd_create t ∷ []) _ tt tt _ _ (check-Runs (codes "timerfd_create failed") _) (
        bind-Runs (timerfd_settime t initial_sec interval_sec ∷ []) (watch_timer t ∷ []) tt tt _ _
          (check_timer-Runs _ t _) (check_timer-Runs _ t _))

  -- The calls of `initialize_listen_sockets`, in order.
  abbrev listen_calls : ℤ → List Call
  listen_calls port =
      socket socket_server
      ∷ socket socket_erlang
      ∷ socket socket_udp
      ∷ setsockopt socket_server so_reuseaddr
      ∷ setsockopt socket_server so_reuseport
      ∷ setsockopt socket_erlang so_reuseaddr
      ∷ setsockopt socket_erlang so_reuseport
      ∷ setsockopt socket_udp so_reuseaddr
      ∷ setsockopt socket_udp so_broadcast
      ∷ bind socket_server inaddr_any (pos (to_unsigned port % 2 ^ 16))
      ∷ bind socket_erlang inaddr_loopback (pos (to_unsigned port % 2 ^ 16))
      ∷ bind socket_udp inaddr_any broadcast_port
      ∷ listen socket_server
      ∷ listen socket_erlang
      ∷ []

  -- The calls of `setup_epoll`, in order.
  abbrev pub needed : ℤ → List Call
  needed port =
      ignore_sigpipe
      ∷ epoll_create1
      ∷ (listen_calls port
          ++ (watches
              ++ (timer_calls broadcast_timer (pos 1) (pos 5)
                  ++ (timer_calls timeout_timer (pos 5) (pos 5) ++ workers num_workers 0))))

  abbrev pub endpoints : ℤ → Endpoints
  endpoints port = record {
    socket_server = answer (socket socket_server);
    socket_erlang = answer (socket socket_erlang);
    socket_udp = answer (socket socket_udp);
    args = record {
      broadcast_timer_fd = answer (timerfd_create broadcast_timer);
      timeout_timer_fd = answer (timerfd_create timeout_timer);
      port = port;
    };
  }

  listens-Runs : (port : ℤ) → Runs (listen_calls port) tt (initialize_listen_sockets answer port)
  unfolding initialize_listen_sockets
  listens-Runs port =
      bind-Runs sockets (reuse_options ++ (broadcast_option ++ (binds port ++ listens))) tt tt _ _
        create_sockets-Runs
        (bind-Runs reuse_options (broadcast_option ++ (binds port ++ listens)) tt tt _ _
          (check-Runs _ reuse_options)
          (bind-Runs broadcast_option (binds port ++ listens) tt tt _ _
            (check-Runs _ broadcast_option)
            (bind-Runs (binds port) listens tt tt _ _ (check-Runs _ (binds port))
              (check-Runs _ listens))))

  -- A call that is not tested comes first.
  traced-Runs :
      {A : Type 0} (c : Call) (cs : List Call) (x : A) (s : Startup A)
      → failed answer c ≡ false
      → Runs cs x s
      → Runs (c ∷ cs) x (traced (c ∷ []) s)
  unfolding all_succeed
  traced-Runs c cs x s untested (inl (good, e)) = inl ((rw (untested, good) refl), (rw e refl))
  traced-Runs c cs x s untested (inr (bad, message, calls, e, seen)) =
      inr ((rw (untested, bad) refl), message, c ∷ calls, (rw e refl), (rw (untested, seen) refl))

  -- Whatever the system calls return: `setup_epoll` hands the sockets, the timers and the port to its
  -- workers after exactly the calls that it needs, once each and in order, where all of them succeed;
  -- otherwise it ends the process with a message, and one of the calls that it made has failed.
  pub setup_epoll-Runs : (port : ℤ) → Runs (needed port) (endpoints port) (setup_epoll answer port)
  unfolding setup_epoll open_endpoints all_succeed
  setup_epoll-Runs port =
      let first = timer_calls broadcast_timer (pos 1) (pos 5) in
      let second = timer_calls timeout_timer (pos 5) (pos 5) in
      let pool = workers num_workers 0 in
      let from_watches = watches ++ (first ++ (second ++ pool)) in
      traced-Runs ignore_sigpipe (epoll_create1 ∷ (listen_calls port ++ from_watches))
        (endpoints port) (open_endpoints answer port) refl
        (bind-Runs (epoll_create1 ∷ []) (listen_calls port ++ from_watches) tt (endpoints port) _ _
          (check-Runs _ _)
          (bind-Runs (listen_calls port) from_watches tt (endpoints port) _ _ (listens-Runs port) (
            bind-Runs watches (first ++ (second ++ pool)) tt (endpoints port) _ _
              (check-Runs _ watches)
              (bind-Runs first (second ++ pool) tt (endpoints port) _ _
                (make_timer-Runs broadcast_timer (pos 1) (pos 5))
                (bind-Runs second pool tt (endpoints port) _ _
                  (make_timer-Runs timeout_timer (pos 5) (pos 5))
                  (bind-Runs pool [] tt (endpoints port) _ _ (check-Runs _ pool)
                    (inl (refl, refl))))))))
