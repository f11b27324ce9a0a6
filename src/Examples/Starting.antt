-- ===== src/Examples/Starting.antt =====
-- The start of an agent on port 4200, and one whose port is taken.
use tp_sistemas_operativos_i.Prelude.{ℕ, ◌≡◌, refl, List, []}
use tp_sistemas_operativos_i.Prelude.Int.{ℤ, pos, negsuc}
use tp_sistemas_operativos_i.Prelude.Text.{codes}
use tp_sistemas_operativos_i.EventLoop.{Endpoints}
use tp_sistemas_operativos_i.Startup.{
  Call, Startup, fatal, bind, pthread_create, setup_epoll, open_endpoints,
  initialize_listen_sockets, create_sockets, check, ◌>>=◌,
}
use tp_sistemas_operativos_i.Startup.Calls.{Runs, needed, endpoints, setup_epoll-Runs}

abbrev answer : Call → ℤ
answer (pthread_create i) = pos 0
answer _ = pos 9

abbrev taken : Call → ℤ
taken (bind s address port) = negsuc 0
taken _ = pos 9

abbrev message_of : Startup Endpoints → List ℕ
message_of (fatal message calls) = message
message_of _ = []

taken_port : message_of (setup_epoll taken (pos 4200)) ≡ codes "bind() failed"
unfolding setup_epoll open_endpoints initialize_listen_sockets create_sockets check ◌>>=◌
taken_port = refl

setup_epoll-Runs_example :
    Runs answer
      (needed answer (pos 4200))
      (endpoints answer (pos 4200))
      (setup_epoll answer (pos 4200))
setup_epoll-Runs_example = setup_epoll-Runs answer (pos 4200)
