-- ===== src/Echo/Stopping.antt =====
-- `stop` of the worker object of test/echo.cpp: the echo server's clients are gone.
use epoll_server.Base.{ℕ, ◌%◌, ◌^◌, ◌≡◌, refl, Bool, true, false, some, List, ◌==◌}
use epoll_server.Base.Int.{ℤ}
use epoll_server.Os.{Os, World, M}
use epoll_server.Endpoint.{endpoint_write}
use epoll_server.Epoll.Interest.{IsOneShot}
use epoll_server.Pool.Arming.{IsNeutral}
use epoll_server.Pool.Serving.Invariant.{Sound}
use epoll_server.Server.{Server, active_count}
use epoll_server.Server.Life.{Running, clients, Reach}
use epoll_server.Server.Stopping.{signalled, server_stop-IsEmptied}
use epoll_server.Echo.{EchoWorker, echo, stop, get_active_client_count}

-- `on_input` only writes to the client's socket.
pub echo-IsNeutral : (os : Os) (epfd : ℤ) → IsNeutral (echo os) epfd
unfolding endpoint_write
echo-IsNeutral os epfd = record {
  on_input = λ sfd bytes len t. refl;
  on_write_ready = λ sfd t. refl;
}

-- The server of a worker object, with the history, and the events that its workers have taken.
abbrev pub server_of : Server → World EchoWorker → (pending : List (ℕ × ℕ)) → Running
server_of s w ps = record { world = record { st = s; trace = w.trace }; pending = ps }

-- Of the echo server with its workers, while its thread runs: `stop` of the worker object says that it
-- has stopped the server, and then no client is active, whatever is still accepted and handled before
-- the threads end.
pub stop-no_clients :
    (os : Os) (w : World EchoWorker) (s : Server) (ps : List (ℕ × ℕ)) (s' : Running)
    (finish : M Server (Unit {0})) (fuel last_count : ℕ) (ended : Bool)
    → w.st.sv ≡ some s
    → w.st.work ≡ true
    → IsOneShot os s.client_pool.epoll.epfd
    → Sound (clients (server_of s w ps))
    → (s.client_pool.threads == 0) ≡ false
    → (s.thread_count % 2 ^ 32 == 1) ≡ true
    → Reach os (echo os) (signalled os (server_of s w ps)) s'
    → (finish (signalled os (server_of s w ps)).world).1 ≡ s'.world
    → let (stopped, w') = stop os finish fuel s'.pending last_count ended w in
      (stopped ≡ some true) × (get_active_client_count w'.st ≡ 0)
unfolding stop get_active_client_count active_count
stop-no_clients os w s ps s' finish fuel last_count ended has_server has_thread one_shot sound
      threads listening r finished =
    let (idle, free) =
      server_stop-IsEmptied os (echo os) (server_of s w ps) s' finish fuel last_count
        (record { one_shot = one_shot; neutral = echo-IsNeutral os _ }) sound threads listening r
        finished in
    rw (has_server, has_thread, listening) (refl, idle.no_clients)
