-- ===== src/Server/Life.antt =====
-- The life of a `server_pool` of pool.hpp: its thread accepts connections while the workers of the
-- client pool handle events, up to `stop`.
use epoll_server.Base.{ℕ, ◌≡◌, false, List}
use epoll_server.Base.Int.{ℤ, is_zero}
use epoll_server.Os.{Os, Call, Trace, World}
use epoll_server.Epoll.Interest.{armed}
use epoll_server.Pool.Handlers.{Callbacks}
use epoll_server.Pool.Serving.{Serving}
use epoll_server.Pool.Serving
use epoll_server.Server.{ServerPool, process}
use epoll_server.Server.Accepting.{clients_of}

-- The server with the history, and the events of clients that workers have taken.
pub record Running : Type 0 where
  pub world : World ServerPool
  pub pending : List (ℕ × ℕ)

-- Its client pool.
abbrev pub clients : Running → Serving
clients s = record { world = clients_of s.world; pending = s.pending }

abbrev pub epfd_of : Running → ℤ
epfd_of s = s.world.st.client_pool.epoll.epfd

abbrev pub put_clients : Running → Serving → Running
put_clients s v = record {
  world = record { st = record s.world.st { client_pool = v.world.st }; trace = v.world.trace };
  pending = v.pending;
}

-- The server's thread handles an event of a listening socket, of which no connection has the
-- descriptor 0; a worker does a step; or the program does something that does not touch the
-- registrations of the clients, such as the server's own waits.
pub data Step (os : Os) (h : Callbacks) (s : Running) : Running → Type 0 where
  listened :
      (fuel : ℕ) (sfd : ℤ) (flags : ℕ)
      → ((t : Trace) → is_zero (os.reply t (Call.accept sfd)).ret ≡ false)
      → Step os h s (record s { world = (process os fuel sfd flags s.world).1 })
  worked : {v : Serving} → Serving.Step os h (clients s) v → Step os h s (put_clients s v)
  elsewhere :
      (t : Trace) (thread_count : ℕ)
      → armed (epfd_of s) t ≡ armed (epfd_of s) s.world.trace
      → Step os h s (record s {
        world = record { st = record s.world.st { thread_count = thread_count }; trace = t };
      })

pub data Reach (os : Os) (h : Callbacks) (s : Running) : Running → Type 0 where
  here : Reach os h s s
  next : {u v : Running} → Reach os h s u → Step os h u v → Reach os h s v
