-- ===== src/Echo.antt =====
-- test/echo.cpp and test/echo.hpp: the echo server, a server pool whose clients get back what they
-- send, and the worker object that starts and stops it.
pub mod Sending
pub mod Report
pub mod Tests
pub mod Creating
pub mod Lifecycle
pub mod Stopping
use epoll_server.Base.{
  ℕ, ◌+◌, ◌-◌, ◌%◌, ◌^◌, Bool, true, false, ◌||◌, ◌==◌, Option, none, some, List, [], if◌then◌else◌,
}
use epoll_server.Base.Int.{ℤ, pos, negsuc, failed}
use epoll_server.Os.{Os, Call, M, pure, ◌>>=◌, ◌>>◌, get, modify, when◌then◌else◌, sys}
use epoll_server.Text.{text}
use epoll_server.Mem.{size_t}
use epoll_server.Endpoint.{endpoint_tcp_server, endpoint_unblock, endpoint_write, endpoint_close}
use epoll_server.Pool.State.{Client}
use epoll_server.Pool.Handlers.{Callbacks}
use epoll_server.Pool.Lifecycle.{Built, built, runtime_error, bad_alloc}
use epoll_server.Server
use epoll_server.Server.{Server, active_count}
use Report.{print_server_socket_error}

-- The class `echo`: `on_input` sends the data back. The callbacks that it inherits do nothing.
abbrev pub echo : Os → Callbacks
echo os = record {
  on_input = λ sfd bytes datalen t.
      (endpoint_write os sfd bytes (record { st = tt {0}; trace = t })).1.trace;
  on_oob = λ sfd oobdata t. t;
  on_write_ready = λ sfd t. t;
}

-- `echo_worker`; `work` says whether there is a thread.
pub record EchoWorker : Type 0 where
  pub svfd : ℤ
  pub sv : Option Server
  pub work : Bool

-- The conversion of an `int` to `std::size_t`.
abbrev pub to_size : ℤ → ℕ
to_size (pos n) = size_t n
to_size (negsuc n) = 2 ^ 64 - 1 - n % 2 ^ 64

-- A step of an object that is not part of the state, with the object it leaves.
abbrev pub on_object : {S T A : Type 0} → T → M T A → M S (A × T)
on_object s m w =
    let (a, w') = m (record { st = s; trace = w.trace }) in
    ((a, w'.st), record w { trace = w'.trace })

abbrev pub backlog : ℤ
backlog = pos 100000

-- What the server's `stop` tests, and writes its byte where it holds.
abbrev pub is_listening : Server → Bool
is_listening s = s.thread_count % 2 ^ 32 == 1

-- The result of `init_server`: the exception that it lets through, a null pointer, or a server.
pub data Init : Type 0 where
  escapes : Init
  null : Init
  server : Server → Init

-- What stands in the members and the memory that have no initialiser.
pub record Garbage : Type 0 where
  pub values : ℕ → Client
  pub client_threads : ℕ
  pub thread_count : ℕ

module _ (os : Os) where
  module _ {S : Type 0} where
    unfoldable pub add_socket : (svfd : ℤ) → Built Server → M S Init
    add_socket svfd (built s) = do
      r ← on_object s (Server.add os svfd)
      when r.0 then pure (server r.1) else (do _ ← sys os (Call.perror []); pure null)
    add_socket svfd runtime_error = do
      _ ← sys os (Call.perror (text "failed to create epoll descriptor"))
      pure null
    add_socket svfd bad_alloc = pure escapes

    -- `init_server`
    unfoldable pub init_server : Garbage → (port worker_count max_clients : ℤ) → M S Init
    unfolding add_socket print_server_socket_error
    init_server g port worker_count max_clients = do
      svfd ← endpoint_tcp_server os port backlog
      when failed svfd then (do print_server_socket_error os port; pure null) else do
        unblocked ← endpoint_unblock os svfd
        when failed unblocked then (do print_server_socket_error os port; pure null) else do
          s ←
              Server.construct os (to_size worker_count) (to_size max_clients) g.values
                g.client_threads g.thread_count
          add_socket svfd s

  unfoldable pub keep_server : Init → M EchoWorker (Option Bool)
  keep_server escapes = pure none
  keep_server null = pure (some false)
  keep_server (server s) = do modify (λ e. record e { sv = some s }); pure (some true)

  unfoldable pub create_with :
      Garbage → (port worker_count max_clients : ℤ) → Option Server → M EchoWorker (Option Bool)
  unfolding keep_server init_server
  create_with g port worker_count max_clients (some s) = pure (some false)
  create_with g port worker_count max_clients none = do
    i ← init_server g port worker_count max_clients
    keep_server i

  -- `create`; `none` where an exception leaves it.
  unfoldable pub create : Garbage → (port worker_count max_clients : ℤ) → M EchoWorker (Option Bool)
  unfolding create_with
  create g port worker_count max_clients = do
    e ← get
    create_with g port worker_count max_clients e.sv

  close_with : EchoWorker → Option Server → M EchoWorker (Unit {0})
  close_with e none = pure tt
  close_with e (some s) = do _ ← endpoint_close os e.svfd; pure tt

  -- The body of the destructor.
  unfoldable pub destruct : M EchoWorker (Unit {0})
  unfolding close_with
  destruct = do e ← get; close_with e e.sv

  stop_with :
      (finish : M Server (Unit {0}))
      → (fuel : ℕ) → List (ℕ × ℕ)
      → (last_count : ℕ) → (ended : Bool) → Option Server
      → M EchoWorker (Option Bool)
  stop_with finish fuel rest last_count ended none = pure (some false)
  stop_with finish fuel rest last_count ended (some s) = do
    e ← get
    when e.work
        then (do
          r ← on_object s (Server.stop os finish (echo os) fuel rest last_count)
          when is_listening s || ended
              then (do modify (λ e. record e { sv = some r.1; work = false }); pure (some true))
              else pure none)
        else pure (some false)

  -- `stop`. `ended` says whether the thread has ended by itself; `none` means that `join` never
  -- returns, because the thread was not told to end. The other arguments are those of the
  -- server's `stop`.
  unfoldable pub stop :
      (finish : M Server (Unit {0}))
      → (fuel : ℕ) → List (ℕ × ℕ)
      → (last_count : ℕ) → (ended : Bool) → M EchoWorker (Option Bool)
  unfolding stop_with
  stop finish fuel rest last_count ended = do
    e ← get
    stop_with finish fuel rest last_count ended e.sv

run_with : Option Server → M EchoWorker Bool
run_with none = pure false
run_with (some s) = do
  e ← get
  when e.work then pure false else do modify (λ e. record e { work = true }); pure true

-- `run`, which starts the thread.
unfoldable pub run : M EchoWorker Bool
unfolding run_with
run = do e ← get; run_with e.sv

unfoldable pub is_running : EchoWorker → Bool
is_running e = e.work

count_with : Option Server → ℕ
unfolding active_count
count_with none = 0
count_with (some s) = active_count s

unfoldable pub get_active_client_count : EchoWorker → ℕ
unfolding count_with
get_active_client_count e = count_with e.sv
