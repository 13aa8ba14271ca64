-- ===== src/Server.antt =====
-- pool.hpp, the class `server_pool`: the listening sockets, and the connections that they accept
-- for the client pool. The loop of `process` runs for at most `fuel` rounds.
pub mod Accepting
pub mod AcceptLoop
pub mod Listening
pub mod Life
pub mod Safety
pub mod Stopping
pub mod Thread
pub mod LifeTests
pub mod Tests
use epoll_server.Base.{
  ℕ, zero, suc, ◌+◌, ◌-◌, ◌%◌, ◌^◌, Bool, true, false, not, Option, none, some, List, ◌==◌, ltb,
  if◌then◌else◌,
}
use epoll_server.Base.Int.{ℤ, pos, negsuc, failed, is_zero}
use epoll_server.Os.{Os, M, pure, ◌>>=◌, ◌>>◌, get, modify, when◌then◌else◌}
use epoll_server.Mem.{size_t}
use epoll_server.Endpoint.{endpoint_tcp_server, endpoint_unblock, endpoint_close, endpoint_accept}
use epoll_server.Epoll
use epoll_server.Epoll.{Epoll, Outcome, Derived, handle_event, default_max_events}
use epoll_server.Epoll.Flags.{epollerr}
use epoll_server.Pool.State.{Client, ClientPool, get_active_count, add_client}
use epoll_server.Pool.Handlers.{Callbacks}
use epoll_server.Pool.Lifecycle
use epoll_server.Pool.Lifecycle.{Built, built, runtime_error, bad_alloc}

-- `server_pool`; `thread_count` is the number of threads in `run`, 0 or 1.
pub record ServerPool : Type 0 where
  pub client_pool : ClientPool
  pub epoll : Epoll
  pub thread_count : ℕ

-- `server<T>` and `client_callback_handler<T>` of server.hpp, by which the programs name the pools.
abbrev pub Server : Type 0
Server = ServerPool

abbrev pub ClientCallbackHandler : Type 0
ClientCallbackHandler = ClientPool

-- A step of the client pool.
abbrev pub on_clients : {A : Type 0} → M ClientPool A → M ServerPool A
on_clients m w =
    let (a, w') = m (record { st = w.st.client_pool; trace = w.trace }) in
    (a, record { st = record w.st { client_pool = w'.st }; trace = w'.trace })

unfoldable pub active_count : ServerPool → ℕ
unfolding get_active_count
active_count s = get_active_count s.client_pool

-- A descriptor as the `u32` of the user data, and back, by `cast`.
unfoldable pub user_data : ℤ → ℕ
user_data (pos n) = n % 2 ^ 32
user_data (negsuc n) = 2 ^ 32 - 1 - n % 2 ^ 32

unfoldable pub cast : ℕ → ℤ
cast n = if ltb n (2 ^ 31) then pos n else negsuc (2 ^ 32 - 1 - n)

-- `--threadCount_`
unfoldable pub decrement : M ServerPool ℕ
decrement w =
    let n = size_t (w.st.thread_count + 2 ^ 64 - 1) in
    (n, record w { st = record w.st { thread_count = n } })

module _ (os : Os) where
  -- The body of the accept loop, for one connection: whether it was kept.
  unfoldable pub take_connection : (cfd : ℤ) → M ServerPool Bool
  unfolding endpoint_unblock endpoint_close
  take_connection cfd = do
    unblocked ← endpoint_unblock os cfd
    when not (is_zero unblocked) then (do _ ← endpoint_close os cfd; pure false) else do
      added ← on_clients (add_client os cfd)
      when added then pure true else (do _ ← endpoint_close os cfd; pure false)

  unfoldable pub accept_all : (fuel : ℕ) → (sfd : ℤ) → M ServerPool Bool
  unfolding take_connection endpoint_accept
  accept_all zero sfd = pure false
  accept_all (suc fuel) sfd = do
    cfd ← endpoint_accept os sfd
    when failed cfd then pure true else do _ ← take_connection cfd; accept_all fuel sfd

  -- `process`
  unfoldable pub process : (fuel : ℕ) → (sfd : ℤ) → (flags : ℕ) → M ServerPool Bool
  unfolding accept_all
  process fuel sfd flags =
      when flags == epollerr then (do _ ← endpoint_close os sfd; pure true) else accept_all fuel sfd

  -- `bind`: whether the port is listened on.
  unfoldable pub bind : (port queuelen : ℤ) → M ServerPool Bool
  unfolding endpoint_tcp_server endpoint_unblock
  bind port queuelen = do
    sfd ← endpoint_tcp_server os port queuelen
    when failed sfd then pure false else do
      unblocked ← endpoint_unblock os sfd
      when failed unblocked then pure false else do
        s ← get
        added ← Epoll.add_server os s.epoll sfd (user_data sfd)
        pure (is_zero added)

  unfoldable pub add : (sfd : ℤ) → M ServerPool Bool
  unfolding user_data
  add sfd = do
    s ← get
    added ← Epoll.add_server os s.epoll sfd (user_data sfd)
    pure (is_zero added)

  -- What `epoll` calls of `server_pool`.
  abbrev pub socket_handler : (accept_fuel : ℕ) → Derived ServerPool ℤ
  socket_handler accept_fuel = record { cast = cast; process = process accept_fuel }

  -- `run`; `none` where the server runs already.
  unfoldable pub run : (accept_fuel fuel : ℕ) → M ServerPool (Option Outcome)
  unfolding decrement process cast
  run accept_fuel fuel = do
    s ← get
    when not (s.thread_count == 0) then pure none else do
      modify (λ s. record s { client_pool = Lifecycle.run s.client_pool; thread_count = 1 })
      outcome ← Epoll.wait os s.epoll decrement (handle_event (socket_handler accept_fuel)) fuel
      pure (some outcome)

  -- `stop`; `finish` is what the thread in `run` still does before it gives the mutex up, and the
  -- other arguments are those of the client pool's `stop`.
  unfoldable pub stop :
      (finish : M ServerPool (Unit {0}))
      → Callbacks
      → (fuel : ℕ) → List (ℕ × ℕ)
      → (last_count : ℕ) → M ServerPool (Unit {0})
  stop finish h fuel rest last_count = do
    s ← get
    when s.thread_count % 2 ^ 32 == 1
        then (do
          Epoll.close os s.epoll
          finish
          on_clients (Lifecycle.stop os h fuel rest last_count))
        else pure tt

module _ {S : Type 0} (os : Os) where
  unfoldable pub with_clients :
      (thread_count : ℕ) → Epoll → Built ClientPool → M S (Built ServerPool)
  with_clients thread_count e (built p) =
      pure (built (record { client_pool = p; epoll = e; thread_count = thread_count }))
  with_clients thread_count e runtime_error = do Epoll.destruct os e; pure runtime_error
  with_clients thread_count e bad_alloc = do Epoll.destruct os e; pure bad_alloc

  unfoldable pub construct_in :
      (worker_count client_cap : ℕ)
      → (values : ℕ → Client) → (client_threads thread_count : ℕ) → Option Epoll
      → M S (Built ServerPool)
  unfolding with_clients
  construct_in worker_count client_cap values client_threads thread_count none = pure runtime_error
  construct_in worker_count client_cap values client_threads thread_count (some e) = do
    p ← Lifecycle.construct os worker_count client_cap values client_threads
    with_clients thread_count e p

  -- The constructor: the base class first, then the client pool. `values`, `client_threads` and
  -- `thread_count` are what stands in members and memory that have no initialiser.
  unfoldable pub construct :
      (worker_count client_cap : ℕ)
      → (values : ℕ → Client) → (client_threads thread_count : ℕ) → M S (Built ServerPool)
  unfolding construct_in
  construct worker_count client_cap values client_threads thread_count = do
    e ← Epoll.construct os default_max_events
    construct_in worker_count client_cap values client_threads thread_count e
