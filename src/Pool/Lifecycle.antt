-- ===== src/Pool/Lifecycle.antt =====
-- pool.hpp: construction, `run`, `stop` and the destructor of a `client_pool`. The members that
-- take the mutex run one at a time, so they are steps from state to state. What the worker threads
-- still do between the signal of `stop` and their join is an argument of `stop`.
use epoll_server.Base.{
  ℕ, zero, suc, ◌+◌, ◌-◌, ◌^◌, Option, none, some, List, [], ◌∷◌, ◌==◌, if◌then◌else◌,
}
use epoll_server.Base.Int.{is_zero}
use epoll_server.Os.{Os, M, pure, ◌>>=◌, ◌>>◌, get, modify, when◌then◌else◌}
use epoll_server.Mem.{size_t, map_alloc}
use epoll_server.Epoll.{Epoll, Outcome, Derived, handle_event, default_max_events}
use epoll_server.Epoll
use epoll_server.Stack.{Stack, empty}
use epoll_server.Stack
use epoll_server.Pool.State.{Client, no_client, ClientPool, sfd_of, unuse}
use epoll_server.Pool.Handlers.{Callbacks}
use epoll_server.Pool.Process.{process}

-- `sizeof(atomic_node<client>)` on a 64-bit system: an `int`, 4097 characters, a pointer.
abbrev pub node_size : ℕ
node_size = 4112

-- The result of a constructor, or the exception that it throws.
pub data Built (A : Type 0) : Type 0 where
  built : A → Built A
  runtime_error bad_alloc : Built A

module _ {S : Type 0} (os : Os) where
  -- The body of the constructor, behind that of its base class; where it throws, the base class is
  -- destroyed.
  unfoldable pub construct_in :
      (worker_count client_cap : ℕ)
      → (values : ℕ → Client) → (thread_count : ℕ) → Option Epoll
      → M S (Built ClientPool)
  construct_in worker_count client_cap values thread_count none = pure runtime_error
  construct_in worker_count client_cap values thread_count (some e) = do
    (made, s, cap) ← Stack.create (map_alloc os node_size) no_client (empty values) client_cap
    when made
        then pure (
            built (record {
              epoll = e;
              worker_count = worker_count;
              client_cap = cap;
              client_count = 0;
              free_mem = s;
              threads = 0;
              thread_count = thread_count;
            }))
        else (do Epoll.destruct os e; pure bad_alloc)

  -- The constructor. `values` is what stands in memory that is not yet allocated, and
  -- `thread_count` the value of the member that has no initialiser.
  unfoldable pub construct :
      (worker_count client_cap : ℕ)
      → (values : ℕ → Client) → (thread_count : ℕ) → M S (Built ClientPool)
  unfolding construct_in
  construct worker_count client_cap values thread_count = do
    e ← Epoll.construct os default_max_events
    construct_in worker_count client_cap values thread_count e

  -- The destructor, with that of the base class.
  unfoldable pub destruct : ClientPool → M S (Unit {0})
  destruct p = do _ ← Stack.destroy (map_alloc os node_size) p.free_mem; Epoll.destruct os p.epoll

-- `run`: the threads are started where there are none.
unfoldable pub run : ClientPool → ClientPool
run p =
    if p.threads == 0
    then record p { thread_count = p.worker_count; threads = p.worker_count }
    else p

-- `--threadCount_`
unfoldable pub decrement : M ClientPool ℕ
decrement w =
    let n = size_t (w.st.thread_count + 2 ^ 64 - 1) in
    (n, record w { st = record w.st { thread_count = n } })

-- The client that user data stands for.
abbrev pub cast : (userdata : ℕ) → ℕ
cast userdata = userdata - 1

-- What `epoll` calls of `client_pool`.
abbrev pub client_handler : Os → Callbacks → (event_fuel : ℕ) → Derived ClientPool ℕ
client_handler os h event_fuel = record { cast = cast; process = process os h event_fuel }

-- What a worker thread runs: `wait`.
unfoldable pub worker : Os → Callbacks → (event_fuel fuel : ℕ) → M ClientPool Outcome
unfolding decrement
worker os h event_fuel fuel = do
  p ← get
  Epoll.wait os p.epoll decrement (handle_event (client_handler os h event_fuel)) fuel

module _ (os : Os) where
  unfoldable pub reset_client : (cl : ℕ) → M ClientPool (Unit {0})
  reset_client cl = do p ← get; when is_zero (sfd_of p cl) then pure tt else unuse os cl

  -- The loop of `stop` over the nodes, from `i` on.
  unfoldable pub reset_clients : (rounds i : ℕ) → M ClientPool (Unit {0})
  unfolding reset_client
  reset_clients zero i = pure tt
  reset_clients (suc rounds) i = do reset_client i; reset_clients rounds (suc i)

  -- The events that the workers still handle: each a client and a mask.
  unfoldable pub finish_events : Callbacks → (fuel : ℕ) → List (ℕ × ℕ) → M ClientPool (Unit {0})
  finish_events h fuel [] = pure tt
  finish_events h fuel ((cl, flags) ∷ rest) = do
    _ ← process os h fuel cl flags
    finish_events h fuel rest

  -- `stop`; `last_count` is `threadCount_` when all threads have ended.
  unfoldable pub stop :
      Callbacks → (fuel : ℕ) → List (ℕ × ℕ) → (last_count : ℕ) → M ClientPool (Unit {0})
  unfolding reset_clients finish_events
  stop h fuel rest last_count = do
    p ← get
    when p.threads == 0 then pure tt else do
      Epoll.close os p.epoll
      finish_events h fuel rest
      modify (λ q. record q { threads = 0; thread_count = last_count })
      q ← get
      reset_clients q.client_cap 0
