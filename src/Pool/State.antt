-- ===== src/Pool/State.antt =====
-- client.hpp and pool.hpp: a client, the state of a `client_pool`, and the operations that take a
-- client from the free stack and put it back. A `client*` is the index of its node, and the user
-- data registered for it is that index plus one, which is not null.
use epoll_server.Base.{ℕ, suc, ◌+◌, ◌-◌, ◌^◌, Bool, false, Option, none, some, update}
use epoll_server.Base.Int.{ℤ, pos, is_zero}
use epoll_server.Os.{Os, M, pure, ◌>>=◌, ◌>>◌, get, modify}
use epoll_server.Mem.{size_t}
use epoll_server.Endpoint.{endpoint_close}
use epoll_server.Epoll
use epoll_server.Epoll.{Epoll}
use epoll_server.Stack.{Stack, push, pop}

abbrev pub max_read_size : ℕ
max_read_size = 4096

-- `client`, but for its buffer, which holds what the last read stored.
pub record Client : Type 0 where
  pub sfd : ℤ

-- `client()`
abbrev pub no_client : Client
no_client = record { sfd = pos 0 }

-- `client_pool`; `threads` is the size of its vector of threads.
pub record ClientPool : Type 0 where
  pub epoll : Epoll
  pub worker_count : ℕ
  pub client_cap : ℕ
  pub client_count : ℕ
  pub free_mem : Stack Client
  pub threads : ℕ
  pub thread_count : ℕ

unfoldable pub get_active_count : ClientPool → ℕ
get_active_count p = p.client_count

-- The descriptor in a client's node.
abbrev pub sfd_of : ClientPool → ℕ → ℤ
sfd_of p i = (p.free_mem.value i).sfd

abbrev pub set_client : ℕ → Client → Stack Client → Stack Client
set_client i c s = record s { value = update s.value i c }

-- `++clientCount_` and `--clientCount_`
abbrev pub count_up : ℕ → ℕ
count_up n = size_t (n + 1)

abbrev pub count_down : ℕ → ℕ
count_down n = size_t (n + 2 ^ 64 - 1)

-- The writes of `unuse` behind its two calls: the node is cleared and pushed.
unfoldable pub put_back : ℕ → ClientPool → ClientPool
unfolding push
put_back i p = record p {
  free_mem = push i (set_client i no_client p.free_mem);
  client_count = count_down p.client_count;
}

-- The writes of `use`, once a node was popped.
unfoldable pub take_out : ℕ → ℤ → Stack Client → ClientPool → ClientPool
take_out i sfd rest p = record p {
  free_mem = set_client i (record { sfd = sfd }) rest;
  client_count = count_up p.client_count;
}

unfoldable pub use_popped : ℤ → Option ℕ × Stack Client → M ClientPool (Option ℕ)
unfolding take_out
use_popped sfd (none, rest) = pure none
use_popped sfd (some i, rest) = do modify (take_out i sfd rest); pure (some i)

unfoldable pub use_client : (sfd : ℤ) → M ClientPool (Option ℕ)
unfolding use_popped pop
use_client sfd = do p ← get; use_popped sfd (pop p.free_mem)

module _ (os : Os) where
  unfoldable pub unuse : (cl : ℕ) → M ClientPool (Unit {0})
  unfolding put_back
  unuse cl = do
    p ← get
    _ ← Epoll.remove os p.epoll (sfd_of p cl)
    _ ← endpoint_close os (sfd_of p cl)
    modify (put_back cl)

  unfoldable pub add_used : (sfd : ℤ) → Option ℕ → M ClientPool Bool
  add_used sfd none = pure false
  add_used sfd (some cl) = do
    p ← get
    added ← Epoll.add_client os p.epoll (sfd_of p cl) (suc cl)
    pure (is_zero added)

  -- Whether the client was added.
  unfoldable pub add_client : (sfd : ℤ) → M ClientPool Bool
  unfolding use_client add_used
  add_client sfd = do cl ← use_client sfd; add_used sfd cl
