-- ===== src/Pool/Starting.antt =====
-- What the constructor of pool.hpp builds, and `run`.
use mathlib.Core.Path.{subst}
use epoll_server.Base.{
  ℕ, ◌+◌, ◌<◌, ◌≤◌, ◌≡◌, ◌^◌, refl, ap, inl, inr, true, Option, none, some, arith, has, countdown,
  length-countdown, has-countdown_of_le, has-countdown_of_lt, countdown-IsDistinct, Bool-cases,
}
use epoll_server.Os.{Os, World}
use epoll_server.Mem.{map_alloc}
use epoll_server.Stack.{create, empty}
use epoll_server.Stack.Create.{IsFull, create-map_alloc}
use epoll_server.Epoll.{Epoll, default_max_events}
use epoll_server.Epoll
use epoll_server.Pool.State.{Client, no_client, ClientPool, get_active_count}
use epoll_server.Pool.Lifecycle.{
  Built, built, runtime_error, bad_alloc, node_size, construct_in, construct,
}
use epoll_server.Pool.Invariant.{Inv}

-- A new pool: all nodes are free, no client is active, and the capacity is the one asked for,
-- rounded up by less than a page.
pub record IsNew (page hint : ℕ) (p : ClientPool) : Type 0 where
  pub inv : Inv p (countdown p.client_cap)
  pub no_clients : get_active_count p ≡ 0
  pub enough : hint ≤ p.client_cap
  pub below_page : p.client_cap < hint + page

or_else : ClientPool → Built ClientPool → ClientPool
or_else q (built p) = p
or_else q runtime_error = q
or_else q bad_alloc = q

below_countdown : (n i : ℕ) → has i (countdown n) ≡ true → i < n
below_countdown n i h = ground (arith, has-countdown_of_le n i)

full-IsNew :
    (page hint : ℕ) (p : ClientPool)
    → IsFull no_client p.client_cap p.free_mem
    → p.client_count ≡ 0
    → hint ≤ p.client_cap
    → p.client_cap < hint + page
    → hint + page < 2 ^ 64
    → IsNew page hint p
unfolding get_active_count
full-IsNew page hint p full zero above below fits = record {
  inv = record {
    holds = record { chain = full.chain; distinct = countdown-IsDistinct p.client_cap };
    in_buffer = below_countdown p.client_cap;
    no_sfd = λ i lt. ground (arith, full.fresh i lt, has-countdown_of_lt p.client_cap i lt);
    counted = omega (arith, zero, length-countdown p.client_cap);
    small = omega arith;
  };
  no_clients = zero;
  enough = above;
  below_page = below;
}

module _ (os : Os) (worker_count hint : ℕ) (values : ℕ → Client) (thread_count : ℕ)
    (page : 0 < os.pagesize) (pos : 0 < hint) (fits : hint + os.pagesize < 2 ^ 64) where
  construct_in-IsNew :
      {S : Type 0} (e : Option Epoll) (w : World S) (p : ClientPool)
      → (construct_in os worker_count hint values thread_count e w).0 ≡ built p
      → IsNew os.pagesize hint p
  unfolding construct_in or_else
  construct_in-IsNew none w p h = absurd (cc)
  construct_in-IsNew (some e) w p h =
      elim (Bool-cases (create (map_alloc os node_size) no_client (empty values) hint w).0.0) [
        | inl made ↦
            let (above, below, full) =
              create-map_alloc os node_size no_client (empty values) hint w page pos fits made in
            subst (IsNew os.pagesize hint) (ap (or_else p) (rw made at h))
              (full-IsNew os.pagesize hint _ full refl above below fits)
        | inr failed ↦ let no : bad_alloc ≡ built p = rw failed at h in absurd (cc)
      ]

  -- With a page size and a capacity that are positive and whose sum is below 2^64: where the
  -- constructor does not throw, the pool is new: every node is free, no client is
  -- active, and the capacity is at least the one asked for and less than a page above it.
  pub construct-IsNew :
      {S : Type 0} (w : World S) (p : ClientPool)
      → (construct os worker_count hint values thread_count w).0 ≡ built p
      → IsNew os.pagesize hint p
  unfolding construct
  construct-IsNew w p h =
      let (e, w') = Epoll.construct os default_max_events w in construct_in-IsNew e w' p h
