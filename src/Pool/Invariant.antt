-- ===== src/Pool/Invariant.antt =====
-- What a `client_pool` (pool.hpp) keeps: each node is free or holds a client, and the counter says
-- how many do.
use mathlib.Core.Path.{subst}
use epoll_server.Base.{
  ℕ, suc, ◌+◌, ◌^◌, ◌<◌, ◌≤◌, ◌≡◌, ap, true, false, List, ◌∷◌, arith, has, length, pigeonhole,
}
use epoll_server.Base.Int.{ℤ, is_zero}
use epoll_server.Stack.Laws.{Holds, push-Holds}
use epoll_server.Pool.State.{no_client, ClientPool, sfd_of, set_client, put_back, take_out}

-- `free` lists the nodes on the stack, from the top.
pub record Inv (p : ClientPool) (free : List ℕ) : Type 0 where
  pub holds : Holds p.free_mem free
  pub in_buffer : (i : ℕ) → has i free ≡ true → i < p.client_cap
  pub no_sfd : (i : ℕ) → i < p.client_cap → is_zero (sfd_of p i) ≡ has i free
  pub counted : p.client_count + length free ≡ p.client_cap
  pub small : p.client_cap < 2 ^ 64

-- A node in use.
pub record InUse (p : ClientPool) (free : List ℕ) (i : ℕ) : Type 0 where
  pub in_range : i < p.client_cap
  pub not_free : has i free ≡ false

-- The invariant speaks of the nodes and of the counter of clients.
pub Inv-unchanged :
    {p p' : ClientPool} {free : List ℕ}
    → p'.client_cap ≡ p.client_cap
    → p'.free_mem ≡ p.free_mem
    → p'.client_count ≡ p.client_count
    → Inv p free
    → Inv p' free
Inv-unchanged cap mem count inv = record {
  holds = rw mem inv.holds;
  in_buffer = λ i h. rw cap (inv.in_buffer i h);
  no_sfd = λ i lt. rw mem (inv.no_sfd i (rw (← cap) lt));
  counted = rw (cap, count) inv.counted;
  small = rw cap inv.small;
}

module _ {p : ClientPool} {free : List ℕ} (inv : Inv p free) where
  open inv use {holds, in_buffer, no_sfd, counted, small}

  -- There are fewer free nodes than nodes, while one is in use.
  pub room : (i : ℕ) → InUse p free i → suc (length free) ≤ p.client_cap
  room i u =
      pigeonhole p.client_cap (i ∷ free) (u.not_free, holds.distinct)
        (λ a h. ground (arith, in_buffer a, u.in_range))

  -- The first free node is taken for the new client, and the counter goes up.
  pub take_out-Inv :
      (sfd : ℤ) (i : ℕ) (rest : List ℕ)
      → is_zero sfd ≡ false
      → free ≡ i ∷ rest
      → Inv (take_out i sfd (record p.free_mem { head = p.free_mem.next i }) p) rest
  unfolding take_out
  take_out-Inv sfd i rest nonzero e =
      let listed : Holds p.free_mem (i ∷ rest) = subst (Holds p.free_mem) e holds in
      record {
        holds = record { chain = listed.chain.1; distinct = listed.distinct.1 };
        in_buffer = λ j h. in_buffer j (rw e (ground arith));
        no_sfd = λ j h. ground (arith, no_sfd j h, ap (has j) e, listed.distinct.0);
        counted = ground (arith, ap length e);
        small = small;
      }

  pub put_back-Inv : (i : ℕ) → InUse p free i → Inv (put_back i p) (i ∷ free)
  unfolding put_back
  put_back-Inv i u = record {
    holds =
        (push-Holds (set_client i no_client p.free_mem) free i
          (record { chain = holds.chain; distinct = holds.distinct }) u.not_free).0;
    in_buffer = λ j h. ground (arith, in_buffer j, u.in_range);
    no_sfd = λ j h. ground (arith, no_sfd j h);
    counted = ground (arith, room i u);
    small = small;
  }
