-- ===== src/Stack/Threads/Safety.antt =====
-- What single-popper use of atomic_stack.hpp gives its clients in every reachable state.
use epoll_server.Base.{
  count, has_of_count, count_of_has, count_of_not_has, has_of_count_pos, IsDistinct-of_counts,
  total_zero, le-total, total, ℕ, ◌+◌, ◌≤◌, ◌<◌, ◌≡◌, Bool, Option, true, false, List, arith, has,
  IsDistinct, countdown,
}
use epoll_server.Stack.Chain.{Chain}
use epoll_server.Stack.Threads.{System, Reach}
use epoll_server.Stack.Threads.Family.{carries}
use epoll_server.Stack.Threads.Invariant.{Inv}
use epoll_server.Stack.Threads.Refinement.{started, started-Inv, Reach-Inv}

-- The places where a node can be: the free list, the nodes in use, and the threads.
pub record IsPartition (n capacity : ℕ) (s : System) (free : List ℕ) : Type 0 where
  pub chain : Chain s.mem.next s.mem.head free
  pub free_distinct : IsDistinct free
  pub used_distinct : IsDistinct s.used
  pub free_not_used : (a : ℕ) → has a s.used ≡ true → has a free ≡ false
  pub carried_not_used : (a t : ℕ) → t < n → 0 < carries a (s.pc t) → has a s.used ≡ false
  pub carried_not_free : (a t : ℕ) → t < n → 0 < carries a (s.pc t) → has a free ≡ false
  pub nothing_lost :
      (a : ℕ)
      → a < capacity
      → has a s.used ≡ false
      → ((t : ℕ) → t < n → carries a (s.pc t) ≡ 0)
      → has a free ≡ true

module _ {n capacity popper : ℕ} {s : System} {free : List ℕ}
    (inv : Inv n capacity popper s free) where
  open inv use {chain, once}

  at_most_one : (a : ℕ) → count a free + count a s.used + total (carries a) n s.pc ≤ 1
  at_most_one a = ground (arith, once a)

  Inv-IsPartition : IsPartition n capacity s free
  Inv-IsPartition = record {
    chain = chain;
    free_distinct = IsDistinct-of_counts free (λ a. omega (arith, at_most_one a));
    used_distinct = IsDistinct-of_counts s.used (λ a. omega (arith, at_most_one a));
    free_not_used =
        λ a h. has_of_count a free (omega (arith, at_most_one a, count_of_has a s.used h));
    carried_not_used = λ a t lt h.
        has_of_count a s.used (omega (arith, at_most_one a, le-total (carries a) n t s.pc lt));
    carried_not_free = λ a t lt h.
        has_of_count a free (omega (arith, at_most_one a, le-total (carries a) n t s.pc lt));
    nothing_lost = λ a lt unused none_carried. has_of_count_pos a free (
        ground (
          arith,
          once a,
          count_of_not_has a s.used unused,
          total_zero (carries a) n s.pc none_carried,
        ));
  }

-- From the stack with all nodes free, whatever the schedule of the threads, of which only one pops,
-- and however often compare-exchanges fail: a node is never handed out twice, never lost, and never
-- in two places.
pub Reach-IsPartition :
    {n popper : ℕ} {may_pop : ℕ → Bool} (capacity : ℕ) (links : ℕ → Option ℕ) (head : Option ℕ)
    {s : System}
    → ((t : ℕ) → may_pop t ≡ true → t ≡ popper)
    → Chain links head (countdown capacity)
    → Reach n may_pop (started links head) s
    → (free : List ℕ) × IsPartition n capacity s free
Reach-IsPartition {n} {popper} capacity links head one c r =
    let (free, inv) = Reach-Inv one (started-Inv n capacity popper links head c) r in
    (free, Inv-IsPartition inv)
