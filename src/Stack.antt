-- ===== src/Stack.antt =====
-- atomic_stack.hpp: the stack of free nodes inside one buffer, as one thread sees it. A node is
-- named by its index in the buffer, and a null pointer is `none`. The steps that other threads
-- interleave are in Stack/Threads.antt.
pub mod Chain
pub mod Create
pub mod Laws
pub mod Tests
pub mod Threads
use epoll_server.Base.{
  ℕ, zero, suc, ◌+◌, ◌-◌, ◌^◌, Bool, true, false, Option, none, some, update, ◌≡◌, ap,
}
use epoll_server.Base.Int.{ℤ}
use epoll_server.Os.{M, pure, ◌>>=◌}
use epoll_server.Mem.{size_t, Allocator}

-- `atomic_stack<T>`, with the fields `next` and the base `T` of the nodes in its buffer.
pub record Stack (T : Type 0) : Type 0 where
  pub head : Option ℕ
  pub capacity : ℕ
  pub buffer : Option ℤ
  pub next : ℕ → Option ℕ
  pub value : ℕ → T

-- The loop of `create`: node i + 1 is built on top of node i, for `rounds` more rounds. The result
-- is the index of the last node, and the links and values.
unfoldable pub link_nodes :
    {T : Type 0} → T → (rounds i : ℕ) → (ℕ → Option ℕ) → (ℕ → T) → ℕ × (ℕ → Option ℕ) × (ℕ → T)
link_nodes t zero i next value = (i, next, value)
link_nodes t (suc rounds) i next value =
    link_nodes t rounds (suc i) (update next (suc i) (some i)) (update value (suc i) t)

-- Everything in `create` behind the allocation; `t` is `T()`.
unfoldable pub build : {T : Type 0} → T → (addr : ℤ) → (capacity : ℕ) → Stack T → Stack T
unfolding link_nodes
build t addr capacity s =
    let last = size_t (capacity + 2 ^ 64 - 1) in
    let (top, next, value) = link_nodes t last 0 (update s.next 0 none) (update s.value 0 t) in
    record s {
      head = some top;
      capacity = capacity;
      buffer = some addr;
      next = next;
      value = value;
    }

module _ {S T : Type 0} (mem : Allocator S) where
  create_with : T → Stack T → Option ℤ → ℕ → Bool × Stack T
  unfolding build
  create_with t s none capacity = (false, record s { buffer = none })
  create_with t s (some addr) capacity = (true, build t addr capacity s)

  create_in : T → Stack T → ℕ → Option ℤ → M S (Bool × Stack T × ℕ)
  unfolding create_with
  create_in t s hint (some addr) = pure (false, s, hint)
  create_in t s hint none = do
    block ← mem.create hint
    let (done, s') = create_with t s block.0 block.1
    pure (done, s', block.1)

  -- `create(&hint)`: whether it succeeded, the stack, and the new value of the hint.
  unfoldable pub create : T → Stack T → ℕ → M S (Bool × Stack T × ℕ)
  unfolding create_in
  create t s hint = create_in t s hint s.buffer

  destroy_in : Stack T → Option ℤ → M S (Stack T)
  destroy_in s none = pure s
  destroy_in s (some addr) = do
    _ ← mem.destroy addr s.capacity
    pure (record s { head = none; buffer = none })

  unfoldable pub destroy : Stack T → M S (Stack T)
  unfolding destroy_in
  destroy s = destroy_in s s.buffer

module _ {T : Type 0} where
  -- The constructor; `next` and `value` are those of memory that is not allocated yet.
  abbrev pub empty : (ℕ → T) → Stack T
  empty value = record { head = none; capacity = 0; buffer = none; next = λ _. none; value = value }

  -- The address of the buffer.
  unfoldable pub data_of : Stack T → Option ℤ
  data_of s = s.buffer

  -- `push`, with no other thread between its steps.
  unfoldable pub push : ℕ → Stack T → Stack T
  push i s = record s { next = update s.next i s.head; head = some i }

  pop_from : Stack T → Option ℕ → Option ℕ × Stack T
  pop_from s none = (none, s)
  pop_from s (some i) = (some i, record s { head = s.next i })

  -- `pop`, with no other thread between its steps.
  unfoldable pub pop : Stack T → Option ℕ × Stack T
  unfolding pop_from
  pop s = pop_from s s.head

  pub pop-none : (s : Stack T) → s.head ≡ none → pop s ≡ (none, s)
  unfolding pop
  pop-none s h = ap (pop_from s) h

  pub pop-some :
      (s : Stack T) (i : ℕ) → s.head ≡ some i → pop s ≡ (some i, record s { head = s.next i })
  unfolding pop
  pop-some s i h = ap (pop_from s) h
