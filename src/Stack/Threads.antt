-- ===== src/Stack/Threads.antt =====
-- atomic_stack.hpp under threads: `push` and `pop` as the shared accesses that each thread makes,
-- interleaved in any order. All accesses are taken to be sequentially consistent, and a weak
-- compare-exchange may fail at any time.
pub mod Family
pub mod Invariant
pub mod Refinement
pub mod Alone
pub mod Aba
pub mod Safety
pub mod Tests
use epoll_server.Base.{
  ℕ, ◌<◌, ◌≡◌, Bool, true, Option, none, some, List, [], ◌∷◌, update, has, ◌==◌, if◌then◌else◌,
}

-- The shared words: `head_`, and the field `next` of each node.
pub record Memory : Type 0 where
  pub head : Option ℕ
  pub next : ℕ → Option ℕ

-- Where a thread stands, with its local variables.
pub data Pc : Type 0 where
  idle : Pc
  push_load : (node : ℕ) → Pc  -- before `head_.load()` of `push`
  push_link : (node : ℕ) (top : Option ℕ) → Pc  -- before the write to `newHead->next`
  push_cas : (node : ℕ) → Pc  -- before the compare-exchange of `push`
  pop_load : Pc  -- before `head_.load()` of `pop`
  pop_test : (old : Option ℕ) → Pc  -- the test of `oldHead` in the loop of `pop`
  pop_cas : (old : ℕ) (below : Option ℕ) → Pc  -- `oldHead->next` has been read

-- One shared access of a thread.
pub data Move (m : Memory) : Pc → Memory → Pc → Type 0 where
  load_top : {i : ℕ} → Move m (push_load i) m (push_link i m.head)
  link :
      {i : ℕ} {top : Option ℕ}
      → Move m (push_link i top) (record m { next = update m.next i top }) (push_cas i)
  push_win : {i : ℕ} → m.head ≡ m.next i → Move m (push_cas i) (record m { head = some i }) idle
  push_lose :
      {i : ℕ} → Move m (push_cas i) (record m { next = update m.next i m.head }) (push_cas i)
  load_head : Move m pop_load m (pop_test m.head)
  read_next : {i : ℕ} → Move m (pop_test (some i)) m (pop_cas i (m.next i))
  pop_lose : {i : ℕ} {below : Option ℕ} → Move m (pop_cas i below) m (pop_test m.head)

-- The nodes that were handed out are in `used`; a push takes its node from there, and a pop that
-- wins puts its node there.
pub record System : Type 0 where
  pub mem : Memory
  pub pc : ℕ → Pc
  pub used : List ℕ

abbrev pub erase : ℕ → List ℕ → List ℕ
erase a [] = []
erase a (x ∷ xs) = if x == a then xs else x ∷ erase a xs

-- `may_pop` says which threads call `pop`; there are `n` threads.
pub data Step (n : ℕ) (may_pop : ℕ → Bool) (s : System) : System → Type 0 where
  access :
      (t : ℕ) {m : Memory} {p : Pc}
      → t < n
      → Move s.mem (s.pc t) m p
      → Step n may_pop s (record s { mem = m; pc = update s.pc t p })
  start_push :
      (t i : ℕ)
      → t < n
      → s.pc t ≡ idle
      → has i s.used ≡ true
      → Step n may_pop s (record s { pc = update s.pc t (push_load i); used = erase i s.used })
  start_pop :
      (t : ℕ)
      → t < n
      → may_pop t ≡ true
      → s.pc t ≡ idle
      → Step n may_pop s (record s { pc = update s.pc t pop_load })
  pop_empty :
      (t : ℕ)
      → t < n
      → s.pc t ≡ pop_test none
      → Step n may_pop s (record s { pc = update s.pc t idle })
  pop_win :
      (t i : ℕ) (below : Option ℕ)
      → t < n
      → s.pc t ≡ pop_cas i below
      → s.mem.head ≡ some i
      → Step n may_pop s (record {
        mem = record { head = below; next = s.mem.next };
        pc = update s.pc t idle;
        used = i ∷ s.used;
      })

pub data Reach (n : ℕ) (may_pop : ℕ → Bool) (s : System) : System → Type 0 where
  here : Reach n may_pop s s
  next : {u v : System} → Reach n may_pop s u → Step n may_pop u v → Reach n may_pop s v
