-- ===== src/Stack/Threads/Invariant.antt =====
-- The invariant of the stack of atomic_stack.hpp under any number of pushing threads and one that
-- pops, as in pool.hpp: `unuse` pushes from every worker, and `use` pops from the thread that
-- accepts connections.
use epoll_server.Base.{
  count, has_of_count, total-update, le-total, total, ℕ, ◌+◌, ◌<◌, ◌≡◌, Bool, Option, true, false,
  none, some, inl, inr, List, [], ◌∷◌, arith, update, has, ◌==◌, ltb, Bool-cases, if◌then◌else◌,
}
use epoll_server.Stack.Chain.{Chain, Chain-update}
use epoll_server.Stack.Threads.{
  Memory, Pc, idle, push_load, push_link, push_cas, pop_load, pop_test, pop_cas, System,
}
use epoll_server.Stack.Threads.Family.{carries}

-- A thread inside `pop`.
abbrev pub pops : Pc → Bool
pops pop_load = true
pops (pop_test _) = true
pops (pop_cas _ _) = true
pops _ = false

-- What the locals of the popping thread say: its node is still free, and its link is unchanged.
abbrev pub IsFresh : Memory → List ℕ → Pc → Type 0
IsFresh m free (pop_test (some i)) = has i free ≡ true
IsFresh m free (pop_cas i below) = (has i free ≡ true) × (m.next i ≡ below)
IsFresh m free _ = Unit {0}

-- `free` lists the nodes that `head_` leads to; every node of the buffer is free, in use, or being
-- pushed by one thread, and only one of these.
pub record Inv (n capacity popper : ℕ) (s : System) (free : List ℕ) : Type 0 where
  pub chain : Chain s.mem.next s.mem.head free
  pub once :
      (a : ℕ)
      → count a free + count a s.used + total (carries a) n s.pc ≡ (if ltb a capacity then 1 else 0)
  pub alone : (t : ℕ) → pops (s.pc t) ≡ true → t ≡ popper
  pub fresh : IsFresh s.mem free (s.pc popper)

pub head_free :
    (next : ℕ → Option ℕ) (h : Option ℕ) (free : List ℕ)
    → Chain next h free
    → IsFresh (record { head = h; next = next }) free (pop_test h)
head_free next none free c = tt
head_free next (some i) [] c = absurd (cc)
head_free next (some i) (j ∷ free) c = ground arith

-- A write to a node that is not free spares the locals of the popping thread.
IsFresh-update :
    (m : Memory) (free : List ℕ) (p : Pc) (i : ℕ) (v : Option ℕ)
    → has i free ≡ false
    → IsFresh m free p
    → IsFresh (record m { next = update m.next i v }) free p
IsFresh-update m free (pop_test (some o)) i v out f = f
IsFresh-update m free (pop_cas o below) i v out f = ground arith
IsFresh-update m free (pop_test none) i v out f = tt
IsFresh-update m free idle i v out f = tt
IsFresh-update m free (push_load _) i v out f = tt
IsFresh-update m free (push_link _ _) i v out f = tt
IsFresh-update m free (push_cas _) i v out f = tt
IsFresh-update m free pop_load i v out f = tt

-- So does a push of another node.
pub IsFresh-cons :
    (m m' : Memory) (free : List ℕ) (p : Pc) (i : ℕ)
    → m'.next ≡ m.next
    → IsFresh m free p
    → IsFresh m' (i ∷ free) p
IsFresh-cons m m' free (pop_test (some o)) i e f = ground arith
IsFresh-cons m m' free (pop_cas o below) i e f = (ground arith, rw e f.1)
IsFresh-cons m m' free (pop_test none) i e f = tt
IsFresh-cons m m' free idle i e f = tt
IsFresh-cons m m' free (push_load _) i e f = tt
IsFresh-cons m m' free (push_link _ _) i e f = tt
IsFresh-cons m m' free (push_cas _) i e f = tt
IsFresh-cons m m' free pop_load i e f = tt

-- Outside `pop` nothing is said.
pub IsFresh_outside : (m : Memory) (free : List ℕ) (p : Pc) → pops p ≡ false → IsFresh m free p
IsFresh_outside m free idle h = tt
IsFresh_outside m free (push_load _) h = tt
IsFresh_outside m free (push_link _ _) h = tt
IsFresh_outside m free (push_cas _) h = tt
IsFresh_outside m free pop_load h = absurd (cc)
IsFresh_outside m free (pop_test _) h = absurd (cc)
IsFresh_outside m free (pop_cas _ _) h = absurd (cc)

pub IsFresh-moved :
    (m : Memory) (free : List ℕ) (pc : ℕ → Pc) (t popper : ℕ) (p : Pc)
    → IsFresh m free p
    → IsFresh m free (pc popper)
    → IsFresh m free (update pc t p popper)
IsFresh-moved m free pc t popper p new old = elim (Bool-cases (t == popper)) [
  | inl e ↦ rw e new
  | inr e ↦ rw e old
]

module _ {n capacity popper : ℕ} {s : System} {free : List ℕ} (inv : Inv n capacity popper s free)
    (t : ℕ) (lt : t < n) where
  open inv use {chain, once, alone, fresh}

  -- The node that a thread pushes is not free.
  pub carried : (a : ℕ) → carries a (s.pc t) ≡ 1 → has a free ≡ false
  carried a h = has_of_count a free (ground (arith, once a, le-total (carries a) n t s.pc lt))

  -- Where a thread moves with its node, every node stays where it is.
  pub once_same :
      (p : Pc)
      → ((a : ℕ) → carries a p ≡ carries a (s.pc t))
      → (a : ℕ)
      → count a free + count a s.used + total (carries a) n (update s.pc t p)
        ≡ (if ltb a capacity then 1 else 0)
  once_same p keeps a = omega (arith, once a, keeps a, total-update (carries a) n t s.pc p lt)

  pub alone_same :
      (p : Pc)
      → (pops p ≡ true → pops (s.pc t) ≡ true)
      → (u : ℕ) → pops (update s.pc t p u) ≡ true
      → u ≡ popper
  alone_same p keeps u h = ground (arith, alone u, alone t)

  -- A move that changes no word of shared memory but its own node's link, and no list.
  pub local_move :
      (m : Memory) (p : Pc)
      → Chain m.next m.head free
      → ((a : ℕ) → carries a p ≡ carries a (s.pc t))
      → (pops p ≡ true → pops (s.pc t) ≡ true)
      → IsFresh m free p
      → IsFresh m free (s.pc popper)
      → Inv n capacity popper (record s { mem = m; pc = update s.pc t p }) free
  local_move m p chain' keeps pops' new old = record {
    chain = chain';
    once = once_same p keeps;
    alone = alone_same p pops';
    fresh = IsFresh-moved m free s.pc t popper p new old;
  }

  -- A write to the link of the node that the thread carries.
  pub own_link :
      (i : ℕ) (v : Option ℕ) (p : Pc)
      → carries i (s.pc t) ≡ 1
      → ((a : ℕ) → carries a p ≡ carries a (s.pc t))
      → pops p ≡ false
      → let m = record s.mem { next = update s.mem.next i v } in
        Inv n capacity popper (record s { mem = m; pc = update s.pc t p }) free
  own_link i v p mine keeps outside =
      let out = carried i mine in
      local_move (record s.mem { next = update s.mem.next i v }) p
        (Chain-update s.mem.next s.mem.head free i v out chain) keeps (λ h. cc)
        (IsFresh_outside (record s.mem { next = update s.mem.next i v }) free p outside)
        (IsFresh-update s.mem free (s.pc popper) i v out fresh)
