-- ===== src/Stack/Create.antt =====
-- What `create` builds (atomic_stack.hpp): the loop links every node of the buffer.
use mathlib.Core.Path.{subst}
use epoll_server.Base.{
  ℕ, zero, suc, ◌+◌, ◌-◌, ◌^◌, ◌≤◌, ◌<◌, ◌≡◌, refl, Option, true, none, some, ◌∙◌, arith, update,
  countdown, has-countdown_of_le,
}
use epoll_server.Base.Int.{ℤ}
use epoll_server.Os.{Os, World}
use epoll_server.Mem.{size_t, Allocator, map_alloc, round_up, genmap}
use epoll_server.Mem.Pages.{round_up_bounds}
use epoll_server.Stack.{Stack, link_nodes, build, create_with, create_in, create}
use epoll_server.Stack.Chain.{Chain, Chain-update}

module _ {T : Type 0} (t : T) where
  -- What the loop keeps: nodes i, …, 0 are linked, and hold default values.
  record Linked (i : ℕ) (next : ℕ → Option ℕ) (value : ℕ → T) : Type 0 where
    chain : Chain next (some i) (countdown (suc i))
    fresh : (j : ℕ) → j < suc i → value j ≡ t

  Linked-step :
      (i : ℕ) (next : ℕ → Option ℕ) (value : ℕ → T)
      → Linked i next value
      → Linked (suc i) (update next (suc i) (some i)) (update value (suc i) t)
  Linked-step i next value l = record {
    chain = ground (
      arith,
      Chain-update next (next i) (countdown i) (suc i) (some i)
          (has-countdown_of_le i (suc i) (omega arith)) l.chain.1,
    );
    fresh = λ j h. ground (arith, l.fresh j);
  }

  link_nodes-Linked :
      (rounds i : ℕ) (next : ℕ → Option ℕ) (value : ℕ → T)
      → Linked i next value
      → let (top, next', value') = link_nodes t rounds i next value in
        (top ≡ i + rounds) × Linked top next' value'
  unfolding link_nodes
  link_nodes-Linked zero i next value l = (omega arith, l)
  link_nodes-Linked (suc rounds) i next value l =
      let (top, linked) =
        link_nodes-Linked rounds (suc i) (update next (suc i) (some i)) (update value (suc i) t)
          (Linked-step i next value l) in
      (omega (arith, top), linked)

  Linked-first :
      (next : ℕ → Option ℕ) (value : ℕ → T) → Linked 0 (update next 0 none) (update value 0 t)
  Linked-first next value = record { chain = (refl, refl); fresh = λ j h. ground arith }

  link_nodes-full :
      (n last : ℕ) (next : ℕ → Option ℕ) (value : ℕ → T)
      → last ≡ n
      → let (top, next', value') = link_nodes t last 0 (update next 0 none) (update value 0 t) in
        Chain next' (some top) (countdown (suc n)) × ((j : ℕ) → j < suc n → value' j ≡ t)
  link_nodes-full n last next value e =
      let (top, l) =
        link_nodes-Linked last 0 (update next 0 none) (update value 0 t)
          (Linked-first next value) in
      let (top', next', value') = link_nodes t last 0 (update next 0 none) (update value 0 t) in
      let e' : top' ≡ n = omega (arith, top) in
      (
        subst (λ k. Chain next' (some top') (countdown (suc k))) e' l.chain,
        λ j h. l.fresh j (omega arith),
      )

  -- A stack over `capacity` nodes: all of them are linked, in descending order.
  pub record IsFull (capacity : ℕ) (s : Stack T) : Type 0 where
    pub chain : Chain s.next s.head (countdown capacity)
    pub capacity_eq : s.capacity ≡ capacity
    pub fresh : (j : ℕ) → j < capacity → s.value j ≡ t

  build-IsFull : (addr : ℤ) (n : ℕ) (s : Stack T) → 0 < n → n < 2 ^ 64 → IsFull n (build t addr n s)
  unfolding build
  build-IsFull addr zero s pos fits = absurd (omega arith)
  build-IsFull addr (suc n) s pos fits =
      let (chain, fresh) =
        link_nodes-full n (size_t (suc n + 2 ^ 64 - 1)) s.next s.value (omega arith) in
      record { chain = chain; capacity_eq = refl; fresh = fresh }

  module _ {S : Type 0} (mem : Allocator S) where
    create_with-IsFull :
        (s : Stack T) (block : Option ℤ) (n : ℕ)
        → 0 < n
        → n < 2 ^ 64
        → (create_with mem t s block n).0 ≡ true
        → IsFull n (create_with mem t s block n).1
    unfolding create_with
    create_with-IsFull s none n pos fits ok = cc
    create_with-IsFull s (some addr) n pos fits ok = build-IsFull addr n s pos fits

    create_in-IsFull :
        (s : Stack T) (hint : ℕ) (buffer : Option ℤ) (w : World S)
        → let (made, w') = create_in mem t s hint buffer w in
          0 < made.2 → made.2 < 2 ^ 64 → made.0 ≡ true → IsFull made.2 made.1
    unfolding create_in create_with
    create_in-IsFull s hint (some addr) w pos fits ok = cc
    create_in-IsFull s hint none w pos fits ok =
        create_with-IsFull s (mem.create hint w).0.0 (mem.create hint w).0.1 pos fits ok

    -- Where the allocator reports a capacity that is positive and a `size_t`, and `create` returns
    -- true, the stack holds every node of the buffer exactly once, each with a default value.
    pub create-IsFull :
        (s : Stack T) (hint : ℕ) (w : World S)
        → let (made, w') = create mem t s hint w in
          0 < made.2 → made.2 < 2 ^ 64 → made.0 ≡ true → IsFull made.2 made.1
    unfolding create
    create-IsFull s hint = create_in-IsFull s hint s.buffer

genmap_count :
    {S : Type 0} (os : Os) (unitsize hint : ℕ) (w : World S)
    → (genmap os unitsize hint w).0.1 ≡ round_up os.pagesize hint
unfolding genmap
genmap_count os unitsize hint w = ground arith

create_in_capacity :
    {S T : Type 0} (mem : Allocator S) (t : T) (s : Stack T) (hint : ℕ) (buffer : Option ℤ)
    (w : World S)
    → (create_in mem t s hint buffer w).0.0 ≡ true
    → (create_in mem t s hint buffer w).0.2 ≡ (mem.create hint w).0.1
unfolding create_in
create_in_capacity mem t s hint none w ok = refl
create_in_capacity mem t s hint (some addr) w ok = cc

create_capacity :
    {S T : Type 0} (mem : Allocator S) (t : T) (s : Stack T) (hint : ℕ) (w : World S)
    → (create mem t s hint w).0.0 ≡ true
    → (create mem t s hint w).0.2 ≡ (mem.create hint w).0.1
unfolding create
create_capacity mem t s hint = create_in_capacity mem t s hint s.buffer

-- With a page size and a request that are positive and whose sum is below 2^64: a stack that
-- `create` builds in a memory map has at least the capacity that was asked for, and
-- less than a page more; its free nodes are as many as its capacity.
pub create-map_alloc :
    {S T : Type 0} (os : Os) (unitsize : ℕ) (t : T) (s : Stack T) (hint : ℕ) (w : World S)
    → 0 < os.pagesize
    → 0 < hint
    → hint + os.pagesize < 2 ^ 64
    → let (made, w') = create (map_alloc os unitsize) t s hint w in
      made.0 ≡ true → (hint ≤ made.2) × (made.2 < hint + os.pagesize) × IsFull t made.2 made.1
create-map_alloc os unitsize t s hint w page pos fits ok =
    let count : (create (map_alloc os unitsize) t s hint w).0.2 ≡ round_up os.pagesize hint =
      create_capacity (map_alloc os unitsize) t s hint w ok ∙ genmap_count os unitsize hint w in
    let (whole, above, below) = round_up_bounds os.pagesize hint page fits in
    (
      omega arith,
      omega arith,
      create-IsFull t (map_alloc os unitsize) s hint w (omega arith) (omega arith) ok,
    )
