-- ===== src/Stack/Threads/Refinement.antt =====
-- Each step of the interleaved stack of atomic_stack.hpp is one step of a plain list, or none.
use mathlib.Core.Path.{subst}
use epoll_server.Base.{
  count, same, count-countdown, total-update, total_zero, ℕ, ◌<◌, ◌≡◌, refl, sym, ap, ◌∙◌, Bool,
  Option, true, false, none, some, List, [], ◌∷◌, arith, update, has, ==_iff, countdown,
}
use epoll_server.Stack.Chain.{Chain}
use epoll_server.Stack.Threads.{
  Memory, Pc, idle, push_load, push_link, push_cas, pop_load, pop_test, pop_cas, Move, load_top,
  link, push_win, push_lose, load_head, read_next, pop_lose, System, erase, Step, access,
  start_push, start_pop, pop_empty, pop_win, Reach, here, next,
}
use epoll_server.Stack.Threads.Family.{carries, count-erase}
use epoll_server.Stack.Threads.Invariant.{
  pops, IsFresh, Inv, head_free, IsFresh-cons, IsFresh-moved, carried, alone_same, once_same,
  local_move, own_link,
}

-- A step of the abstract free list: the nodes in use, and the free nodes from the top.
pub data Op (used free : List ℕ) : List ℕ → List ℕ → Type 0 where
  none_visible : Op used free used free
  takes : (i : ℕ) → has i used ≡ true → Op used free (erase i used) free
  pushes : (i : ℕ) → has i free ≡ false → Op used free used (i ∷ free)
  pops_top : (i : ℕ) (rest : List ℕ) → free ≡ i ∷ rest → Op used free (i ∷ used) rest

-- The free list after a step, and the abstract step that leads to it.
pub record After (n capacity popper : ℕ) (s s' : System) (free : List ℕ) : Type 0 where
  pub left : List ℕ
  pub inv : Inv n capacity popper s' left
  pub op : Op s.used free s'.used left

same_self : (i : ℕ) → same i i ≡ 1
same_self i = ground arith

module _ {n capacity popper : ℕ} {s : System} {free : List ℕ} (inv : Inv n capacity popper s free)
    (t : ℕ) (lt : t < n) where
  open inv use {chain, once, alone, fresh}

  stays :
      (m : Memory) (p : Pc)
      → Inv n capacity popper (record s { mem = m; pc = update s.pc t p }) free
      → After n capacity popper s (record s { mem = m; pc = update s.pc t p }) free
  stays m p inv' = record { left = free; inv = inv'; op = none_visible }

  -- The locals of the thread itself, while it pops.
  own_fresh : {p : Pc} → s.pc t ≡ p → pops p ≡ true → IsFresh s.mem free p
  own_fresh {p} e h =
      let at_popper : t ≡ popper = alone t (rw e h) in
      subst (IsFresh s.mem free) (ap s.pc (sym at_popper) ∙ e) fresh

  push_win-After :
      {i : ℕ}
      → s.pc t ≡ push_cas i
      → s.mem.head ≡ s.mem.next i
      → let s' = record s { mem = record s.mem { head = some i }; pc = update s.pc t idle } in
        After n capacity popper s s' free
  push_win-After {i} e h = record {
    left = i ∷ free;
    inv = record {
      chain = (refl, rw h at chain);
      once = λ a. ground (arith, once a, total-update (carries a) n t s.pc idle lt);
      alone = alone_same inv t lt idle (λ x. cc);
      fresh =
          let m = record s.mem { head = some i } in
          IsFresh-moved m (i ∷ free) s.pc t popper idle tt
            (IsFresh-cons s.mem m free (s.pc popper) i refl fresh);
    };
    op = pushes i (carried inv t lt i (rw e (same_self i)));
  }

  -- The head is read, again after a compare-exchange that failed.
  reload :
      {p : Pc}
      → s.pc t ≡ p
      → pops p ≡ true
      → ((a : ℕ) → carries a p ≡ 0)
      → After n capacity popper s (record s { pc = update s.pc t (pop_test s.mem.head) }) free
  reload e h none_carried = stays s.mem (pop_test s.mem.head) (
      local_move inv t lt s.mem (pop_test s.mem.head) chain (λ a. rw e (sym (none_carried a)))
        (λ _. rw e h) (head_free s.mem.next s.mem.head free chain) fresh)

  Move-After :
      {p p' : Pc} {m : Memory}
      → s.pc t ≡ p
      → Move s.mem p m p'
      → After n capacity popper s (record s { mem = m; pc = update s.pc t p' }) free
  Move-After e (load_top {i}) =
      stays s.mem (push_link i s.mem.head)
        (local_move inv t lt s.mem (push_link i s.mem.head) chain (λ a. rw e) (λ h. cc) tt fresh)
  Move-After e (link {i} {top}) =
      stays (record s.mem { next = update s.mem.next i top }) (push_cas i)
        (own_link inv t lt i top (push_cas i) (rw e (same_self i)) (λ a. rw e) refl)
  Move-After e (push_win h) = push_win-After e h
  Move-After e (push_lose {i}) =
      stays (record s.mem { next = update s.mem.next i s.mem.head }) (push_cas i)
        (own_link inv t lt i s.mem.head (push_cas i) (rw e (same_self i)) (λ a. rw e) refl)
  Move-After e load_head = reload e refl (λ a. refl)
  Move-After e (read_next {i}) = stays s.mem (pop_cas i (s.mem.next i)) (
      local_move inv t lt s.mem (pop_cas i (s.mem.next i)) chain (λ a. rw e) (λ h. rw e)
        (own_fresh e refl, refl) fresh)
  Move-After e pop_lose = reload e refl (λ a. refl)

  start_push-After :
      (i : ℕ)
      → s.pc t ≡ idle
      → has i s.used ≡ true
      → let s' = record s { pc = update s.pc t (push_load i); used = erase i s.used } in
        After n capacity popper s s' free
  start_push-After i e h = record {
    left = free;
    inv = record {
      chain = chain;
      once = λ a. ground (
        arith,
        once a,
        count-erase a i s.used h,
        total-update (carries a) n t s.pc (push_load i) lt,
      );
      alone = alone_same inv t lt (push_load i) (λ x. cc);
      fresh = IsFresh-moved s.mem free s.pc t popper (push_load i) tt fresh;
    };
    op = takes i h;
  }

  start_pop-After :
      t ≡ popper
      → s.pc t ≡ idle
      → After n capacity popper s (record s { pc = update s.pc t pop_load }) free
  start_pop-After at_popper e = stays s.mem pop_load (record {
    chain = chain;
    once = once_same inv t lt pop_load (λ a. rw e);
    alone = λ u h. ground (arith, alone u);
    fresh = IsFresh-moved s.mem free s.pc t popper pop_load tt fresh;
  })

  -- The compare-exchange of `pop` that wins takes the top of the list, since the link that was read
  -- is still the node's link.
  pop_win-After :
      (i : ℕ) (below : Option ℕ)
      → s.pc t ≡ pop_cas i below
      → s.mem.head ≡ some i
      → (is : List ℕ) → free ≡ is
      → let s' : System = record {
        mem = record { head = below; next = s.mem.next };
        pc = update s.pc t idle;
        used = i ∷ s.used;
      } in
        After n capacity popper s s' free
  pop_win-After i below e h [] is = let empty : s.mem.head ≡ none = rw is at chain in absurd (cc)
  pop_win-After i below e h (j ∷ rest) is =
      let linked : Chain s.mem.next s.mem.head (j ∷ rest) = rw is at chain in
      let top : j ≡ i = cc in
      let (member, link_kept) = own_fresh e refl in
      let at_popper : t ≡ popper = alone t (rw e refl) in
      record {
        left = rest;
        inv = record {
          chain = rw (← link_kept, ← top) linked.1;
          once = λ a.
              ground (arith, once a, ap (count a) is, total-update (carries a) n t s.pc idle lt);
          alone = alone_same inv t lt idle (λ x. cc);
          fresh = rw ((==_iff t popper).1 at_popper) tt;
        };
        op = pops_top i rest (is ∙ ap (λ k. k ∷ rest) top);
      }

-- The refinement. With one thread that pops, every step, at any interleaving, is one step of the
-- plain list of free nodes or leaves the lists as they are, and keeps the invariant.
pub Step-After :
    {n capacity popper : ℕ} {may_pop : ℕ → Bool} {s s' : System} {free : List ℕ}
    → ((t : ℕ) → may_pop t ≡ true → t ≡ popper)
    → Inv n capacity popper s free
    → Step n may_pop s s'
    → After n capacity popper s s' free
Step-After one inv (access t lt mv) = Move-After inv t lt refl mv
Step-After one inv (start_push t i lt e h) = start_push-After inv t lt i e h
Step-After one inv (start_pop t lt may e) = start_pop-After inv t lt (one t may) e
Step-After {s} one inv (pop_empty t lt e) =
    stays inv t lt s.mem idle
      (local_move inv t lt s.mem idle inv.chain (λ a. rw e) (λ h. cc) tt inv.fresh)
Step-After {free} one inv (pop_win t i below lt e h) = pop_win-After inv t lt i below e h free refl

-- At the start all nodes are free, and every thread is idle.
abbrev pub started : (ℕ → Option ℕ) → Option ℕ → System
started links head = record {
  mem = record { head = head; next = links };
  pc = λ _. idle;
  used = [];
}

pub started-Inv :
    (n capacity popper : ℕ) (links : ℕ → Option ℕ) (head : Option ℕ)
    → Chain links head (countdown capacity)
    → Inv n capacity popper (started links head) (countdown capacity)
started-Inv n capacity popper links head c = record {
  chain = c;
  once = λ a.
      omega
        (arith, count-countdown a capacity, total_zero (carries a) n (λ _. idle) (λ t lt. refl));
  alone = λ t h. cc;
  fresh = tt;
}

-- So in every reachable state each node of the buffer is free, in use, or being pushed by one
-- thread, and only one of these.
pub Reach-Inv :
    {n capacity popper : ℕ} {may_pop : ℕ → Bool} {s s' : System} {free : List ℕ}
    → ((t : ℕ) → may_pop t ≡ true → t ≡ popper)
    → Inv n capacity popper s free
    → Reach n may_pop s s'
    → (left : List ℕ) × Inv n capacity popper s' left
Reach-Inv {free} one inv here = (free, inv)
Reach-Inv one inv (next r st) =
    let (left, inv') = Reach-Inv one inv r in let a = Step-After one inv' st in (a.left, a.inv)
