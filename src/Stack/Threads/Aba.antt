-- ===== src/Stack/Threads/Aba.antt =====
-- Two threads inside `pop` of atomic_stack.hpp at once: the compare-exchange compares addresses
-- only, so a node that was popped and pushed again meanwhile passes for the node that was read.
use epoll_server.Base.{
  ℕ, ◌<◌, ◌≡◌, ◌≢◌, refl, ap, ◌∙◌, Bool, true, some, List, ◌∷◌, arith, update, has,
}
use epoll_server.Stack.Chain.{Chain}
use epoll_server.Stack.Threads.{
  idle, pop_load, pop_cas, read_next, System, erase, access, start_pop, pop_win, Reach, here, next,
}
use epoll_server.Stack.Threads.Alone.{load_as, pop_some_alone, push_alone_to, at_self}

Reach-trans :
    {n : ℕ} {may_pop : ℕ → Bool} {s u v : System}
    → Reach n may_pop s u
    → Reach n may_pop u v
    → Reach n may_pop s v
Reach-trans r here = r
Reach-trans r (next q st) = next (Reach-trans r q) st

-- Thread 0 has read the top node and its link.
reads_top :
    {n : ℕ} {may_pop : ℕ → Bool} (s : System) (a : ℕ)
    → 1 < n
    → may_pop 0 ≡ true
    → s.pc 0 ≡ idle
    → s.mem.head ≡ some a
    → (s' : System) × Reach n may_pop s s'
      × (s'.mem ≡ s.mem)
      × (s'.used ≡ s.used)
      × (s'.pc 0 ≡ pop_cas a (s.mem.next a))
      × (s'.pc 1 ≡ s.pc 1)
reads_top s a two may e h = (
  _,
  next
      (next (next here (start_pop 0 (omega arith) may e))
        (access 0 (omega arith) (at_self 0 s.pc (load_as h))))
      (access 0 (omega arith) (at_self 0 (update s.pc 0 pop_load) read_next)),
  refl,
  refl,
  refl,
  refl,
)

has_second : (a b : ℕ) (used : List ℕ) → has a (b ∷ a ∷ used) ≡ true
has_second a b used = ground arith

has_erased : (a b : ℕ) (used : List ℕ) → a ≢ b → has b (a ∷ erase a (b ∷ a ∷ used)) ≡ true
has_erased a b used ne = ground arith

-- Where two threads may pop and two nodes are free, there is an interleaving after which a node
-- that is in use is again the top of the stack, so that the next pop hands it out a second time.
pub aba :
    {n : ℕ} {may_pop : ℕ → Bool} (s : System) (a b : ℕ) (rest : List ℕ)
    → 1 < n
    → may_pop 0 ≡ true
    → may_pop 1 ≡ true
    → s.pc 0 ≡ idle
    → s.pc 1 ≡ idle
    → Chain s.mem.next s.mem.head (a ∷ b ∷ rest)
    → a ≢ b
    → (s' : System) × Reach n may_pop s s' × (s'.mem.head ≡ some b) × (has b s'.used ≡ true)
aba s a b rest two may_0 may_1 e_0 e_1 c ne =
    let (s_1, r_1, mem_1, used_1, pc_0, pc_1) = reads_top s a two may_0 e_0 c.0 in
    let (s_2, r_2, mem_2, used_2, pcs_2) =
      pop_some_alone s_1 1 two (pc_1 ∙ e_1) a may_1 (ap (λ m. m.head) mem_1 ∙ c.0) in
    let (s_3, r_3, mem_3, used_3, pcs_3) =
      pop_some_alone s_2 1 two (pcs_2 1 ∙ (pc_1 ∙ e_1)) b may_1
        (ap (λ m. m.head) mem_2 ∙ (ap (λ m. m.next a) mem_1 ∙ c.1.0)) in
    let both : s_3.used ≡ b ∷ a ∷ s_1.used = used_3 ∙ ap (λ k. b ∷ k) used_2 in
    let (s_4, r_4, mem_4, used_4, pcs_4) =
      push_alone_to s_3 1 two (pcs_3 1 ∙ (pcs_2 1 ∙ (pc_1 ∙ e_1))) a
        (ap (has a) both ∙ has_second a b s_1.used) in
    (
      _,
      next (Reach-trans r_1 (Reach-trans r_2 (Reach-trans r_3 r_4))) (
          pop_win 0 a (s.mem.next a) (omega arith) (pcs_4 0 ∙ (pcs_3 0 ∙ (pcs_2 0 ∙ pc_0)))
            (ap (λ m. m.head) mem_4)),
      c.1.0,
      ap (λ k. has b (a ∷ k)) (used_4 ∙ ap (erase a) both) ∙ has_erased a b s_1.used ne,
    )
