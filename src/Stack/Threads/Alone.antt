-- ===== src/Stack/Threads/Alone.antt =====
-- Operations of atomic_stack.hpp that no other thread interrupts: the interleaved steps reach the
-- state that `push` and `pop` of Stack.antt compute.
use mathlib.Core.Path.{subst}
use epoll_server.Base.{
  ℕ, ◌<◌, ◌≡◌, refl, sym, ap, ◌∙◌, Bool, Option, true, none, some, inl, inr, Option-cases, List,
  ◌∷◌, arith, update, has,
}
use epoll_server.Stack.{Stack, push, pop, pop-none, pop-some}
use epoll_server.Stack.Threads.{
  Memory, Pc, idle, push_load, push_link, pop_load, pop_test, pop_cas, Move, load_top, link,
  push_win, load_head, read_next, System, erase, access, start_push, start_pop, pop_empty, pop_win,
  Reach, here, next,
}

abbrev pub words : {T : Type 0} → Stack T → Memory
words s = record { head = s.head; next = s.next }

pub load_as : {m : Memory} {o : Option ℕ} → m.head ≡ o → Move m pop_load m (pop_test o)
load_as {m} h = subst (λ o. Move m pop_load m (pop_test o)) h load_head

-- Every thread stands where it stood.
abbrev pub SamePc : System → System → Type 0
SamePc s s' = (u : ℕ) → s'.pc u ≡ s.pc u

pub self : (t : ℕ) (pc : ℕ → Pc) (p : Pc) → update pc t p t ≡ p
self t pc p = ground arith

pub at_self :
    (t : ℕ) {m m' : Memory} {p p' : Pc} (pc : ℕ → Pc)
    → Move m p m' p'
    → Move m (update pc t p t) m' p'
at_self t {m} {m'} {p} {p'} pc mv = subst (λ q. Move m q m' p') (sym (self t pc p)) mv

module _ {n : ℕ} {may_pop : ℕ → Bool} (s : System) (t : ℕ) (lt : t < n) (e : s.pc t ≡ idle) where
  pub pop_some_alone :
      (i : ℕ)
      → may_pop t ≡ true
      → s.mem.head ≡ some i
      → (s' : System) × Reach n may_pop s s'
        × (s'.mem ≡ record { head = s.mem.next i; next = s.mem.next })
        × (s'.used ≡ i ∷ s.used)
        × SamePc s s'
  pop_some_alone i may h = (
    _,
    next
        (next (next (next here (start_pop t lt may e)) (access t lt (at_self t s.pc (load_as h))))
          (access t lt (at_self t loading read_next)))
        (pop_win t i (s.mem.next i) lt (self t testing (pop_cas i (s.mem.next i))) h),
    refl,
    refl,
    λ u. ground arith,
  )
    where
      loading : ℕ → Pc
      loading = update s.pc t pop_load

      testing : ℕ → Pc
      testing = update loading t (pop_test (some i))

  pop_none_alone :
      may_pop t ≡ true
      → s.mem.head ≡ none
      → (s' : System) × Reach n may_pop s s' × (s'.mem ≡ s.mem) × (s'.used ≡ s.used) × SamePc s s'
  pop_none_alone may h = (
    _,
    next (next (next here (start_pop t lt may e)) (access t lt (at_self t s.pc (load_as h))))
        (pop_empty t lt (self t loading (pop_test none))),
    refl,
    refl,
    λ u. ground arith,
  )
    where
      loading : ℕ → Pc
      loading = update s.pc t pop_load

  -- Of a push of a node in use.
  pub push_alone_to :
      (i : ℕ)
      → has i s.used ≡ true
      → (s' : System) × Reach n may_pop s s'
        × (s'.mem ≡ record { head = some i; next = update s.mem.next i s.mem.head })
        × (s'.used ≡ erase i s.used)
        × SamePc s s'
  push_alone_to i h = (
    _,
    next
        (next (next (next here (start_push t i lt e h)) (access t lt (at_self t s.pc load_top)))
          (access t lt (at_self t started link)))
        (access t lt (at_self t loaded (push_win (sym (linked i))))),
    refl,
    refl,
    λ u. ground arith,
  )
    where
      started : ℕ → Pc
      started = update s.pc t (push_load i)

      loaded : ℕ → Pc
      loaded = update started t (push_link i s.mem.head)

      linked : (i : ℕ) → update s.mem.next i s.mem.head i ≡ s.mem.head
      linked i = ground arith

abbrev handed : Option ℕ → List ℕ → List ℕ
handed none used = used
handed (some i) used = i ∷ used

module _ {T : Type 0} {n : ℕ} {may_pop : ℕ → Bool} (st : Stack T) (s : System) (t : ℕ) (lt : t < n)
    (e : s.pc t ≡ idle) (same : s.mem ≡ words st) where
  -- A push of a node in use that no other thread interrupts ends, in the state that the sequential
  -- `push` computes.
  pub push_alone :
      (i : ℕ)
      → has i s.used ≡ true
      → (s' : System) × Reach n may_pop s s'
        × (s'.mem ≡ words (push i st))
        × (s'.used ≡ erase i s.used)
        × SamePc s s'
  unfolding push
  push_alone i h =
      let (s', r, mem, used, pcs) = push_alone_to s t lt e i h in
      (
        s',
        r,
        mem ∙ ap (λ m. record { head = some i; next = update m.next i m.head }) same,
        used,
        pcs,
      )

  -- So does a pop by a thread that may pop, and it hands out the node that `pop` returns, if any.
  pub pop_alone :
      may_pop t ≡ true
      → (s' : System) × Reach n may_pop s s'
        × (s'.mem ≡ words (pop st).1)
        × (s'.used ≡ handed (pop st).0 s.used)
        × SamePc s s'
  pop_alone may = elim (Option-cases st.head) [
    | inl h ↦
        let (s', r, mem, used, pcs) = pop_none_alone s t lt e may (ap (λ m. m.head) same ∙ h) in
        rw (pop-none st h) (s', r, mem ∙ same, used, pcs)
    | inr (i, h) ↦
        let (s', r, mem, used, pcs) = pop_some_alone s t lt e i may (ap (λ m. m.head) same ∙ h) in
        rw (pop-some st i h)
          (s', r, mem ∙ ap (λ m. record { head = m.next i; next = m.next }) same, used, pcs)
  ]
