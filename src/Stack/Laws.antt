-- ===== src/Stack/Laws.antt =====
-- `push` and `pop` (atomic_stack.hpp) against a plain list of nodes, and `create`, `destroy` on
-- every path.
use epoll_server.Base.{
  ℕ, ◌≡◌, refl, Option, none, some, false, List, [], ◌∷◌, arith, has, IsDistinct,
}
use epoll_server.Stack.{Stack, push, pop, pop-none, pop-some}
use epoll_server.Stack.Chain.{Chain, Chain-update}

-- The free nodes of a stack, from the top: the list that the stack stands for.
pub record Holds {T : Type 0} (s : Stack T) (is : List ℕ) : Type 0 where
  pub chain : Chain s.next s.head is
  pub distinct : IsDistinct is

abbrev pub top_of : List ℕ → Option ℕ
top_of [] = none
top_of (i ∷ is) = some i

abbrev pub rest_of : List ℕ → List ℕ
rest_of [] = []
rest_of (i ∷ is) = is

module _ {T : Type 0} where
  -- Pushing a node that is not free puts it on top of the list, and moves no value.
  pub push-Holds :
      (s : Stack T) (is : List ℕ) (i : ℕ)
      → Holds s is
      → has i is ≡ false
      → Holds (push i s) (i ∷ is) × ((push i s).value ≡ s.value)
  unfolding push
  push-Holds s is i h out = (
    record {
      chain = ground (arith, Chain-update s.next s.head is i s.head out h.chain);
      distinct = (out, h.distinct);
    },
    refl,
  )

  -- `pop` returns the top of the list, and leaves the rest; on the empty stack it returns a null
  -- pointer and changes nothing.
  pub pop-Holds :
      (s : Stack T) (is : List ℕ)
      → Holds s is
      → let (got, s') = pop s in (got ≡ top_of is) × Holds s' (rest_of is) × (s'.value ≡ s.value)
  pop-Holds s [] h = rw (pop-none s h.chain) (refl, h, refl)
  pop-Holds s (i ∷ is) h =
      rw (pop-some s i h.chain.0)
        (refl, record { chain = h.chain.1; distinct = h.distinct.1 }, refl)

  -- The last node pushed is the first popped, and the stack holds what it held.
  pub pop-push :
      (s : Stack T) (is : List ℕ) (i : ℕ)
      → Holds s is
      → has i is ≡ false
      → let (got, s') = pop (push i s) in (got ≡ some i) × Holds s' is
  pop-push s is i h out =
      let (got, left, same) = pop-Holds (push i s) (i ∷ is) (push-Holds s is i h out).0 in
      (got, left)
