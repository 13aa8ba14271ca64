-- ===== src/Stack/Chain.antt =====
-- The nodes that a stack's links lead through (atomic_stack.hpp).
use mathlib.Core.Path.{ap₂}
use epoll_server.Base.{
  ℕ, ◌≡◌, refl, sym, Option, none, some, false, List, [], ◌∷◌, arith, update, has,
}

-- From `h` the links lead through the nodes of the list, in order, to the null pointer.
abbrev pub Chain : (ℕ → Option ℕ) → Option ℕ → List ℕ → Type 0
Chain next h [] = h ≡ none
Chain next h (i ∷ is) = (h ≡ some i) × Chain next (next i) is

-- A write to a node outside the chain leaves the chain.
pub Chain-update :
    (next : ℕ → Option ℕ) (h : Option ℕ) (is : List ℕ) (i : ℕ) (v : Option ℕ)
    → has i is ≡ false
    → Chain next h is
    → Chain (update next i v) h is
Chain-update next h [] i v out c = c
Chain-update next h (j ∷ is) i v out c = ground (arith, Chain-update next (next j) is i v)

-- The links determine the nodes.
pub Chain-unique :
    (next : ℕ → Option ℕ) (h : Option ℕ) (xs ys : List ℕ)
    → Chain next h xs
    → Chain next h ys
    → xs ≡ ys
Chain-unique next h [] [] c d = refl
Chain-unique next h [] (y ∷ ys) c d = ground arith
Chain-unique next h (x ∷ xs) [] c d = ground arith
Chain-unique next h (x ∷ xs) (y ∷ ys) c d =
    let e : y ≡ x = cc in ap₂ ◌∷◌ (sym e) (Chain-unique next (next x) xs ys c.1 (rw e at d.1))
