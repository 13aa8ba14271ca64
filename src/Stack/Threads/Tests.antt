-- ===== src/Stack/Threads/Tests.antt =====
-- Tests of the interleaved stack of atomic_stack.hpp: two threads, two nodes.
use epoll_server.Base.{
  ℕ, ◌≡◌, refl, Bool, true, Option, none, some, List, [], ◌∷◌, arith, has, update, ◌==◌,
  if◌then◌else◌,
}
use epoll_server.Stack.{Stack, push, pop}
use epoll_server.Stack.Threads.{System, Step, Reach, here, next, start_pop, pop_load}
use epoll_server.Stack.Threads.Invariant.{Inv}
use epoll_server.Stack.Threads.Refinement.{After, Step-After, started, started-Inv}
use epoll_server.Stack.Threads.Safety.{IsPartition, Reach-IsPartition}
use epoll_server.Stack.Threads.Alone.{SamePc, words, push_alone, pop_alone}
use epoll_server.Stack.Threads.Aba.{aba}

abbrev links : ℕ → Option ℕ
links i = if i == 1 then some 0 else none

abbrev both_free : System
both_free = started links (some 1)

-- Only thread 0 pops.
abbrev first_only : ℕ → Bool
first_only t = t == 0

first_popper : (t : ℕ) → first_only t ≡ true → t ≡ 0
first_popper t h = ground arith

both_free-Inv : Inv 2 2 0 both_free (1 ∷ 0 ∷ [])
both_free-Inv = started-Inv 2 2 0 links (some 1) (refl, (refl, refl))

-- Thread 0 has called `pop`.
abbrev popping : System
popping = record both_free { pc = update both_free.pc 0 pop_load }

calls_pop : Step 2 first_only both_free popping
calls_pop = start_pop 0 (omega arith) refl refl

Step-After_example : After 2 2 0 both_free popping (1 ∷ 0 ∷ [])
Step-After_example = Step-After first_popper both_free-Inv calls_pop

Reach-IsPartition_example : (free : List ℕ) × IsPartition 2 2 popping free
Reach-IsPartition_example =
    Reach-IsPartition 2 links (some 1) first_popper (refl, (refl, refl)) (next here calls_pop)

-- The same stack, sequentially, with node 2 in use.
abbrev two_free : Stack (Unit {0})
two_free = record { head = some 1; capacity = 3; buffer = none; next = links; value = λ i. tt }

abbrev one_used : System
one_used = record both_free { used = 2 ∷ [] }

push_alone_test :
    (s' : System) × Reach 2 first_only one_used s'
    × (s'.mem ≡ words (push 2 two_free))
    × (s'.used ≡ [])
    × SamePc one_used s'
push_alone_test = push_alone two_free one_used 1 (omega arith) refl refl 2 refl

pop_alone_test :
    (s' : System) × Reach 2 first_only one_used s'
    × (s'.mem ≡ words (pop two_free).1)
    × (s'.used ≡ 1 ∷ 2 ∷ [])
    × SamePc one_used s'
unfolding pop
pop_alone_test = pop_alone two_free one_used 0 (omega arith) refl refl refl

aba_example :
    (s' : System) × Reach 2 (λ t. true) both_free s'
    × (s'.mem.head ≡ some 0)
    × (has 0 s'.used ≡ true)
aba_example =
    aba both_free 1 0 [] (omega arith) refl refl refl refl (refl, (refl, refl))
      (λ e. omega (arith, e))
