-- ===== src/Stack/Tests.antt =====
-- Tests of the stack of atomic_stack.hpp, on a map with pages of four nodes.
use epoll_server.Base.{◌≤◌, ◌<◌, ◌≡◌, refl, true, none, some, [], ◌∷◌, arith, ◌==◌, if◌then◌else◌}
use epoll_server.Os.Samples.{working, fresh}
use epoll_server.Mem.{map_alloc, genmap}
use epoll_server.Stack.{Stack, create, empty, push, pop}
use epoll_server.Stack.Create.{IsFull, create-map_alloc}
use epoll_server.Stack.Laws.{Holds, pop-Holds, pop-push}

-- Nodes without a value.
abbrev nothing : Stack (Unit {0})
nothing = empty (λ i. tt)

made_of_five : (create (map_alloc working 8) tt nothing 5 fresh).0.0 ≡ true
unfolding create genmap
made_of_five = refl

eight : (create (map_alloc working 8) tt nothing 5 fresh).0.2 ≡ 8
unfolding create genmap
eight = refl

create-map_alloc_example :
    let (made, w') = create (map_alloc working 8) tt nothing 5 fresh in
    (5 ≤ made.2) × (made.2 < 9) × IsFull tt made.2 made.1
create-map_alloc_example =
    create-map_alloc working 8 tt nothing 5 fresh (omega arith) (omega arith) (omega arith)
      made_of_five

-- Nodes 1 and 0 are free, node 2 is not.
abbrev two_free : Stack (Unit {0})
two_free = record nothing {
  head = some 1;
  next = λ i. if i == 1 then some 0 else none;
  capacity = 3;
}

two_free-Holds : Holds two_free (1 ∷ 0 ∷ [])
two_free-Holds = record { chain = (refl, (refl, refl)); distinct = (refl, (refl, tt)) }

pop-Holds_test :
    let (got, s') = pop two_free in (got ≡ some 1) × Holds s' (0 ∷ []) × (s'.value ≡ two_free.value)
pop-Holds_test = pop-Holds two_free (1 ∷ 0 ∷ []) two_free-Holds

pop-push_example : let (got, s') = pop (push 2 two_free) in (got ≡ some 2) × Holds s' (1 ∷ 0 ∷ [])
pop-push_example = pop-push two_free (1 ∷ 0 ∷ []) 2 two_free-Holds refl
