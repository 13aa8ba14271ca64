-- ===== src/Stack/Threads/Family.antt =====
-- The node that a thread of atomic_stack.hpp carries, and what `erase` does to counts.
use epoll_server.Base.{ℕ, ◌+◌, ◌≡◌, true, List, [], ◌∷◌, arith, has, same, count}
use epoll_server.Stack.Threads.{Pc, push_load, push_link, push_cas, erase}

pub count-erase :
    (a i : ℕ) (xs : List ℕ) → has i xs ≡ true → count a (erase i xs) + same i a ≡ count a xs
count-erase a i [] h = absurd (cc)
count-erase a i (x ∷ xs) h = ground (arith, count-erase a i xs)

-- The node that a thread is about to push.
abbrev pub carries : ℕ → Pc → ℕ
carries a (push_load i) = same i a
carries a (push_link i _) = same i a
carries a (push_cas i) = same i a
carries a _ = 0
