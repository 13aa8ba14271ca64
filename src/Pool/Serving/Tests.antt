-- ===== src/Pool/Serving/Tests.antt =====
-- Tests of the workers of pool.hpp, over a kernel that reports one armed client at a time.
use epoll_server.Base.{ℕ, ◌<◌, ◌≡◌, refl, true, List, [], ◌∷◌, arith, has}
use epoll_server.Base.Int.{pos}
use epoll_server.Os.{World}
use epoll_server.Os.Samples.{fresh}
use epoll_server.Mem.{genmap}
use epoll_server.Stack.{create}
use epoll_server.Epoll
use epoll_server.Epoll.Flags.{epollin}
use epoll_server.Pool.State.{no_client, ClientPool, add_client}
use epoll_server.Pool.Samples.{one_used, one_used-Inv, quiet}
use epoll_server.Pool.Invariant.{Inv}
use epoll_server.Pool.Lifecycle.{
  Built, built, runtime_error, bad_alloc, construct, run, stop, worker,
}
use epoll_server.Pool.Stopping.{IsIdle, IsPending}
use epoll_server.Pool.Serving.{Serving, Reach, here, next, added, waited, take_batch}
use epoll_server.Pool.Serving.Samples.{one_by_one, obliging}
use epoll_server.Pool.Serving.Invariant.{IsSound}
use epoll_server.Pool.Serving.Safety.{Reach-IsPending}
use epoll_server.Pool.Serving.Starting.{serving}
use epoll_server.Pool.Serving.Life.{stop-IsIdle_of_Reach}
use epoll_server.Pool.Serving.Workers.{worker-Reach}

abbrev built_pool : Built ClientPool × World (Unit {0})
built_pool = construct one_by_one 2 5 (λ i. no_client) 0 fresh

abbrev pool_or : Built ClientPool → ClientPool
pool_or (built p) = p
pool_or runtime_error = one_used.st
pool_or bad_alloc = one_used.st

abbrev pool : ClientPool
pool = pool_or built_pool.0

pool-built : built_pool.0 ≡ built pool
unfolding construct Epoll.construct create genmap
pool-built = refl

abbrev begin : Serving
begin = serving (record { st = pool; trace = built_pool.1.trace })

-- A connection arrives, and a worker takes the event of its client.
abbrev arrived : Serving
arrived = record begin { world = (add_client one_by_one (pos 7) begin.world).1 }

abbrev taken : Serving
taken = take_batch one_by_one 9 arrived

taken-Reach : Reach one_by_one quiet begin taken
taken-Reach = next (next here (added (pos 7) refl)) (waited 9)

-- It is the event of the top node, and of no other client.
taken_pending : taken.pending ≡ (7, epollin) ∷ []
unfolding construct Epoll.construct create genmap run add_client Epoll.add_client
taken_pending = refl

stop-IsIdle_of_Reach_example :
    let q = (stop one_by_one quiet 1 taken.pending 0 taken.world).1.st in
    IsIdle q
    × ((free : List ℕ) × Inv q free × ((i : ℕ) → i < taken.world.st.client_cap → has i free ≡ true))
stop-IsIdle_of_Reach_example =
    stop-IsIdle_of_Reach one_by_one quiet 2 5 (λ i. no_client) 0 fresh pool taken 1 0 (omega arith)
      (omega arith) (omega arith) (omega arith) (obliging pool.epoll.epfd) pool-built taken-Reach

-- A pool with one client, which nobody is told of yet.
abbrev one_client : Serving
one_client = record { world = one_used; pending = [] }

one_client-IsSound : IsSound one_client (0 ∷ [])
one_client-IsSound = record { inv = one_used-Inv; registered = tt; pending = tt; disarmed = tt }

abbrev two_clients : Serving
two_clients = record one_client { world = (add_client one_by_one (pos 8) one_used).1 }

abbrev one_taken : Serving
one_taken = take_batch one_by_one 9 two_clients

Reach-IsPending_example :
    (still : List ℕ) × Inv one_taken.world.st still
    × IsPending one_taken.world.st.client_cap still one_taken.pending
Reach-IsPending_example =
    Reach-IsPending {os = one_by_one} {h = quiet} {s = one_client} {s' = one_taken} (0 ∷ [])
      (obliging (pos 3)) one_client-IsSound (next (next here (added (pos 8) refl)) (waited 9))

worker-Reach_example :
    (ps : List (ℕ × ℕ)) × Reach one_by_one quiet one_client
      (record { world = (worker one_by_one quiet 2 3 two_clients.world).1; pending = ps })
worker-Reach_example =
    worker-Reach one_by_one quiet 2 3 one_client two_clients.world (next here (added (pos 8) refl))
