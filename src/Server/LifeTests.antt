-- ===== src/Server/LifeTests.antt =====
-- A test of the life of the server of pool.hpp, from its constructor to `stop`.
use epoll_server.Base.{ℕ, ◌≡◌, ◌≢◌, refl, false, none, List, [], ◌∷◌, arith}
use epoll_server.Base.Int.{pos, ◌==ℤ◌}
use epoll_server.Os.{World, M}
use epoll_server.Os.Samples.{fresh}
use epoll_server.Mem.{genmap}
use epoll_server.Stack.{create}
use epoll_server.Epoll
use epoll_server.Pool.State.{no_client, add_client}
use epoll_server.Pool.Samples.{one_used, quiet}
use epoll_server.Pool.Lifecycle
use epoll_server.Pool.Lifecycle.{Built, built, runtime_error, bad_alloc}
use epoll_server.Pool.Serving.Samples.{one_by_one, obliging, accept-nonzero}
use epoll_server.Pool.Invariant.{Inv}
use epoll_server.Pool.Serving
use epoll_server.Pool.Serving.{take_batch}
use epoll_server.Server.{ServerPool, construct, process, run, stop}
use epoll_server.Server.Life.{
  Running, clients, put_clients, Reach, here, next, listened, worked, elsewhere,
}
use epoll_server.Server.Stopping.{signalled, IsEmptied, listening, stop-IsEmptied_of_Reach}
use epoll_server.Server.Thread.{run-Reach}

abbrev made : Built ServerPool × World (Unit {0})
made = construct one_by_one 2 5 (λ i. no_client) 0 0 fresh

abbrev other_server : ServerPool
other_server = record { client_pool = one_used.st; epoll = one_used.st.epoll; thread_count = 0 }

abbrev server_or : Built ServerPool → ServerPool
server_or (built s) = s
server_or runtime_error = other_server
server_or bad_alloc = other_server

abbrev server : ServerPool
server = server_or made.0

server-built : made.0 ≡ built server
unfolding construct Lifecycle.construct Epoll.construct create genmap
server-built = refl

abbrev begin : Running
begin = listening (record { st = server; trace = made.1.trace })

server_apart : (server.epoll.epfd ==ℤ server.client_pool.epoll.epfd) ≡ false
unfolding construct Lifecycle.construct Epoll.construct create genmap
server_apart = refl

not_counted : server.thread_count ≡ 0
unfolding construct Lifecycle.construct Epoll.construct create genmap
not_counted = refl

-- A connection is accepted, and a worker takes the event of its client.
abbrev accepted : Running
accepted = record begin { world = (process one_by_one 2 (pos 6) 1 begin.world).1 }

abbrev taken : Running
taken = put_clients accepted (take_batch one_by_one 9 (clients accepted))

taken-Reach : Reach one_by_one quiet begin taken
taken-Reach =
    next (next here (listened 2 (pos 6) 1 (accept-nonzero (pos 6)))) (worked (Serving.waited 9))

-- The server's thread leaves.
abbrev leaves : M ServerPool (Unit {0})
leaves w = (tt, record w { st = record w.st { thread_count = 0 } })

abbrev ended : Running
ended = record taken { world = (leaves (signalled one_by_one taken).world).1 }

ended-Reach : Reach one_by_one quiet (signalled one_by_one taken) ended
ended-Reach = next here (elsewhere (signalled one_by_one taken).world.trace 0 refl)

still_listening : taken.world.st.thread_count ≡ 1
unfolding process construct Epoll.construct Lifecycle.construct create genmap add_client
    Lifecycle.run Epoll.add_client
still_listening = refl

-- The event that the worker has taken is of the client at the top node.
taken_pending : taken.pending ≡ (7, 1) ∷ []
unfolding process construct Epoll.construct Lifecycle.construct create genmap add_client
    Lifecycle.run Epoll.add_client
taken_pending = refl

stop-IsEmptied_of_Reach_example :
    let w' = (stop one_by_one leaves quiet 1 ended.pending 0 taken.world).1 in
    IsEmptied w'.st.client_pool ended.world.st.client_pool.client_cap
stop-IsEmptied_of_Reach_example =
    stop-IsEmptied_of_Reach one_by_one quiet 2 5 (λ i. no_client) 0 0 fresh server taken ended
      leaves 1 0 (omega arith) (omega arith) (omega arith) (omega arith)
      (obliging server.client_pool.epoll.epfd) server-built taken-Reach (rw still_listening refl)
      ended-Reach refl

run-Reach_example :
    let (outcome, left) = run one_by_one 2 3 (record { st = server; trace = made.1.trace }) in
    (outcome ≢ none)
    × Reach one_by_one quiet begin (record { world = left; pending = [] })
    × ((free : List ℕ) × Inv left.st.client_pool free)
run-Reach_example =
    run-Reach one_by_one quiet 2 5 (λ i. no_client) 0 0 fresh server 2 3 (omega arith) (omega arith)
      (omega arith) (obliging server.client_pool.epoll.epfd) accept-nonzero server_apart not_counted
      server-built
