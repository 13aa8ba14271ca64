-- ===== src/Pool/RunTests.antt =====
-- Tests of the pool of pool.hpp from its constructor to `stop`.
use epoll_server.Base.{ℕ, ◌<◌, ◌≡◌, refl, true, false, List, [], ◌∷◌, arith, has, total, numbers}
use epoll_server.Base.Int.{ℤ, pos, negsuc, failed}
use epoll_server.Os.{Os, Trace}
use epoll_server.Os.Samples.{answer, working, blocked, fresh}
use epoll_server.Mem.{genmap}
use epoll_server.Stack.{create}
use epoll_server.Epoll
use epoll_server.Pool.State.{no_client, ClientPool, get_active_count, add_client}
use epoll_server.Pool.Process.{process}
use epoll_server.Pool.Dispatch.{mask}
use epoll_server.Pool.Lifecycle.{Built, built, runtime_error, bad_alloc, construct, stop}
use epoll_server.Pool.Invariant.{Inv}
use epoll_server.Pool.Stopping.{IsIdle, stop-IsIdle}
use epoll_server.Pool.Starting.{IsNew, construct-IsNew}
use epoll_server.Pool.Ending.{Drains, process-Settled}
use epoll_server.Pool.Settled.{Settled}
use epoll_server.Pool.Bag.{bag}
use epoll_server.Pool.Contents.{BagStep, arrived, Step-BagStep}
use epoll_server.Pool.History.{here, next, added, handled, holds_sfd, Reach-active}
use epoll_server.Pool.Samples.{one_used, one_used-Inv, quiet, readable}

-- The worker finds nothing to read from client 1, and then leaves.
stop-IsIdle_test :
    let p = (stop blocked quiet 1 ((1, mask readable) ∷ []) 0 one_used).1.st in
    IsIdle p × ((free' : List ℕ) × Inv p free' × ((i : ℕ) → i < 2 → has i free' ≡ true))
stop-IsIdle_test =
    stop-IsIdle blocked quiet 1 0 ((1, mask readable) ∷ []) (0 ∷ []) one_used refl one_used-Inv
      (omega arith, refl, tt, tt)

abbrev new_pool : Built ClientPool
new_pool = (construct working 1 5 (λ i. no_client) 0 fresh).0

abbrev built_or : ClientPool → Built ClientPool → ClientPool
built_or q (built p) = p
built_or q runtime_error = q
built_or q bad_alloc = q

new_pool-built : new_pool ≡ built (built_or one_used.st new_pool)
unfolding construct Epoll.construct create genmap
new_pool-built = refl

construct-IsNew_example : IsNew 4 5 (built_or one_used.st new_pool)
construct-IsNew_example =
    construct-IsNew working 1 5 (λ i. no_client) 0 (omega arith) (omega arith) (omega arith) fresh
      (built_or one_used.st new_pool) new_pool-built

-- The first call reads a byte, the later ones find nothing.
abbrev reads : Trace → ℤ
reads [] = pos 1
reads (_ ∷ _) = negsuc 0

abbrev one_chunk : Os
one_chunk = record { reply = λ t c. answer (reads t) 11 []; pagesize = 4 }

abbrev chunks : Trace → ℕ
chunks [] = 1
chunks (_ ∷ _) = 0

one_chunk-falls : (t : Trace) → failed (reads t) ≡ false → 0 < chunks t
one_chunk-falls [] h = omega arith
one_chunk-falls (_ ∷ _) h = absurd (cc)

one_chunk-Drains : Drains one_chunk quiet (pos 7) chunks
one_chunk-Drains = record {
  reads = λ t more _. one_chunk-falls t more;
  asks_mark = λ t. omega arith;
  reads_oob = λ t. omega arith;
}

process-Settled_example :
    let (ended, w') = process one_chunk quiet 2 1 (mask readable) one_used in
    (ended ≡ true) × Settled 1 one_used.st w'
process-Settled_example =
    process-Settled one_chunk quiet 1 one_used.st chunks one_chunk-Drains 2 readable []
      (omega arith) refl (refl, refl)

-- A connection is added, then client 1 is served.
Reach-active_example :
    let w = (add_client blocked (pos 8) one_used).1 in
    let w' = (process blocked quiet 1 1 (mask readable) w).1 in
    (get_active_count w'.st ≡ total (holds_sfd w'.st) w'.st.client_cap numbers)
    × ((left : List ℕ) × Inv w'.st left)
unfolding add_client Epoll.add_client
Reach-active_example =
    Reach-active {os = blocked} {h = quiet} {w = one_used} (0 ∷ []) one_used-Inv
      (next (next here (added (pos 8) refl)) (handled 1 1 (mask readable) (omega arith) refl))

Step-BagStep_example :
    let w' = (add_client blocked (pos 8) one_used).1 in
    BagStep 2 (arrived (pos 8)) (bag one_used.st) (bag w'.st)
Step-BagStep_example =
    Step-BagStep blocked quiet one_used (add_client blocked (pos 8) one_used).1 (0 ∷ [])
      one_used-Inv (added (pos 8) refl)
