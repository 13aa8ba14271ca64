-- ===== src/Pool/Serving/Life.antt =====
-- The life of a pool of pool.hpp: its constructor, its workers, and `stop` at any time.
use epoll_server.Base.{ℕ, ◌+◌, ◌^◌, ◌<◌, ◌≡◌, sym, true, List, arith, has, subst}
use epoll_server.Os.{Os, World}
use epoll_server.Epoll.{Epoll}
use epoll_server.Pool.State.{Client, ClientPool}
use epoll_server.Pool.Handlers.{Callbacks}
use epoll_server.Pool.Invariant.{Inv}
use epoll_server.Pool.Lifecycle.{built, construct, stop}
use epoll_server.Pool.Starting.{construct-IsNew}
use epoll_server.Pool.Stopping.{IsIdle, stop-IsIdle}
use epoll_server.Pool.Serving.{Serving, Reach}
use epoll_server.Pool.Serving.Safety.{Environment, Reach-Sound}
use epoll_server.Pool.Serving.Starting.{
  serving, serving-IsSound, run-unchanged, run_threads, construct-NoRegistrations,
}

-- The life of a pool. With a page size and a capacity that are positive and whose sum is below 2^64,
-- at least one worker, a kernel that reports only armed registrations, a one-shot one at most once,
-- and callbacks that make no registration: where the constructor does not throw and the threads were started, then
-- whatever the order in which connections are added, batches of events are taken and events are
-- handled or dropped, `stop` works at any time. If the workers handle what they have taken before
-- they leave, afterwards no thread is left, the number of active clients is 0, no node holds a
-- descriptor, and every node is on the free stack.
pub stop-IsIdle_of_Reach :
    (os : Os) (h : Callbacks) (worker_count hint : ℕ) (values : ℕ → Client) (thread_count : ℕ)
    {S : Type 0} (w : World S) (p : ClientPool) (s : Serving) (fuel last_count : ℕ)
    → 0 < os.pagesize
    → 0 < hint
    → hint + os.pagesize < 2 ^ 64
    → 0 < worker_count
    → Environment os h p.epoll.epfd
    → let (b, w') = construct os worker_count hint values thread_count w in
      b ≡ built p
      → Reach os h (serving (record { st = p; trace = w'.trace })) s
      → let q = (stop os h fuel s.pending last_count s.world).1.st in
        IsIdle q
        × ((free : List ℕ) × Inv q free × ((i : ℕ) → i < s.world.st.client_cap → has i free ≡ true))
stop-IsIdle_of_Reach os h worker_count hint values thread_count w p s fuel last_count page pos fits
      workers env made r =
    let new = construct-IsNew os worker_count hint values thread_count page pos fits w p made in
    let (none_yet, no_threads, count) =
      construct-NoRegistrations os worker_count hint values thread_count w p made in
    let w' = (construct os worker_count hint values thread_count w).1 in
    let begin : World ClientPool = record { st = p; trace = w'.trace } in
    let ((free, sound), (same, threads)) =
      Reach-Sound (subst (λ (e : Epoll). Environment os h e.epfd) (sym (run-unchanged p).0) env)
        (_, serving-IsSound begin _ new.inv none_yet) r in
    stop-IsIdle os h fuel last_count s.pending free s.world
      (rw threads (run_threads p no_threads (omega (arith, count)))) sound.inv sound.pending
