-- ===== src/Server/Stopping.antt =====
-- `stop` of the `server_pool` of pool.hpp, from its constructor on.
use epoll_server.Base.{
  ℕ, ◌+◌, ◌%◌, ◌^◌, ◌<◌, ◌≡◌, refl, sym, ap, true, false, Option, none, some, List, [], arith, has,
  ◌==◌, subst,
}
use epoll_server.Os.{Os, World, M}
use epoll_server.Endpoint.{endpoint_write}
use epoll_server.Epoll.{Epoll, default_max_events}
use epoll_server.Epoll
use epoll_server.Pool.State.{Client, ClientPool}
use epoll_server.Pool.Handlers.{Callbacks}
use epoll_server.Pool.Invariant.{Inv}
use epoll_server.Pool.Lifecycle
use epoll_server.Pool.Lifecycle.{Built, built, runtime_error, bad_alloc}
use epoll_server.Pool.Starting.{construct-IsNew}
use epoll_server.Pool.Stopping.{IsIdle, stop-IsIdle}
use epoll_server.Pool.Serving.Invariant.{Sound}
use epoll_server.Pool.Serving.Safety.{Environment}
use epoll_server.Pool.Serving.Starting.{
  serving-IsSound, run-unchanged, run_threads, construct-NoRegistrations,
}
use epoll_server.Server.{ServerPool, construct, construct_in, with_clients, stop}
use epoll_server.Server.Life.{Running, clients, epfd_of, Reach}
use epoll_server.Server.Safety.{elsewhere-Sound, Reach-Sound}

-- The state once `stop` has written to the self-pipe.
abbrev pub signalled : Os → Running → Running
signalled os s = record s { world = (Epoll.close os s.world.st.epoll s.world).1 }

-- No client is left, and every node is free.
abbrev pub IsEmptied : ClientPool → (cap : ℕ) → Type 0
IsEmptied p cap =
    IsIdle p × ((free : List ℕ) × Inv p free × ((i : ℕ) → i < cap → has i free ≡ true))

-- Where the server's thread runs, with workers: `stop` ends them and gives every client up. What
-- happens between the signal and the end of the server's thread is any sequence of steps.
pub server_stop-IsEmptied :
    (os : Os) (h : Callbacks) (s s' : Running) (finish : M ServerPool (Unit {0}))
    (fuel last_count : ℕ)
    → Environment os h (epfd_of s)
    → Sound (clients s)
    → (s.world.st.client_pool.threads == 0) ≡ false
    → (s.world.st.thread_count % 2 ^ 32 == 1) ≡ true
    → Reach os h (signalled os s) s'
    → (finish (signalled os s).world).1 ≡ s'.world
    → let w' = (stop os finish h fuel s'.pending last_count s.world).1 in
      IsEmptied w'.st.client_pool s'.world.st.client_pool.client_cap
unfolding stop Epoll.close endpoint_write
server_stop-IsEmptied os h s s' finish fuel last_count env sound threads listening r finished =
    let still : Sound (clients (signalled os s)) =
      elsewhere-Sound (clients s) (signalled os s).world.trace refl sound in
    let ((free, sound'), (same, kept)) = Reach-Sound env still r in
    let idle =
      stop-IsIdle os h fuel last_count s'.pending free (clients s').world (rw kept threads)
        sound'.inv sound'.pending in
    rw (listening, finished) idle

client_pool_of : ClientPool → Built ServerPool → ClientPool
client_pool_of q (built s) = s.client_pool
client_pool_of q runtime_error = q
client_pool_of q bad_alloc = q

module _ {S : Type 0} (os : Os) where
  -- A server that was built has a client pool that was built, as the last step.
  with_clients-built :
      (thread_count : ℕ) (e : Epoll) (b : Built ClientPool) (w : World S) (s : ServerPool)
      → (with_clients os thread_count e b w).0 ≡ built s
      → (b ≡ built s.client_pool) × ((with_clients os thread_count e b w).1 ≡ w)
  unfolding with_clients client_pool_of
  with_clients-built thread_count e (built p) w s h = (ap built (ap (client_pool_of p) h), refl)
  with_clients-built thread_count e runtime_error w s h = absurd (cc)
  with_clients-built thread_count e bad_alloc w s h = absurd (cc)

  module _ (worker_count cap : ℕ) (values : ℕ → Client) (client_threads thread_count : ℕ) where
    construct_in-built :
        (e : Option Epoll) (w : World S) (s : ServerPool)
        → let (b, w') = construct_in os worker_count cap values client_threads thread_count e w in
          b ≡ built s
          → (u : World S) × ((Lifecycle.construct os worker_count cap values client_threads u).0
              ≡ built s.client_pool)
            × ((Lifecycle.construct os worker_count cap values client_threads u).1 ≡ w')
    unfolding construct_in
    construct_in-built none w s h = absurd (cc)
    construct_in-built (some e) w s h =
        let (b, w') = Lifecycle.construct os worker_count cap values client_threads w in
        let (same, last) = with_clients-built thread_count e b w' s h in (w, same, sym last)

    construct-built :
        (w : World S) (s : ServerPool)
        → let (b, w') = construct os worker_count cap values client_threads thread_count w in
          b ≡ built s
          → (u : World S) × ((Lifecycle.construct os worker_count cap values client_threads u).0
              ≡ built s.client_pool)
            × ((Lifecycle.construct os worker_count cap values client_threads u).1 ≡ w')
    unfolding construct
    construct-built w s h =
        let (e, w') = Epoll.construct os default_max_events w in construct_in-built e w' s h

-- The server once `run` has started the workers and counted its own thread.
abbrev pub listening : World ServerPool → Running
listening w = record {
  world = record w {
    st = record w.st { client_pool = Lifecycle.run w.st.client_pool; thread_count = 1 };
  };
  pending = [];
}

-- It is sound, once it was built.
pub listening-Sound :
    (os : Os) (worker_count cap : ℕ) (values : ℕ → Client) (client_threads thread_count : ℕ)
    {S : Type 0} (w : World S) (sp : ServerPool)
    → 0 < os.pagesize
    → 0 < cap
    → cap + os.pagesize < 2 ^ 64
    → let (b, w') = construct os worker_count cap values client_threads thread_count w in
      b ≡ built sp → Sound (clients (listening (record { st = sp; trace = w'.trace })))
listening-Sound os worker_count capacity values client_threads thread_count {S} w sp page pos fits
      made =
    let (u, made', last) =
      construct-built os worker_count capacity values client_threads thread_count w sp made in
    let p = sp.client_pool in
    let new =
      construct-IsNew os worker_count capacity values client_threads page pos fits u p made' in
    let (none_yet, no_threads, count) =
      construct-NoRegistrations os worker_count capacity values client_threads u p made' in
    let begin : World ClientPool = record {
      st = p;
      trace = (Lifecycle.construct os worker_count capacity values client_threads u).1.trace;
    } in
    subst (λ (v : World S). Sound (clients (listening (record { st = sp; trace = v.trace })))) last
      (_, serving-IsSound begin _ new.inv none_yet)

-- The life of a server. With a page size and a capacity that are positive and whose sum is below
-- 2^64, at least one worker, a kernel that reports only armed registrations, a one-shot one at most
-- once, and callbacks that make no registration: where the constructor does not throw and `run` has begun,
-- then whatever the order in which the server's thread accepts connections (with a descriptor other
-- than 0) and the workers take, handle or drop events, `stop` works at any time while the server's
-- thread runs. Whatever is still accepted and handled before the threads end, if the workers handle
-- what they have taken: afterwards no worker is left, the number of active clients is 0, no node
-- holds a descriptor, and every node is on the free stack.
pub stop-IsEmptied_of_Reach :
    (os : Os) (h : Callbacks) (worker_count cap : ℕ) (values : ℕ → Client)
    (client_threads thread_count : ℕ) {S : Type 0} (w : World S) (sp : ServerPool) (s s' : Running)
    (finish : M ServerPool (Unit {0})) (fuel last_count : ℕ)
    → 0 < os.pagesize
    → 0 < cap
    → cap + os.pagesize < 2 ^ 64
    → 0 < worker_count
    → Environment os h sp.client_pool.epoll.epfd
    → let (b, w') = construct os worker_count cap values client_threads thread_count w in
      b ≡ built sp
      → Reach os h (listening (record { st = sp; trace = w'.trace })) s
      → (s.world.st.thread_count % 2 ^ 32 == 1) ≡ true
      → Reach os h (signalled os s) s'
      → (finish (signalled os s).world).1 ≡ s'.world
      → let left = (stop os finish h fuel s'.pending last_count s.world).1 in
        IsEmptied left.st.client_pool s'.world.st.client_pool.client_cap
stop-IsEmptied_of_Reach os h worker_count capacity values client_threads thread_count {S} w sp s s'
      finish fuel last_count page pos fits workers env made r counted r' finished =
    let p = sp.client_pool in
    let (u, made', last) =
      construct-built os worker_count capacity values client_threads thread_count w sp made in
    let (none_yet, no_threads, count) =
      construct-NoRegistrations os worker_count capacity values client_threads u p made' in
    let begins =
      listening-Sound os worker_count capacity values client_threads thread_count w sp page pos fits
        made in
    let env' = subst (λ (e : Epoll). Environment os h e.epfd) (sym (run-unchanged p).0) env in
    let (sound, (same, kept)) = Reach-Sound env' begins r in
    server_stop-IsEmptied os h s s' finish fuel last_count
      (subst (λ (e : Epoll). Environment os h e.epfd) (sym same) env') sound
      (rw kept (run_threads p no_threads (omega (arith, count)))) counted r' finished
