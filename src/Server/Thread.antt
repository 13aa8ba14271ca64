-- ===== src/Server/Thread.antt =====
-- What the server's thread of pool.hpp runs, `wait` of epoll.hpp with the `cast` and `process` of
-- `server_pool`, goes by the steps of Server/Life.
use epoll_server.Base.{
  ℕ, suc, ◌+◌, ◌-◌, ◌^◌, ◌≡◌, refl, sym, ap, subst, ◌≢◌, ◌<◌, none, [], false, inl, inr, List, ◌∷◌,
  ltb, Bool-cases,
}
use epoll_server.Base.Int.{ℤ, failed, is_zero, ◌==ℤ◌}
use epoll_server.Os.{Os, Call, Reply, Trace, World}
use epoll_server.Mem.{size_t}
use epoll_server.Endpoint.{endpoint_read, endpoint_write}
use epoll_server.Epoll.{Epoll, selfpipe_events, leave, handle_event, wait}
use epoll_server.Epoll.Flags.{ctl_mod}
use epoll_server.Epoll.Looping.{Rules, wait-Obeys}
use epoll_server.Pool.Handlers.{Callbacks}
use epoll_server.Pool.Serving.Invariant.{Sound}
use epoll_server.Pool.Serving.Safety.{Environment}
use epoll_server.Pool.State.{Client}
use epoll_server.Pool.Invariant.{Inv}
use epoll_server.Pool.Lifecycle.{built}
use epoll_server.Pool.Serving.Starting.{run-unchanged}
use epoll_server.Server.{ServerPool, construct, cast, process, decrement, socket_handler, run}
use epoll_server.Server.Stopping.{listening, listening-Sound}
use epoll_server.Server.Life.{Running, clients, epfd_of, Reach, here, next, listened, elsewhere}
use epoll_server.Server.Safety.{Reach-Sound}

-- No connection has the descriptor 0, which stands for a free node.
abbrev pub AcceptsNonzero : Os → Type 0
AcceptsNonzero os = (sfd : ℤ) (t : Trace) → is_zero (os.reply t (Call.accept sfd)).ret ≡ false

module _ (os : Os) (h : Callbacks) (s : Running) (e : Epoll)
    (apart : (e.epfd ==ℤ epfd_of s) ≡ false) where
  -- The state is reached, and the client pool's instance is the same.
  abbrev Reached : World ServerPool → Type 0
  Reached w =
      Reach os h s (record { world = w; pending = s.pending })
      × (w.st.client_pool.epoll.epfd ≡ epfd_of s)

  apart_of :
      (w : World ServerPool)
      → w.st.client_pool.epoll.epfd ≡ epfd_of s
      → (e.epfd ==ℤ w.st.client_pool.epoll.epfd) ≡ false
  apart_of w same = rw same apart

  leave-Reached : (w : World ServerPool) → Reached w → Reached (leave os e decrement w).1
  unfolding leave endpoint_read endpoint_write decrement
  leave-Reached w (r, same) = elim (Bool-cases (failed again.ret)) [
    | inl f ↦ rw f (next r (elsewhere _ w.st.thread_count (rw (apart_of w same) refl)), same)
    | inr f ↦ elim (Bool-cases (ltb 0 n)) [
      | inl more ↦ rw (f, more) (next r (elsewhere _ n (rw (apart_of w same) refl)), same)
      | inr last ↦ rw (f, last) (next r (elsewhere _ n (rw (apart_of w same) refl)), same)
    ]
  ]
    where
      n : ℕ
      n = size_t (w.st.thread_count + 2 ^ 64 - 1)

      c : Call
      c = Call.recv e.selfpipe_1 1 false

      again : Reply
      again =
          os.reply ((c, os.reply w.trace c) ∷ w.trace)
            (Call.epoll_ctl e.epfd ctl_mod e.selfpipe_1 selfpipe_events 0)

  module _ (accept_fuel : ℕ) (env : Environment os h (epfd_of s)) (sound : Sound (clients s))
      (nonzero : AcceptsNonzero os) where
    handled-Reached :
        (sfd : ℤ) (flags : ℕ) (w : World ServerPool)
        → Reached w
        → Reached (process os accept_fuel sfd flags w).1
    handled-Reached sfd flags w (r, same) =
        let r' = next r (listened accept_fuel sfd flags (nonzero sfd)) in
        (r', ap (λ (e : Epoll). e.epfd) (Reach-Sound env sound r').1.0)

    thread-Rules :
        Rules os e decrement (handle_event (socket_handler os accept_fuel)) (λ evs. Reached) Reached
    thread-Rules = record {
      takes =
          λ w (r, same). (next r (elsewhere _ w.st.thread_count (rw (apart_of w same) refl)), same);
      handles = λ n events evs. handled-Reached (cast (suc n)) events;
      leaves = λ events evs. leave-Reached;
      drops = λ evs w r. r;
    }

    wait-Reached :
        (fuel : ℕ) (w : World ServerPool)
        → Reached w
        → Reached (wait os e decrement (handle_event (socket_handler os accept_fuel)) fuel w).1
    wait-Reached =
        wait-Obeys os e decrement (handle_event (socket_handler os accept_fuel)) (λ evs. Reached)
          Reached thread-Rules

-- A server that is built, with a page size and a capacity that are positive and whose sum is below
-- 2^64, whose two epoll instances have different descriptors and whose thread count is 0; a kernel
-- that reports only armed registrations, a one-shot one at most once, and gives no connection the
-- descriptor 0; callbacks that make no registration. Then `run` starts, and whatever it is told and
-- whatever its fuel, it leaves a state that the steps of the server's life reach from its beginning,
-- and in which the client pool has its invariant.
pub run-Reach :
    (os : Os) (h : Callbacks) (worker_count cap : ℕ) (values : ℕ → Client)
    (client_threads thread_count : ℕ) {S : Type 0} (w : World S) (sp : ServerPool)
    (accept_fuel fuel : ℕ)
    → 0 < os.pagesize
    → 0 < cap
    → cap + os.pagesize < 2 ^ 64
    → Environment os h sp.client_pool.epoll.epfd
    → AcceptsNonzero os
    → (sp.epoll.epfd ==ℤ sp.client_pool.epoll.epfd) ≡ false
    → sp.thread_count ≡ 0
    → let (b, w') = construct os worker_count cap values client_threads thread_count w in
      let begin : World ServerPool = record { st = sp; trace = w'.trace } in
      let (outcome, left) = run os accept_fuel fuel begin in
      b ≡ built sp
      → (outcome ≢ none)
        × Reach os h (listening begin) (record { world = left; pending = [] })
        × ((free : List ℕ) × Inv left.st.client_pool free)
unfolding run
run-Reach os h worker_count capacity values client_threads thread_count w sp accept_fuel fuel page
      pos fits env nonzero apart idle made =
    let t = (construct os worker_count capacity values client_threads thread_count w).1.trace in
    let s = listening (record { st = sp; trace = t }) in
    let same = (run-unchanged sp.client_pool).0 in
    let env' = subst (λ (e : Epoll). Environment os h e.epfd) (sym same) env in
    let sound =
      listening-Sound os worker_count capacity values client_threads thread_count w sp page pos fits
        made in
    let r =
      wait-Reached os h s sp.epoll (rw same apart) accept_fuel env' sound nonzero fuel s.world
        (here, refl) in
    let (free, after) = (Reach-Sound env' sound r.0).0 in
    rw idle ((λ h. cc), r.0, (free, after.inv))
