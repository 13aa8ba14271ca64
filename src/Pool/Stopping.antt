-- ===== src/Pool/Stopping.antt =====
-- What `stop` of pool.hpp leaves: no thread, and every client given up.
use epoll_server.Base.{
  ℕ, zero, suc, ◌+◌, ◌<◌, ◌≡◌, refl, ◌∙◌, ◌⊎◌, inl, inr, true, false, List, [], ◌∷◌, arith, has,
  ◌==◌, Bool-cases, length_of_all,
}
use epoll_server.Base.Int.{is_zero}
use epoll_server.Os.{Os, World}
use epoll_server.Epoll.{close, remove}
use epoll_server.Endpoint.{endpoint_write, endpoint_close}
use epoll_server.Pool.State.{ClientPool, get_active_count, sfd_of, put_back, unuse}
use epoll_server.Pool.Handlers.{Callbacks}
use epoll_server.Pool.Process.{process}
use epoll_server.Pool.Lifecycle.{reset_client, reset_clients, finish_events, stop}
use epoll_server.Pool.Invariant.{Inv, InUse, Inv-unchanged}
use epoll_server.Pool.Clients.{unuse-Inv}
use epoll_server.Pool.Kept.{process-Inv, process-client_cap}

-- No event of the client is in the list.
abbrev pub IsApart : ℕ → List (ℕ × ℕ) → Type 0
IsApart cl [] = Unit {0}
IsApart cl ((other, flags) ∷ rest) = ((cl == other) ≡ false) × IsApart cl rest

-- The clients of a list of events are in use, and no client has two events: each is registered
-- one-shot.
abbrev pub IsPending : (cap : ℕ) → (free : List ℕ) → List (ℕ × ℕ) → Type 0
IsPending cap free [] = Unit {0}
IsPending cap free ((cl, flags) ∷ rest) =
    (cl < cap) × (has cl free ≡ false) × IsApart cl rest × IsPending cap free rest

pub IsPending-cons :
    (cap : ℕ) (free : List ℕ) (cl : ℕ) (evs : List (ℕ × ℕ))
    → IsApart cl evs
    → IsPending cap free evs
    → IsPending cap (cl ∷ free) evs
IsPending-cons cap free cl [] apart pending = tt
IsPending-cons cap free cl ((other, flags) ∷ rest) apart pending = (
  pending.0,
  ground (arith, pending.1, apart.0),
  pending.2,
  IsPending-cons cap free cl rest apart.1 pending.3,
)

-- The pool keeps its invariant, with the same nodes.
abbrev Good : ℕ → ClientPool → Type 0
Good cap p = (free : List ℕ) × Inv p free × (p.client_cap ≡ cap)

module _ (os : Os) where
  -- The other events, once the first one was handled.
  finish_rest-Good :
      (h : Callbacks) (fuel cl flags : ℕ) (rest : List (ℕ × ℕ)) {free : List ℕ}
      (w : World ClientPool) (cap : ℕ)
      → let w' = (process os h fuel cl flags w).1 in
        w'.st.client_cap ≡ cap
        → IsPending cap free ((cl, flags) ∷ rest)
        → (Inv w'.st free × InUse w'.st free cl) ⊎ Inv w'.st (cl ∷ free)
        → ((left : List ℕ)
            → Inv w'.st left
            → IsPending w'.st.client_cap left rest
            → Good w'.st.client_cap (finish_events os h fuel rest w').1.st)
        → Good cap (finish_events os h fuel rest w').1.st
  finish_rest-Good h fuel cl flags rest {free} w cap same pending (inl (kept, still)) go =
      let (left, good, e) = go free kept (rw same pending.3) in (left, good, e ∙ same)
  finish_rest-Good h fuel cl flags rest {free} w cap same pending (inr released) go =
      let (left, good, e) =
        go (cl ∷ free) released (rw same (IsPending-cons cap free cl rest pending.2 pending.3)) in
      (left, good, e ∙ same)

  finish_events-Good :
      (h : Callbacks) (fuel : ℕ) (evs : List (ℕ × ℕ)) (free : List ℕ) (w : World ClientPool)
      → Inv w.st free
      → IsPending w.st.client_cap free evs
      → Good w.st.client_cap (finish_events os h fuel evs w).1.st
  unfolding finish_events
  finish_events-Good h fuel [] free w inv pending = (free, inv, refl)
  finish_events-Good h fuel ((cl, flags) ∷ rest) free w inv pending =
      finish_rest-Good h fuel cl flags rest w (w.st.client_cap)
        (process-client_cap os h cl fuel flags w) pending
        (process-Inv os h cl fuel flags free w inv
          (record { in_range = pending.0; not_free = pending.1 }))
        (λ free' inv' pending'. finish_events-Good h fuel rest free' _ inv' pending')

  -- All nodes below `i` are free.
  abbrev IsReset : ℕ → ℕ → ClientPool → ClientPool → Type 0
  IsReset i cap p p' =
      (free : List ℕ) × Inv p' free
      × ((j : ℕ) → j < i → has j free ≡ true)
      × (p'.client_cap ≡ cap)
      × (p'.threads ≡ p.threads)

  unuse-shape :
      (i : ℕ) (w : World ClientPool)
      → ((unuse os i w).1.st.client_cap ≡ w.st.client_cap)
        × ((unuse os i w).1.st.threads ≡ w.st.threads)
  unfolding unuse put_back remove endpoint_close
  unuse-shape i w = (refl, refl)

  reset_client-IsReset :
      (i : ℕ) (free : List ℕ) (w : World ClientPool)
      → Inv w.st free
      → i < w.st.client_cap
      → ((j : ℕ) → j < i → has j free ≡ true)
      → IsReset (suc i) w.st.client_cap w.st (reset_client os i w).1.st
  unfolding reset_client
  reset_client-IsReset i free w inv lt below = elim (Bool-cases (is_zero (sfd_of w.st i))) [
    | inl e ↦ rw e (free, inv, λ j h. ground (arith, below j, inv.no_sfd i lt), refl, refl)
    | inr e ↦
        let used : InUse w.st free i = record {
          in_range = lt;
          not_free = ground (arith, inv.no_sfd i lt);
        } in
        rw e (
          i ∷ free,
          (unuse-Inv os w i free inv used).0,
          λ j h. ground (arith, below j),
          (unuse-shape i w).0,
          (unuse-shape i w).1,
        )
  ]

  reset_clients-IsReset :
      (rounds i : ℕ) (free : List ℕ) (w : World ClientPool)
      → Inv w.st free
      → i + rounds ≡ w.st.client_cap
      → ((j : ℕ) → j < i → has j free ≡ true)
      → IsReset (i + rounds) w.st.client_cap w.st (reset_clients os rounds i w).1.st
  unfolding reset_clients
  reset_clients-IsReset zero i free w inv end below =
      (free, inv, λ j h. below j (omega arith), refl, refl)
  reset_clients-IsReset (suc rounds) i free w inv end below =
      let (free', inv', below', cap, threads) =
        reset_client-IsReset i free w inv (omega arith) below in
      let (left, good, all, cap', threads') =
        reset_clients-IsReset rounds (suc i) free' (reset_client os i w).1 inv'
          (omega (arith, cap, end)) below' in
      (left, good, λ j h. all j (omega (arith, h)), cap' ∙ cap, threads' ∙ threads)

-- A pool with no active client: the counter is 0, and no node holds a descriptor.
pub record IsIdle (p : ClientPool) : Type 0 where
  pub no_threads : p.threads ≡ 0
  pub no_clients : get_active_count p ≡ 0
  pub no_sfds : (i : ℕ) → i < p.client_cap → is_zero (sfd_of p i) ≡ true

all_free-IsIdle :
    (p : ClientPool) (free : List ℕ)
    → Inv p free
    → ((i : ℕ) → i < p.client_cap → has i free ≡ true)
    → p.threads ≡ 0
    → IsIdle p
unfolding get_active_count
all_free-IsIdle p free inv all threads = record {
  no_threads = threads;
  no_clients =
      omega
        (arith, inv.counted, length_of_all p.client_cap free inv.holds.distinct inv.in_buffer all);
  no_sfds = λ i lt. inv.no_sfd i lt ∙ all i lt;
}

-- Of a pool that runs and has the invariant, `stop` ends every thread and gives every client up:
-- whatever events of clients the workers still handle before they leave, if each client in use has
-- at most one, afterwards no thread is left, the number of active clients is 0, no node holds a
-- descriptor, and every node is on the free stack.
pub stop-IsIdle :
    (os : Os) (h : Callbacks) (fuel last_count : ℕ) (evs : List (ℕ × ℕ)) (free : List ℕ)
    (w : World ClientPool)
    → (w.st.threads == 0) ≡ false
    → Inv w.st free
    → IsPending w.st.client_cap free evs
    → let p = (stop os h fuel evs last_count w).1.st in
      IsIdle p
      × ((free' : List ℕ) × Inv p free' × ((i : ℕ) → i < w.st.client_cap → has i free' ≡ true))
unfolding stop close endpoint_write
stop-IsIdle os h fuel last_count evs free w running inv pending =
    let closed = (close os w.st.epoll w).1 in
    let (left, good, cap) = finish_events-Good os h fuel evs free closed inv pending in
    let finished = (finish_events os h fuel evs closed).1 in
    let ended : World ClientPool = record finished {
      st = record finished.st { threads = 0; thread_count = last_count };
    } in
    let still : Inv ended.st left = Inv-unchanged refl refl refl good in
    let (free', inv', all, cap', threads) =
      reset_clients-IsReset os finished.st.client_cap 0 left ended still (omega arith)
        (λ j h. absurd (omega arith)) in
    rw running (
      all_free-IsIdle _ free' inv' (λ i lt. all i (omega (arith, cap'))) threads,
      (free', inv', λ i lt. all i (omega (arith, cap))),
    )
