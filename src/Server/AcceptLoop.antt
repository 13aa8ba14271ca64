-- ===== src/Server/AcceptLoop.antt =====
-- The accept loop of `server_pool::process` (pool.hpp).
use epoll_server.Base.{
  ℕ, zero, suc, ◌<◌, ◌≡◌, refl, inl, inr, true, false, List, ◌∷◌, arith, ◌==◌, Bool-cases,
}
use epoll_server.Base.Int.{ℤ, failed, is_zero}
use epoll_server.Os.{Os, Call, Trace, World}
use epoll_server.Endpoint.{endpoint_accept, endpoint_close}
use epoll_server.Epoll.Flags.{epollerr}
use epoll_server.Pool.Invariant.{Inv}
use epoll_server.Server.{ServerPool, take_connection, accept_all, process}
use epoll_server.Server.Accepting.{take_connection-Inv}

-- The history once the next connection was accepted.
abbrev pub accepted : Os → ℤ → World ServerPool → World ServerPool
accepted os sfd w = record w {
  trace = (Call.accept sfd, os.reply w.trace (Call.accept sfd)) ∷ w.trace;
}

-- What the kernel owes the loop: no connection has the descriptor 0, which stands for a free node,
-- and `measure` bounds the connections that wait, each of which takes one round.
pub record Waiting (os : Os) (sfd : ℤ) (measure : Trace → ℕ) : Type 0 where
  pub nonzero : (t : Trace) → is_zero (os.reply t (Call.accept sfd)).ret ≡ false
  pub falls :
      (w : World ServerPool)
      → let cfd = (os.reply w.trace (Call.accept sfd)).ret in
        failed cfd ≡ false
        → measure (take_connection os cfd (accepted os sfd w)).1.trace < measure w.trace

module _ (os : Os) (sfd : ℤ) (measure : Trace → ℕ) (waiting : Waiting os sfd measure) where
  accept_all-Inv :
      (fuel : ℕ) (free : List ℕ) (w : World ServerPool)
      → measure w.trace < fuel
      → Inv w.st.client_pool free
      → let (ended, w') = accept_all os fuel sfd w in
        (ended ≡ true) × ((left : List ℕ) × Inv w'.st.client_pool left)
  unfolding accept_all endpoint_accept
  accept_all-Inv zero free w lt inv = absurd (omega arith)
  accept_all-Inv (suc fuel) free w lt inv = elim (Bool-cases (failed cfd)) [
    | inl e ↦ rw e (refl, (free, inv))
    | inr e ↦
        let ((left, inv'), closed) =
          take_connection-Inv os cfd (waiting.nonzero w.trace) free (accepted os sfd w) inv in
        rw e (
          accept_all-Inv fuel left (take_connection os cfd (accepted os sfd w)).1
            (omega (arith, waiting.falls w e)) inv')
  ]
    where
      cfd : ℤ
      cfd = (os.reply w.trace (Call.accept sfd)).ret

  -- Of every event mask of a listening socket: where no connection has the descriptor 0, finitely
  -- many wait, and the fuel is more than these, the handling ends, and the client pool keeps its
  -- invariant.
  pub server_process-Inv :
      (fuel flags : ℕ) (free : List ℕ) (w : World ServerPool)
      → measure w.trace < fuel
      → Inv w.st.client_pool free
      → let (ended, w') = process os fuel sfd flags w in
        (ended ≡ true) × ((left : List ℕ) × Inv w'.st.client_pool left)
  unfolding process endpoint_close
  server_process-Inv fuel flags free w lt inv = elim (Bool-cases (flags == epollerr)) [
    | inl e ↦ rw e (refl, (free, inv))
    | inr e ↦ rw e (accept_all-Inv fuel free w lt inv)
  ]
