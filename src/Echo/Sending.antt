-- ===== src/Echo/Sending.antt =====
-- What the echo server (test/echo.cpp) sends: over the handling of any event by pool.hpp, the data
-- read from a client and the data sent to it are the same.
use epoll_server.Base.{
  ℕ, ◌≡◌, ap, inl, inr, true, false, not, ◌&&◌, ◌||◌, List, [], ◌∷◌, if◌then◌else◌, Bool-cases,
}
use epoll_server.Base.Int.{ℤ, failed, is_zero, ◌==ℤ◌, ==ℤ_refl}
use epoll_server.Os.{Os, Call, Reply, Trace, World}
use epoll_server.Endpoint.{endpoint_write, endpoint_close}
use epoll_server.Epoll.{remove}
use epoll_server.Pool.State.{ClientPool, max_read_size, sfd_of, unuse}
use epoll_server.Pool.Process.{process}
use epoll_server.Pool.Handling.{Rules, process-Obeys}
use epoll_server.Echo.{echo}

-- The data handed to `send` for a descriptor, newest first.
abbrev pub sent : ℤ → Trace → List (List ℕ)
sent sfd [] = []
sent sfd ((Call.send fd bytes, r) ∷ t) = if fd ==ℤ sfd then bytes ∷ sent sfd t else sent sfd t
sent sfd (_ ∷ t) = sent sfd t

-- The data that reads of a descriptor have brought, newest first.
abbrev pub received : ℤ → Trace → List (List ℕ)
received sfd [] = []
received sfd ((Call.recv fd len false, r) ∷ t) =
    if (fd ==ℤ sfd) && not (failed r.ret) && not (is_zero r.ret)
    then r.bytes ∷ received sfd t
    else received sfd t
received sfd (_ ∷ t) = received sfd t

module _ (os : Os) (cl : ℕ) (p : ClientPool) where
  abbrev sfd : ℤ
  sfd = sfd_of p cl

  -- Everything read was sent back, in the same order.
  abbrev pub IsEchoed : Trace → Type 0
  IsEchoed t = sent sfd t ≡ received sfd t

  -- What the handling of an event keeps.
  abbrev Echoes : Trace → World ClientPool → Type 0
  Echoes t w' = IsEchoed t → IsEchoed w'.trace

  reads_none-Echoes :
      (r : Reply) (t : Trace) (w' : World ClientPool)
      → (failed r.ret || is_zero r.ret) ≡ true
      → Echoes ((Call.recv sfd max_read_size false, r) ∷ t) w'
      → Echoes t w'
  reads_none-Echoes r t w' nothing next h = elim (Bool-cases (failed r.ret)) [
    | inl e ↦ next (rw (==ℤ_refl sfd, e) h)
    | inr e ↦ let z : is_zero r.ret ≡ true = rw e at nothing in next (rw (==ℤ_refl sfd, e, z) h)
  ]

  takes_input-Echoes :
      (r : Reply) (t : Trace) (w' : World ClientPool)
      → failed r.ret ≡ false
      → is_zero r.ret ≡ false
      → Echoes
          ((echo os).on_input sfd r.bytes r.ret ((Call.recv sfd max_read_size false, r) ∷ t))
          w'
      → Echoes t w'
  unfolding endpoint_write
  takes_input-Echoes r t w' e z next h = next (rw (==ℤ_refl sfd, e, z) (ap (λ x. r.bytes ∷ x) h))

  Echoes-Rules : Rules os (echo os) cl p Echoes
  unfolding unuse remove endpoint_close
  Echoes-Rules = record {
    stays = λ t h. h;
    releases = λ t h. h;
    rearms = λ t h. h;
    reads_none = reads_none-Echoes;
    takes_input = takes_input-Echoes;
    reads_oob = λ r t w' next h. next h;
    asks_mark = λ r t w' next h. next h;
    writes = λ t w' next h. next h;
  }

-- The echo server hands to `send` just what it reads: if what was sent to a client is what was
-- read from it, in the same order, then this is so after the handling of any event of the client,
-- whatever the kernel answers and whatever the fuel. (Whether `send` takes all of it is not
-- looked at, here as in the code.)
pub process-IsEchoed :
    (os : Os) (fuel cl flags : ℕ) (w : World ClientPool)
    → let sfd = sfd_of w.st cl in
      sent sfd w.trace ≡ received sfd w.trace
      → let w' = (process os (echo os) fuel cl flags w).1 in
        sent sfd w'.trace ≡ received sfd w'.trace
process-IsEchoed os fuel cl flags w h =
    process-Obeys os (echo os) cl w.st (Echoes os cl w.st) (Echoes-Rules os cl w.st) fuel flags
      w.trace h
