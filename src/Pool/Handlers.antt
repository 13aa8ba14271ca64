-- ===== src/Pool/Handlers.antt =====
-- pool.hpp: the handlers of a client's events. The loops of `handle_epollin` and `handle_epollpri`
-- run for at most `fuel` rounds; false means that the fuel ran out.
use epoll_server.Base.{ℕ, zero, suc, Bool, true, false, List, ◌==◌, not, if◌then◌else◌}
use epoll_server.Base.Int.{ℤ, failed, is_zero}
use epoll_server.Os.{Os, Call, Reply, Trace, M, pure, ◌>>=◌, ◌>>◌, get, when◌then◌else◌, sys}
use epoll_server.Endpoint.{endpoint_read, endpoint_read_oob}
use epoll_server.Epoll
use epoll_server.Pool.State.{ClientPool, max_read_size, sfd_of, unuse}

-- The callbacks of the derived class `Tderiv`. They can make system calls, and do not reach into
-- the pool.
pub record Callbacks : Type 0 where
  pub on_input : (sfd : ℤ) → (bytes : List ℕ) → (datalen : ℤ) → Trace → Trace
  pub on_oob : (sfd : ℤ) → (oobdata : List ℕ) → Trace → Trace
  pub on_write_ready : (sfd : ℤ) → Trace → Trace

-- A callback as a step.
abbrev pub call_back : {S : Type 0} → (Trace → Trace) → M S (Unit {0})
call_back f w = (tt, record w { trace = f w.trace })

abbrev pub eagain : ℕ
eagain = 11

-- `client_pool::on_oob`, which does nothing. `handle_epollpri` calls it, and not that of the
-- derived class.
abbrev pub base_on_oob : (sfd : ℤ) → (oobdata : List ℕ) → M ClientPool (Unit {0})
base_on_oob sfd oobdata = pure tt

module _ (os : Os) (h : Callbacks) where
  unfoldable pub handle_epollout : (cl : ℕ) → M ClientPool (Unit {0})
  handle_epollout cl = do p ← get; call_back (h.on_write_ready (sfd_of p cl))

  -- The end of a handler at the result -1 of a read.
  unfoldable pub give_up : (cl : ℕ) → Reply → M ClientPool (Unit {0})
  unfolding unuse
  give_up cl r =
      when not (r.errno == eagain)
      then unuse os cl
      else do p ← get; _ ← Epoll.rearm os p.epoll (sfd_of p cl) (suc cl); pure tt

  -- The `switch` over the result of a read; `again` is the next round of the loop.
  unfoldable pub take_input : (cl : ℕ) → (again : M ClientPool Bool) → M ClientPool Bool
  unfolding give_up endpoint_read
  take_input cl again = do
    p ← get
    r ← endpoint_read os (sfd_of p cl) max_read_size
    when failed r.ret
        then (do give_up cl r; pure true)
        else when is_zero r.ret
        then (do unuse os cl; pure true)
        else do call_back (h.on_input (sfd_of p cl) r.bytes r.ret); again

  unfoldable pub handle_epollin : (fuel : ℕ) → (cl : ℕ) → M ClientPool Bool
  unfolding take_input
  handle_epollin zero cl = pure false
  handle_epollin (suc fuel) cl = take_input cl (handle_epollin fuel cl)

  -- The out-of-band byte, if the read position is at its mark; false where the client was given up.
  unfoldable pub take_oob : (cl : ℕ) → Reply → M ClientPool Bool
  unfolding endpoint_read_oob unuse
  take_oob cl mark = when mark.value == 0 then pure true else do
    p ← get
    r ← endpoint_read_oob os (sfd_of p cl)
    when failed r.ret
        then (do unuse os cl; pure false)
        else do base_on_oob (sfd_of p cl) r.bytes; pure true

  unfoldable pub handle_epollpri : (fuel : ℕ) → (cl : ℕ) → M ClientPool Bool
  unfolding take_oob take_input
  handle_epollpri zero cl = pure false
  handle_epollpri (suc fuel) cl = do
    p ← get
    mark ← sys os (Call.at_mark (sfd_of p cl))
    when failed mark.ret then (do unuse os cl; pure true) else do
      going ← take_oob cl mark
      when going then take_input cl (handle_epollpri fuel cl) else pure true
