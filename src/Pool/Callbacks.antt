-- ===== src/Pool/Callbacks.antt =====
-- Which callbacks of the derived class pool.hpp calls.
use epoll_server.Base.{ℕ, zero, suc, ◌≡◌, ◌≢◌, refl, ap, false, Bool, List}
use epoll_server.Base.Int.{ℤ}
use epoll_server.Os.{Os, Trace, M}
use epoll_server.Pool.State.{ClientPool}
use epoll_server.Pool.Handlers.{
  Callbacks, give_up, take_input, handle_epollin, take_oob, handle_epollpri,
}
use epoll_server.Pool.Process.{
  Action, close_client, read_input, read_urgent, write_ready, read_then_write, urgent_then_write,
  ignore, dispatch, perform, process,
}
use epoll_server.Pool.Dispatch.{Events, mask, dispatch_no_output}

module _ (os : Os) (h : Callbacks) (oob : (sfd : ℤ) → (oobdata : List ℕ) → Trace → Trace)
    (ready : (sfd : ℤ) → Trace → Trace) where
  -- Another derived class with the same `on_input`.
  abbrev pub other : Callbacks
  other = record h { on_oob = oob; on_write_ready = ready }

  take_input-other :
      (cl : ℕ) (again : M ClientPool Bool) → take_input os other cl again ≡ take_input os h cl again
  unfolding take_input
  take_input-other cl again = refl

  epollin-other : (fuel cl : ℕ) → handle_epollin os other fuel cl ≡ handle_epollin os h fuel cl
  unfolding handle_epollin
  epollin-other zero cl = refl
  epollin-other (suc fuel) cl = ap (take_input os h cl) (epollin-other fuel cl)

  epollpri-other : (fuel cl : ℕ) → handle_epollpri os other fuel cl ≡ handle_epollpri os h fuel cl
  unfolding handle_epollpri take_oob take_input give_up
  epollpri-other zero cl = refl
  epollpri-other (suc fuel) cl = rw (epollpri-other fuel cl)

  perform-other :
      (a : Action) (fuel cl : ℕ)
      → a ≢ write_ready
      → a ≢ read_then_write
      → a ≢ urgent_then_write
      → perform os other a fuel cl ≡ perform os h a fuel cl
  unfolding perform
  perform-other close_client fuel cl w r u = refl
  perform-other read_input fuel cl w r u = epollin-other fuel cl
  perform-other read_urgent fuel cl w r u = epollpri-other fuel cl
  perform-other write_ready fuel cl w r u = absurd (w refl)
  perform-other read_then_write fuel cl w r u = absurd (r refl)
  perform-other urgent_then_write fuel cl w r u = absurd (u refl)
  perform-other ignore fuel cl w r u = refl

  -- For every mask without the output event, which clients are not registered for, `process` calls
  -- no callback of the derived class but `on_input`: another `on_oob` and another
  -- `on_write_ready` make no difference.
  pub process_callbacks :
      (fuel cl : ℕ) (e : Events)
      → e.output ≡ false
      → process os other fuel cl (mask e) ≡ process os h fuel cl (mask e)
  unfolding process
  process_callbacks fuel cl e no_output =
      let (a, b, c) = dispatch_no_output e no_output in
      perform-other (dispatch (mask e)) fuel cl a b c
