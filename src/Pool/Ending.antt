-- ===== src/Pool/Ending.antt =====
-- The read loops of pool.hpp end: enough fuel for `handle_epollin` and `handle_epollpri`.
use epoll_server.Base.{
  ℕ, zero, suc, ◌≤◌, ◌<◌, ◌≡◌, refl, inl, inr, Bool, true, false, ◌∷◌, arith, ◌==◌, if◌then◌else◌,
  Bool-cases,
}
use epoll_server.Base.Int.{ℤ, failed, is_zero}
use epoll_server.Os.{Os, Call, Reply, Trace, M}
use epoll_server.Endpoint.{endpoint_read, endpoint_read_oob}
use epoll_server.Pool.State.{ClientPool, max_read_size, sfd_of}
use epoll_server.Pool.Handlers.{Callbacks, take_input, handle_epollin, take_oob, handle_epollpri}
use epoll_server.Pool.Process.{
  Action, close_client, read_input, read_urgent, write_ready, read_then_write, urgent_then_write,
  ignore, dispatch, perform, process,
}
use epoll_server.Pool.Dispatch.{Events, mask}
use epoll_server.Pool.Settled.{Settled, IsHandled, process-Settles}

-- What the kernel and the callback `on_input` owe the loops: `measure` bounds the reads of the
-- descriptor that will still bring data. A read that brings data lowers it, also when the callback
-- has run, and the two calls about urgent data do not raise it.
pub record Drains (os : Os) (h : Callbacks) (sfd : ℤ) (measure : Trace → ℕ) : Type 0 where
  pub reads :
      (t : Trace)
      → let c = Call.recv sfd max_read_size false in
        let r = os.reply t c in
        failed r.ret ≡ false
        → is_zero r.ret ≡ false
        → measure (h.on_input sfd r.bytes r.ret ((c, r) ∷ t)) < measure t
  pub asks_mark :
      (t : Trace) → let c = Call.at_mark sfd in measure ((c, os.reply t c) ∷ t) ≤ measure t
  pub reads_oob :
      (t : Trace) → let c = Call.recv sfd 1 true in measure ((c, os.reply t c) ∷ t) ≤ measure t

module _ (os : Os) (h : Callbacks) (cl : ℕ) (p : ClientPool) (measure : Trace → ℕ)
    (drains : Drains os h (sfd_of p cl) measure) where
  -- A step that ends where the measure is below the bound.
  abbrev Ends : ℕ → M ClientPool Bool → Type 0
  Ends bound m = (t : Trace) → measure t < bound → (m (record { st = p; trace = t })).0 ≡ true

  take_input-Ends :
      (fuel : ℕ) (again : M ClientPool Bool)
      → Ends fuel again
      → Ends (suc fuel) (take_input os h cl again)
  unfolding take_input endpoint_read
  take_input-Ends fuel again next t lt = elim (Bool-cases (failed r.ret)) [
    | inl e ↦ rw e refl
    | inr e ↦ elim (Bool-cases (is_zero r.ret)) [
      | inl z ↦ rw (e, z) refl
      | inr z ↦ rw (e, z) (next _ (omega (arith, drains.reads t e z)))
    ]
  ]
    where
      r : Reply
      r = os.reply t (Call.recv (sfd_of p cl) max_read_size false)

  handle_epollin-Ends : (fuel : ℕ) → Ends fuel (handle_epollin os h fuel cl)
  unfolding handle_epollin
  handle_epollin-Ends zero t lt = absurd (omega arith)
  handle_epollin-Ends (suc fuel) t lt =
      take_input-Ends fuel (handle_epollin os h fuel cl) (handle_epollin-Ends fuel) t lt

  take_oob-Ends :
      (bound : ℕ) (mark : Reply) (k : M ClientPool Bool)
      → Ends bound k
      → Ends bound
          (λ w. let (going, w') = take_oob os h cl mark w in if going then k w' else (true, w'))
  unfolding take_oob endpoint_read_oob
  take_oob-Ends bound mark k next t lt = elim (Bool-cases (mark.value == 0)) [
    | inl e ↦ rw e (next t lt)
    | inr e ↦ elim (Bool-cases (failed r.ret)) [
      | inl f ↦ rw (e, f) refl
      | inr f ↦ rw (e, f) (next _ (omega (arith, drains.reads_oob t)))
    ]
  ]
    where
      r : Reply
      r = os.reply t (Call.recv (sfd_of p cl) 1 true)

  handle_epollpri-Ends : (fuel : ℕ) → Ends fuel (handle_epollpri os h fuel cl)
  unfolding handle_epollpri
  handle_epollpri-Ends zero t lt = absurd (omega arith)
  handle_epollpri-Ends (suc fuel) t lt = elim (Bool-cases (failed mark.ret)) [
    | inl e ↦ rw e refl
    | inr e ↦ rw e (
        take_oob-Ends (suc fuel) mark (take_input os h cl (handle_epollpri os h fuel cl))
          (take_input-Ends fuel (handle_epollpri os h fuel cl) (handle_epollpri-Ends fuel)) _
          (omega (arith, drains.asks_mark t)))
  ]
    where
      mark : Reply
      mark = os.reply t (Call.at_mark (sfd_of p cl))

  perform-Ends : (a : Action) (fuel : ℕ) → Ends fuel (perform os h a fuel cl)
  unfolding perform
  perform-Ends close_client fuel t lt = refl
  perform-Ends read_input fuel t lt = handle_epollin-Ends fuel t lt
  perform-Ends read_urgent fuel t lt = handle_epollpri-Ends fuel t lt
  perform-Ends write_ready fuel t lt = refl
  perform-Ends read_then_write fuel t lt = rw (handle_epollin-Ends fuel t lt) refl
  perform-Ends urgent_then_write fuel t lt = rw (handle_epollpri-Ends fuel t lt) refl
  perform-Ends ignore fuel t lt = refl

  -- Where the reads of a client run dry, the handling of any event of the client ends, with more
  -- fuel than reads that are left.
  pub process_ends :
      (fuel flags : ℕ) (t : Trace)
      → measure t < fuel
      → (process os h fuel cl flags (record { st = p; trace = t })).0 ≡ true
  unfolding process
  process_ends fuel flags t lt = perform-Ends (dispatch flags) fuel t lt

-- Of every event that can be reported of a client registered without the output event, but for a
-- hangup in both ways: where the reads of the client run dry and the fuel is more than the reads
-- that are left, the handling ends, and it has released the client or armed it again.
pub process-Settled :
    (os : Os) (h : Callbacks) (cl : ℕ) (p : ClientPool) (measure : Trace → ℕ)
    → Drains os h (sfd_of p cl) measure
    → (fuel : ℕ) (e : Events) (t : Trace) → measure t < fuel
    → e.output ≡ false
    → IsHandled e
    → let (ended, w') = process os h fuel cl (mask e) (record { st = p; trace = t }) in
      (ended ≡ true) × Settled cl p w'
process-Settled os h cl p measure drains fuel e t lt no_output handled =
    let ended = process_ends os h cl p measure drains fuel (mask e) t lt in
    (ended, process-Settles os h fuel cl e (record { st = p; trace = t }) no_output handled ended)
