-- ===== src/Pool/Settled.antt =====
-- The one-shot protocol of pool.hpp: clients are registered EPOLLONESHOT, so a handler has to end
-- by releasing its client or by arming it again.
use epoll_server.Base.{
  ℕ, zero, suc, ◌≡◌, ◌≢◌, refl, sym, ap, ◌∙◌, ◌⊎◌, inl, inr, Bool, true, false, not, ◌&&◌, ◌||◌,
  ◌∷◌, arith, ◌==◌, Bool-cases,
}
use epoll_server.Base.Int.{failed, is_zero}
use epoll_server.Os.{Os, Call, Reply, Trace, World, M}
use epoll_server.Epoll.{client_events, remove, rearm}
use epoll_server.Epoll.Flags.{ctl_del, ctl_mod}
use epoll_server.Endpoint.{endpoint_read, endpoint_read_oob, endpoint_close}
use epoll_server.Pool.State.{ClientPool, max_read_size, sfd_of, put_back, unuse}
use epoll_server.Pool.Handlers.{
  Callbacks, eagain, give_up, take_input, handle_epollin, take_oob, handle_epollpri,
}
use epoll_server.Pool.Process.{
  Action, close_client, read_input, read_urgent, write_ready, read_then_write, urgent_then_write,
  ignore, dispatch, perform, process,
}
use epoll_server.Pool.Dispatch.{
  Events, mask, meaning, dispatch-mask, dispatch_no_output, dispatch_full_hangup,
}

-- How a handler leaves its client. Released: the node is back on the stack and the counter is down,
-- and the last two calls took the descriptor out of the epoll instance and closed it. Armed: the
-- pool is as it was, and the last call armed the client again.
pub data Settled (cl : ℕ) (p : ClientPool) (w' : World ClientPool) : Type 0 where
  released :
      (removed closed : Reply) (t : Trace)
      → w'.st ≡ put_back cl p
      → w'.trace
        ≡ (Call.close (sfd_of p cl), closed)
          ∷ (Call.epoll_ctl p.epoll.epfd ctl_del (sfd_of p cl) 0 0, removed)
          ∷ t
      → Settled cl p w'
  armed :
      (r : Reply) (t : Trace)
      → w'.st ≡ p
      → w'.trace ≡ (Call.epoll_ctl p.epoll.epfd ctl_mod (sfd_of p cl) client_events (suc cl), r) ∷ t
      → Settled cl p w'

module _ (os : Os) (cl : ℕ) where
  unuse-Settled : (w : World ClientPool) → Settled cl w.st (unuse os cl w).1
  unfolding unuse remove endpoint_close
  unuse-Settled w = released _ _ _ refl refl

  module _ (h : Callbacks) where
    give_up-Settled : (r : Reply) (w : World ClientPool) → Settled cl w.st (give_up os h cl r w).1
    unfolding give_up rearm
    give_up-Settled r w = elim (Bool-cases (not (r.errno == eagain))) [
      | inl e ↦ rw e (unuse-Settled w)
      | inr e ↦ rw e (armed _ _ refl refl)
    ]

    -- A step that settles the client wherever it ends, from the pool as it is.
    abbrev Settles : ClientPool → M ClientPool Bool → Type 0
    Settles p m =
        (t : Trace)
        → (m (record { st = p; trace = t })).0 ≡ true
        → Settled cl p (m (record { st = p; trace = t })).1

    take_input-Settles :
        (again : M ClientPool Bool) (p : ClientPool)
        → Settles p again
        → Settles p (take_input os h cl again)
    unfolding take_input endpoint_read
    take_input-Settles again p next t ended = elim (Bool-cases (failed r.ret)) [
      | inl e ↦ rw e (give_up-Settled r w)
      | inr e ↦ elim (Bool-cases (is_zero r.ret)) [
        | inl z ↦ rw (e, z) (unuse-Settled w)
        | inr z ↦
            rw (e, z) (next (h.on_input (sfd_of p cl) r.bytes r.ret w.trace) (rw (e, z) at ended))
      ]
    ]
      where
        r : Reply
        r = os.reply t (Call.recv (sfd_of p cl) max_read_size false)

        w : World ClientPool
        w = record { st = p; trace = (Call.recv (sfd_of p cl) max_read_size false, r) ∷ t }

    -- Where `handle_epollin` ends, it has released its client or armed it again.
    pub handle_epollin-Settles :
        (fuel : ℕ) (p : ClientPool) → Settles p (handle_epollin os h fuel cl)
    unfolding handle_epollin
    handle_epollin-Settles zero p t = λ ended. cc
    handle_epollin-Settles (suc fuel) p t =
        take_input-Settles (handle_epollin os h fuel cl) p (handle_epollin-Settles fuel p) t

    take_oob-cases :
        (mark : Reply) (p : ClientPool) (t : Trace)
        → let r = take_oob os h cl mark (record { st = p; trace = t }) in
          ((t' : Trace) × (r ≡ (true, record { st = p; trace = t' })))
          ⊎ ((r.0 ≡ false) × Settled cl p r.1)
    unfolding take_oob endpoint_read_oob
    take_oob-cases mark p t = elim (Bool-cases (mark.value == 0)) [
      | inl e ↦ rw e (inl (t, refl))
      | inr e ↦ elim (Bool-cases (failed r.ret)) [
        | inl f ↦ rw (e, f) (inr (refl, unuse-Settled w))
        | inr f ↦ rw (e, f) (inl (w.trace, refl))
      ]
    ]
      where
        r : Reply
        r = os.reply t (Call.recv (sfd_of p cl) 1 true)

        w : World ClientPool
        w = record { st = p; trace = (Call.recv (sfd_of p cl) 1 true, r) ∷ t }

    pub handle_epollpri-Settles :
        (fuel : ℕ) (p : ClientPool) → Settles p (handle_epollpri os h fuel cl)
    unfolding handle_epollpri
    handle_epollpri-Settles zero p t ended = absurd (cc)
    handle_epollpri-Settles (suc fuel) p t ended = elim (Bool-cases (failed mark.ret)) [
      | inl e ↦ rw e (unuse-Settled w)
      | inr e ↦ elim (take_oob-cases mark p w.trace) [
        | inl (t', same) ↦
            rw (e, same)
              (take_input-Settles (handle_epollpri os h fuel cl) p (handle_epollpri-Settles fuel p)
                t' (rw (e, same) at ended))
        | inr (over, settled) ↦ rw (e, over) settled
      ]
    ]
      where
        mark : Reply
        mark = os.reply t (Call.at_mark (sfd_of p cl))

        w : World ClientPool
        w = record { st = p; trace = (Call.at_mark (sfd_of p cl), mark) ∷ t }

    perform-Settles :
        (a : Action) (fuel : ℕ) (p : ClientPool)
        → a ≢ write_ready
        → a ≢ read_then_write
        → a ≢ urgent_then_write
        → a ≢ ignore
        → Settles p (perform os h a fuel cl)
    unfolding perform
    perform-Settles close_client fuel p w r u i = λ t ended. unuse-Settled _
    perform-Settles read_input fuel p w r u i = handle_epollin-Settles fuel p
    perform-Settles read_urgent fuel p w r u i = handle_epollpri-Settles fuel p
    perform-Settles write_ready fuel p w r u i = absurd (w refl)
    perform-Settles read_then_write fuel p w r u i = absurd (r refl)
    perform-Settles urgent_then_write fuel p w r u i = absurd (u refl)
    perform-Settles ignore fuel p w r u i = absurd (i refl)

-- Some event is reported, and it is not a hangup in both ways without an error.
abbrev pub IsHandled : Events → Type 0
IsHandled e =
    ((e.input || e.urgent || e.error || e.hup || e.rdhup) ≡ true)
    × ((e.error || not (e.hup && e.rdhup)) ≡ true)

meaning_handled : (e : Events) → e.output ≡ false → IsHandled e → meaning e ≢ ignore
meaning_handled e no_output handled h = ground arith

-- For every event mask that can be reported of a client that is registered without the output
-- event, but for a hangup in both ways: where the handling ends, the client has been released or
-- armed again, whatever the callbacks and the answers of the system.
pub process-Settles :
    (os : Os) (h : Callbacks) (fuel cl : ℕ) (e : Events) (w : World ClientPool)
    → e.output ≡ false
    → IsHandled e
    → let (ended, w') = process os h fuel cl (mask e) w in ended ≡ true → Settled cl w.st w'
unfolding process
process-Settles os h fuel cl e w no_output handled =
    let (a, b, c) = dispatch_no_output e no_output in
    perform-Settles os cl h (dispatch (mask e)) fuel w.st a b c
      (λ i. meaning_handled e no_output handled (sym (dispatch-mask e) ∙ i)) w.trace

-- Of a hangup in both ways with no error `process` does nothing: the client keeps its node and its
-- place in the counter, and stays disarmed.
pub process_full_hangup :
    (os : Os) (h : Callbacks) (fuel cl : ℕ) (e : Events) (w : World ClientPool)
    → e.error ≡ false
    → e.hup ≡ true
    → e.rdhup ≡ true
    → process os h fuel cl (mask e) w ≡ (true, w)
unfolding process perform
process_full_hangup os h fuel cl e w no_error hup rdhup =
    ap (λ a. perform os h a fuel cl w) (dispatch_full_hangup e no_error hup rdhup)
