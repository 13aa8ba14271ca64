-- ===== src/Pool/Handling.antt =====
-- A rule for the handlers of pool.hpp: what holds wherever the handling of an event may end.
use epoll_server.Base.{
  ℕ, zero, suc, ◌≡◌, refl, Bool, true, false, not, ◌||◌, inl, inr, ◌∷◌, ◌==◌, if◌then◌else◌,
  Bool-cases,
}
use epoll_server.Base.Int.{failed, is_zero}
use epoll_server.Os.{Os, Call, Reply, Trace, World, M}
use epoll_server.Epoll.{client_events, rearm}
use epoll_server.Epoll.Flags.{ctl_mod}
use epoll_server.Endpoint.{endpoint_read, endpoint_read_oob}
use epoll_server.Pool.State.{ClientPool, max_read_size, sfd_of, unuse}
use epoll_server.Pool.Handlers.{
  Callbacks, eagain, give_up, take_input, handle_epollin, take_oob, handle_epollpri,
  handle_epollout,
}
use epoll_server.Pool.Process.{
  Action, close_client, read_input, read_urgent, write_ready, read_then_write, urgent_then_write,
  ignore, dispatch, perform, process,
}

-- The call that arms a client again.
abbrev pub rearm_call : ClientPool → (cl : ℕ) → Call
rearm_call p cl = Call.epoll_ctl p.epoll.epfd ctl_mod (sfd_of p cl) client_events (suc cl)

module _ (os : Os) (h : Callbacks) (cl : ℕ) (p : ClientPool) where
  -- A relation of the history when the handling begins, with the pool `p`, and of what it leaves.
  -- One rule for each way in which the handlers go on or end.
  pub record Rules (R : Trace → World ClientPool → Type 0) : Type 0 where
    pub stays : (t : Trace) → R t (record { st = p; trace = t })
    pub releases : (t : Trace) → R t (unuse os cl (record { st = p; trace = t })).1
    pub rearms :
        (t : Trace)
        → R t (record { st = p; trace = (rearm_call p cl, os.reply t (rearm_call p cl)) ∷ t })
    pub reads_none :
        (r : Reply) (t : Trace) (w' : World ClientPool)
        → (failed r.ret || is_zero r.ret) ≡ true
        → R ((Call.recv (sfd_of p cl) max_read_size false, r) ∷ t) w'
        → R t w'
    pub takes_input :
        (r : Reply) (t : Trace) (w' : World ClientPool)
        → failed r.ret ≡ false
        → is_zero r.ret ≡ false
        → R
            (h.on_input
              (sfd_of p cl)
              r.bytes
              r.ret
              ((Call.recv (sfd_of p cl) max_read_size false, r) ∷ t))
            w'
        → R t w'
    pub reads_oob :
        (r : Reply) (t : Trace) (w' : World ClientPool)
        → R ((Call.recv (sfd_of p cl) 1 true, r) ∷ t) w'
        → R t w'
    pub asks_mark :
        (r : Reply) (t : Trace) (w' : World ClientPool)
        → R ((Call.at_mark (sfd_of p cl), r) ∷ t) w'
        → R t w'
    pub writes :
        (t : Trace) (w' : World ClientPool)
        → R t w'
        → R t (record w' { trace = h.on_write_ready (sfd_of w'.st cl) w'.trace })

  module _ (R : Trace → World ClientPool → Type 0) (rules : Rules R) where
    abbrev Obeys : {A : Type 0} → M ClientPool A → Type 0
    Obeys m = (t : Trace) → R t (m (record { st = p; trace = t })).1

    give_up-Obeys : (r : Reply) → Obeys (give_up os h cl r)
    unfolding give_up rearm
    give_up-Obeys r t = elim (Bool-cases (not (r.errno == eagain))) [
      | inl e ↦ rw e (rules.releases t)
      | inr e ↦ rw e (rules.rearms t)
    ]

    take_input-Obeys : (again : M ClientPool Bool) → Obeys again → Obeys (take_input os h cl again)
    unfolding take_input endpoint_read
    take_input-Obeys again next t = elim (Bool-cases (failed r.ret)) [
      | inl e ↦ rw e (rules.reads_none r t _ (rw e refl) (give_up-Obeys r _))
      | inr e ↦ elim (Bool-cases (is_zero r.ret)) [
        | inl z ↦ rw (e, z) (rules.reads_none r t _ (rw (e, z) refl) (rules.releases _))
        | inr z ↦ rw (e, z) (rules.takes_input r t _ e z (next _))
      ]
    ]
      where
        r : Reply
        r = os.reply t (Call.recv (sfd_of p cl) max_read_size false)

    handle_epollin-Obeys : (fuel : ℕ) → Obeys (handle_epollin os h fuel cl)
    unfolding handle_epollin
    handle_epollin-Obeys zero t = rules.stays t
    handle_epollin-Obeys (suc fuel) t =
        take_input-Obeys (handle_epollin os h fuel cl) (handle_epollin-Obeys fuel) t

    take_oob-Obeys :
        (mark : Reply) (k : M ClientPool Bool)
        → Obeys k
        → Obeys
            (λ w. let (going, w') = take_oob os h cl mark w in if going then k w' else (true, w'))
    unfolding take_oob endpoint_read_oob
    take_oob-Obeys mark k next t = elim (Bool-cases (mark.value == 0)) [
      | inl e ↦ rw e (next t)
      | inr e ↦ rules.reads_oob r t _ (elim (Bool-cases (failed r.ret)) [
        | inl f ↦ rw (e, f) (rules.releases _)
        | inr f ↦ rw (e, f) (next _)
      ])
    ]
      where
        r : Reply
        r = os.reply t (Call.recv (sfd_of p cl) 1 true)

    handle_epollpri-Obeys : (fuel : ℕ) → Obeys (handle_epollpri os h fuel cl)
    unfolding handle_epollpri
    handle_epollpri-Obeys zero t = rules.stays t
    handle_epollpri-Obeys (suc fuel) t =
        rules.asks_mark mark t _ (elim (Bool-cases (failed mark.ret)) [
          | inl e ↦ rw e (rules.releases _)
          | inr e ↦ rw e (
              take_oob-Obeys mark (take_input os h cl (handle_epollpri os h fuel cl))
                (take_input-Obeys (handle_epollpri os h fuel cl) (handle_epollpri-Obeys fuel)) _)
        ])
      where
        mark : Reply
        mark = os.reply t (Call.at_mark (sfd_of p cl))

    -- A handler of the output event behind another one.
    then_output-Obeys :
        (m : M ClientPool Bool)
        → Obeys m
        → Obeys (λ w.
          let (ended, w') = m w in
          if ended then (let (u, w'') = handle_epollout os h cl w' in (true, w'')) else (false, w'))
    unfolding handle_epollout
    then_output-Obeys m obeys t = elim (Bool-cases (m (record { st = p; trace = t })).0) [
      | inl e ↦ rw e (rules.writes t _ (obeys t))
      | inr e ↦ rw e (obeys t)
    ]

    perform-Obeys : (a : Action) (fuel : ℕ) → Obeys (perform os h a fuel cl)
    unfolding perform handle_epollout
    perform-Obeys close_client fuel t = rules.releases t
    perform-Obeys read_input fuel t = handle_epollin-Obeys fuel t
    perform-Obeys read_urgent fuel t = handle_epollpri-Obeys fuel t
    perform-Obeys write_ready fuel t = rules.writes t _ (rules.stays t)
    perform-Obeys read_then_write fuel t =
        then_output-Obeys (handle_epollin os h fuel cl) (handle_epollin-Obeys fuel) t
    perform-Obeys urgent_then_write fuel t =
        then_output-Obeys (handle_epollpri os h fuel cl) (handle_epollpri-Obeys fuel) t
    perform-Obeys ignore fuel t = rules.stays t

    -- Whatever the event mask, the kernel's answers and the fuel, the handling of an event obeys a
    -- relation that has the rules.
    pub process-Obeys : (fuel flags : ℕ) → Obeys (process os h fuel cl flags)
    unfolding process
    process-Obeys fuel flags = perform-Obeys (dispatch flags) fuel
