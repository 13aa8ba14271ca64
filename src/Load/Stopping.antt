-- ===== src/Load/Stopping.antt =====
-- The worker of the load generator (test-client/work.cpp) ends once it is told to stop.
use epoll_server.Base.{
  ℕ, zero, suc, ◌≡◌, ◌≢◌, refl, inl, inr, Bool, true, not, ◌&&◌, [], ◌∷◌, arith, ◌==◌, Bool-cases,
}
use epoll_server.Base.Int.{ℤ, is_zero, is_negative}
use epoll_server.Os.{Os, Call, Reply, Trace, World, M}
use epoll_server.Endpoint.{to_u16, or_nonblock}
use epoll_server.Text.{c_string}
use epoll_server.Work.{Work, max_buf_len}
use epoll_server.Load.{
  einprogress, End, over, told, no_fuel, unless_stopped, send_message, recv_message, after_loop,
  rest_of_round, round, rounds, give_up, worker,
}
use epoll_server.Load.Told.{IsTold, IsEnough, runs_early, send_message-IsDone, recv_message-IsDone}

module _ (os : Os) (keeps_running : Trace → Bool) (n : ℕ) (is_told : IsTold keeps_running n)
    (sfd : ℤ) where
  after_loop_ends :
      (next : M Work Bool) (e : End) (w : World Work)
      → e ≢ no_fuel
      → (next w).0 ≡ true
      → (after_loop os keeps_running next e w).0 ≡ true
  unfolding after_loop
  after_loop_ends next over w done h = h
  after_loop_ends next told w done h = refl
  after_loop_ends next no_fuel w done h = absurd (done refl)

  rounds_end :
      (inner fuel : ℕ) (w : World Work)
      → IsEnough os keeps_running n is_told sfd inner w
      → IsEnough os keeps_running n is_told sfd fuel w
      → (rounds os keeps_running inner fuel sfd w).0 ≡ true
  unfolding rounds round rest_of_round unless_stopped
  rounds_end inner zero w enough_inner enough = absurd (omega (arith, enough.0))
  rounds_end inner (suc fuel) w enough_inner enough = elim (Bool-cases (keeps_running w.trace)) [
    | inr e ↦ rw e refl
    | inl e ↦
        let early = runs_early os keeps_running n is_told sfd w e in
        let w_1 = (send_message os keeps_running inner sfd max_buf_len w).1 in
        let sent =
          send_message-IsDone os keeps_running n is_told sfd inner max_buf_len w enough_inner in
        let inner_1 : IsEnough os keeps_running n is_told sfd inner w_1 =
          (enough_inner.0, omega (arith, enough_inner.1, sent.1)) in
        let w_2 = (recv_message os keeps_running inner sfd [] max_buf_len w_1).1 in
        let read =
          recv_message-IsDone os keeps_running n is_told sfd inner [] max_buf_len w_1 inner_1 in
        let w_3 : World Work = record w_2 {
          trace = (Call.usleep 1000, os.reply w_2.trace (Call.usleep 1000)) ∷ w_2.trace;
        } in
        rw e (
          after_loop_ends _ _ w_1 sent.0 (
            after_loop_ends _ _ w_2 read.0 (
              rounds_end inner fuel w_3
                (enough_inner.0, omega (arith, enough_inner.1, sent.1, read.1))
                (omega (arith, enough.1, early), omega (arith, enough.1, sent.1, read.1)))))
  ]

-- A worker that is told to stop once the history has n calls, and stays told, returns, whatever the
-- kernel answers: one round more than n is enough for each of its loops.
pub worker_ends :
    (os : Os) (keeps_running : Trace → Bool) (n : ℕ) (w : World Work)
    → IsTold keeps_running n
    → (worker os keeps_running (suc n) (suc n) w).0 ≡ true
unfolding worker give_up
worker_ends os keeps_running n w is_told = elim (Bool-cases (is_negative sock.ret)) [
  | inl e ↦ rw e refl
  | inr e ↦ elim (Bool-cases (not (is_zero set.ret))) [
    | inl f ↦ rw (e, f) refl
    | inr f ↦ elim (Bool-cases (is_negative c.ret && not (c.errno == einprogress))) [
      | inl g ↦ rw (e, f, g) refl
      | inr g ↦
          rw (e, f, g)
            (rounds_end os keeps_running n is_told sock.ret (suc n) (suc n) connected
              (omega arith, omega arith) (omega arith, omega arith))
    ]
  ]
]
  where
    sock : Reply
    sock = os.reply w.trace (Call.socket true)

    t_1 : Trace
    t_1 = (Call.socket true, sock) ∷ w.trace

    flags : Reply
    flags = os.reply t_1 (Call.get_flags sock.ret)

    t_2 : Trace
    t_2 = (Call.get_flags sock.ret, flags) ∷ t_1

    set : Reply
    set = os.reply t_2 (Call.set_flags sock.ret (or_nonblock flags.ret))

    t_3 : Trace
    t_3 = (Call.set_flags sock.ret (or_nonblock flags.ret), set) ∷ t_2

    c : Reply
    c = os.reply t_3 (Call.connect sock.ret (c_string w.st.ip) (to_u16 w.st.port))

    connected : World Work
    connected = record w {
      trace = (Call.connect sock.ret (c_string w.st.ip) (to_u16 w.st.port), c) ∷ t_3;
    }
