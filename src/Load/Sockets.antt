-- ===== src/Load/Sockets.antt =====
-- The socket of a worker of the load generator (test-client/work.cpp): closed on every path.
use epoll_server.Base.{
  ℕ, zero, suc, ◌≡◌, refl, ap, ◌∙◌, ◌-◌, inl, inr, Bool, true, false, not, ◌&&◌, List, [], ◌∷◌,
  ◌++◌, ◌==◌, if◌then◌else◌, Bool-cases,
}
use epoll_server.Base.Int.{ℤ, pos, negsuc, failed, is_zero, is_negative}
use epoll_server.Os.{Os, Call, Reply, Trace, World, M, pure, ◌>>=◌, when◌then◌else◌, sys}
use epoll_server.Os.Descriptors.{open_fds, remove, remove-cons}
use epoll_server.Pool.Handlers.{eagain}
use epoll_server.Endpoint.{to_u16, or_nonblock}
use epoll_server.Text.{c_string}
use epoll_server.Work.{Work, max_buf_len}
use epoll_server.Load.{
  einprogress, End, over, told, no_fuel, unless_stopped, after_send, send_step, send_message,
  after_recv, recv_step, recv_message, minus, take, drop, after_loop, rest_of_round, round, rounds,
  give_up, worker,
}

-- The descriptors after an inner loop.
abbrev left_open : ℤ → End → List ℤ → List ℤ
left_open sfd told fds = remove sfd fds
left_open sfd over fds = fds
left_open sfd no_fuel fds = fds

module _ (os : Os) (keeps_running : Trace → Bool) (sfd : ℤ) where
  -- An inner loop closes the socket where it returns, and only there.
  abbrev Closes : M Work End → Type 0
  Closes m =
      (w : World Work) → let (e, w') = m w in open_fds w'.trace ≡ left_open sfd e (open_fds w.trace)

  choose-Closes :
      (b : Bool) (m k : M Work End) → Closes m → Closes k → Closes (when b then m else k)
  choose-Closes true m k closes_m closes_k = closes_m
  choose-Closes false m k closes_m closes_k = closes_k

  unless_stopped-Closes :
      (k : M Work End) → Closes k → Closes (unless_stopped os keeps_running sfd told k)
  unfolding unless_stopped
  unless_stopped-Closes k closes w = elim (Bool-cases (keeps_running w.trace)) [
    | inl e ↦ rw e (closes w)
    | inr e ↦ rw e refl
  ]

  after_send-Closes :
      (n : ℤ) (again : ℕ → M Work End)
      → ((r : ℕ) → Closes (again r))
      → Closes (after_send os keeps_running n again)
  unfolding after_send
  after_send-Closes (pos zero) again next w = refl
  after_send-Closes (pos (suc r)) again next w = next (suc r) w
  after_send-Closes (negsuc n) again next w = refl

  send_step-Closes :
      (remaining : ℕ) (again : ℕ → M Work End)
      → ((r : ℕ) → Closes (again r))
      → Closes (send_step os keeps_running sfd remaining again)
  unfolding send_step
  send_step-Closes remaining again next = unless_stopped-Closes _ (λ w.
      let c = Call.send sfd (take remaining (drop (max_buf_len - remaining) w.st.message)) in
      let n = os.reply w.trace c in
      choose-Closes (failed n.ret) (when n.errno == eagain then again remaining else pure over)
        (after_send os keeps_running (minus remaining n.ret) again)
        (choose-Closes (n.errno == eagain) (again remaining) (pure over) (next remaining)
          (λ _. refl))
        (after_send-Closes (minus remaining n.ret) again next)
        (record w { trace = (c, n) ∷ w.trace }))

  send_message-Closes :
      (fuel remaining : ℕ) → Closes (send_message os keeps_running fuel sfd remaining)
  unfolding send_message
  send_message-Closes fuel zero w = refl
  send_message-Closes zero (suc r) w = refl
  send_message-Closes (suc fuel) (suc r) w =
      send_step-Closes (suc r) (send_message os keeps_running fuel sfd) (send_message-Closes fuel) w

  after_recv-Closes :
      (got : List ℕ) (n : ℤ) (again : List ℕ → ℕ → M Work End)
      → ((got : List ℕ) (r : ℕ) → Closes (again got r))
      → Closes (after_recv os keeps_running got n again)
  unfolding after_recv
  after_recv-Closes got (pos zero) again next w = refl
  after_recv-Closes got (pos (suc r)) again next w = next got (suc r) w
  after_recv-Closes got (negsuc n) again next w = refl

  recv_step-Closes :
      (got : List ℕ) (remaining : ℕ) (again : List ℕ → ℕ → M Work End)
      → ((got : List ℕ) (r : ℕ) → Closes (again got r))
      → Closes (recv_step os keeps_running sfd got remaining again)
  unfolding recv_step
  recv_step-Closes got remaining again next = unless_stopped-Closes _ (λ w.
      let c = Call.recv sfd remaining false in
      let n = os.reply w.trace c in
      choose-Closes (failed n.ret) (when n.errno == eagain then again got remaining else pure over)
        (after_recv os keeps_running (got ++ n.bytes) (minus remaining n.ret) again)
        (choose-Closes (n.errno == eagain) (again got remaining) (pure over) (next got remaining)
          (λ _. refl))
        (after_recv-Closes (got ++ n.bytes) (minus remaining n.ret) again next)
        (record w { trace = (c, n) ∷ w.trace }))

  recv_message-Closes :
      (fuel : ℕ) (got : List ℕ) (remaining : ℕ)
      → Closes (recv_message os keeps_running fuel sfd got remaining)
  unfolding recv_message
  recv_message-Closes fuel got zero w = refl
  recv_message-Closes zero got (suc r) w = refl
  recv_message-Closes (suc fuel) got (suc r) w =
      recv_step-Closes got (suc r) (recv_message os keeps_running fuel sfd)
        (recv_message-Closes fuel) w

  -- A part of the `while` loop closes the socket where the worker returns, and only there.
  abbrev Ends : M Work Bool → Type 0
  Ends m =
      (w : World Work)
      → let (ended, w') = m w in
        open_fds w'.trace ≡ (if ended then remove sfd (open_fds w.trace) else open_fds w.trace)

  after_loop-Ends :
      (m : M Work End) (next : M Work Bool)
      → Closes m
      → Ends next
      → Ends (do e ← m; after_loop os keeps_running next e)
  unfolding after_loop
  after_loop-Ends m next closes ends w = go (m w).0 (m w).1 (closes w)
    where
      go :
          (e : End) (w' : World Work)
          → open_fds w'.trace ≡ left_open sfd e (open_fds w.trace)
          → let (ended, w'') = after_loop os keeps_running next e w' in
            open_fds w''.trace ≡ (if ended then remove sfd (open_fds w.trace) else open_fds w.trace)
      go over w' same = ends w' ∙ ap (λ fds. if (next w').0 then remove sfd fds else fds) same
      go told w' closed = closed
      go no_fuel w' same = same

  rounds-Ends : (inner fuel : ℕ) → Ends (rounds os keeps_running inner fuel sfd)
  unfolding rounds round rest_of_round unless_stopped
  rounds-Ends inner zero w = refl
  rounds-Ends inner (suc fuel) w = elim (Bool-cases (keeps_running w.trace)) [
    | inr e ↦ rw e refl
    | inl e ↦ rw e (
        after_loop-Ends (send_message os keeps_running inner sfd max_buf_len)
          (rest_of_round os keeps_running inner sfd again) (send_message-Closes inner max_buf_len)
          (after_loop-Ends (recv_message os keeps_running inner sfd [] max_buf_len)
            (do _ ← sys os (Call.usleep 1000); again) (recv_message-Closes inner [] max_buf_len)
            (λ w'. rounds-Ends inner fuel (slept w')))
          w)
  ]
    where
      again : M Work Bool
      again = rounds os keeps_running inner fuel sfd

      slept : World Work → World Work
      slept w' = record w' {
        trace = (Call.usleep 1000, os.reply w'.trace (Call.usleep 1000)) ∷ w'.trace;
      }

not_failed : (x : ℤ) → is_negative x ≡ false → failed x ≡ false
not_failed (pos n) h = refl
not_failed (negsuc n) h = absurd (cc)

-- Where a socket was made, the worker closes it on every path on which it returns: where it is told
-- to stop, at any point of its loops, and where the socket cannot be made non-blocking or
-- connected. While it has not returned, its socket is the one descriptor more that is open.
pub worker-open_fds :
    (os : Os) (keeps_running : Trace → Bool) (inner fuel : ℕ) (w : World Work)
    → let sock = os.reply w.trace (Call.socket true) in
      let (ended, w') = worker os keeps_running inner fuel w in
      is_negative sock.ret ≡ false
      → open_fds w'.trace ≡ (if ended then open_fds w.trace else sock.ret ∷ open_fds w.trace)
unfolding worker give_up
worker-open_fds os keeps_running inner fuel w made = elim (Bool-cases (not (is_zero set.ret))) [
  | inl e ↦ rw (made, e, not_failed sock.ret made) (remove-cons sock.ret (open_fds w.trace))
  | inr e ↦ elim (Bool-cases (is_negative c.ret && not (c.errno == einprogress))) [
    | inl f ↦ rw (made, e, f, not_failed sock.ret made) (remove-cons sock.ret (open_fds w.trace))
    | inr f ↦
        rw (made, e, f)
          (rounds-Ends os keeps_running sock.ret inner fuel connected
            ∙ rw (not_failed sock.ret made, remove-cons sock.ret (open_fds w.trace)) refl)
  ]
]
  where
    sock : Reply
    sock = os.reply w.trace (Call.socket true)

    t_1 : Trace
    t_1 = (Call.socket true, sock) ∷ w.trace

    flags : Reply
    flags = os.reply t_1 (Call.get_flags sock.ret)

    t_2 : Trace
    t_2 = (Call.get_flags sock.ret, flags) ∷ t_1

    set : Reply
    set = os.reply t_2 (Call.set_flags sock.ret (or_nonblock flags.ret))

    t_3 : Trace
    t_3 = (Call.set_flags sock.ret (or_nonblock flags.ret), set) ∷ t_2

    c : Reply
    c = os.reply t_3 (Call.connect sock.ret (c_string w.st.ip) (to_u16 w.st.port))

    connected : World Work
    connected = record w {
      trace = (Call.connect sock.ret (c_string w.st.ip) (to_u16 w.st.port), c) ∷ t_3;
    }
