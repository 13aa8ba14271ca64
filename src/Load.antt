-- ===== src/Load.antt =====
-- test-client/work.cpp: the thread of one worker of the load generator, which sends its message and
-- compares what comes back. The thread that stops it decides what `is_running` returns, so that
-- the worker reads it from a function of the history, `keeps_running`.

pub mod Sockets
pub mod Told
pub mod Stopping
pub mod Tests
use epoll_server.Base.{
  ℕ, zero, suc, ◌+◌, ◌-◌, ◌*◌, ◌≤◌, Bool, true, false, not, ◌&&◌, List, [], ◌∷◌, ◌++◌, ◌==◌, leb,
  if◌then◌else◌,
}
use epoll_server.Base.Int.{ℤ, pos, negsuc, failed, is_zero, is_negative}
use epoll_server.Os.{Os, Call, Trace, M, pure, ◌>>=◌, ◌>>◌, get, modify, when◌then◌else◌, sys}
use epoll_server.Endpoint.{to_u16, or_nonblock}
use epoll_server.Pool.Handlers.{eagain}
use epoll_server.Text.{text, c_string}
use epoll_server.Work.{Work, max_buf_len, log_message_sent, log_message_received}

abbrev pub einprogress : ℕ
einprogress = 115

abbrev pub take : ℕ → List ℕ → List ℕ
take zero xs = []
take (suc n) [] = []
take (suc n) (x ∷ xs) = x ∷ take n xs

abbrev pub drop : ℕ → List ℕ → List ℕ
drop zero xs = xs
drop (suc n) [] = []
drop (suc n) (x ∷ xs) = drop n xs

-- `remaining - n` for a result of `send` or `recv`.
abbrev pub minus : (remaining : ℕ) → (n : ℤ) → ℤ
minus remaining (pos n) =
    if leb n remaining then pos (remaining - n) else negsuc (n - remaining - 1)
minus remaining (negsuc n) = pos (remaining + n + 1)

-- How an inner loop ends: by its condition or its `break`, by the `return` behind `close`, or in
-- the model alone, when the fuel runs out.
pub data End : Type 0 where
  over told no_fuel : End

module _ (os : Os) (keeps_running : Trace → Bool) where
  -- The socket is closed where the worker is to stop.
  unfoldable pub unless_stopped : {A : Type 0} → (sfd : ℤ) → A → M Work A → M Work A
  unless_stopped sfd a k w =
      (when keeps_running w.trace then k else do _ ← sys os (Call.close sfd); pure a) w

  after_send : ℤ → (again : ℕ → M Work End) → M Work End
  after_send (pos zero) again = do modify (log_message_sent max_buf_len); pure over
  after_send (pos (suc r)) again = again (suc r)
  after_send (negsuc n) again = pure over

  send_step : (sfd : ℤ) → (remaining : ℕ) → (again : ℕ → M Work End) → M Work End
  unfolding unless_stopped after_send
  send_step sfd remaining again = unless_stopped sfd told (do
    w ← get
    n ← sys os (Call.send sfd (take remaining (drop (max_buf_len - remaining) w.message)))
    when failed n.ret
        then (when n.errno == eagain then again remaining else pure over)
        else after_send (minus remaining n.ret) again)

  -- The loop that sends the message; `remaining` bytes are left.
  unfoldable pub send_message : (fuel : ℕ) → (sfd : ℤ) → (remaining : ℕ) → M Work End
  unfolding send_step
  send_message fuel sfd zero = pure over
  send_message zero sfd (suc r) = pure no_fuel
  send_message (suc fuel) sfd (suc r) = send_step sfd (suc r) (send_message fuel sfd)

  after_recv : (got : List ℕ) → ℤ → (again : List ℕ → ℕ → M Work End) → M Work End
  after_recv got (pos zero) again = do modify (log_message_received got max_buf_len); pure over
  after_recv got (pos (suc r)) again = again got (suc r)
  after_recv got (negsuc n) again = pure over

  recv_step :
      (sfd : ℤ) → (got : List ℕ) → (remaining : ℕ) → (again : List ℕ → ℕ → M Work End) → M Work End
  unfolding unless_stopped after_recv
  recv_step sfd got remaining again = unless_stopped sfd told (do
    n ← sys os (Call.recv sfd remaining false)
    when failed n.ret
        then (when n.errno == eagain then again got remaining else pure over)
        else after_recv (got ++ n.bytes) (minus remaining n.ret) again)

  -- The loop that receives it; `got` is what the buffer holds so far.
  unfoldable pub recv_message :
      (fuel : ℕ) → (sfd : ℤ) → (got : List ℕ) → (remaining : ℕ) → M Work End
  unfolding recv_step
  recv_message fuel sfd got zero = pure over
  recv_message zero sfd got (suc r) = pure no_fuel
  recv_message (suc fuel) sfd got (suc r) = recv_step sfd got (suc r) (recv_message fuel sfd)

  -- Behind an inner loop: the next part, or the end of the worker.
  unfoldable pub after_loop : M Work Bool → End → M Work Bool
  after_loop next over = next
  after_loop next told = pure true
  after_loop next no_fuel = pure false

  rest_of_round : (fuel : ℕ) → (sfd : ℤ) → (again : M Work Bool) → M Work Bool
  unfolding recv_message after_loop
  rest_of_round fuel sfd again = do
    e ← recv_message fuel sfd [] max_buf_len
    after_loop (do _ ← sys os (Call.usleep 1000); again) e

  round : (fuel : ℕ) → (sfd : ℤ) → (again : M Work Bool) → M Work Bool
  unfolding unless_stopped send_message after_loop rest_of_round
  round fuel sfd again =
      unless_stopped sfd true
        (do e ← send_message fuel sfd max_buf_len; after_loop (rest_of_round fuel sfd again) e)

  -- The `while` loop; true where the worker has returned.
  unfoldable pub rounds : (inner fuel : ℕ) → (sfd : ℤ) → M Work Bool
  unfolding round
  rounds inner zero sfd = pure false
  rounds inner (suc fuel) sfd = round inner sfd (rounds inner fuel sfd)

  give_up : (sfd : ℤ) → (failed_call : List ℕ) → M Work Bool
  give_up sfd failed_call = do
    _ ← sys os (Call.close sfd)
    _ ← sys os (Call.perror failed_call)
    pure true

  -- `worker`; `inner` bounds the calls of an inner loop, `fuel` the rounds.
  unfoldable pub worker : (inner fuel : ℕ) → M Work Bool
  unfolding rounds give_up c_string text
  worker inner fuel = do
    sock ← sys os (Call.socket true)
    when is_negative sock.ret then (do _ ← sys os (Call.perror (text "socket")); pure true) else do
      flags ← sys os (Call.get_flags sock.ret)
      set ← sys os (Call.set_flags sock.ret (or_nonblock flags.ret))
      when not (is_zero set.ret) then give_up sock.ret (text "fcntl") else do
        w ← get
        c ← sys os (Call.connect sock.ret (c_string w.ip) (to_u16 w.port))
        when is_negative c.ret && not (c.errno == einprogress)
            then give_up sock.ret (text "connect")
            else rounds inner fuel sock.ret
