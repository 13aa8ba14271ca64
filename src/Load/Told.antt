-- ===== src/Load/Told.antt =====
-- The inner loops of a worker of the load generator (test-client/work.cpp) end once it is told to
-- stop.
use epoll_server.Base.{
  ℕ, zero, suc, ◌+◌, ◌-◌, ◌≤◌, ◌<◌, ◌≡◌, ◌≢◌, inl, inr, Bool, true, false, List, ◌∷◌, ◌++◌, arith,
  ◌==◌, if◌then◌else◌, Bool-cases, length,
}
use native.Mathlib.Decide.{dec_lt}
use epoll_server.Base.Int.{ℤ, pos, negsuc, failed}
use epoll_server.Os.{Os, Call, Reply, Trace, World, M, pure, when◌then◌else◌}
use epoll_server.Pool.Handlers.{eagain}
use epoll_server.Work.{Work, max_buf_len}
use epoll_server.Load.{
  End, over, no_fuel, unless_stopped, after_send, send_step, send_message, after_recv, recv_step,
  recv_message, minus, take, drop,
}

-- The worker is told to stop once the history has n calls, and stays told.
abbrev pub IsTold : (Trace → Bool) → ℕ → Type 0
IsTold keeps_running n = (t : Trace) → n ≤ length t → keeps_running t ≡ false

module _ (os : Os) (keeps_running : Trace → Bool) (n : ℕ) (is_told : IsTold keeps_running n)
    (sfd : ℤ) where
  -- A result of an inner loop that is not for lack of fuel, with a history no shorter.
  abbrev pub IsDone : ℕ → End × World Work → Type 0
  IsDone l r = (r.0 ≢ no_fuel) × (l ≤ length r.1.trace)

  -- Enough fuel for the calls that are left.
  abbrev pub IsEnough : ℕ → World Work → Type 0
  IsEnough fuel w = (0 < fuel) × (n < fuel + length w.trace)

  -- A worker that runs has calls left.
  pub runs_early : (w : World Work) → keeps_running w.trace ≡ true → length w.trace < n
  runs_early w e = elim (dec_lt (length w.trace) n) [
    | yes early ↦ early
    | no late ↦ let off = is_told w.trace (omega arith) in absurd (cc)
  ]

  choose-IsDone :
      {l : ℕ} (b : Bool) (m k : M Work End) (w : World Work)
      → IsDone l (m w)
      → IsDone l (k w)
      → IsDone l ((when b then m else k) w)
  choose-IsDone true m k w done_m done_k = done_m
  choose-IsDone false m k w done_m done_k = done_k

  after_send-IsDone :
      {l : ℕ} (x : ℤ) (again : ℕ → M Work End) (w : World Work)
      → l ≤ length w.trace
      → ((r : ℕ) → IsDone l (again r w))
      → IsDone l (after_send os keeps_running x again w)
  unfolding after_send
  after_send-IsDone (pos zero) again w h next = (λ e. cc, h)
  after_send-IsDone (pos (suc r)) again w h next = next (suc r)
  after_send-IsDone (negsuc x) again w h next = (λ e. cc, h)

  send_step-IsDone :
      (fuel remaining : ℕ) (again : ℕ → M Work End) (w : World Work)
      → ((r : ℕ) (w' : World Work) → IsEnough fuel w' → IsDone (length w'.trace) (again r w'))
      → IsEnough (suc fuel) w
      → IsDone (length w.trace) (send_step os keeps_running sfd remaining again w)
  unfolding send_step unless_stopped
  send_step-IsDone fuel remaining again w next enough = elim (Bool-cases (keeps_running w.trace)) [
    | inr e ↦ rw e (λ x. cc, omega arith)
    | inl e ↦
        let early = runs_early w e in
        let go : (r : ℕ) → IsDone (length w.trace) (again r w') = λ r.
          let (done, longer) = next r w' (omega (arith, enough.1), omega (arith, enough.1)) in
          (done, omega (arith, longer)) in
        rw e (
          choose-IsDone (failed x.ret) (when x.errno == eagain then again remaining else pure over)
            (after_send os keeps_running (minus remaining x.ret) again) w'
            (choose-IsDone (x.errno == eagain) (again remaining) (pure over) w' (go remaining)
              (λ z. cc, omega arith))
            (after_send-IsDone (minus remaining x.ret) again w' (omega arith) go))
  ]
    where
      c : Call
      c = Call.send sfd (take remaining (drop (max_buf_len - remaining) w.st.message))

      x : Reply
      x = os.reply w.trace c

      w' : World Work
      w' = record w { trace = (c, x) ∷ w.trace }

  pub send_message-IsDone :
      (fuel remaining : ℕ) (w : World Work)
      → IsEnough fuel w
      → IsDone (length w.trace) (send_message os keeps_running fuel sfd remaining w)
  unfolding send_message
  send_message-IsDone fuel zero w enough = (λ e. cc, omega arith)
  send_message-IsDone zero (suc r) w enough = absurd (omega (arith, enough.0))
  send_message-IsDone (suc fuel) (suc r) w enough =
      send_step-IsDone fuel (suc r) (send_message os keeps_running fuel sfd) w
        (send_message-IsDone fuel) enough

  after_recv-IsDone :
      {l : ℕ} (got : List ℕ) (x : ℤ) (again : List ℕ → ℕ → M Work End) (w : World Work)
      → l ≤ length w.trace
      → ((got : List ℕ) (r : ℕ) → IsDone l (again got r w))
      → IsDone l (after_recv os keeps_running got x again w)
  unfolding after_recv
  after_recv-IsDone got (pos zero) again w h next = (λ e. cc, h)
  after_recv-IsDone got (pos (suc r)) again w h next = next got (suc r)
  after_recv-IsDone got (negsuc x) again w h next = (λ e. cc, h)

  recv_step-IsDone :
      (fuel : ℕ) (got : List ℕ) (remaining : ℕ) (again : List ℕ → ℕ → M Work End) (w : World Work)
      → ((got : List ℕ) (r : ℕ) (w' : World Work)
          → IsEnough fuel w'
          → IsDone (length w'.trace) (again got r w'))
      → IsEnough (suc fuel) w
      → IsDone (length w.trace) (recv_step os keeps_running sfd got remaining again w)
  unfolding recv_step unless_stopped
  recv_step-IsDone fuel got remaining again w next enough =
      elim (Bool-cases (keeps_running w.trace)) [
        | inr e ↦ rw e (λ x. cc, omega arith)
        | inl e ↦
            let early = runs_early w e in
            let go : (got : List ℕ) (r : ℕ) → IsDone (length w.trace) (again got r w') = λ got r.
              let (done, longer) =
                next got r w' (omega (arith, enough.1), omega (arith, enough.1)) in
              (done, omega (arith, longer)) in
            rw e (
              choose-IsDone (failed x.ret)
                (when x.errno == eagain then again got remaining else pure over)
                (after_recv os keeps_running (got ++ x.bytes) (minus remaining x.ret) again) w'
                (choose-IsDone (x.errno == eagain) (again got remaining) (pure over) w'
                  (go got remaining) (λ z. cc, omega arith))
                (after_recv-IsDone (got ++ x.bytes) (minus remaining x.ret) again w' (omega arith)
                  go))
      ]
    where
      c : Call
      c = Call.recv sfd remaining false

      x : Reply
      x = os.reply w.trace c

      w' : World Work
      w' = record w { trace = (c, x) ∷ w.trace }

  pub recv_message-IsDone :
      (fuel : ℕ) (got : List ℕ) (remaining : ℕ) (w : World Work)
      → IsEnough fuel w
      → IsDone (length w.trace) (recv_message os keeps_running fuel sfd got remaining w)
  unfolding recv_message
  recv_message-IsDone fuel got zero w enough = (λ e. cc, omega arith)
  recv_message-IsDone zero got (suc r) w enough = absurd (omega (arith, enough.0))
  recv_message-IsDone (suc fuel) got (suc r) w enough =
      recv_step-IsDone fuel got (suc r) (recv_message os keeps_running fuel sfd) w
        (recv_message-IsDone fuel) enough
