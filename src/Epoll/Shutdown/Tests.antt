-- ===== src/Epoll/Shutdown/Tests.antt =====
-- Tests of the shutdown chain of epoll.hpp, with one thread.
use epoll_server.Base.{ℕ, ◌<◌, ◌≡◌, refl, true, arith, update, total, ◌==◌, if◌then◌else◌}
use epoll_server.Epoll.Shutdown.{
  waiting, woken, drained, rearmed, exited, Group, Step, call_close, deliver, drain, rearm, pass_on,
  leave_last, write, fail, Run, start, and_then, started,
}
use epoll_server.Epoll.Shutdown.Progress.{IsOut, IsProper, is_broken, stuck-IsOut, out_state}

abbrev closed : Group
closed = record (started 1) { bytes = 1; called = true }

-- The thread has left.
abbrev over : Group
over = record {
  bytes = 0;
  armed = true;
  running = 0;
  called = true;
  at = update (update (update (update (λ _. waiting) 0 woken) 0 drained) 0 rearmed) 0 exited;
}

whole-Run : Run 1 (started 1) 5 over
whole-Run =
    and_then
      (and_then
        (and_then
          (and_then (and_then start (call_close refl))
            (deliver 0 (omega arith) refl refl (omega arith)))
          (drain 0 (omega arith) refl (omega arith)))
        (rearm 0 (omega arith) refl))
      (leave_last 0 (omega arith) refl refl)

all_exited : (t : ℕ) → t < 1 → over.at t ≡ exited
all_exited t lt = ground arith

no_step : {g : Group} → (st : Step 1 over g) → ¬ IsProper st
no_step (call_close e) h = cc
no_step (deliver t lt e a b) h = ground (arith, all_exited t lt)
no_step (drain t lt e b) h = omega arith
no_step (rearm t lt e) h = ground (arith, all_exited t lt)
no_step (pass_on t lt e b) h = ground (arith, all_exited t lt)
no_step (leave_last t lt e b) h = ground (arith, all_exited t lt)
no_step (write t lt e) h = ground (arith, all_exited t lt)
no_step (fail t lt e) h = h

stuck-IsOut_example : IsOut (over.at 0)
stuck-IsOut_example =
    stuck-IsOut (omega arith) (omega arith) whole-Run refl (λ c. no_step c.1 c.2) 0 (omega arith)

all-IsOut : (t : ℕ) → t < 1 → IsOut (over.at t)
all-IsOut t lt = rw (all_exited t lt) tt

out_state_example :
    (over.running ≡ total is_broken 1 over.at)
    × (over.bytes ≡ (if total is_broken 1 over.at == 0 then 0 else 1))
    × (over.armed ≡ true)
out_state_example = out_state (omega arith) (omega arith) whole-Run refl all-IsOut
