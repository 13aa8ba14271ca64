-- ===== src/Epoll/Shutdown.antt =====
-- The daisy-chained shutdown of epoll.hpp, for n threads that wait on one epoll descriptor: `close`
-- writes one byte to the self-pipe, and each thread that the byte wakes passes it on. The self-pipe
-- is registered EPOLLIN | EPOLLET | EPOLLONESHOT: while it is armed and holds a byte, one
-- `epoll_wait` returns it and disarms it.
pub mod Invariant
pub mod Progress
pub mod Tests
use epoll_server.Base.{
  ℕ, suc, ◌+◌, ◌-◌, ◌^◌, ◌<◌, ◌≡◌, Bool, true, false, update, ◌==◌, if◌then◌else◌,
}
use epoll_server.Mem.{size_t}

-- Where a thread stands in `wait`.
pub data Worker : Type 0 where
  waiting : Worker  -- in its loop
  woken : Worker  -- `epoll_wait` returned the control event
  drained : Worker  -- the byte was read
  rearmed : Worker  -- the self-pipe is armed again
  passing : Worker  -- `--runningInstances` was above 0, before the write
  exited : Worker
  broken : Worker  -- left by the `break` on an error of `epoll_wait`

-- `called` says whether `close` has written its byte.
pub record Group : Type 0 where
  pub bytes : ℕ
  pub armed : Bool
  pub running : ℕ
  pub called : Bool
  pub at : ℕ → Worker

abbrev pub decremented : ℕ → ℕ
decremented running = size_t (running + 2 ^ 64 - 1)

pub data Step (n : ℕ) (g : Group) : Group → Type 0 where
  call_close : g.called ≡ false → Step n g (record g { bytes = g.bytes + 1; called = true })
  deliver :
      (t : ℕ)
      → t < n
      → g.at t ≡ waiting
      → g.armed ≡ true
      → 0 < g.bytes
      → Step n g (record g { armed = false; at = update g.at t woken })
  drain :
      (t : ℕ)
      → t < n
      → g.at t ≡ woken
      → 0 < g.bytes
      → Step n g (record g { bytes = g.bytes - 1; at = update g.at t drained })
  rearm :
      (t : ℕ)
      → t < n
      → g.at t ≡ drained
      → Step n g (record g { armed = true; at = update g.at t rearmed })
  pass_on :
      (t : ℕ)
      → t < n
      → g.at t ≡ rearmed
      → 0 < decremented g.running
      → Step n g (record g { running = decremented g.running; at = update g.at t passing })
  leave_last :
      (t : ℕ)
      → t < n
      → g.at t ≡ rearmed
      → decremented g.running ≡ 0
      → Step n g (record g { running = decremented g.running; at = update g.at t exited })
  write :
      (t : ℕ)
      → t < n
      → g.at t ≡ passing
      → Step n g (record g { bytes = g.bytes + 1; at = update g.at t exited })
  fail : (t : ℕ) → t < n → g.at t ≡ waiting → Step n g (record g { at = update g.at t broken })

-- A run of the given number of steps.
pub data Run (n : ℕ) (g : Group) : ℕ → Group → Type 0 where
  start : Run n g 0 g
  and_then : {k : ℕ} {u v : Group} → Run n g k u → Step n u v → Run n g (suc k) v

-- As `run` of pool.hpp starts the threads, with an empty pipe.
abbrev pub started : ℕ → Group
started n = record { bytes = 0; armed = true; running = n; called = false; at = λ _. waiting }
