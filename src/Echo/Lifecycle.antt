-- ===== src/Echo/Lifecycle.antt =====
-- The worker object of test/echo.cpp: `run` and `stop`.
use epoll_server.Base.{ℕ, ◌≡◌, refl, true, false, none, some, List}
use epoll_server.Os.{Os, World, M}
use epoll_server.Server.{ServerPool}
use epoll_server.Echo.{EchoWorker, is_listening, run, stop, is_running}

-- What the thread does to the server between the calls of the worker object.
abbrev pub thread_step : ServerPool → World EchoWorker → World EchoWorker
thread_step s w = record w { st = record w.st { sv = some s } }

module _ (os : Os) (finish : M ServerPool (Unit {0})) (fuel : ℕ) (rest : List (ℕ × ℕ))
    (last_count : ℕ) where
  -- An echo server that was created and does not run: `run` starts it, a second `run` is refused
  -- and changes nothing, and once its thread listens, `stop` returns true and it no longer runs,
  -- so that it can be started again.
  pub run-stop :
      (w : World EchoWorker) (s s' : ServerPool)
      → w.st.sv ≡ some s
      → w.st.work ≡ false
      → is_listening s' ≡ true
      → let (started, w_1) = run w in
        let w_2 = thread_step s' w_1 in
        let (stopped, w_3) = stop os finish fuel rest last_count false w_2 in
        (started ≡ true)
        × (is_running w_1.st ≡ true)
        × (run w_2 ≡ (false, w_2))
        × (stopped ≡ some true)
        × (is_running w_3.st ≡ false)
        × ((run w_3).0 ≡ true)
  unfolding run stop is_running
  run-stop w s s' present idle listening =
      rw (present, idle, listening) (refl, refl, refl, refl, refl, refl)

  -- Where `stop` comes before the thread has entered the server's wait loop, it never returns: the
  -- server is not told to stop, and `join` waits for its thread.
  pub stop_too_soon :
      (w : World EchoWorker) (s : ServerPool)
      → w.st.sv ≡ some s
      → w.st.work ≡ false
      → is_listening s ≡ false
      → (stop os finish fuel rest last_count false (run w).1).0 ≡ none
  unfolding stop run
  stop_too_soon w s present idle early = rw (present, idle, early) refl
