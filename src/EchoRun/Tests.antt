-- ===== src/EchoRun/Tests.antt =====
-- Tests of the control pages of the echo server (test/run.cpp).
use epoll_server.Base.{refl, false, List, [], ◌∷◌}
use epoll_server.Base.Int.{pos}
use epoll_server.Os.Samples.{working}
use epoll_server.Echo.Tests.{sample, created, nothing_left}
use epoll_server.EchoRun.{Stopping, Event, start_asked, stop_asked, thread_ran, handle, handle_all}
use epoll_server.EchoRun.Phases.{
  status, Run, HasServer, Allowed, behind, handle-Allowed, handle_all-Run,
}

abbrev told : Stopping
told = record { finish = nothing_left; fuel = 1; rest = []; last_count = 0; ended = false }

created-HasServer : HasServer created.st
created-HasServer = (sample 0, refl)

handle-Allowed_test :
    Allowed (pos 8090) start_asked created.st (handle working (pos 8090) start_asked created)
handle-Allowed_test = handle-Allowed working (pos 8090) start_asked created created-HasServer

-- A start, a second start, a stop of the thread that listens, and a stop that comes too soon after
-- the next start.
abbrev some_events : List Event
some_events =
    start_asked
    ∷ thread_ran (sample 1)
    ∷ start_asked
    ∷ stop_asked told
    ∷ start_asked
    ∷ thread_ran (sample 0)
    ∷ stop_asked told
    ∷ []

handle_all-Run_example :
    Run some_events (status created.st) (behind (handle_all working (pos 8090) some_events created))
handle_all-Run_example = handle_all-Run working (pos 8090) some_events created created-HasServer
