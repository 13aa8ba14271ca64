-- ===== src/LoadRun/RaceTests.antt =====
-- A test of two start requests at once (test-client/run.cpp).
use epoll_server.Base.{◌≡◌, ◌≢◌, refl, none, [], ◌++◌}
use epoll_server.Base.Int.{pos}
use epoll_server.Os.{World}
use epoll_server.Text.{text, zeros, copy_in, c_string}
use epoll_server.Work.{construct}
use epoll_server.LoadPages.{Control}
use epoll_server.LoadRun.{
  start_workers, load_workers, load_loop, load_step, keep_loaded, copy_address, get_stop,
}
use epoll_server.LoadRun.Workers.{threads}
use epoll_server.LoadRun.Loading.{created, joined}
use epoll_server.LoadRun.Race.{start_workers_twice}
use epoll_server.LoadRun.Running.{at_start}
use epoll_server.LoadRun.Tests.{system, left_over, address, hello}

abbrev idle : World Control
idle = at_start address (pos 8090)

abbrev started_once : World Control
started_once = (start_workers system left_over (pos 2) hello idle).1

first : (start_workers system left_over (pos 2) hello idle).0 ≢ none
unfolding start_workers load_workers load_loop load_step construct text keep_loaded copy_address
    copy_in c_string zeros
first h = cc

second : (start_workers system left_over (pos 2) hello started_once).0 ≢ none
unfolding start_workers load_workers load_loop load_step construct text keep_loaded copy_address
    copy_in c_string zeros
second h = cc

abbrev started_twice : World Control
started_twice = (start_workers system left_over (pos 2) hello started_once).1

start_workers_twice_example :
    let w = (get_stop system started_twice).1 in
    (created started_twice.trace
      ≡ joined idle.trace ++ threads started_once.st.workers ++ threads started_twice.st.workers)
    × (joined w.trace ≡ joined idle.trace ++ threads started_twice.st.workers)
    × (w.st.workers ≡ [])
start_workers_twice_example = start_workers_twice system left_over 2 hello idle refl first second
