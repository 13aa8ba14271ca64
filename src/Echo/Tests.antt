-- ===== src/Echo/Tests.antt =====
-- Tests of the echo server of test/echo.cpp.
use epoll_server.Base.{ℕ, suc, length, ◌≡◌, refl, true, false, none, some, [], ◌∷◌}
use epoll_server.Base.Int.{ℤ, pos, negsuc}
use epoll_server.Os.{Os, Trace, World, M, pure}
use epoll_server.Os.Samples.{answer, working}
use epoll_server.Pool.State.{no_client}
use epoll_server.Pool.Process.{process}
use epoll_server.Pool.Dispatch.{mask}
use epoll_server.Pool.Samples.{one_used, readable}
use epoll_server.Server.{ServerPool}
use epoll_server.Echo.{EchoWorker, Garbage, echo, create, run, stop, is_running}
use epoll_server.Echo.Sending.{sent, received, process-IsEchoed}
use epoll_server.Echo.Creating.{create-svfd}
use epoll_server.Echo.Lifecycle.{thread_step, run-stop, stop_too_soon}
use epoll_server.Echo.Report.{buffer_size, written, length-written_bounds}

-- The first call reads a byte, the later ones find nothing.
abbrev reads : Trace → ℤ
reads [] = pos 1
reads (_ ∷ _) = negsuc 0

abbrev one_byte : Os
one_byte = record {
  reply = λ t c. record (answer (reads t) 11 []) { bytes = 65 ∷ [] };
  pagesize = 4;
}

process-IsEchoed_example :
    let w' = (process one_byte (echo one_byte) 2 1 (mask readable) one_used).1 in
    sent (pos 7) w'.trace ≡ received (pos 7) w'.trace
process-IsEchoed_example = process-IsEchoed one_byte 2 1 (mask readable) one_used refl

abbrev pub sample : ℕ → ServerPool
sample thread_count = record {
  client_pool = one_used.st;
  epoll = record { selfpipe_0 = pos 11; selfpipe_1 = pos 12; epfd = pos 10; maxevents = 9 };
  thread_count = thread_count;
}

abbrev pub created : World EchoWorker
created = record { st = record { svfd = pos 0; sv = some (sample 0); work = false }; trace = [] }

abbrev pub nothing_left : M ServerPool (Unit {0})
nothing_left = pure tt

run-stop_test :
    let (started, w_1) = run created in
    let w_2 = thread_step (sample 1) w_1 in
    let (stopped, w_3) = stop working nothing_left 1 [] 0 false w_2 in
    (started ≡ true)
    × (is_running w_1.st ≡ true)
    × (run w_2 ≡ (false, w_2))
    × (stopped ≡ some true)
    × (is_running w_3.st ≡ false)
    × ((run w_3).0 ≡ true)
run-stop_test = run-stop working nothing_left 1 [] 0 created (sample 0) (sample 1) refl refl refl

stop_too_soon_test : (stop working nothing_left 1 [] 0 false (run created).1).0 ≡ none
stop_too_soon_test = stop_too_soon working nothing_left 1 [] 0 created (sample 0) refl refl refl

abbrev zeros : Garbage
zeros = record { values = λ i. no_client; client_threads = 0; thread_count = 0 }

abbrev new : World EchoWorker
new = record { st = record { svfd = pos 99; sv = none; work = false }; trace = [] }

create-svfd_test : (create working zeros (pos 80) (pos 2) (pos 5) new).1.st.svfd ≡ pos 99
create-svfd_test = create-svfd working zeros (pos 80) (pos 2) (pos 5) new

length-written_bounds_test :
    (length (written (pos 8090)) ≡ buffer_size (pos 8090))
    × (length (written (negsuc 8090)) ≡ suc (buffer_size (negsuc 8090)))
length-written_bounds_test = length-written_bounds 8090
