-- ===== src/Server/Tests.antt =====
-- Tests of the server of pool.hpp, over the test data of the client pool.
use epoll_server.Base.{ℕ, ◌+◌, ◌<◌, ◌≡◌, refl, true, false, List, [], ◌∷◌, arith, if◌then◌else◌}
use epoll_server.Base.Int.{ℤ, pos, negsuc, failed, is_zero}
use epoll_server.Os.{Os, Call, Trace, World}
use epoll_server.Os.Descriptors.{open_fds, remove}
use epoll_server.Os.Samples.{answer, working}
use epoll_server.Endpoint.{endpoint_tcp_server, endpoint_unblock, endpoint_close}
use epoll_server.Epoll
use epoll_server.Pool.State.{sfd_of, add_client}
use epoll_server.Pool.Invariant.{Inv, InUse}
use epoll_server.Pool.Samples.{one_used, one_used-Inv}
use epoll_server.Server.{ServerPool, active_count, user_data, cast, take_connection, process, bind}
use epoll_server.Server.Accepting.{take_connection-Inv, take_connection_refused}
use epoll_server.Server.AcceptLoop.{accepted, Waiting, server_process-Inv}
use epoll_server.Server.Listening.{cast-user_data, bind-open_fds}

abbrev server : World ServerPool
server = record {
  st = record {
    client_pool = one_used.st;
    epoll = record { selfpipe_0 = pos 11; selfpipe_1 = pos 12; epfd = pos 10; maxevents = 9 };
    thread_count = 1;
  };
  trace = [];
}

cast-user_data_test : cast (user_data (pos 70000)) ≡ pos 70000
cast-user_data_test = cast-user_data (pos 70000) (omega arith)

bind-open_fds_test :
    open_fds (bind working (pos 80) (pos 9) server).1.trace
    ≡ open_fds (endpoint_tcp_server working (pos 80) (pos 9) server).1.trace
bind-open_fds_test = bind-open_fds working (pos 80) (pos 9) server

take_connection-Inv_test :
    let (kept, w') = take_connection working (pos 8) server in
    ((left : List ℕ) × Inv w'.st.client_pool left)
    × (open_fds w'.trace
        ≡ (if kept then open_fds server.trace else remove (pos 8) (open_fds server.trace)))
take_connection-Inv_test = take_connection-Inv working (pos 8) refl (0 ∷ []) server one_used-Inv

-- Every call but `epoll_ctl` returns 0.
abbrev result : Call → ℤ
result (Call.epoll_ctl _ _ _ _ _) = negsuc 0
result _ = pos 0

abbrev refusing : Os
refusing = record { reply = λ t c. answer (result c) 0 []; pagesize = 4 }

refused : (take_connection refusing (pos 8) server).0 ≡ false
unfolding take_connection add_client Epoll.add_client
refused = refl

take_connection_refused_test :
    let w' = (take_connection refusing (pos 8) server).1 in
    (open_fds w'.trace ≡ remove (pos 8) (open_fds server.trace))
    × InUse w'.st.client_pool [] 0
    × (sfd_of w'.st.client_pool 0 ≡ pos 8)
    × (active_count w'.st ≡ active_count server.st + 1)
take_connection_refused_test =
    take_connection_refused refusing (pos 8) refl 0 [] server one_used-Inv refused refl

-- One connection waits, and it cannot be made non-blocking.
abbrev next_sfd : Trace → ℤ
next_sfd [] = pos 8
next_sfd (_ ∷ _) = negsuc 0

abbrev one_waits : Os
one_waits = record { reply = λ t c. answer (next_sfd t) 11 []; pagesize = 4 }

abbrev connections : Trace → ℕ
connections [] = 1
connections (_ ∷ _) = 0

next_sfd-nonzero : (t : Trace) → is_zero (next_sfd t) ≡ false
next_sfd-nonzero [] = refl
next_sfd-nonzero (_ ∷ _) = refl

one_less :
    (s : ServerPool) (t : Trace)
    → failed (next_sfd t) ≡ false
    → connections
        (take_connection one_waits
          (next_sfd t)
          (accepted one_waits (pos 6) (record { st = s; trace = t }))).1.trace
      < connections t
unfolding take_connection endpoint_unblock endpoint_close
one_less s [] h = omega arith
one_less s (_ ∷ _) h = absurd (cc)

one_waits-Waiting : Waiting one_waits (pos 6) connections
one_waits-Waiting = record { nonzero = next_sfd-nonzero; falls = λ w h. one_less w.st w.trace h }

server_process-Inv_example :
    let (ended, w') = process one_waits 2 (pos 6) 1 server in
    (ended ≡ true) × ((left : List ℕ) × Inv w'.st.client_pool left)
server_process-Inv_example =
    server_process-Inv one_waits (pos 6) connections one_waits-Waiting 2 1 (0 ∷ []) server
      (omega arith) one_used-Inv
