-- ===== src/Load/Tests.antt =====
-- Tests of the load generator's worker (test-client/work.cpp).
use epoll_server.Base.{◌≡◌, refl, Bool, true, false, [], ◌∷◌, if◌then◌else◌, arith, ltb, length}
use epoll_server.Base.Int.{ℤ, pos}
use epoll_server.Os.{Os, Call, Trace, World}
use epoll_server.Os.Descriptors.{open_fds}
use epoll_server.Os.Samples.{answer}
use epoll_server.Text.{text}
use epoll_server.Load.{Work, worker}
use epoll_server.Load.Told.{IsTold}
use epoll_server.Load.Stopping.{worker_ends}
use epoll_server.Load.Sockets.{worker-open_fds}

abbrev sample : World Work
sample = record {
  st = record {
    message = [];
    run = true;
    thread = 0;
    ip = text "127.0.0.1";
    port = pos 8090;
    log = record {
      index = pos 0;
      sent = pos 0;
      sent_bytes = pos 0;
      recv_good = pos 0;
      recv_good_bytes = pos 0;
      recv_bad = pos 0;
      recv_bad_bytes = pos 0;
    };
  };
  trace = [];
}

-- The socket is 5, and all else returns 0.
abbrev result : Call → ℤ
result (Call.socket _) = pos 5
result _ = pos 0

abbrev answering : Os
answering = record { reply = λ t c. answer (result c) 0 []; pagesize = 4 }

-- Told to stop at once.
abbrev never : Trace → Bool
never t = false

worker-open_fds_example :
    let (ended, w') = worker answering never 1 1 sample in
    open_fds w'.trace ≡ (if ended then [] else pos 5 ∷ [])
worker-open_fds_example = worker-open_fds answering never 1 1 sample refl

-- Told to stop at the ninth call.
abbrev for_nine : Trace → Bool
for_nine t = ltb (length t) 9

for_nine-IsTold : IsTold for_nine 9
for_nine-IsTold t h = ground arith

worker_ends_test : (worker answering for_nine 10 10 sample).0 ≡ true
worker_ends_test = worker_ends answering for_nine 9 sample for_nine-IsTold
