-- ===== src/Pool/Chain/Tests.antt =====
-- Tests of the shutdown of the threads of pool.hpp, of one worker and of a pool of two.
use epoll_server.Base.{ℕ, suc, ◌+◌, Bool, true, ◌&&◌, List, [], ◌∷◌, ltb, if◌then◌else◌}
use epoll_server.Base.Int.{ℤ, pos, negsuc}
use epoll_server.Os.{Os, Call, Reply, Trace, World}
use epoll_server.Os.Descriptors.{open_fds}
use epoll_server.Os.Samples.{answer, fresh}
use epoll_server.Epoll
use epoll_server.Epoll.{Epoll, signal, selfpipe_events}
use epoll_server.Epoll.Flags.{epollin, ctl_add}
use epoll_server.Epoll.Interest.{armed, has_entry}
use epoll_server.Epoll.Shutdown.{Group, started}
use epoll_server.Pool.State.{no_client, ClientPool}
use epoll_server.Pool.Samples.{one_used}
use epoll_server.Pool.Lifecycle.{Built, built, runtime_error, bad_alloc, construct, run}
use epoll_server.Pool.Chain.{pipe_bytes}

abbrev with_pipe : (maxevents : ℕ) → Epoll
with_pipe maxevents = record {
  selfpipe_0 = pos 4;
  selfpipe_1 = pos 5;
  epfd = pos 3;
  maxevents = maxevents;
}

-- Whether the self-pipe is armed and holds a byte.
abbrev is_ready : Trace → Bool
is_ready t = ltb 0 (pipe_bytes (with_pipe 9) t) && has_entry 0 (armed (pos 3) t)

-- A number above all that are not negative.
abbrev above : List ℤ → ℕ
above [] = 6
above (pos n ∷ xs) = n + suc (above xs)
above (negsuc n ∷ xs) = above xs

-- The self-pipe works, a new file has a new descriptor, and all else succeeds.
abbrev respond : Trace → Call → Reply
respond t (Call.epoll_wait e n) =
    answer (pos 1) 0 (if is_ready t then record { events = epollin; userdata = 0 } ∷ [] else [])
respond t (Call.recv _ _ _) = answer (pos 1) 0 []
respond t (Call.send _ _) = answer (pos 1) 0 []
respond t Call.epoll_create = answer (pos 3) 0 []
respond t Call.memfd_create = answer (pos (above (open_fds t))) 0 []
respond t _ = answer (pos 0) 0 []

abbrev piped : Os
piped = record { reply = respond; pagesize = 4 }

abbrev new_pool : Built ClientPool × World (Unit {0})
new_pool = construct piped 2 5 (λ i. no_client) 0 fresh

abbrev pool_or : Built ClientPool → ClientPool
pool_or (built p) = p
pool_or runtime_error = one_used.st
pool_or bad_alloc = one_used.st

abbrev threads : ClientPool
threads = pool_or new_pool.0

abbrev begun : World ClientPool
begun = record { st = run threads; trace = new_pool.1.trace }

-- The self-pipe was registered, and `close` was called.
abbrev signalled : World ClientPool
signalled = record one_used {
  trace =
      (Call.send (pos 4) signal, answer (pos 1) 0 [])
      ∷ (Call.epoll_ctl (pos 3) ctl_add (pos 5) selfpipe_events 0, answer (pos 0) 0 [])
      ∷ [];
}

abbrev closed : Group
closed = record (started 1) { bytes = 1; called = true }
