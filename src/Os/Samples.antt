-- ===== src/Os/Samples.antt =====
-- Systems with fixed answers, for the tests of the components.
use epoll_server.Base.{ℕ, List, []}
use epoll_server.Base.Int.{ℤ, pos, negsuc}
use epoll_server.Os.{Event, Reply, Os, World}

abbrev pub answer : ℤ → ℕ → List Event → Reply
answer ret errno events = record {
  ret = ret;
  errno = errno;
  value = 0;
  pair = (pos 4, pos 5);
  bytes = [];
  events = events;
}

-- Every call returns 3.
abbrev pub working : Os
working = record { reply = λ t c. answer (pos 3) 0 []; pagesize = 4 }

-- Every call fails with EAGAIN.
abbrev pub blocked : Os
blocked = record { reply = λ t c. answer (negsuc 0) 11 []; pagesize = 4 }

abbrev pub fresh : World (Unit {0})
fresh = record { st = tt; trace = [] }
