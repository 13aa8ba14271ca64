-- ===== src/Pool/Samples.antt =====
-- Test data for pool.hpp: a pool of two nodes.
use epoll_server.Base.{
  ℕ, refl, true, false, Option, none, some, [], ◌∷◌, arith, ◌==◌, if◌then◌else◌,
}
use epoll_server.Base.Int.{pos}
use epoll_server.Os.{World}
use epoll_server.Pool.State.{Client, no_client, ClientPool}
use epoll_server.Pool.Handlers.{Callbacks}
use epoll_server.Pool.Dispatch.{Events}
use epoll_server.Pool.Invariant.{Inv}

-- `count` nodes are in use; the top of the stack and the descriptors are as given.
abbrev pub pool : ℕ → Option ℕ → (ℕ → Client) → ClientPool
pool count top clients = record {
  epoll = record { selfpipe_0 = pos 4; selfpipe_1 = pos 5; epfd = pos 3; maxevents = 9 };
  worker_count = 1;
  client_cap = 2;
  client_count = count;
  free_mem = record {
    head = top;
    capacity = 2;
    buffer = some (pos 9);
    next = λ i. if i == 1 then some 0 else none;
    value = clients;
  };
  threads = 1;
  thread_count = 1;
}

-- Node 1 holds descriptor 7.
abbrev pub one_used : World ClientPool
one_used = record {
  st = pool 1 (some 0) (λ i. if i == 1 then record { sfd = pos 7 } else no_client);
  trace = [];
}

abbrev pub full : World ClientPool
full = record { st = pool 2 none (λ i. record { sfd = pos 7 }); trace = [] }

pub one_used-Inv : Inv one_used.st (0 ∷ [])
one_used-Inv = record {
  holds = record { chain = (refl, refl); distinct = (refl, tt) };
  in_buffer = λ i h. ground arith;
  no_sfd = λ i lt. ground arith;
  counted = refl;
  small = omega arith;
}

pub full-Inv : Inv full.st []
full-Inv = record {
  holds = record { chain = refl; distinct = tt };
  in_buffer = λ i h. cc;
  no_sfd = λ i lt. refl;
  counted = refl;
  small = omega arith;
}

-- Callbacks that do nothing.
abbrev pub quiet : Callbacks
quiet = record {
  on_input = λ sfd bytes datalen t. t;
  on_oob = λ sfd oobdata t. t;
  on_write_ready = λ sfd t. t;
}

abbrev pub readable : Events
readable = record {
  input = true;
  urgent = false;
  output = false;
  error = false;
  hup = false;
  rdhup = false;
}

abbrev pub shut_down : Events
shut_down = record readable { hup = true; rdhup = true }
