-- ===== src/Pool/Serving.antt =====
-- The workers of pool.hpp at their clients: a wait takes the reported events off the epoll
-- instance, and each is handled some time later, by the thread that took it.
pub mod Pending
pub mod Invariant
pub mod Steps
pub mod Adding
pub mod Leaving
pub mod Safety
pub mod Starting
pub mod Life
pub mod Workers
pub mod Samples
pub mod Tests
use epoll_server.Base.{ℕ, zero, suc, ◌≡◌, false, List, [], ◌∷◌, ◌++◌}
use epoll_server.Base.Int.{ℤ, is_zero}
use epoll_server.Os.{Os, Call, Event, World}
use epoll_server.Epoll.{leave}
use epoll_server.Epoll.Interest.{batch}
use epoll_server.Pool.State.{ClientPool, add_client}
use epoll_server.Pool.Handlers.{Callbacks}
use epoll_server.Pool.Process.{process}
use epoll_server.Pool.Lifecycle.{decrement}

-- The pool with the history, and the events that were reported to some thread and are not handled
-- yet, each a client and a mask.
pub record Serving : Type 0 where
  pub world : World ClientPool
  pub pending : List (ℕ × ℕ)

-- An event with its user data; 0 is the self-pipe, no client.
abbrev pub add_event : (userdata events : ℕ) → List (ℕ × ℕ) → List (ℕ × ℕ)
add_event zero events ps = ps
add_event (suc cl) events ps = (cl, events) ∷ ps

-- The events of clients in a batch, before those that are pending.
abbrev pub add_reported : List Event → List (ℕ × ℕ) → List (ℕ × ℕ)
add_reported [] ps = ps
add_reported (ev ∷ evs) ps = add_event ev.userdata ev.events (add_reported evs ps)

-- A wait of some thread, up to the return of `epoll_wait`.
abbrev pub take_batch : Os → (maxevents : ℕ) → Serving → Serving
take_batch os maxevents s =
    let c = Call.epoll_wait s.world.st.epoll.epfd maxevents in
    let r = os.reply s.world.trace c in
    record {
      world = record s.world { trace = (c, r) ∷ s.world.trace };
      pending = add_reported (batch r) s.pending;
    }

-- The server's thread adds a connection (with a descriptor that is not 0), a worker takes a batch
-- of events, a worker handles one of the events that are pending, or a worker leaves, and events
-- that it has taken are dropped. Any number of workers is covered, as the order is left open.
pub data Step (os : Os) (h : Callbacks) (s : Serving) : Serving → Type 0 where
  added :
      (sfd : ℤ)
      → is_zero sfd ≡ false
      → Step os h s (record s { world = (add_client os sfd s.world).1 })
  waited : (maxevents : ℕ) → Step os h s (take_batch os maxevents s)
  handled :
      (fuel cl flags : ℕ) (pre post : List (ℕ × ℕ))
      → s.pending ≡ pre ++ (cl, flags) ∷ post
      → Step os h s
          (record { world = (process os h fuel cl flags s.world).1; pending = pre ++ post })
  left :
      (pre gone post : List (ℕ × ℕ))
      → s.pending ≡ pre ++ (gone ++ post)
      → Step os h s (record {
        world = (leave os s.world.st.epoll decrement s.world).1;
        pending = pre ++ post;
      })

pub data Reach (os : Os) (h : Callbacks) (s : Serving) : Serving → Type 0 where
  here : Reach os h s s
  next : {u v : Serving} → Reach os h s u → Step os h u v → Reach os h s v
