-- ===== src/Pool/Chain.antt =====
-- A worker thread of pool.hpp that meets the control event in `wait` of epoll.hpp, as a part of the
-- shutdown chain of Epoll/Shutdown.
pub mod Leaving
pub mod Ending
pub mod Starting
pub mod Life
pub mod Tests
use epoll_server.Base.{
  ℕ, ◌+◌, ◌-◌, ◌^◌, ◌<◌, ◌≡◌, refl, sym, ap, ◌∙◌, true, false, ◌&&◌, ◌||◌, [], ◌∷◌, arith, ◌==◌,
  if◌then◌else◌, All, update, ltb,
}
use epoll_server.Base.Int.{pos, failed, ◌==ℤ◌, ==ℤ_refl}
use epoll_server.Os.{Os, Call, Trace, World}
use epoll_server.Endpoint.{endpoint_read, endpoint_write}
use epoll_server.Epoll.{Epoll, signal, selfpipe_events, wait}
use epoll_server.Epoll
use epoll_server.Epoll.Flags.{ctl_mod}
use epoll_server.Epoll.Interest.{All-drop_fd, All-disarm_all, armed, batch, has_entry}
use epoll_server.Epoll.Control.{has_control, PipeOnce, control_disarmed}
use epoll_server.Epoll.Looping.{waited}
use epoll_server.Epoll.Shutdown.{Worker, exited, Group, Step, call_close, write, Run, decremented}
use epoll_server.Pool.State.{ClientPool}
use epoll_server.Pool.Lifecycle.{decrement}

-- The bytes that stand in the self-pipe, by the history.
abbrev pub pipe_bytes : Epoll → Trace → ℕ
pipe_bytes e [] = 0
pipe_bytes e ((Call.socketpair, r) ∷ t) = if r.pair.1 ==ℤ e.selfpipe_1 then 0 else pipe_bytes e t
pipe_bytes e ((Call.send fd bytes, r) ∷ t) =
    if (fd ==ℤ e.selfpipe_0) && (r.ret ==ℤ pos 1) then pipe_bytes e t + 1 else pipe_bytes e t
pipe_bytes e ((Call.recv fd len oob, r) ∷ t) =
    if (fd ==ℤ e.selfpipe_1) && (r.ret ==ℤ pos 1) then pipe_bytes e t - 1 else pipe_bytes e t
pipe_bytes e (_ ∷ t) = pipe_bytes e t

-- What a kernel does for the self-pipe: a read takes the byte that is there, a write and a change of
-- the registration succeed, and the control event is reported only while there is a byte.
pub record HasPipe (os : Os) (e : Epoll) : Type 0 where
  pub reads :
      (t : Trace) → 0 < pipe_bytes e t → (os.reply t (Call.recv e.selfpipe_1 1 false)).ret ≡ pos 1
  pub writes : (t : Trace) → (os.reply t (Call.send e.selfpipe_0 signal)).ret ≡ pos 1
  pub rearms :
      (t : Trace)
      → (os.reply t (Call.epoll_ctl e.epfd ctl_mod e.selfpipe_1 selfpipe_events 0)).ret ≡ pos 0
  pub reports :
      (t : Trace) (maxevents : ℕ)
      → has_control (batch (os.reply t (Call.epoll_wait e.epfd maxevents))) ≡ true
      → 0 < pipe_bytes e t

-- The same, where a write need succeed only while fewer than `room` bytes stand in the self-pipe.
pub record HasRoom (os : Os) (e : Epoll) (room : ℕ) : Type 0 where
  pub reads :
      (t : Trace) → 0 < pipe_bytes e t → (os.reply t (Call.recv e.selfpipe_1 1 false)).ret ≡ pos 1
  pub writes :
      (t : Trace) → pipe_bytes e t < room → (os.reply t (Call.send e.selfpipe_0 signal)).ret ≡ pos 1
  pub rearms :
      (t : Trace)
      → (os.reply t (Call.epoll_ctl e.epfd ctl_mod e.selfpipe_1 selfpipe_events 0)).ret ≡ pos 0
  pub reports :
      (t : Trace) (maxevents : ℕ)
      → has_control (batch (os.reply t (Call.epoll_wait e.epfd maxevents))) ≡ true
      → 0 < pipe_bytes e t

pub HasPipe-HasRoom : (os : Os) (e : Epoll) (room : ℕ) → HasPipe os e → HasRoom os e room
HasPipe-HasRoom os e room pipe = record {
  reads = pipe.reads;
  writes = λ t few. pipe.writes t;
  rearms = pipe.rearms;
  reports = pipe.reports;
}

-- A state of the chain shows what the pool and the history are: the bytes in the self-pipe, whether
-- it is armed, and `threadCount_`. The registration of the self-pipe is one-shot.
pub record Shows (e : Epoll) (g : Group) (w : World ClientPool) : Type 0 where
  pub same_epoll : w.st.epoll ≡ e
  pub bytes_eq : g.bytes ≡ pipe_bytes e w.trace
  pub armed_eq : g.armed ≡ has_entry 0 (armed e.epfd w.trace)
  pub running_eq : g.running ≡ w.st.thread_count
  pub once : All PipeOnce (armed e.epfd w.trace)

-- The chain goes on by some steps to a state that shows the world, in which the thread is out, the
-- others are where they were, and the self-pipe is armed and holds its bytes, but for one if no
-- thread is left.
pub record Exits (n : ℕ) (e : Epoll) (t : ℕ) (g : Group) (w : World ClientPool) : Type 0 where
  pub steps : ℕ
  pub after : Group
  pub run : Run n g steps after
  pub shows : Shows e after w
  pub out : after.at t ≡ exited
  pub others : (u : ℕ) → (t == u) ≡ false → after.at u ≡ g.at u
  pub running_eq : after.running ≡ decremented g.running
  pub armed_eq : after.armed ≡ true
  pub bytes_eq : after.bytes ≡ (if ltb 0 after.running then g.bytes else g.bytes - 1)

pub update_at : (f : ℕ → Worker) (t : ℕ) (a : Worker) → update f t a t ≡ a
update_at f t a = ground arith

pub update_other : (f : ℕ → Worker) (t u : ℕ) (a : Worker) → (t == u) ≡ false → update f t a u ≡ f u
update_other f t u a other = ground (arith, other)

module _ (os : Os) (n : ℕ) (e : Epoll) (room : ℕ) (pipe : HasRoom os e room) where
  -- `close`
  pub close-Shows :
      (g : Group) (w : World ClientPool)
      → g.called ≡ false
      → g.bytes < room
      → Shows e g w
      → let g' : Group = record g { bytes = g.bytes + 1; called = true } in
        Step n g g' × Shows e g' (Epoll.close os e w).1
  unfolding Epoll.close endpoint_write
  close-Shows g w uncalled few shows = (
    call_close uncalled,
    record {
      same_epoll = shows.same_epoll;
      bytes_eq =
          rw (==ℤ_refl e.selfpipe_0, pipe.writes w.trace (rw shows.bytes_eq at few))
            (ap (λ b. b + 1) shows.bytes_eq);
      armed_eq = shows.armed_eq;
      running_eq = shows.running_eq;
      once = shows.once;
    },
  )

  -- The read, the change of the registration and the write of a thread that leaves.
  pub read-Shows :
      (g : Group) (w : World ClientPool) (at : ℕ → Worker)
      → 0 < g.bytes
      → Shows e g w
      → Shows e (record g { bytes = g.bytes - 1; at = at }) (endpoint_read os e.selfpipe_1 1 w).1
  unfolding endpoint_read
  read-Shows g w at some_byte shows = record {
    same_epoll = shows.same_epoll;
    bytes_eq =
        rw (==ℤ_refl e.selfpipe_1, pipe.reads w.trace (rw shows.bytes_eq at some_byte))
          (ap (λ b. b - 1) shows.bytes_eq);
    armed_eq = shows.armed_eq;
    running_eq = shows.running_eq;
    once = shows.once;
  }

  pub rearm-Shows :
      (g : Group) (w : World ClientPool) (at : ℕ → Worker)
      → Shows e g w
      → Shows e
          (record g { armed = true; at = at })
          (Epoll.ctl os e.epfd ctl_mod e.selfpipe_1 selfpipe_events 0 w).1
  unfolding Epoll.ctl
  rearm-Shows g w at shows = record {
    same_epoll = shows.same_epoll;
    bytes_eq = shows.bytes_eq;
    armed_eq = rw (==ℤ_refl e.epfd, pipe.rearms w.trace) refl;
    running_eq = shows.running_eq;
    once =
        rw (==ℤ_refl e.epfd, pipe.rearms w.trace)
          (((λ h. refl), All-drop_fd PipeOnce e.selfpipe_1 _ shows.once));
  }

  pub write-Shows :
      (g : Group) (w : World ClientPool) (at : ℕ → Worker)
      → g.bytes < room
      → Shows e g w
      → Shows e
          (record g { bytes = g.bytes + 1; at = at })
          (endpoint_write os e.selfpipe_0 signal w).1
  unfolding endpoint_write
  write-Shows g w at few shows = record {
    same_epoll = shows.same_epoll;
    bytes_eq =
        rw (==ℤ_refl e.selfpipe_0, pipe.writes w.trace (rw shows.bytes_eq at few))
          (ap (λ b. b + 1) shows.bytes_eq);
    armed_eq = shows.armed_eq;
    running_eq = shows.running_eq;
    once = shows.once;
  }

  pub count-Shows :
      (g : Group) (w : World ClientPool) (at : ℕ → Worker)
      → Shows e g w
      → Shows e (record g { running = decremented g.running; at = at }) (decrement w).1
  unfolding decrement
  count-Shows g w at shows = record {
    same_epoll = shows.same_epoll;
    bytes_eq = shows.bytes_eq;
    armed_eq = shows.armed_eq;
    running_eq = ap decremented shows.running_eq;
    once = shows.once;
  }

  pub not_failed :
      (t : Trace)
      → failed (os.reply t (Call.epoll_ctl e.epfd ctl_mod e.selfpipe_1 selfpipe_events 0)).ret
        ≡ false
  not_failed t = rw (pipe.rearms t) refl

  -- A wait that reports the control event.
  pub take-Shows :
      (g : Group) (w : World ClientPool) (at : ℕ → Worker)
      → has_control (batch (os.reply w.trace (Call.epoll_wait e.epfd e.maxevents))) ≡ true
      → Shows e g w
      → Shows e (record g { armed = false; at = at }) (waited os e w)
  take-Shows g w at control shows = record {
    same_epoll = shows.same_epoll;
    bytes_eq = shows.bytes_eq;
    armed_eq = rw (==ℤ_refl e.epfd) (
        sym (
          control_disarmed (batch (os.reply w.trace (Call.epoll_wait e.epfd e.maxevents)))
            (armed e.epfd w.trace) control shows.once));
    running_eq = shows.running_eq;
    once = rw (==ℤ_refl e.epfd) (
        All-disarm_all PipeOnce (batch (os.reply w.trace (Call.epoll_wait e.epfd e.maxevents)))
          (armed e.epfd w.trace) shows.once);
  }
