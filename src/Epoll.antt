-- ===== src/Epoll.antt =====
-- epoll.hpp: an epoll instance with the self-pipe that ends its wait loops. The registered user
-- data of a client is the address of its node, that of a listening socket the descriptor; 0 stands
-- for a null `data.ptr`, which marks the self-pipe.
pub mod Flags
pub mod Lifetime
pub mod Wait
pub mod Ending
pub mod Interest
pub mod Looping
pub mod Control
pub mod Shutdown
pub mod Tests
use epoll_server.Base.{
  ℕ, zero, suc, Bool, Option, none, some, List, [], ◌∷◌, ◌==◌, ltb, if◌then◌else◌,
}
use epoll_server.Base.Int.{ℤ, failed}
use epoll_server.Os.{Os, Call, Event, M, pure, ◌>>=◌, when◌then◌else◌, sys}
use epoll_server.Text.{text}
use epoll_server.Endpoint.{endpoint_read, endpoint_write, endpoint_close}
use Flags.{
  any_of, epollin, epollpri, epollrdhup, epollexclusive, epolloneshot, epollet, ctl_add, ctl_del,
  ctl_mod,
}

-- `epoll<Tderiv>`
pub record Epoll : Type 0 where
  pub selfpipe_0 : ℤ
  pub selfpipe_1 : ℤ
  pub epfd : ℤ
  pub maxevents : ℕ

abbrev pub default_max_events : ℕ
default_max_events = 65536

-- '$'
abbrev pub signal : List ℕ
signal = b'$' ∷ []

abbrev pub selfpipe_events : ℕ
selfpipe_events = any_of (epollin ∷ epollet ∷ epolloneshot ∷ [])

abbrev pub server_events : ℕ
server_events = any_of (epollin ∷ epollet ∷ epollexclusive ∷ [])

abbrev pub client_events : ℕ
client_events = any_of (epollin ∷ epollet ∷ epollrdhup ∷ epollpri ∷ epolloneshot ∷ [])

-- What `epoll` calls of its derived class: `cast` of the user data, and `process`, which says whether
-- it ended within its own fuel.
pub record Derived (S Target : Type 0) : Type 0 where
  pub cast : (userdata : ℕ) → Target
  pub process : Target → (events : ℕ) → M S Bool

-- One event of a batch.
abbrev pub handle_event : {S Target : Type 0} → Derived S Target → (userdata events : ℕ) → M S Bool
handle_event d userdata events = d.process (d.cast userdata) events

-- How a wait loop ends: after a control event, on an error of `epoll_wait`, by the exception, or
-- in the model alone, when the fuel of a loop runs out.
pub data Outcome : Type 0 where
  stopped errored threw out_of_fuel : Outcome

module _ {S : Type 0} (os : Os) where
  -- `detail::ctl`
  unfoldable pub ctl : (epfd : ℤ) → (opcode : ℕ) → (sfd : ℤ) → (events userdata : ℕ) → M S ℤ
  ctl epfd opcode sfd events userdata = do
    r ← sys os (Call.epoll_ctl epfd opcode sfd events userdata)
    pure r.ret

  -- The constructor; `none` where it throws.
  unfoldable pub construct : (maxevents : ℕ) → M S (Option Epoll)
  unfolding ctl
  construct maxevents = do
    instance_fd ← sys os Call.epoll_create
    when failed instance_fd.ret then pure none else do
      pipe ← sys os Call.socketpair
      when failed pipe.ret then pure none else do
        added ← ctl instance_fd.ret ctl_add pipe.pair.1 selfpipe_events 0
        when failed added
            then pure none
            else pure (
                some (record {
                  selfpipe_0 = pipe.pair.0;
                  selfpipe_1 = pipe.pair.1;
                  epfd = instance_fd.ret;
                  maxevents = maxevents;
                }))

  -- The destructor.
  unfoldable pub destruct : Epoll → M S (Unit {0})
  unfolding endpoint_close
  destruct e = do
    _ ← endpoint_close os e.epfd
    _ ← endpoint_close os e.selfpipe_0
    _ ← endpoint_close os e.selfpipe_1
    pure tt

  unfoldable pub remove : Epoll → (sfd : ℤ) → M S ℤ
  unfolding ctl
  remove e sfd = ctl e.epfd ctl_del sfd 0 0

  -- `add(int)`, of a listening socket.
  unfoldable pub add_server : Epoll → (sfd : ℤ) → (userdata : ℕ) → M S ℤ
  unfolding ctl
  add_server e sfd userdata = ctl e.epfd ctl_add sfd server_events userdata

  -- `add(client*)`, of the client at address `userdata`.
  unfoldable pub add_client : Epoll → (sfd : ℤ) → (userdata : ℕ) → M S ℤ
  unfolding ctl
  add_client e sfd userdata = ctl e.epfd ctl_add sfd client_events userdata

  unfoldable pub rearm : Epoll → (sfd : ℤ) → (userdata : ℕ) → M S ℤ
  unfolding ctl
  rearm e sfd userdata = ctl e.epfd ctl_mod sfd client_events userdata

  unfoldable pub close : Epoll → M S (Unit {0})
  unfolding endpoint_write
  close e = do _ ← endpoint_write os e.selfpipe_0 signal; pure tt

  -- The part of `wait` that handles the control event. `decrement` is `--runningInstances`, with
  -- the new value.
  unfoldable pub leave : Epoll → (decrement : M S ℕ) → M S Outcome
  unfolding endpoint_read endpoint_write ctl
  leave e decrement = do
    _ ← endpoint_read os e.selfpipe_1 1
    armed ← ctl e.epfd ctl_mod e.selfpipe_1 selfpipe_events 0
    when failed armed then (do _ ← sys os (Call.perror (text "epoll::wait")); pure threw) else do
      running ← decrement
      when ltb 0 running
          then (do _ ← endpoint_write os e.selfpipe_0 signal; pure stopped)
          else pure stopped

  -- The `for` loop over a batch. `process` says whether it ended within its own fuel. `none` means
  -- that the batch was handled to its end.
  unfoldable pub run_batch :
      Epoll
      → (M S ℕ)
      → (process : (userdata events : ℕ) → M S Bool) → List Event
      → M S (Option Outcome)
  unfolding leave
  run_batch e decrement process [] = pure none
  run_batch e decrement process (ev ∷ evs) =
      when ev.userdata == 0 then (do o ← leave e decrement; pure (some o)) else do
        ended ← process ev.userdata ev.events
        when ended then run_batch e decrement process evs else pure (some out_of_fuel)

  -- `wait`, for at most `fuel` rounds of its outer loop.
  unfoldable pub wait :
      Epoll → (M S ℕ) → (process : (userdata events : ℕ) → M S Bool) → (fuel : ℕ) → M S Outcome
  unfolding run_batch
  wait e decrement process zero = pure out_of_fuel
  wait e decrement process (suc fuel) = do
    r ← sys os (Call.epoll_wait e.epfd e.maxevents)
    when failed r.ret then pure errored else do
      o ← run_batch e decrement process r.events
      elim o [ none ↦ wait e decrement process fuel | some end ↦ pure end ]
