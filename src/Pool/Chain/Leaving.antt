-- ===== src/Pool/Chain/Leaving.antt =====
-- A worker thread of pool.hpp that meets the control event and leaves.
use epoll_server.Base.{
  sym, subst, ℕ, suc, ◌-◌, ◌<◌, ◌≤◌, ◌≡◌, refl, ◌∙◌, true, false, inl, inr, List, ◌∷◌, arith,
  Bool-cases, update, ltb,
}
use epoll_server.Base.Int.{failed}
use epoll_server.Os.{Os, Call, Event, Reply, World}
use epoll_server.Endpoint.{endpoint_read, endpoint_write}
use epoll_server.Epoll.{wait, Epoll, handle_event, selfpipe_events, stopped, leave, wait}
use epoll_server.Epoll
use epoll_server.Epoll.Flags.{ctl_mod}
use epoll_server.Epoll.Interest.{armed, batch, IsOneShot}
use epoll_server.Epoll.Control.{has_control, reported_control}
use epoll_server.Epoll.Wait.{wait_control}
use epoll_server.Epoll.Looping.{waited}
use epoll_server.Epoll.Shutdown.{
  waiting, woken, drained, rearmed, passing, exited, Group, deliver, drain, rearm, pass_on,
  leave_last, write, Run, start, and_then, decremented,
}
use epoll_server.Pool.State.{ClientPool}
use epoll_server.Pool.Handlers.{Callbacks}
use epoll_server.Pool.Lifecycle.{decrement, client_handler, worker}
use epoll_server.Pool.Chain.{
  HasRoom, Shows, Exits, update_at, update_other, read-Shows, rearm-Shows, write-Shows, count-Shows,
  not_failed, take-Shows,
}

module _ (os : Os) (n : ℕ) (e : Epoll) (room : ℕ) (pipe : HasRoom os e room) where
  -- A thread that was woken leaves.
  leave-Run :
      (t : ℕ) (g : Group) (w : World ClientPool)
      → t < n
      → g.at t ≡ woken
      → 0 < g.bytes
      → g.bytes ≤ room
      → Shows e g w
      → let (o, w') = leave os e decrement w in (o ≡ stopped) × Exits n e t g w'
  unfolding leave endpoint_read endpoint_write Epoll.ctl decrement
  leave-Run t g w lt at some_byte few shows =
      elim (Bool-cases (ltb 0 (decremented w.st.thread_count))) [
        | inl more ↦
            rw (not_failed os n e room pipe w_1.trace, more)
              (
                refl,
                record {
                  steps = 4;
                  after = _;
                  run =
                      and_then
                        (and_then r_2 (
                          pass_on t lt (update_at g_1.at t rearmed)
                            (ground (arith, shows.running_eq))))
                        (write t lt (update_at g_2.at t passing));
                  shows =
                      write-Shows os n e room pipe _ _ _ (omega (arith, some_byte, few))
                        (count-Shows os n e room pipe g_2 _ (update g_2.at t passing) shows_2);
                  others = λ u other. rw other refl;
                  running_eq = refl;
                  armed_eq = refl;
                  bytes_eq = rw (shows.running_eq, more) (omega (arith, some_byte));
                  out = update_at (update g_2.at t passing) t exited;
                },
              )
        | inr last ↦
            rw (not_failed os n e room pipe w_1.trace, last)
              (
                refl,
                record {
                  steps = 3;
                  after = _;
                  run = and_then r_2 (
                      leave_last t lt (update_at g_1.at t rearmed)
                        (ground (arith, shows.running_eq)));
                  shows = count-Shows os n e room pipe g_2 _ (update g_2.at t exited) shows_2;
                  others = λ u other. rw other refl;
                  running_eq = refl;
                  armed_eq = refl;
                  bytes_eq = rw (shows.running_eq, last) refl;
                  out = update_at g_2.at t exited;
                },
              )
      ]
    where
      g_1 : Group
      g_1 = record g { bytes = g.bytes - 1; at = update g.at t drained }

      w_1 : World ClientPool
      w_1 = (endpoint_read os e.selfpipe_1 1 w).1

      g_2 : Group
      g_2 = record g_1 { armed = true; at = update g_1.at t rearmed }

      r_2 : Run n g 2 g_2
      r_2 =
          and_then (and_then start (drain t lt at some_byte))
            (rearm t lt (update_at g.at t drained))

      shows_2 : Shows e g_2 (Epoll.ctl os e.epfd ctl_mod e.selfpipe_1 selfpipe_events 0 w_1).1
      shows_2 =
          rearm-Shows os n e room pipe g_1 w_1 g_2.at
            (read-Shows os n e room pipe g w g_1.at some_byte shows)

-- Runs one after the other.
Run-append :
    {n j : ℕ} {g u : Group} {k : ℕ} {v : Group} → Run n g j u → Run n u k v → (i : ℕ) × Run n g i v
Run-append r start = (_, r)
Run-append r (and_then r' st) = let (i, whole) = Run-append r r' in (suc i, and_then whole st)

-- What `worker` does at the control event, where the self-pipe has room for its bytes.
pub worker_lem :
    (os : Os) (h : Callbacks) (event_fuel fuel n t : ℕ) (g : Group) (w : World ClientPool)
    (e : Epoll) (room : ℕ) (events : ℕ) (post : List Event)
    → HasRoom os e room
    → g.bytes ≤ room
    → IsOneShot os e.epfd
    → Shows e g w
    → t < n
    → g.at t ≡ waiting
    → let r = os.reply w.trace (Call.epoll_wait e.epfd e.maxevents) in
      failed r.ret ≡ false
      → r.events ≡ record { events = events; userdata = 0 } ∷ post
      → let (o, w') = worker os h event_fuel (suc fuel) w in (o ≡ stopped) × Exits n e t g w'
unfolding worker
worker_lem os h event_fuel fuel n t g w e room events post pipe few one_shot shows lt at works
      reported =
    let handle = handle_event (client_handler os h event_fuel) in
    subst
      (λ x.
        let (o, w') = wait os x decrement handle (suc fuel) w in (o ≡ stopped) × Exits n e t g w')
      (sym shows.same_epoll)
      (rw (wait_control os e decrement handle fuel events post w works reported)
        (left_last.0, exits))
  where
    r : Reply
    r = os.reply w.trace (Call.epoll_wait e.epfd e.maxevents)

    control : has_control (batch r) ≡ true
    control = rw (works, reported) refl

    some_byte : 0 < g.bytes
    some_byte = omega (arith, shows.bytes_eq, pipe.reports w.trace e.maxevents control)

    is_armed : g.armed ≡ true
    is_armed =
        shows.armed_eq
        ∙ reported_control (batch r) (armed e.epfd w.trace) control
            (one_shot.reports w.trace e.maxevents)

    taken : Group
    taken = record g { armed = false; at = update g.at t woken }

    left_last :
        let (o, w') = leave os e decrement (waited os e w) in (o ≡ stopped) × Exits n e t taken w'
    left_last =
        leave-Run os n e room pipe t taken (waited os e w) lt (update_at g.at t woken) some_byte few
          (take-Shows os n e room pipe g w taken.at control shows)

    exits : Exits n e t g (leave os e decrement (waited os e w)).1
    exits =
        let x = left_last.1 in
        let (i, whole) = Run-append (and_then start (deliver t lt at is_armed some_byte)) x.run in
        record {
          steps = i;
          after = x.after;
          run = whole;
          shows = x.shows;
          out = x.out;
          others = λ u other. x.others u other ∙ update_other g.at t u woken other;
          running_eq = x.running_eq;
          armed_eq = x.armed_eq;
          bytes_eq = x.bytes_eq;
        }
