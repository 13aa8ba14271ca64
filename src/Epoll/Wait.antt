-- ===== src/Epoll/Wait.antt =====
-- The wait loop of epoll.hpp: batches in order up to the control event, and an end.
use epoll_server.Base.{
  ℕ, zero, suc, ◌<◌, ◌≡◌, ◌≢◌, refl, Bool, true, false, none, some, List, [], ◌∷◌, ◌++◌, arith,
  ◌==◌, if◌then◌else◌, All,
}
use epoll_server.Base.Int.{failed}
use epoll_server.Os.{Os, Call, Event, Reply, World, M, pure, ◌>>=◌, when◌then◌else◌}
use epoll_server.Epoll.{Epoll, Outcome, out_of_fuel, leave, run_batch, wait}

-- A batch with no control event.
abbrev pub IsPlain : List Event → Type 0
IsPlain = All (λ (ev : Event). (ev.userdata == 0) ≡ false)

module _ {S : Type 0} (os : Os) (e : Epoll) (decrement : M S ℕ)
    (process : (userdata events : ℕ) → M S Bool) where
  -- The specification of a batch: every event in order, as long as handling ends.
  pub process_all : List Event → M S Bool
  process_all [] = pure true
  process_all (ev ∷ evs) = do
    ended ← process ev.userdata ev.events
    when ended then process_all evs else pure false

  -- A batch with no control event is handled whole.
  run_batch_plain :
      (evs : List Event) (w : World S)
      → IsPlain evs
      → run_batch os e decrement process evs w
        ≡ (let (ended, w') = process_all evs w in (if ended then none else some out_of_fuel, w'))
  unfolding run_batch process_all
  run_batch_plain [] w h = refl
  run_batch_plain (ev ∷ evs) w h =
      ground (arith, run_batch_plain evs (process ev.userdata ev.events w).1 h.1)

  -- In a batch with a control event, the events before the first one are handled in order, then the
  -- thread leaves, whatever stands behind: those events are dropped.
  pub run_batch_control :
      (pre post : List Event) (c : Event) (w : World S)
      → IsPlain pre
      → c.userdata ≡ 0
      → run_batch os e decrement process (pre ++ c ∷ post) w ≡ (
          let (ended, w') = process_all pre w in
          if ended
          then (let (o, w'') = leave os e decrement w' in (some o, w''))
          else (some out_of_fuel, w'))
  unfolding run_batch process_all
  run_batch_control [] post c w h z = ground arith
  run_batch_control (ev ∷ evs) post c w h z =
      ground (arith, run_batch_control evs post c (process ev.userdata ev.events w).1 h.1 z)

  leaves_batch :
      (events : ℕ) (post evs : List Event) (v : World S) (again : World S → Outcome × World S)
      → evs ≡ record { events = events; userdata = 0 } ∷ post
      → let (o, v') = run_batch os e decrement process evs v in
        (elim o as (λ _. World S → Outcome × World S) [ none ↦ again | some end ↦ pure end ] v')
        ≡ leave os e decrement v
  unfolding run_batch
  leaves_batch events post evs v again reported = rw reported refl

  -- A wait that reports a batch that begins with the control event ends the loop.
  pub wait_control :
      (fuel events : ℕ) (post : List Event) (w : World S)
      → let c = Call.epoll_wait e.epfd e.maxevents in
        let r = os.reply w.trace c in
        failed r.ret ≡ false
        → r.events ≡ record { events = events; userdata = 0 } ∷ post
        → wait os e decrement process (suc fuel) w
          ≡ leave os e decrement (record w { trace = (c, r) ∷ w.trace })
  unfolding wait
  wait_control fuel events post w works reported =
      let c = Call.epoll_wait e.epfd e.maxevents in
      let r = os.reply w.trace c in
      rw works (
        leaves_batch events post r.events (record w { trace = (c, r) ∷ w.trace })
          (wait os e decrement process fuel) reported)

  -- What the environment owes the loop: the handlers end, and `measure` counts the rounds that are
  -- left until `epoll_wait` fails or delivers the control event.
  pub record WillStop (measure : World S → ℕ) : Type 0 where
    pub handled : (userdata events : ℕ) (w : World S) → (process userdata events w).0 ≡ true
    pub falls :
        (w : World S)
        → let r = os.reply w.trace (Call.epoll_wait e.epfd e.maxevents) in
          let w' : World S = record w {
            trace = (Call.epoll_wait e.epfd e.maxevents, r) ∷ w.trace;
          } in
          failed r.ret ≡ false
          → (run_batch os e decrement process r.events w').0 ≡ none
          → measure (run_batch os e decrement process r.events w').1 < measure w

  leave_ends : (w : World S) → (leave os e decrement w).0 ≢ out_of_fuel
  unfolding leave
  leave_ends w h = ground arith

  run_batch_ends :
      (evs : List Event) (w : World S)
      → ((userdata events : ℕ) (v : World S) → (process userdata events v).0 ≡ true)
      → (run_batch os e decrement process evs w).0 ≢ some out_of_fuel
  unfolding run_batch
  run_batch_ends [] w ends h = cc
  run_batch_ends (ev ∷ evs) w ends h = ground (
    arith,
    leave_ends w,
    ends ev.userdata ev.events w,
    run_batch_ends evs (process ev.userdata ev.events w).1 ends,
  )

  -- Where each event is handled within its fuel, and a measure of the history falls with each batch
  -- that has no control event: with more fuel than the measure, the loop of `wait` ends by itself,
  -- after the control event, by the exception, or on an error of `epoll_wait`.
  pub wait_ends :
      (measure : World S → ℕ)
      → WillStop measure
      → (fuel : ℕ) (w : World S) → measure w < fuel
      → (wait os e decrement process fuel w).0 ≢ out_of_fuel
  unfolding wait
  wait_ends measure stop zero w lt h = omega arith
  wait_ends measure stop (suc fuel) w lt h = ground (
    arith,
    stop.falls w,
    run_batch_ends r.events w' stop.handled,
    wait_ends measure stop fuel (run_batch os e decrement process r.events w').1,
  )
    where
      r : Reply
      r = os.reply w.trace (Call.epoll_wait e.epfd e.maxevents)

      w' : World S
      w' = record w { trace = (Call.epoll_wait e.epfd e.maxevents, r) ∷ w.trace }
