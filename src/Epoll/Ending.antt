-- ===== src/Epoll/Ending.antt =====
-- The wait loop of epoll.hpp ends once it is told to: on an error of `epoll_wait`, or by the control
-- event, wherever that stands in its batch.
use epoll_server.Base.{
  ℕ, suc, ◌-◌, ◌≤◌, ◌<◌, ◌≡◌, ◌≢◌, refl, inl, inr, Bool, true, false, ◌||◌, none, List, [], ◌∷◌,
  arith, ◌==◌, Bool-cases, length,
}
use native.Mathlib.Decide.{dec_lt}
use epoll_server.Base.Int.{failed}
use epoll_server.Os.{Os, Call, Event, Trace, World, M}
use epoll_server.Epoll.{Epoll, out_of_fuel, run_batch, wait}
use epoll_server.Epoll.Control.{has_control}
use epoll_server.Epoll.Wait.{wait_ends}

-- From the n-th call of the history on, a wait fails or its batch has the control event.
pub record IsTold (os : Os) (e : Epoll) (n : ℕ) : Type 0 where
  pub told :
      (t : Trace)
      → n ≤ length t
      → let r = os.reply t (Call.epoll_wait e.epfd e.maxevents) in
        (failed r.ret || has_control r.events) ≡ true

-- `process` of the derived class ends, and forgets no call.
pub record Handles {S : Type 0} (process : (userdata events : ℕ) → M S Bool) : Type 0 where
  pub ends : (userdata events : ℕ) (w : World S) → (process userdata events w).0 ≡ true
  pub extends :
      (userdata events : ℕ) (w : World S)
      → length w.trace ≤ length (process userdata events w).1.trace

module _ {S : Type 0} (os : Os) (e : Epoll) (decrement : M S ℕ)
    (process : (userdata events : ℕ) → M S Bool) (handles : Handles process) where
  -- A batch that was handled to its end has no control event, and the history is no shorter.
  run_batch-none :
      (evs : List Event) (w : World S)
      → let (o, w') = run_batch os e decrement process evs w in
        o ≡ none → (has_control evs ≡ false) × (length w.trace ≤ length w'.trace)
  unfolding run_batch
  run_batch-none [] w h = (refl, omega arith)
  run_batch-none (ev ∷ evs) w h = elim (Bool-cases (ev.userdata == 0)) [
    | inl control ↦ absurd (ground (arith, control, h))
    | inr plain ↦
        let w' = (process ev.userdata ev.events w).1 in
        let ended = handles.ends ev.userdata ev.events w in
        let (no_control, longer) = run_batch-none evs w' (rw (plain, ended) at h) in
        rw (plain, ended)
          (no_control, omega (arith, longer, handles.extends ev.userdata ev.events w))
  ]

  -- Where `process` ends on every event and the history only grows: once the history has n calls, let
  -- each `epoll_wait` fail or report the control event, among any other events. Then `wait` ends by
  -- itself: it makes at most n + 1 rounds from the start, whatever is reported before.
  pub wait_stops :
      (n : ℕ) (w : World S)
      → IsTold os e n
      → (wait os e decrement process (suc n) w).0 ≢ out_of_fuel
  wait_stops n w is_told =
      wait_ends os e decrement process (λ w. n - length w.trace)
        (record { handled = handles.ends; falls = falls }) (suc n) w (omega arith)
    where
      falls :
          (w : World S)
          → let r = os.reply w.trace (Call.epoll_wait e.epfd e.maxevents) in
            let w' : World S = record w {
              trace = (Call.epoll_wait e.epfd e.maxevents, r) ∷ w.trace;
            } in
            failed r.ret ≡ false
            → (run_batch os e decrement process r.events w').0 ≡ none
            → n - length (run_batch os e decrement process r.events w').1.trace < n - length w.trace
      falls w works goes_on =
          let c = Call.epoll_wait e.epfd e.maxevents in
          let r = os.reply w.trace c in
          let (no_control, longer) =
            run_batch-none r.events (record w { trace = (c, r) ∷ w.trace }) goes_on in
          elim (dec_lt (length w.trace) n) [
            | yes early ↦ omega (arith, early, longer)
            | no late ↦
                absurd (ground (arith, is_told.told w.trace (omega arith), works, no_control))
          ]
