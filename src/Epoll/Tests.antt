-- ===== src/Epoll/Tests.antt =====
-- Tests of epoll.hpp: its descriptors and its wait loop.
use epoll_server.Base.{
  ℕ, ◌≡◌, ◌≢◌, refl, Bool, true, some, List, [], ◌∷◌, ◌++◌, arith, ◌≤◌, ◌||◌, length, if◌then◌else◌,
}
use epoll_server.Base.Int.{pos, failed}
use epoll_server.Os.{Os, Event, Trace, M, pure}
use epoll_server.Os.Descriptors.{open_fds}
use epoll_server.Os.Samples.{answer, working, fresh}
use epoll_server.Epoll.{Epoll, out_of_fuel, construct, destruct, leave, run_batch, wait}
use epoll_server.Epoll.Lifetime.{construct-open_fds, destruct-construct}
use epoll_server.Epoll.Wait.{process_all, run_batch_control}
use epoll_server.Epoll.Control.{has_control}
use epoll_server.Epoll.Ending.{IsTold, Handles, wait_stops}

construct-open_fds_test : open_fds (construct working 9 fresh).1.trace ≡ pos 4 ∷ pos 5 ∷ pos 3 ∷ []
construct-open_fds_test = construct-open_fds working 9 fresh

abbrev made : Epoll
made = record { selfpipe_0 = pos 4; selfpipe_1 = pos 5; epfd = pos 3; maxevents = 9 }

construct-working : (construct working 9 fresh).0 ≡ some made
unfolding construct
construct-working = refl

destruct-construct_example :
    open_fds (destruct working made (construct working 9 fresh).1).1.trace ≡ []
destruct-construct_example = destruct-construct working 9 fresh construct-working refl refl

abbrev last_thread : M (Unit {0}) ℕ
last_thread = pure 0

abbrev ignored : (userdata events : ℕ) → M (Unit {0}) Bool
ignored userdata events = pure true

abbrev plain : Event
plain = record { events = 1; userdata = 7 }

abbrev control : Event
control = record { events = 1; userdata = 0 }

run_batch_control_example :
    run_batch working made last_thread ignored ((plain ∷ []) ++ control ∷ plain ∷ []) fresh ≡ (
      let (ended, w') = process_all working made last_thread ignored (plain ∷ []) fresh in
      if ended
      then (let (o, w'') = leave working made last_thread w' in (some o, w''))
      else (some out_of_fuel, w'))
run_batch_control_example =
    run_batch_control working made last_thread ignored (plain ∷ []) (plain ∷ []) control fresh
      (refl, tt) refl

-- The first call reports an event of a client, the later ones the control event.
abbrev reports : Trace → List Event
reports [] = plain ∷ []
reports (_ ∷ _) = control ∷ []

abbrev two_batches : Os
two_batches = record { reply = λ t c. answer (pos 1) 0 (reports t); pagesize = 4 }

-- From the first call on, every wait reports the control event.
two_batches-IsTold : IsTold two_batches made 1
two_batches-IsTold = record {
  told = λ t late.
      elim t as (λ t. 1 ≤ length t → (failed (pos 1) || has_control (reports t)) ≡ true) [
        | [] ↦ λ late. absurd (omega (arith, late))
        | c ∷ t ↦ λ late. refl
      ]
        late;
}

ignored-Handles : Handles ignored
ignored-Handles = record {
  ends = λ userdata events w. refl;
  extends = λ userdata events w. omega arith;
}

wait_stops_example : (wait two_batches made last_thread ignored 2 fresh).0 ≢ out_of_fuel
wait_stops_example =
    wait_stops two_batches made last_thread ignored ignored-Handles 1 fresh two_batches-IsTold
