-- ===== src/Epoll/Looping.antt =====
-- A rule for the wait loop of epoll.hpp: what holds wherever a thread may end it.
use epoll_server.Base.{
  ℕ, zero, suc, ◌≡◌, Bool, false, inl, inr, Option, none, some, List, [], ◌∷◌, ◌==◌, arith,
  Bool-cases,
}
use epoll_server.Base.Int.{failed}
use epoll_server.Os.{Os, Call, Event, World, M}
use epoll_server.Epoll.{Epoll, Outcome, leave, run_batch, wait}
use epoll_server.Epoll.Interest.{batch}

pub suc-eqb-zero : (n : ℕ) → (suc n == 0) ≡ false
suc-eqb-zero n = ground arith

module _ {S : Type 0} (os : Os) (e : Epoll) where
  -- The state once a wait has returned.
  abbrev pub waited : World S → World S
  waited w = record w {
    trace =
        (Call.epoll_wait e.epfd e.maxevents, os.reply w.trace (Call.epoll_wait e.epfd e.maxevents))
        ∷ w.trace;
  }

module _ {S : Type 0} (os : Os) (e : Epoll) (decrement : M S ℕ)
    (process : (userdata events : ℕ) → M S Bool) where
  -- A predicate of the events of the batch that are left and of the state, and one of the state in
  -- which the loop ends: one rule for each way in which the loop goes on or ends.
  pub record Rules (P : List Event → World S → Type 0) (Q : World S → Type 0) : Type 0 where
    pub takes :
        (w : World S)
        → P [] w
        → P (batch (os.reply w.trace (Call.epoll_wait e.epfd e.maxevents))) (waited os e w)
    pub handles :
        (n events : ℕ) (evs : List Event) (w : World S)
        → P (record { userdata = suc n; events = events } ∷ evs) w
        → P evs (process (suc n) events w).1
    pub leaves :
        (events : ℕ) (evs : List Event) (w : World S)
        → P (record { userdata = 0; events = events } ∷ evs) w
        → Q (leave os e decrement w).1
    pub drops : (evs : List Event) (w : World S) → P evs w → Q w

  module _ (P : List Event → World S → Type 0) (Q : World S → Type 0) (rules : Rules P Q) where
    -- A batch that was handled to its end, or that the loop has left.
    abbrev AfterBatch : Option Outcome × World S → Type 0
    AfterBatch (none, w) = P [] w
    AfterBatch (some o, w) = Q w

    event-Obeys :
        (u events : ℕ) (evs : List Event) (w : World S)
        → P (record { userdata = u; events = events } ∷ evs) w
        → ((w' : World S) → P evs w' → AfterBatch (run_batch os e decrement process evs w'))
        → AfterBatch
            (run_batch os e decrement process (record { userdata = u; events = events } ∷ evs) w)
    unfolding run_batch
    event-Obeys zero events evs w h rest = rules.leaves events evs w h
    event-Obeys (suc n) events evs w h rest =
        let h' = rules.handles n events evs w h in
        elim (Bool-cases (process (suc n) events w).0) [
          | inl ended ↦ rw (suc-eqb-zero n, ended) (rest (process (suc n) events w).1 h')
          | inr not_yet ↦
              rw (suc-eqb-zero n, not_yet) (rules.drops evs (process (suc n) events w).1 h')
        ]

    run_batch-Obeys :
        (evs : List Event) (w : World S)
        → P evs w
        → AfterBatch (run_batch os e decrement process evs w)
    unfolding run_batch
    run_batch-Obeys [] w h = h
    run_batch-Obeys (ev ∷ evs) w h = event-Obeys ev.userdata ev.events evs w h (run_batch-Obeys evs)

    after_batch :
        (r : Option Outcome × World S) (again : World S → Outcome × World S)
        → AfterBatch r
        → ((w' : World S) → P [] w' → Q (again w').1)
        → Q
            (elim r.0 as (λ _. World S → Outcome × World S) [ none ↦ again | some o ↦ λ w. (o, w) ]
              r.1).1
    after_batch (none, w) again h rest = rest w h
    after_batch (some o, w) again h rest = h

    pub wait-Obeys : (fuel : ℕ) (w : World S) → P [] w → Q (wait os e decrement process fuel w).1
    unfolding wait
    wait-Obeys zero w h = rules.drops [] w h
    wait-Obeys (suc fuel) w h =
        let reply = os.reply w.trace (Call.epoll_wait e.epfd e.maxevents) in
        let taken = rules.takes w h in
        elim (Bool-cases (failed reply.ret)) [
          | inl f ↦ rw f (rules.drops _ (waited os e w) taken)
          | inr f ↦ rw f (
              after_batch (run_batch os e decrement process reply.events (waited os e w))
                (wait os e decrement process fuel)
                (run_batch-Obeys reply.events (waited os e w) (rw f at taken)) (wait-Obeys fuel))
        ]
