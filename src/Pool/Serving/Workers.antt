-- ===== src/Pool/Serving/Workers.antt =====
-- What one worker thread of pool.hpp runs, `wait` of epoll.hpp with `cast` and `process`, goes by
-- the steps of Pool/Serving.
use mathlib.Core.List.{append-nil}
use epoll_server.Base.{ℕ, suc, ◌-◌, ◌≡◌, refl, sym, ap, ◌∙◌, Bool, inl, inr, List, [], arith}
use epoll_server.Os.{Os, Event, World}
use epoll_server.Epoll.{Epoll}
use epoll_server.Epoll.Looping.{Rules, wait-Obeys}
use epoll_server.Pool.State.{ClientPool, put_back}
use epoll_server.Pool.Handlers.{Callbacks}
use epoll_server.Pool.Process.{process}
use epoll_server.Pool.Kept.{process-Keeps}
use epoll_server.Pool.Lifecycle.{decrement, cast, worker}
use epoll_server.Pool.Serving.{Serving, add_reported, waited, handled, left, Reach, next}

-- A world that is reached from a start, whatever is pending then.
abbrev Reached : Os → Callbacks → Serving → World ClientPool → Type 0
Reached os h s w = (ps : List (ℕ × ℕ)) × Reach os h s (record { world = w; pending = ps })

suc-sub-one : (n : ℕ) → suc n - 1 ≡ n
suc-sub-one n = omega arith

module _ (os : Os) (h : Callbacks) (event_fuel : ℕ) (e : Epoll) (s : Serving) where
  -- What a worker does with an event.
  abbrev handle : (userdata events : ℕ) → World ClientPool → Bool × World ClientPool
  handle userdata events = process os h event_fuel (cast userdata) events

  -- The instance stays the same.
  process_epoll :
      (cl flags : ℕ) (w : World ClientPool)
      → (process os h event_fuel cl flags w).1.st.epoll ≡ w.st.epoll
  unfolding put_back
  process_epoll cl flags w = elim (process-Keeps os h cl event_fuel flags w.st w.trace) [
    | inl kept ↦ ap (λ (p : ClientPool). p.epoll) kept
    | inr released ↦ ap (λ (p : ClientPool). p.epoll) released
  ]

  -- The state is reached with the events of the batch that are left pending.
  abbrev Within : List Event → World ClientPool → Type 0
  Within evs w =
      (w.st.epoll ≡ e) × Reach os h s (record { world = w; pending = add_reported evs [] })

  worker-Rules : Rules os e decrement handle Within (Reached os h s)
  worker-Rules = record {
    takes = λ w (same, r). (same, rw (← same) (next r (waited w.st.epoll.maxevents)));
    handles = λ n events evs w (same, r).
        let next_w = (process os h event_fuel n events w).1 in
        rw (suc-sub-one n) (
          process_epoll n events w ∙ same,
          next r (handled event_fuel n events [] (add_reported evs []) refl),
        );
    leaves = λ events evs w (same, r).
        rw (← same) ([], next r (left [] (add_reported evs []) [] (sym (append-nil _))));
    drops = λ evs w (same, r). (add_reported evs [], r);
  }

-- A worker thread that starts with nothing pending, in any reachable state, whatever the kernel
-- answers and whatever the fuel of its loops: the state that it leaves is one that the steps reach.
pub worker-Reach :
    (os : Os) (h : Callbacks) (event_fuel fuel : ℕ) (s : Serving) (w : World ClientPool)
    → Reach os h s (record { world = w; pending = [] })
    → (ps : List (ℕ × ℕ)) × Reach os h s
        (record { world = (worker os h event_fuel fuel w).1; pending = ps })
unfolding worker
worker-Reach os h event_fuel fuel s w r =
    wait-Obeys os w.st.epoll decrement (handle os h event_fuel w.st.epoll s) _ _
      (worker-Rules os h event_fuel w.st.epoll s) fuel w (refl, r)
