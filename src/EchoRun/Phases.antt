-- ===== src/EchoRun/Phases.antt =====
-- What the control pages of the echo server promise (test/run.cpp): a machine that knows
-- whether the server has a thread, and whether it listens.
use epoll_server.Base.{
  ℕ, ◌≡◌, refl, sym, subst, inl, inr, Bool, true, false, not, ◌||◌, Option, none, some, List, [],
  ◌∷◌, Bool-cases,
}
use epoll_server.Base.Int.{ℤ}
use epoll_server.Os.{Os, World, Trace}
use epoll_server.Server.{Server}
use epoll_server.Echo.{EchoWorker, is_listening}
use epoll_server.Echo
use epoll_server.Panel.{keep_page, then_more}
use epoll_server.EchoRun.{
  Stopping, Event, index_asked, start_asked, stop_asked, thread_ran, index_page, start_page,
  stop_page, stopped_page, handle, handle_all,
}

-- What the machine knows.
pub record Status : Type 0 where
  pub thread : Bool
  pub listening : Bool

abbrev pub status_of : (thread : Bool) → Option Server → Status
status_of thread none = record { thread = thread; listening = false }
status_of thread (some s) = record { thread = thread; listening = is_listening s }

abbrev pub status : EchoWorker → Status
status e = status_of e.work e.sv

-- A step of the machine. A stop that returns leaves open whether the server is still marked as
-- listening.
pub data Step : Event → Status → Status → Type 0 where
  asked : {p : Status} → Step index_asked p p
  started :
      {thread listening : Bool}
      → Step start_asked
          (record { thread = thread; listening = listening })
          (record { thread = true; listening = listening })
  stop_done :
      {s : Stopping} {listening after : Bool}
      → (listening || s.ended) ≡ true
      → Step
          (stop_asked s)
          (record { thread = true; listening = listening })
          (record { thread = false; listening = after })
  idle :
      {s : Stopping} {listening : Bool}
      → Step
          (stop_asked s)
          (record { thread = false; listening = listening })
          (record { thread = false; listening = listening })
  ran :
      {s : Server} {listening : Bool}
      → Step
          (thread_ran s)
          (record { thread = true; listening = listening })
          (record { thread = true; listening = is_listening s })
  no_thread :
      {s : Server} {listening : Bool}
      → Step
          (thread_ran s)
          (record { thread = false; listening = listening })
          (record { thread = false; listening = listening })

-- The one event that is never answered: a stop of a thread that neither listens nor has ended by
-- itself.
pub data Hangs : Event → Status → Type 0 where
  hangs :
      {s : Stopping} {listening : Bool}
      → (listening || s.ended) ≡ false
      → Hangs (stop_asked s) (record { thread = true; listening = listening })

-- The page of an event that is answered, in a state of the worker object.
abbrev pub page_of : (server_port : ℤ) → Event → EchoWorker → List ℕ
page_of server_port index_asked e = index_page server_port e
page_of server_port start_asked e = start_page server_port (not e.work)
page_of server_port (stop_asked s) e = stop_page server_port e.work
page_of server_port (thread_ran s) e = []

-- Events in turn: the status behind them, or none where one of them hangs.
pub data Run : List Event → Status → Option Status → Type 0 where
  done : {p : Status} → Run [] p (some p)
  step :
      {e : Event} {es : List Event} {p q : Status} {r : Option Status}
      → Step e p q
      → Run es q r
      → Run (e ∷ es) p r
  hang : {e : Event} {es : List Event} {p : Status} → Hangs e p → Run (e ∷ es) p none

abbrev pub HasServer : EchoWorker → Type 0
HasServer e = (s : Server) × (e.sv ≡ some s)

-- What the machine allows for the result of an event.
abbrev pub Allowed :
    (server_port : ℤ) → Event → EchoWorker → Option (List ℕ) × World EchoWorker → Type 0
Allowed server_port e st (none, w) = Hangs e (status st)
Allowed server_port e st (some p, w) =
    Step e (status st) (status w.st) × (p ≡ page_of server_port e st) × HasServer w.st

-- A worker object with its members.
abbrev object : (svfd : ℤ) → (work : Bool) → Trace → Option Server → World EchoWorker
object svfd work t sv = record { st = record { svfd = svfd; sv = sv; work = work }; trace = t }

module _ (os : Os) (server_port : ℤ) where
  stop_asked-Allowed :
      (s : Stopping) (svfd : ℤ) (t : Trace) (sv : Server)
      → let w = object svfd true t (some sv) in
        Allowed server_port (stop_asked s) w.st (handle os server_port (stop_asked s) w)
  unfolding handle Echo.stop stopped_page
  stop_asked-Allowed s svfd t sv = elim (Bool-cases (is_listening sv || s.ended)) [
    | inl f ↦ rw f (stop_done f, refl, (_, refl))
    | inr f ↦ rw f (hangs f)
  ]

  object-Allowed :
      (e : Event) (svfd : ℤ) (work : Bool) (t : Trace) (sv : Server)
      → let w = object svfd work t (some sv) in
        Allowed server_port e w.st (handle os server_port e w)
  unfolding handle Echo.run Echo.stop stopped_page
  object-Allowed index_asked svfd work t sv = (asked, refl, (sv, refl))
  object-Allowed start_asked svfd true t sv = (started, refl, (sv, refl))
  object-Allowed start_asked svfd false t sv = (started, refl, (sv, refl))
  object-Allowed (stop_asked s) svfd true t sv = stop_asked-Allowed s svfd t sv
  object-Allowed (stop_asked s) svfd false t sv = (idle, refl, (sv, refl))
  object-Allowed (thread_ran s) svfd true t sv = (ran, refl, (s, refl))
  object-Allowed (thread_ran s) svfd false t sv = (no_thread, refl, (sv, refl))

  -- Each request to the control pages of a worker object with a server is one that the machine
  -- allows: it is answered with the page that tells what changed, or it is a stop that hangs.
  pub handle-Allowed :
      (e : Event) (w : World EchoWorker)
      → HasServer w.st
      → Allowed server_port e w.st (handle os server_port e w)
  handle-Allowed e w (sv, present) =
      subst
        (λ o.
          let v = object w.st.svfd w.st.work w.trace o in
          Allowed server_port e v.st (handle os server_port e v))
        (sym present) (object-Allowed e w.st.svfd w.st.work w.trace sv)

-- The status behind some events, where each was answered.
abbrev pub behind : Option (List (List ℕ)) × World EchoWorker → Option Status
behind (none, w) = none
behind (some ps, w) = some (status w.st)

behind-keep_page :
    (p : List ℕ) (r : Option (List (List ℕ)) × World EchoWorker)
    → behind (keep_page p r.0, r.1) ≡ behind r
behind-keep_page p (none, w) = refl
behind-keep_page p (some ps, w) = refl

module _ (os : Os) (server_port : ℤ) where
  then_more-Run :
      (e : Event) (es : List Event) (st : EchoWorker) (r : Option (List ℕ) × World EchoWorker)
      → Allowed server_port e st r
      → ((w : World EchoWorker)
          → HasServer w.st
          → Run es (status w.st) (behind (handle_all os server_port es w)))
      → Run (e ∷ es) (status st) (behind (then_more r.0 (handle_all os server_port es) r.1))
  unfolding then_more
  then_more-Run e es st (none, w) stuck more = hang stuck
  then_more-Run e es st (some p, w) (moved, page, has) more = step moved (
      subst (λ o. Run es (status w.st) o)
        (sym (behind-keep_page p (handle_all os server_port es w))) (more w has))

  -- Any events, on a worker object with a server: the machine takes the same steps in the same
  -- order, up to the last, or up to a stop that hangs, where the model has no result.
  pub handle_all-Run :
      (es : List Event) (w : World EchoWorker)
      → HasServer w.st
      → Run es (status w.st) (behind (handle_all os server_port es w))
  unfolding handle_all
  handle_all-Run [] w has = done
  handle_all-Run (e ∷ es) w has =
      then_more-Run e es w.st (handle os server_port e w) (handle-Allowed os server_port e w has)
        (handle_all-Run es)
