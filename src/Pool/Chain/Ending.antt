-- ===== src/Pool/Chain/Ending.antt =====
-- The workers of pool.hpp after `close`: one after another meets the control event and returns.
use epoll_server.Base.{
  ℕ, zero, suc, ◌+◌, ◌^◌, ◌≤◌, ◌<◌, ◌≡◌, refl, sym, ap, ◌∙◌, true, false, List, [], ◌∷◌, arith, ltb,
  if◌then◌else◌, All, ◌≢◌, inl, inr, Bool-cases, subst, ◌==◌,
}
use epoll_server.Base.Int.{failed, ==ℤ_refl}
use epoll_server.Os.{Os, Call, Event, Trace, World, M, pure, ◌>>=◌}
use epoll_server.Epoll.{Epoll, Outcome, stopped, leave, handle_event}
use epoll_server.Epoll.Wait.{wait_control}
use epoll_server.Epoll.Looping.{waited}
use epoll_server.Epoll.Interest.{
  Entry, armed, batch, has_entry, IsReport, IsOneShot, All-drop_fd, All-disarm_all,
}
use epoll_server.Epoll.Shutdown.{waiting, Group, decremented}
use epoll_server.Pool.State.{ClientPool}
use epoll_server.Pool.Handlers.{Callbacks}
use epoll_server.Pool.Lifecycle.{decrement, client_handler, worker}
use epoll_server.Pool.Serving.Starting.{NoClients}
use epoll_server.Pool.Serving.Leaving.{leave-Departed}
use epoll_server.Pool.Chain.{pipe_bytes, HasRoom, Shows, Exits}
use epoll_server.Pool.Chain.Leaving.{worker_lem}

-- Where the self-pipe is armed and holds a byte, the next wait does not fail, and reports something.
pub record Delivers (os : Os) (e : Epoll) : Type 0 where
  pub works :
      (t : Trace)
      → has_entry 0 (armed e.epfd t) ≡ true
      → 0 < pipe_bytes e t
      → failed (os.reply t (Call.epoll_wait e.epfd e.maxevents)).ret ≡ false
  pub something :
      (t : Trace)
      → has_entry 0 (armed e.epfd t) ≡ true
      → 0 < pipe_bytes e t
      → (os.reply t (Call.epoll_wait e.epfd e.maxevents)).events ≢ []

-- A batch that begins with the control event.
abbrev BeginsControl : List Event → Type 0
BeginsControl evs =
    (events : ℕ) × (post : List Event) × (evs ≡ record { events = events; userdata = 0 } ∷ post)

only_control :
    (u : ℕ) (es : List Entry) → All (λ (x : Entry). x.1 ≡ 0) es → has_entry u es ≡ true → u ≡ 0
only_control u [] none_else there = absurd (cc)
only_control u ((fd, v, b) ∷ es) none_else there = elim (Bool-cases (v == u)) [
  | inl same ↦ ground (arith, none_else.0, same)
  | inr other ↦ only_control u es none_else.1 (rw other at there)
]

-- Where the self-pipe alone is registered, the control event is first.
reported-BeginsControl :
    (evs : List Event) (es : List Entry)
    → All (λ (x : Entry). x.1 ≡ 0) es
    → IsReport es evs
    → evs ≢ []
    → BeginsControl evs
reported-BeginsControl [] es none_else report some_event = absurd (some_event refl)
reported-BeginsControl (ev ∷ evs) es none_else report some_event = (
  ev.events,
  evs,
  ap (λ u. record { events = ev.events; userdata = u } ∷ evs)
      (only_control ev.userdata es none_else report.0),
)

leave-NoClients :
    (os : Os) (w : World ClientPool)
    → NoClients w.st.epoll.epfd w.trace
    → NoClients w.st.epoll.epfd (leave os w.st.epoll decrement w).1.trace
leave-NoClients os w none_else = elim (leave-Departed os w).entries [
  | inl same ↦ rw same none_else
  | inr again ↦ rw again (refl, All-drop_fd _ w.st.epoll.selfpipe_1 _ none_else)
]

-- A worker that meets the control event registers no client.
worker-NoClients :
    (os : Os) (h : Callbacks) (event_fuel fuel : ℕ) (w : World ClientPool) (events : ℕ)
    (post : List Event)
    → let r = os.reply w.trace (Call.epoll_wait w.st.epoll.epfd w.st.epoll.maxevents) in
      failed r.ret ≡ false
      → r.events ≡ record { events = events; userdata = 0 } ∷ post
      → NoClients w.st.epoll.epfd w.trace
      → NoClients w.st.epoll.epfd (worker os h event_fuel (suc fuel) w).1.trace
unfolding worker
worker-NoClients os h event_fuel fuel w events post works reported none_else =
    let e = w.st.epoll in
    let r = os.reply w.trace (Call.epoll_wait e.epfd e.maxevents) in
    rw
      (wait_control os e decrement (handle_event (client_handler os h event_fuel)) fuel events post
        w works reported)
      (leave-NoClients os (waited os e w)
        (rw (==ℤ_refl e.epfd) (All-disarm_all _ (batch r) (armed e.epfd w.trace) none_else)))

-- `left` workers run one after another, each for at most `fuel` rounds; how each ends.
pub in_turn : Os → Callbacks → (event_fuel fuel : ℕ) → (left : ℕ) → M ClientPool (List Outcome)
in_turn os h event_fuel fuel zero = pure []
in_turn os h event_fuel fuel (suc left) = do
  o ← worker os h event_fuel fuel
  rest ← in_turn os h event_fuel fuel left
  pure (o ∷ rest)

-- `left` threads are left and wait, those from `t` on, and the byte for them is in the self-pipe.
pub record HasLeft (n t left : ℕ) (g : Group) : Type 0 where
  pub few : t + left ≡ n
  pub running_eq : g.running ≡ left
  pub armed_eq : g.armed ≡ true
  pub bytes_eq : g.bytes ≡ (if ltb 0 left then 1 else 0)
  pub wait_there : (u : ℕ) → t ≤ u → u < n → g.at u ≡ waiting

decremented-suc : (left : ℕ) → suc left < 2 ^ 64 → decremented (suc left) ≡ left
decremented-suc left lt = omega arith

Exits-HasLeft :
    {n t left : ℕ} {e : Epoll} {g : Group} {w : World ClientPool}
    → n < 2 ^ 64
    → HasLeft n t (suc left) g
    → (x : Exits n e t g w) → HasLeft n (suc t) left x.after
Exits-HasLeft {n} {t} {left} {g = g} fits l x = record {
  few = omega (arith, l.few);
  running_eq = running;
  armed_eq = x.armed_eq;
  bytes_eq = x.bytes_eq ∙ rw (running, one_byte) refl;
  wait_there = λ u le lt. x.others u (ground arith) ∙ l.wait_there u (omega arith) lt;
}
  where
    running : x.after.running ≡ left
    running =
        x.running_eq ∙ ap decremented l.running_eq ∙ decremented-suc left (omega (arith, l.few))

    one_byte : g.bytes ≡ 1
    one_byte = l.bytes_eq ∙ ground arith

-- Every worker has returned, `threadCount_` is 0, and the self-pipe is as at the start.
abbrev pub AreOut : Epoll → List Outcome × World ClientPool → Type 0
AreOut e (outcomes, w) =
    All (λ o. o ≡ stopped) outcomes
    × (w.st.thread_count ≡ 0)
    × (pipe_bytes e w.trace ≡ 0)
    × (has_entry 0 (armed e.epfd w.trace) ≡ true)

module _ (os : Os) (h : Callbacks) (event_fuel fuel n : ℕ) (e : Epoll) (pipe : HasRoom os e 1)
    (one_shot : IsOneShot os e.epfd) (delivers : Delivers os e) (fits : n < 2 ^ 64) where
  pub in_turn-AreOut :
      (left t : ℕ) (g : Group) (w : World ClientPool)
      → HasLeft n t left g
      → Shows e g w
      → NoClients e.epfd w.trace
      → AreOut e (in_turn os h event_fuel (suc fuel) left w)
  unfolding in_turn
  in_turn-AreOut zero t g w l shows none_else = (
    tt,
    sym shows.running_eq ∙ l.running_eq,
    sym shows.bytes_eq ∙ l.bytes_eq,
    sym shows.armed_eq ∙ l.armed_eq,
  )
  in_turn-AreOut (suc left) t g w l shows none_else =
      let is_armed = sym shows.armed_eq ∙ l.armed_eq in
      let some_byte : 0 < pipe_bytes e w.trace = ground (arith, shows.bytes_eq, l.bytes_eq) in
      let works = delivers.works w.trace is_armed some_byte in
      let (events, post, first) =
        reported-BeginsControl (os.reply w.trace (Call.epoll_wait e.epfd e.maxevents)).events
          (armed e.epfd w.trace) none_else (rw works at (one_shot.reports w.trace e.maxevents))
          (delivers.something w.trace is_armed some_byte) in
      let (o, x) =
        worker_lem os h event_fuel fuel n t g w e 1 events post pipe (rw l.bytes_eq (ground arith))
          one_shot shows (omega (arith, l.few))
          (l.wait_there t (omega arith) (omega (arith, l.few))) works first in
      let still =
        subst
          (λ y.
            let r = os.reply w.trace (Call.epoll_wait y.epfd y.maxevents) in
            failed r.ret ≡ false
            → r.events ≡ record { events = events; userdata = 0 } ∷ post
            → NoClients y.epfd w.trace
            → NoClients y.epfd (worker os h event_fuel (suc fuel) w).1.trace)
          shows.same_epoll (worker-NoClients os h event_fuel fuel w events post) works first
          none_else in
      let (all, count, bytes, ready) =
        in_turn-AreOut left (suc t) x.after (worker os h event_fuel (suc fuel) w).1
          (Exits-HasLeft fits l x) x.shows still in
      ((o, all), count, bytes, ready)
