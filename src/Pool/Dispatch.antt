-- ===== src/Pool/Dispatch.antt =====
-- The dispatch of pool.hpp's `client_pool::process` against the meaning of the event bits.
use Prim.Native.Nat.{bit_or}
use epoll_server.Base.{ℕ, ◌≡◌, refl, ◌≢◌, Bool, true, false, not, ◌&&◌, ◌||◌, arith, if◌then◌else◌}
use epoll_server.Epoll.Flags.{epollin, epollpri, epollout, epollerr, epollhup, epollrdhup}
use epoll_server.Pool.Process.{
  Action, close_client, read_input, read_urgent, write_ready, read_then_write, urgent_then_write,
  ignore, dispatch,
}

-- The event bits that `epoll_wait` can report of a client.
pub record Events : Type 0 where
  pub input : Bool
  pub urgent : Bool
  pub output : Bool
  pub error : Bool
  pub hup : Bool
  pub rdhup : Bool

abbrev bit : Bool → ℕ → ℕ
bit b flag = if b then flag else 0

-- The mask of a set of events.
abbrev pub mask : Events → ℕ
mask e = bit_or (bit e.input epollin) (
    bit_or (bit e.urgent epollpri) (
      bit_or (bit e.output epollout)
        (bit_or (bit e.error epollerr) (bit_or (bit e.hup epollhup) (bit e.rdhup epollrdhup)))))

-- The table of the `switch` by the single bits. An error closes the client. Of a hangup in one way
-- alone the pending input is read first, and the reads find the hangup; without input the client is
-- closed. A hangup in both ways has no case, and nothing is done. Otherwise urgent data or input is
-- read, then the output event is handled.
abbrev pub meaning : Events → Action
meaning e =
    if e.error
    then close_client
    else if e.hup && e.rdhup
    then ignore
    else if e.hup || e.rdhup
    then (if e.urgent then read_urgent else if e.input then read_input else close_client)
    else if e.urgent
    then (if e.output then urgent_then_write else read_urgent)
    else if e.input
    then (if e.output then read_then_write else read_input)
    else if e.output
    then write_ready
    else ignore

meaning_of :
    (input urgent output error hup rdhup : Bool)
    → let e : Events = record {
      input = input;
      urgent = urgent;
      output = output;
      error = error;
      hup = hup;
      rdhup = rdhup;
    } in
      dispatch (mask e) ≡ meaning e
unfolding dispatch
meaning_of input urgent output error hup rdhup = ground arith

-- The `switch` goes by this table.
pub dispatch-mask : (e : Events) → dispatch (mask e) ≡ meaning e
dispatch-mask e = meaning_of e.input e.urgent e.output e.error e.hup e.rdhup

-- A client whose connection was shut down both ways, with no error, is neither read, nor closed,
-- nor armed again, whatever else is reported.
pub dispatch_full_hangup :
    (e : Events) → e.error ≡ false → e.hup ≡ true → e.rdhup ≡ true → dispatch (mask e) ≡ ignore
dispatch_full_hangup e no_error hup rdhup = rw (dispatch-mask e, no_error, hup, rdhup)

-- The mask that clients are registered with holds no output event. Where none is reported, no
-- handler of the output event is called.
pub dispatch_no_output :
    (e : Events)
    → e.output ≡ false
    → (dispatch (mask e) ≢ write_ready)
      × (dispatch (mask e) ≢ read_then_write)
      × (dispatch (mask e) ≢ urgent_then_write)
dispatch_no_output e none_out = ground (arith, dispatch-mask e)

-- What an action comes to.
abbrev pub closes : Action → Bool
closes close_client = true
closes _ = false

abbrev pub reads : Action → Bool
reads read_input = true
reads read_then_write = true
reads _ = false

abbrev pub reads_urgent : Action → Bool
reads_urgent read_urgent = true
reads_urgent urgent_then_write = true
reads_urgent _ = false

abbrev pub writes : Action → Bool
writes write_ready = true
writes read_then_write = true
writes urgent_then_write = true
writes _ = false

-- A hangup both ways with no error.
abbrev pub full_hangup : Events → Bool
full_hangup e = not e.error && (e.hup && e.rdhup)

-- What a client is owed for its events: an error closes it, and so does a hangup with nothing to
-- read, and nothing else; without an error, urgent data is read if there is some, and else the
-- input; and where nobody hung up, a client that can take output is told so.
pub record Serves (e : Events) (a : Action) : Type 0 where
  pub closes_eq : closes a ≡ (e.error || ((e.hup || e.rdhup) && not (e.input || e.urgent)))
  pub reads_urgent_eq : reads_urgent a ≡ (not e.error && e.urgent)
  pub reads_eq : reads a ≡ (not e.error && (e.input && not e.urgent))
  pub writes_eq : writes a ≡ (not e.error && (e.output && not (e.hup || e.rdhup)))

abbrev pub Answers : (full : Bool) → Events → Action → Type 0
Answers true e a = a ≡ ignore
Answers false e a = Serves e a

Answers-by : (full : Bool) (e : Events) → full_hangup e ≡ full → Answers full e (dispatch (mask e))
Answers-by true e is = rw (dispatch-mask e) (ground (arith, is))
Answers-by false e is = rw (dispatch-mask e) (record {
  closes_eq = ground (arith, is);
  reads_urgent_eq = ground (arith, is);
  reads_eq = ground (arith, is);
  writes_eq = ground (arith, is);
})

-- Of every set of reported events but a hangup both ways without an error, the `switch` does what
-- a client is owed: it is closed on an error, or on a hangup with nothing to read, and for no other
-- events; without an error urgent data is read if some is reported, and else input that is reported;
-- and output that is reported is handled if there is neither an error nor a hangup. A hangup both
-- ways without an error has no case in the `switch`, whatever else is reported: the event is ignored,
-- and the client is neither read nor closed.
pub dispatch-Answers : (e : Events) → Answers (full_hangup e) e (dispatch (mask e))
dispatch-Answers e = Answers-by (full_hangup e) e refl
