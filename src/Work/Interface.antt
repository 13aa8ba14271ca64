-- ===== src/Work/Interface.antt =====
-- test-client/work.hpp, the functions that it declares, as an interface: what the control pages and
-- the thread of a worker rely on, each call holding the lock of the object.
use epoll_server.Base.{ℕ, ◌≡◌, refl, sym, ap, ◌∙◌, Bool, true, false, List, [], ◌∷◌, arith}
use epoll_server.Work
use epoll_server.Work.{Work, Log}

-- The declared functions, on objects `W`.
pub record Functions (W : Type 0) : Type 0 where
  pub is_running : W → Bool
  pub get_work_log : W → Log
  pub start : W → W
  pub stop : W → W
  pub log_message_sent : (len : ℕ) → W → W
  pub log_message_received : (received_message : List ℕ) → (len : ℕ) → W → W

-- Tells an object to run or to stop.
abbrev pub set_run : {W : Type 0} → Functions W → Bool → W → W
set_run fs true w = fs.start w
set_run fs false w = fs.stop w

-- `start` and `stop` set what `is_running` returns and leave the log, and the messages do the reverse.
pub record IsLawful {W : Type 0} (fs : Functions W) : Type 0 where
  pub set_flag : (b : Bool) (w : W) → fs.is_running (set_run fs b w) ≡ b
  pub set_log : (b : Bool) (w : W) → fs.get_work_log (set_run fs b w) ≡ fs.get_work_log w
  pub sent_flag : (len : ℕ) (w : W) → fs.is_running (fs.log_message_sent len w) ≡ fs.is_running w
  pub received_flag :
      (bytes : List ℕ) (len : ℕ) (w : W)
      → fs.is_running (fs.log_message_received bytes len w) ≡ fs.is_running w
  pub sent_set :
      (b : Bool) (len : ℕ) (w : W)
      → fs.log_message_sent len (set_run fs b w) ≡ set_run fs b (fs.log_message_sent len w)
  pub received_set :
      (b : Bool) (bytes : List ℕ) (len : ℕ) (w : W)
      → fs.log_message_received bytes len (set_run fs b w)
        ≡ set_run fs b (fs.log_message_received bytes len w)

-- A call that changes an object.
pub data Command : Type 0 where
  set_to : (run : Bool) → Command
  sent : (len : ℕ) → Command
  received : (bytes : List ℕ) → (len : ℕ) → Command

-- What `is_running` returns behind the calls.
abbrev pub flag_after : List Command → Bool → Bool
flag_after [] b = b
flag_after (set_to run ∷ cs) b = flag_after cs run
flag_after (sent len ∷ cs) b = flag_after cs b
flag_after (received bytes len ∷ cs) b = flag_after cs b

-- The calls that log a message.
abbrev pub messages : List Command → List Command
messages [] = []
messages (set_to run ∷ cs) = messages cs
messages (sent len ∷ cs) = sent len ∷ messages cs
messages (received bytes len ∷ cs) = received bytes len ∷ messages cs

module _ {W : Type 0} (fs : Functions W) where
  -- The calls of all threads, one at a time, in the order in which they get the lock.
  abbrev pub call_all : List Command → W → W
  call_all [] w = w
  call_all (set_to run ∷ cs) w = call_all cs (set_run fs run w)
  call_all (sent len ∷ cs) w = call_all cs (fs.log_message_sent len w)
  call_all (received bytes len ∷ cs) w = call_all cs (fs.log_message_received bytes len w)

  module _ (laws : IsLawful fs) where
    call_all-flag :
        (cs : List Command) (w : W)
        → fs.is_running (call_all cs w) ≡ flag_after cs (fs.is_running w)
    call_all-flag [] w = refl
    call_all-flag (set_to run ∷ cs) w =
        call_all-flag cs (set_run fs run w) ∙ ap (flag_after cs) (laws.set_flag run w)
    call_all-flag (sent len ∷ cs) w =
        call_all-flag cs (fs.log_message_sent len w) ∙ ap (flag_after cs) (laws.sent_flag len w)
    call_all-flag (received bytes len ∷ cs) w =
        call_all-flag cs (fs.log_message_received bytes len w)
        ∙ ap (flag_after cs) (laws.received_flag bytes len w)

    -- The flag that the calls begin with makes no difference to the log.
    call_all-set_log :
        (b : Bool) (cs : List Command) (w : W)
        → fs.get_work_log (call_all cs (set_run fs b w)) ≡ fs.get_work_log (call_all cs w)
    call_all-set_log b [] w = laws.set_log b w
    call_all-set_log b (set_to run ∷ cs) w =
        call_all-set_log run cs (set_run fs b w)
        ∙ call_all-set_log b cs w
        ∙ sym (call_all-set_log run cs w)
    call_all-set_log b (sent len ∷ cs) w =
        rw (laws.sent_set b len w) (call_all-set_log b cs (fs.log_message_sent len w))
    call_all-set_log b (received bytes len ∷ cs) w =
        rw (laws.received_set b bytes len w)
          (call_all-set_log b cs (fs.log_message_received bytes len w))

    call_all-log :
        (cs : List Command) (w : W)
        → fs.get_work_log (call_all cs w) ≡ fs.get_work_log (call_all (messages cs) w)
    call_all-log [] w = refl
    call_all-log (set_to run ∷ cs) w = call_all-set_log run cs w ∙ call_all-log cs w
    call_all-log (sent len ∷ cs) w = call_all-log cs (fs.log_message_sent len w)
    call_all-log (received bytes len ∷ cs) w = call_all-log cs (fs.log_message_received bytes len w)

-- The functions of test-client/work.cpp.
abbrev pub functions : Functions Work
functions = record {
  is_running = Work.is_running;
  get_work_log = Work.get_work_log;
  start = Work.start;
  stop = Work.stop;
  log_message_sent = Work.log_message_sent;
  log_message_received = Work.log_message_received;
}

pub functions-IsLawful : IsLawful functions
unfolding Work.is_running Work.get_work_log Work.start Work.stop Work.log_message_sent
    Work.log_message_received
functions-IsLawful = record {
  set_flag = set_flag;
  set_log = set_log;
  sent_flag = λ len w. ground arith;
  received_flag = λ bytes len w. ground arith;
  sent_set = sent_set;
  received_set = received_set;
}
  where
    set_flag : (b : Bool) (w : Work) → Work.is_running (set_run functions b w) ≡ b
    set_flag true w = refl
    set_flag false w = refl

    set_log :
        (b : Bool) (w : Work) → Work.get_work_log (set_run functions b w) ≡ Work.get_work_log w
    set_log true w = refl
    set_log false w = refl

    sent_set :
        (b : Bool) (len : ℕ) (w : Work)
        → Work.log_message_sent len (set_run functions b w)
          ≡ set_run functions b (Work.log_message_sent len w)
    sent_set true len w = ground arith
    sent_set false len w = ground arith

    received_set :
        (b : Bool) (bytes : List ℕ) (len : ℕ) (w : Work)
        → Work.log_message_received bytes len (set_run functions b w)
          ≡ set_run functions b (Work.log_message_received bytes len w)
    received_set true bytes len w = ground arith
    received_set false bytes len w = ground arith

-- Calls of the functions of an object by any threads, in whatever order they get its lock:
-- `is_running` returns what the last `start` or `stop` has set, and the log is the one that the calls
-- that log a message leave by themselves.
pub call_all-functions :
    (cs : List Command) (w : Work)
    → (Work.is_running (call_all functions cs w) ≡ flag_after cs (Work.is_running w))
      × (Work.get_work_log (call_all functions cs w)
          ≡ Work.get_work_log (call_all functions (messages cs) w))
call_all-functions cs w = (
  call_all-flag functions functions-IsLawful cs w,
  call_all-log functions functions-IsLawful cs w,
)
