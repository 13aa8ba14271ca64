-- ===== src/Work.antt =====
-- test-client/work.hpp and the members and accessors of test-client/work.cpp: what a worker of the
-- load generator knows, its run flag and its log. An accessor holds the lock and is one step.
pub mod Counting
pub mod Interface
pub mod Tests
use epoll_server.Base.{
  ℕ, zero, suc, ◌+◌, ◌*◌, Bool, true, false, ◌&&◌, Option, none, some, List, [], ◌∷◌, ◌==◌, leb,
  length, if◌then◌else◌,
}
use epoll_server.Base.Int.{ℤ, pos}
use epoll_server.Mem.{size_t}
use epoll_server.Echo.{to_size}
use epoll_server.Text.{to_int, zeros, copy_in}

pub record Log : Type 0 where
  pub index : ℤ
  pub sent : ℤ
  pub sent_bytes : ℤ
  pub recv_good : ℤ
  pub recv_good_bytes : ℤ
  pub recv_bad : ℤ
  pub recv_bad_bytes : ℤ

-- `work`, but for its lock. `message` has 129 characters and `ip` 16.
pub record Work : Type 0 where
  pub message : List ℕ
  pub run : Bool
  pub ip : List ℕ
  pub port : ℤ
  pub log : Log
  pub thread : ℕ

abbrev pub max_buf_len : ℕ
max_buf_len = 128

abbrev no_log : ℤ → Log
no_log index = record {
  index = index;
  sent = pos 0;
  sent_bytes = pos 0;
  recv_good = pos 0;
  recv_good_bytes = pos 0;
  recv_bad = pos 0;
  recv_bad_bytes = pos 0;
}

-- The members that the constructor leaves as the memory has them.
pub record Garbage : Type 0 where
  pub run : Bool
  pub thread : ℕ

abbrev pub fresh :
    Garbage → (ip_arg : List ℕ) → (port : ℤ) → (message_arg : List ℕ) → (index : ℤ) → Work
fresh g ip_arg port message_arg index = record {
  message = copy_in message_arg (zeros (max_buf_len + 1));
  run = g.run;
  ip = copy_in ip_arg (zeros 16);
  port = port;
  log = no_log index;
  thread = g.thread;
}

-- The constructor; `none` where a copy runs over the end of its buffer, which C++ leaves open.
unfoldable pub construct :
    Garbage → (ip_arg : List ℕ) → (port : ℤ) → (message_arg : List ℕ) → (index : ℤ) → Option Work
construct g ip_arg port message_arg index =
    if leb (length ip_arg) 16 && leb (length message_arg) (max_buf_len + 1)
    then some (fresh g ip_arg port message_arg index)
    else none

unfoldable pub is_running : Work → Bool
is_running w = w.run

unfoldable pub get_work_log : Work → Log
get_work_log w = w.log

unfoldable pub start : Work → Work
start w = record w { run = true }

unfoldable pub stop : Work → Work
stop w = record w { run = false }

-- `++x` on an `int`, with wrap-around where C++ leaves it open.
abbrev pub count_one : ℤ → ℤ
count_one x = to_int (to_size x + 1)

-- `x * len` on `size_t`, stored in an `int`.
abbrev pub times : ℤ → ℕ → ℤ
times x len = to_int (size_t (to_size x * len))

unfoldable pub log_message_sent : (len : ℕ) → Work → Work
log_message_sent len w =
    let n = count_one w.log.sent in
    if len == 0 then w else record w { log = record w.log { sent = n; sent_bytes = times n len } }

-- `memcmp(a, b, len) == 0`
abbrev pub same_bytes : (len : ℕ) → List ℕ → List ℕ → Bool
same_bytes zero a b = true
same_bytes (suc n) (x ∷ a) (y ∷ b) = (x == y) && same_bytes n a b
same_bytes (suc n) [] [] = true
same_bytes (suc n) _ _ = false

unfoldable pub log_message_received : (received : List ℕ) → (len : ℕ) → Work → Work
log_message_received received len w =
    let good = count_one w.log.recv_good in
    let bad = count_one w.log.recv_bad in
    if same_bytes len received w.message
    then record w { log = record w.log { recv_good = good; recv_good_bytes = times good len } }
    else record w { log = record w.log { recv_bad = bad; recv_bad_bytes = times bad len } }
