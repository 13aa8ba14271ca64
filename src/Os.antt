-- ===== src/Os.antt =====
-- The operating system, which the program calls and does not implement: every system call that
-- the library makes is a `Call`, and an `Os` answers it from the history of earlier calls and
-- answers. Nothing is assumed of an `Os` but what a theorem's hypotheses say.
pub mod Descriptors
pub mod Samples
use epoll_server.Base.{ℕ, ◌⊎◌, Bool, List, ◌∷◌, if◌then◌else◌}
use epoll_server.Base.Int.{ℤ}

-- One constructor for each system call of mem.hpp, endpoint.hpp, epoll.hpp, pool.hpp, test and
-- test-client; an address as text is the list of its characters.
pub data Call : Type 0 where
  memfd_create : Call
  ftruncate : (fd : ℤ) (size : ℕ) → Call
  mmap_reserve : (size : ℕ) → Call
  mmap_fixed : (page : ℤ) (size : ℕ) (fd : ℤ) → Call
  munmap : (addr : ℤ) (size : ℕ) → Call
  malloc : (size : ℕ) → Call
  calloc : (count : ℕ) → Call
  free : (addr : ℤ) → Call
  socket : (stream : Bool) → Call  -- `SOCK_STREAM` or `SOCK_DGRAM`
  reuse_addr : (fd : ℤ) → Call
  bind : (fd : ℤ) (port : ℕ) → Call
  listen : (fd : ℤ) (queuelen : ℤ) → Call
  accept : (fd : ℤ) → Call
  connect : (fd : ℤ) (ip : List ℕ) (port : ℕ) → Call
  recv : (fd : ℤ) (len : ℕ) (oob : Bool) → Call
  send : (fd : ℤ) (bytes : List ℕ) → Call
  sendto : (fd : ℤ) (ip : List ℕ ⊎ ℤ) (port : ℕ) (bytes : List ℕ) → Call
  get_flags : (fd : ℤ) → Call
  set_flags : (fd flags : ℤ) → Call
  close : (fd : ℤ) → Call
  at_mark : (fd : ℤ) → Call
  epoll_create : Call
  socketpair : Call
  epoll_ctl : (epfd : ℤ) (opcode : ℕ) (fd : ℤ) (events : ℕ) (userdata : ℕ) → Call
  epoll_wait : (epfd : ℤ) (maxevents : ℕ) → Call
  usleep : (usec : ℕ) → Call
  print : (error : Bool) (text : List ℕ) → Call  -- to `stdout` or `stderr`
  perror : (text : List ℕ) → Call
  thread_create : Call
  thread_join : (thread : ℕ) → Call

-- A reported event: the event mask and the user data, in which 0 is the null pointer.
pub record Event : Type 0 where
  pub events : ℕ
  pub userdata : ℕ

-- The result of a call, `errno`, and what the call stores through its pointer arguments.
pub record Reply : Type 0 where
  pub ret : ℤ
  pub errno : ℕ
  pub value : ℕ  -- an `int` out-parameter
  pub pair : ℤ × ℤ  -- the descriptors of `socketpair`
  pub bytes : List ℕ  -- what `recv` stores
  pub events : List Event  -- what `epoll_wait` stores

-- Newest first.
abbrev pub Trace : Type 0
Trace = List (Call × Reply)

pub record Os : Type 0 where
  pub reply : Trace → Call → Reply
  pub pagesize : ℕ

-- An object's state and the history of calls.
pub record World (S : Type 0) : Type 0 where
  pub st : S
  pub trace : Trace

abbrev pub M : Type 0 → Type 0 → Type 0
M S A = World S → A × World S

module _ {S : Type 0} where
  abbrev pub pure : {A : Type 0} → A → M S A
  pure a w = (a, w)

  infixl 5 ◌>>=◌ ◌>>◌
  abbrev pub ◌>>=◌ : {A B : Type 0} → M S A → (A → M S B) → M S B
  ◌>>=◌ m f w = let r = m w in f r.0 r.1

  abbrev pub ◌>>◌ : {B : Type 0} → M S (Unit {0}) → M S B → M S B
  ◌>>◌ m k w = k (m w).1

  -- `if` on steps.
  infix 1 when◌then◌else◌
  abbrev pub when◌then◌else◌ : {A : Type 0} → Bool → M S A → M S A → M S A
  when◌then◌else◌ b m k w = if b then m w else k w

  abbrev pub get : M S S
  get w = (w.st, w)

  abbrev pub modify : (S → S) → M S (Unit {0})
  modify f w = (tt, record w { st = f w.st })

  -- One system call.
  abbrev pub sys : Os → Call → M S Reply
  sys os c w = let r = os.reply w.trace c in (r, record w { trace = (c, r) ∷ w.trace })
