-- ===== src/Pool/Chain/Starting.antt =====
-- A new pool of pool.hpp, once its threads are started: the shutdown chain is at its start.
use epoll_server.Base.{
  ℕ, ◌*◌, ◌≡◌, refl, sym, ap, inl, inr, Bool, true, false, ◌||◌, Option, none, some, List, [], ◌∷◌,
  arith, subst, Bool-cases,
}
use epoll_server.Base.Int.{ℤ, failed, is_zero, ◌==ℤ◌, ==ℤ_refl}
use epoll_server.Os.{Os, Call, Reply, Trace, World}
use epoll_server.Os.Descriptors.{open_fds}
use epoll_server.Mem.{size_t, round_up, genmap, map_alloc}
use epoll_server.Stack.{empty, create}
use epoll_server.Epoll.{Epoll, default_max_events}
use epoll_server.Epoll
use epoll_server.Epoll.Flags.{ctl_add}
use epoll_server.Epoll.Interest.{drop_fd, armed}
use epoll_server.Epoll.Shutdown.{started}
use epoll_server.Pool.State.{Client, no_client, ClientPool}
use epoll_server.Pool.Lifecycle.{
  Built, built, runtime_error, bad_alloc, node_size, construct_in, construct, run,
}
use epoll_server.Pool.Chain.{pipe_bytes, Shows}

-- Whether a descriptor is among those.
abbrev pub has_fd : ℤ → List ℤ → Bool
has_fd fd [] = false
has_fd fd (x ∷ xs) = (x ==ℤ fd) || has_fd fd xs

-- What a kernel does for the constructor: a new file has a descriptor that is not open, and
-- `epoll_ctl` returns 0 or -1.
pub record GivesNew (os : Os) : Type 0 where
  pub new_file : (t : Trace) → has_fd (os.reply t Call.memfd_create).ret (open_fds t) ≡ false
  pub result :
      (t : Trace) (epfd : ℤ) (opcode : ℕ) (fd : ℤ) (events userdata : ℕ)
      → let r = os.reply t (Call.epoll_ctl epfd opcode fd events userdata) in
        failed r.ret ≡ false → is_zero r.ret ≡ true

-- The instance watches its self-pipe alone, and no byte stands in it.
record IsUnused (e : Epoll) (t : Trace) : Type 0 where
  armed_eq : armed e.epfd t ≡ (e.selfpipe_1, 0, true) ∷ []
  no_byte : pipe_bytes e t ≡ 0

-- It is new, and its self-pipe is open.
abbrev IsMade : Epoll → Trace → Type 0
IsMade e t =
    IsUnused e t × ((fd : ℤ) → has_fd fd (open_fds t) ≡ false → (e.selfpipe_1 ==ℤ fd) ≡ false)

epoll_or : Epoll → Option Epoll → Epoll
epoll_or e none = e
epoll_or e (some x) = x

module _ {S : Type 0} (os : Os) (gives : GivesNew os) (w : World S) where
  abbrev made : Reply
  made = os.reply w.trace Call.epoll_create

  abbrev t_1 : Trace
  t_1 = (Call.epoll_create, made) ∷ w.trace

  abbrev pair : Reply
  pair = os.reply t_1 Call.socketpair

  abbrev t_2 : Trace
  t_2 = (Call.socketpair, pair) ∷ t_1

  abbrev register : Call
  register = Call.epoll_ctl made.ret ctl_add pair.pair.1 Epoll.selfpipe_events 0

  abbrev instance_of : Epoll
  instance_of = record {
    selfpipe_0 = pair.pair.0;
    selfpipe_1 = pair.pair.1;
    epfd = made.ret;
    maxevents = default_max_events;
  }

  registered-IsMade :
      failed pair.ret ≡ false
      → failed (os.reply t_2 register).ret ≡ false
      → IsMade instance_of ((register, os.reply t_2 register) ∷ t_2)
  registered-IsMade paired added =
      let zero_result =
        gives.result t_2 made.ret ctl_add pair.pair.1 Epoll.selfpipe_events 0 added in
      (
        record {
          armed_eq = rw (==ℤ_refl made.ret, zero_result) refl;
          no_byte = rw (==ℤ_refl pair.pair.1) refl;
        },
        λ fd new. ground (arith, paired, new),
      )

  construct-IsMade :
      (e : Epoll)
      → (Epoll.construct os default_max_events w).0 ≡ some e
      → IsMade e (Epoll.construct os default_max_events w).1.trace
  unfolding Epoll.construct epoll_or
  construct-IsMade e h = elim (Bool-cases (failed made.ret)) [
    | inl f ↦ let no_one : none ≡ some e = rw f at h in absurd (cc)
    | inr f ↦ elim (Bool-cases (failed pair.ret)) [
      | inl g ↦ let no_one : none ≡ some e = rw (f, g) at h in absurd (cc)
      | inr g ↦ elim (Bool-cases (failed (os.reply t_2 register).ret)) [
        | inl k ↦ let no_one : none ≡ some e = rw (f, g, k) at h in absurd (cc)
        | inr k ↦
            let same : instance_of ≡ e = ap (epoll_or e) (rw (f, g, k) at h) in
            rw (f, g, k)
              (subst (λ x. IsMade x ((register, os.reply t_2 register) ∷ t_2)) same
                (registered-IsMade g k))
      ]
    ]
  ]

module _ {S : Type 0} (os : Os) (gives : GivesNew os) where
  genmap-IsUnused :
      (unitsize hint : ℕ) (e : Epoll) (w : World S)
      → IsMade e w.trace
      → IsUnused e (genmap os unitsize hint w).1.trace
  unfolding genmap
  genmap-IsUnused unitsize hint e w (unused, apart) = elim (Bool-cases (failed file.ret)) [
    | inl f ↦ rw f (record { armed_eq = unused.armed_eq; no_byte = unused.no_byte })
    | inr f ↦ elim (Bool-cases (failed cut.ret)) [
      | inl g ↦ rw (f, g) (record { armed_eq = closed; no_byte = unused.no_byte })
      | inr g ↦ rw (f, g) (record { armed_eq = closed; no_byte = unused.no_byte })
    ]
  ]
    where
      file : Reply
      file = os.reply w.trace Call.memfd_create

      cut : Reply
      cut =
          os.reply ((Call.memfd_create, file) ∷ w.trace)
            (Call.ftruncate file.ret (size_t (round_up os.pagesize hint * unitsize)))

      closed : drop_fd file.ret (armed e.epfd w.trace) ≡ (e.selfpipe_1, 0, true) ∷ []
      closed = rw (unused.armed_eq, apart file.ret (gives.new_file w.trace)) refl

pool_of : ClientPool → Built ClientPool → ClientPool
pool_of q (built p) = p
pool_of q runtime_error = q
pool_of q bad_alloc = q

-- What the constructor leaves for `run`.
abbrev IsReady : (worker_count : ℕ) → ClientPool → Trace → Type 0
IsReady worker_count p t = IsUnused p.epoll t × (p.threads ≡ 0) × (p.worker_count ≡ worker_count)

module _ (os : Os) (gives : GivesNew os) (worker_count hint : ℕ) (values : ℕ → Client)
    (thread_count : ℕ) {S : Type 0} where
  construct_in-IsReady :
      (e : Option Epoll) (w : World S) (p : ClientPool)
      → ((e' : Epoll) → e ≡ some e' → IsMade e' w.trace)
      → let (b, w') = construct_in os worker_count hint values thread_count e w in
        b ≡ built p → IsReady worker_count p w'.trace
  unfolding construct_in create pool_of
  construct_in-IsReady none w p new h = absurd (cc)
  construct_in-IsReady (some e) w p new h =
      elim (Bool-cases (create (map_alloc os node_size) no_client (empty values) hint w).0.0) [
        | inl done ↦ rw done (
            subst (λ (q : ClientPool). IsReady worker_count q (genmap os node_size hint w).1.trace)
              (ap (pool_of p) (rw done at h))
              (genmap-IsUnused os gives node_size hint e w (new e refl), refl, refl))
        | inr refused ↦ let no : bad_alloc ≡ built p = rw refused at h in absurd (cc)
      ]

  -- The chain with all its threads at the start shows a new pool whose threads were started.
  pub run-Shows :
      (w : World S) (p : ClientPool)
      → let (b, w') = construct os worker_count hint values thread_count w in
        b ≡ built p → Shows p.epoll (started worker_count) (record { st = run p; trace = w'.trace })
  unfolding construct run
  run-Shows w p h =
      let (e, w') = Epoll.construct os default_max_events w in
      let (unused, threads, count) = construct_in-IsReady e w' p (construct-IsMade os gives w) h in
      rw threads (record {
        same_epoll = refl;
        bytes_eq = sym unused.no_byte;
        armed_eq = rw unused.armed_eq refl;
        running_eq = sym count;
        once = rw unused.armed_eq ((λ z. refl), tt);
      })
