-- ===== src/Pool/Serving/Starting.antt =====
-- A new pool of pool.hpp: no client is registered with its epoll instance, and its workers start
-- with no event.
use epoll_server.Base.{
  ℕ, zero, suc, ◌*◌, ◌<◌, ◌≡◌, refl, sym, ap, inl, inr, false, Option, none, some, List, [], ◌∷◌,
  arith, ◌==◌, All, subst, Bool-cases,
}
use epoll_server.Base.Int.{ℤ, pos, failed, is_zero, ==ℤ_refl}
use epoll_server.Os.{Os, Call, Reply, Trace, World}
use epoll_server.Mem.{size_t, round_up, genmap, map_alloc}
use epoll_server.Stack.{empty, create}
use epoll_server.Epoll.{Epoll, default_max_events}
use epoll_server.Epoll
use epoll_server.Epoll.Flags.{ctl_add}
use epoll_server.Epoll.Interest.{Entry, armed, All-drop_fd}
use epoll_server.Pool.State.{Client, no_client, ClientPool}
use epoll_server.Pool.Invariant.{Inv, Inv-unchanged}
use epoll_server.Pool.Lifecycle.{
  Built, built, runtime_error, bad_alloc, node_size, construct_in, construct, run,
}
use epoll_server.Pool.Serving.{Serving}
use epoll_server.Pool.Serving.Invariant.{IsOf, IsSound}

-- No client is registered with the instance.
abbrev pub NoClients : (epfd : ℤ) → Trace → Type 0
NoClients epfd t = All (λ (e : Entry). e.1 ≡ 0) (armed epfd t)

epfd_of : Option Epoll → ℤ
epfd_of none = pos 0
epfd_of (some e) = e.epfd

module _ {S : Type 0} (os : Os) (w : World S) where
  abbrev made : Reply
  made = os.reply w.trace Call.epoll_create

  abbrev with_pipe : Trace
  with_pipe =
      let t : Trace = (Call.epoll_create, made) ∷ w.trace in
      (Call.socketpair, os.reply t Call.socketpair) ∷ t

  -- Whatever was registered with an instance of the same number before.
  with_pipe-armed : armed made.ret with_pipe ≡ []
  with_pipe-armed = rw (==ℤ_refl made.ret) refl

  abbrev register : Call
  register =
      Call.epoll_ctl made.ret ctl_add
        (os.reply ((Call.epoll_create, made) ∷ w.trace) Call.socketpair).pair.1
        Epoll.selfpipe_events 0

  registered-NoClients : (r : Reply) → NoClients made.ret ((register, r) ∷ with_pipe)
  registered-NoClients r = elim (Bool-cases (is_zero r.ret)) [
    | inl z ↦ rw (==ℤ_refl made.ret, z) (refl, tt)
    | inr z ↦ rw (==ℤ_refl made.ret, z) tt
  ]

  construct-NoClients :
      (maxevents : ℕ) (e : Epoll)
      → (Epoll.construct os maxevents w).0 ≡ some e
      → NoClients e.epfd (Epoll.construct os maxevents w).1.trace
  unfolding Epoll.construct epfd_of
  construct-NoClients maxevents e h = elim (Bool-cases (failed made.ret)) [
    | inl f ↦ let no : none ≡ some e = rw f at h in absurd (cc)
    | inr f ↦
        elim (Bool-cases
          (failed (os.reply ((Call.epoll_create, made) ∷ w.trace) Call.socketpair).ret)) [
            | inl g ↦ let no : none ≡ some e = rw (f, g) at h in absurd (cc)
            | inr g ↦ elim (Bool-cases (failed (os.reply with_pipe register).ret)) [
              | inl k ↦ let no : none ≡ some e = rw (f, g, k) at h in absurd (cc)
              | inr k ↦
                  let same : made.ret ≡ e.epfd = ap epfd_of (rw (f, g, k) at h) in
                  rw (f, g, k)
                    (subst (λ x. NoClients x ((register, os.reply with_pipe register) ∷ with_pipe))
                      same (registered-NoClients (os.reply with_pipe register)))
            ]
          ]
  ]

module _ {S : Type 0} (os : Os) where
  genmap-NoClients :
      (unitsize hint : ℕ) (epfd : ℤ) (w : World S)
      → NoClients epfd w.trace
      → NoClients epfd (genmap os unitsize hint w).1.trace
  unfolding genmap
  genmap-NoClients unitsize hint epfd w h = elim (Bool-cases (failed file.ret)) [
    | inl f ↦ rw f h
    | inr f ↦ elim (Bool-cases (failed cut.ret)) [
      | inl g ↦ rw (f, g) (All-drop_fd _ file.ret _ h)
      | inr g ↦ rw (f, g) (All-drop_fd _ file.ret _ h)
    ]
  ]
    where
      file : Reply
      file = os.reply w.trace Call.memfd_create

      cut : Reply
      cut =
          os.reply ((Call.memfd_create, file) ∷ w.trace)
            (Call.ftruncate file.ret (size_t (round_up os.pagesize hint * unitsize)))

  create-NoClients :
      (values : ℕ → Client) (hint : ℕ) (epfd : ℤ) (w : World S)
      → NoClients epfd w.trace
      → NoClients epfd (create (map_alloc os node_size) no_client (empty values) hint w).1.trace
  unfolding create
  create-NoClients values hint epfd w h = genmap-NoClients node_size hint epfd w h

pool_of : ClientPool → Built ClientPool → ClientPool
pool_of q (built p) = p
pool_of q runtime_error = q
pool_of q bad_alloc = q

NoClients-IsOf :
    (p : ClientPool) (free : List ℕ) (es : List Entry)
    → All (λ (e : Entry). e.1 ≡ 0) es
    → All (IsOf p free) es
NoClients-IsOf p free [] h = tt
NoClients-IsOf p free ((fd, zero, b) ∷ es) h = (tt, NoClients-IsOf p free es h.1)
NoClients-IsOf p free ((fd, suc c, b) ∷ es) h = absurd (omega (arith, h.0))

-- A pool whose threads were just started.
abbrev pub serving : World ClientPool → Serving
serving w = record { world = record w { st = run w.st }; pending = [] }

pub run-unchanged :
    (p : ClientPool)
    → ((run p).epoll ≡ p.epoll)
      × ((run p).client_cap ≡ p.client_cap)
      × ((run p).free_mem ≡ p.free_mem)
      × ((run p).client_count ≡ p.client_count)
unfolding run
run-unchanged p = elim (Bool-cases (p.threads == 0)) [
  | inl e ↦ rw e (refl, refl, refl, refl)
  | inr e ↦ rw e (refl, refl, refl, refl)
]

pub run_threads :
    (p : ClientPool) → p.threads ≡ 0 → 0 < p.worker_count → ((run p).threads == 0) ≡ false
unfolding run
run_threads p none_yet some_workers = ground arith

pub serving-IsSound :
    (w : World ClientPool) (free : List ℕ)
    → Inv w.st free
    → NoClients w.st.epoll.epfd w.trace
    → IsSound (serving w) free
serving-IsSound w free inv none_yet =
    let (epoll, cap, mem, count) = run-unchanged w.st in
    record {
      inv = Inv-unchanged cap mem count inv;
      registered =
          NoClients-IsOf (run w.st) free _
            (subst (λ (e : Epoll). NoClients e.epfd w.trace) (sym epoll) none_yet);
      pending = tt;
      disarmed = tt;
    }

module _ (os : Os) (worker_count hint : ℕ) (values : ℕ → Client) (thread_count : ℕ)
    {S : Type 0} where
  construct_in-NoClients :
      (e : Option Epoll) (w : World S) (p : ClientPool)
      → ((e' : Epoll) → e ≡ some e' → NoClients e'.epfd w.trace)
      → let (b, w') = construct_in os worker_count hint values thread_count e w in
        b ≡ built p
        → NoClients p.epoll.epfd w'.trace × (p.threads ≡ 0) × (p.worker_count ≡ worker_count)
  unfolding construct_in pool_of
  construct_in-NoClients none w p none_yet h = absurd (cc)
  construct_in-NoClients (some e) w p none_yet h =
      elim (Bool-cases (create (map_alloc os node_size) no_client (empty values) hint w).0.0) [
        | inl done ↦
            let same = ap (pool_of p) (rw done at h) in
            rw done (
              subst
                (λ (q : ClientPool).
                  NoClients q.epoll.epfd
                    (create (map_alloc os node_size) no_client (empty values) hint w).1.trace
                  × (q.threads ≡ 0)
                  × (q.worker_count ≡ worker_count))
                same (create-NoClients os values hint e.epfd w (none_yet e refl), refl, refl))
        | inr failed ↦ let no : bad_alloc ≡ built p = rw failed at h in absurd (cc)
      ]

  pub construct-NoRegistrations :
      (w : World S) (p : ClientPool)
      → let (b, w') = construct os worker_count hint values thread_count w in
        b ≡ built p
        → NoClients p.epoll.epfd w'.trace × (p.threads ≡ 0) × (p.worker_count ≡ worker_count)
  unfolding construct
  construct-NoRegistrations w p h =
      let (e, w') = Epoll.construct os default_max_events w in
      construct_in-NoClients e w' p (construct-NoClients os w default_max_events) h
