-- ===== src/Pool/Serving/Leaving.antt =====
-- A worker that leaves keeps what the one-shot protocol of pool.hpp keeps.
use epoll_server.Base.{
  true, ℕ, suc, ◌+◌, ◌-◌, ◌^◌, ◌≡◌, refl, ap, ◌⊎◌, false, inl, inr, List, [], ◌∷◌, arith,
  Bool-cases, ltb,
}
use epoll_server.Base.Int.{ℤ, failed, is_zero, ==ℤ_refl}
use epoll_server.Os.{Os, Call, Reply, Trace, World}
use epoll_server.Mem.{size_t}
use epoll_server.Epoll.{selfpipe_events, leave}
use epoll_server.Epoll.Flags.{ctl_mod}
use epoll_server.Epoll.Interest.{Entry, drop_fd, armed, has_entry-drop_fd, All-drop_fd}
use epoll_server.Endpoint.{endpoint_read, endpoint_write}
use epoll_server.Pool.State.{ClientPool}
use epoll_server.Pool.Lifecycle.{decrement}
use epoll_server.Pool.Invariant.{Inv-unchanged}
use epoll_server.Pool.Serving.{Serving}
use epoll_server.Pool.Serving.Pending.{AreDisarmed}
use epoll_server.Pool.Serving.Invariant.{IsOf-unchanged, registrations, IsSound}

-- What a worker that leaves does: the counter, and the registration of the self-pipe.
pub record Departed (w : World ClientPool) (w' : World ClientPool) : Type 0 where
  pub count : ℕ
  pub counted : w'.st ≡ record w.st { thread_count = count }
  pub entries :
      let e = w.st.epoll in
      let es = armed e.epfd w.trace in
      (armed e.epfd w'.trace ≡ es)
      ⊎ (armed e.epfd w'.trace ≡ (e.selfpipe_1, 0, true) ∷ drop_fd e.selfpipe_1 es)

pub leave-Departed :
    (os : Os) (w : World ClientPool) → Departed w (leave os w.st.epoll decrement w).1
unfolding leave endpoint_read endpoint_write decrement
leave-Departed os w = elim (Bool-cases (failed r.ret)) [
  | inl e ↦ rw e (record { count = w.st.thread_count; counted = refl; entries = entered })
  | inr e ↦ elim (Bool-cases (ltb 0 (size_t (w.st.thread_count + 2 ^ 64 - 1)))) [
    | inl l ↦
        rw (e, l)
          (record {
            count = size_t (w.st.thread_count + 2 ^ 64 - 1);
            counted = refl;
            entries = entered;
          })
    | inr l ↦
        rw (e, l)
          (record {
            count = size_t (w.st.thread_count + 2 ^ 64 - 1);
            counted = refl;
            entries = entered;
          })
  ]
]
  where
    t : Trace
    t =
        (
          Call.recv w.st.epoll.selfpipe_1 1 false,
          os.reply w.trace (Call.recv w.st.epoll.selfpipe_1 1 false),
        )
        ∷ w.trace

    c : Call
    c = Call.epoll_ctl w.st.epoll.epfd ctl_mod w.st.epoll.selfpipe_1 selfpipe_events 0

    r : Reply
    r = os.reply t c

    entered :
        let e = w.st.epoll in
        let es = armed e.epfd w.trace in
        (armed e.epfd ((c, r) ∷ t) ≡ es)
        ⊎ (armed e.epfd ((c, r) ∷ t) ≡ (e.selfpipe_1, 0, true) ∷ drop_fd e.selfpipe_1 es)
    entered = elim (Bool-cases (is_zero r.ret)) [
      | inl z ↦ inr (rw (==ℤ_refl w.st.epoll.epfd, z) refl)
      | inr z ↦ inl (rw (==ℤ_refl w.st.epoll.epfd, z) refl)
    ]

disarmed_but_pipe :
    (es : List Entry) (fd : ℤ) (ps : List (ℕ × ℕ))
    → AreDisarmed es ps
    → AreDisarmed ((fd, 0, true) ∷ drop_fd fd es) ps
disarmed_but_pipe es fd [] disarmed = tt
disarmed_but_pipe es fd ((c, f) ∷ ps) disarmed = (
  ground (arith, has_entry-drop_fd (suc c) fd es disarmed.0),
  disarmed_but_pipe es fd ps disarmed.1,
)

-- A worker leaves.
pub leave-IsSound :
    (os : Os) (s : Serving) (free : List ℕ)
    → IsSound s free
    → IsSound (record s { world = (leave os s.world.st.epoll decrement s.world).1 }) free
leave-IsSound os s free sound =
    let d = leave-Departed os s.world in
    let es = registrations s in
    let old =
      IsOf-unchanged s.world.st (record s.world.st { thread_count = d.count }) free es refl refl
        sound.registered in
    elim d.entries [
      | inl same ↦ record {
        inv = rw d.counted (Inv-unchanged refl refl refl sound.inv);
        registered = rw d.counted (rw same old);
        pending = rw d.counted sound.pending;
        disarmed = rw d.counted (rw same sound.disarmed);
      }
      | inr again ↦ record {
        inv = rw d.counted (Inv-unchanged refl refl refl sound.inv);
        registered = rw d.counted (rw again (tt, All-drop_fd _ s.world.st.epoll.selfpipe_1 es old));
        pending = rw d.counted sound.pending;
        disarmed =
            rw d.counted (
              rw again (disarmed_but_pipe es s.world.st.epoll.selfpipe_1 s.pending sound.disarmed));
      }
    ]

pub leave_fixed :
    (os : Os) (w : World ClientPool)
    → let w' = (leave os w.st.epoll decrement w).1 in
      (w'.st.epoll ≡ w.st.epoll) × (w'.st.threads ≡ w.st.threads)
leave_fixed os w =
    let d = leave-Departed os w in (ap (λ p. p.epoll) d.counted, ap (λ p. p.threads) d.counted)
