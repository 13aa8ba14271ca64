-- ===== src/Pool/Serving/Steps.antt =====
-- A batch that is taken, an event that is handled and one that is dropped keep what the one-shot
-- protocol of pool.hpp keeps.
use epoll_server.Base.{ℕ, suc, ◌<◌, ◌≡◌, refl, true, false, List, [], ◌∷◌, ◌++◌, arith, has, subst}
use epoll_server.Base.Int.{ℤ, ==ℤ_refl}
use epoll_server.Os.{Os, Call, World}
use epoll_server.Epoll.Interest.{
  Entry, drop_fd, batch, IsOneShot, has_entry-drop_fd, All-drop_fd, All-disarm_all,
}
use epoll_server.Pool.State.{ClientPool, sfd_of, put_back}
use epoll_server.Pool.Invariant.{put_back-Inv}
use epoll_server.Pool.Arming.{Left, as_it_was, rearmed, given_up}
use epoll_server.Pool.Stopping.{IsApart, IsPending, IsPending-cons}
use epoll_server.Pool.Serving.{Serving, take_batch}
use epoll_server.Pool.Serving.Pending.{
  AreDisarmed, AreDisarmed-weaken, IsPending-drop, AreDisarmed-drop,
}
use epoll_server.Pool.Serving.Invariant.{
  registrations, IsSound, Sound, add_reported-IsPending, given_up-IsOf,
}

-- A batch is taken.
pub take_batch-IsSound :
    (os : Os) (maxevents : ℕ) (s : Serving) (free : List ℕ)
    → IsOneShot os s.world.st.epoll.epfd
    → IsSound s free
    → IsSound (take_batch os maxevents s) free
take_batch-IsSound os maxevents s free one_shot sound =
    let epfd = s.world.st.epoll.epfd in
    let evs = batch (os.reply s.world.trace (Call.epoll_wait epfd maxevents)) in
    let (pending, disarmed) =
      add_reported-IsPending s.world.st free evs (registrations s) s.pending sound.registered
        (one_shot.reports s.world.trace maxevents) sound.pending sound.disarmed in
    record {
      inv = sound.inv;
      registered = rw (==ℤ_refl epfd) (All-disarm_all _ evs (registrations s) sound.registered);
      pending = pending;
      disarmed = rw (==ℤ_refl epfd) disarmed;
    }

-- Events are dropped.
pub dropped-IsSound :
    (s : Serving) (free : List ℕ) (pre gone post : List (ℕ × ℕ))
    → s.pending ≡ pre ++ (gone ++ post)
    → IsSound s free
    → IsSound (record s { pending = pre ++ post }) free
dropped-IsSound s free pre gone post e sound = record {
  inv = sound.inv;
  registered = sound.registered;
  pending =
      IsPending-drop s.world.st.client_cap free pre gone post
        (subst (IsPending s.world.st.client_cap free) e sound.pending);
  disarmed =
      AreDisarmed-drop (registrations s) pre gone post
        (subst (AreDisarmed (registrations s)) e sound.disarmed);
}

-- The client of a pending event is armed again.
armed_again :
    (es : List Entry) (fd : ℤ) (cl : ℕ) (ps : List (ℕ × ℕ))
    → IsApart cl ps
    → AreDisarmed es ps
    → AreDisarmed ((fd, suc cl, true) ∷ drop_fd fd es) ps
armed_again es fd cl [] apart disarmed = tt
armed_again es fd cl ((c, f) ∷ ps) apart disarmed = (
  ground (arith, apart.0, has_entry-drop_fd (suc c) fd es disarmed.0),
  armed_again es fd cl ps apart.1 disarmed.1,
)

-- The event of client `cl` was handled; the other events are those that are pending.
pub handled-Sound :
    (s : Serving) (free : List ℕ) (cl : ℕ) (w' : World ClientPool)
    → IsSound s free
    → cl < s.world.st.client_cap
    → has cl free ≡ false
    → IsApart cl s.pending
    → Left s.world.st.epoll.epfd cl s.world.st s.world.trace w'
    → Sound (record { world = w'; pending = s.pending })
unfolding put_back
handled-Sound s free cl w' sound lt used apart (as_it_was same kept) = (
  free,
  record {
    inv = rw same sound.inv;
    registered = rw same (rw kept sound.registered);
    pending = rw same sound.pending;
    disarmed = rw same (rw kept sound.disarmed);
  },
)
handled-Sound s free cl w' sound lt used apart (rearmed same again) =
    let fd = sfd_of s.world.st cl in
    (
      free,
      record {
        inv = rw same sound.inv;
        registered = rw same (
            rw again ((lt, used, refl, refl), All-drop_fd _ fd (registrations s) sound.registered));
        pending = rw same sound.pending;
        disarmed = rw same (rw again (armed_again _ fd cl s.pending apart sound.disarmed));
      },
    )
handled-Sound s free cl w' sound lt used apart (given_up same gone) =
    let fd = sfd_of s.world.st cl in
    (
      cl ∷ free,
      record {
        inv = rw same (put_back-Inv sound.inv cl (record { in_range = lt; not_free = used }));
        registered =
            rw same (rw gone (given_up-IsOf s.world.st free cl (registrations s) sound.registered));
        pending =
            rw same (IsPending-cons s.world.st.client_cap free cl s.pending apart sound.pending);
        disarmed = rw same (
            rw gone (
              AreDisarmed-weaken _ _ s.pending (λ u no. has_entry-drop_fd u fd (registrations s) no)
                sound.disarmed));
      },
    )
