-- ===== src/Pool/Serving/Adding.antt =====
-- A connection that is added keeps what the one-shot protocol of pool.hpp keeps.
use epoll_server.Base.{
  true, ℕ, suc, ◌≡◌, refl, Bool, false, inl, inr, List, [], ◌∷◌, arith, Bool-cases,
}
use epoll_server.Base.Int.{ℤ, is_zero, ==ℤ_refl}
use epoll_server.Os.{Os, World}
use epoll_server.Epoll.Interest.{Entry, drop_fd, armed, has_entry-drop_fd, All-drop_fd}
use epoll_server.Pool.State.{ClientPool, add_client}
use epoll_server.Pool.Clients.{Added, add_client_full, add_client-Added}
use epoll_server.Pool.Stopping.{IsPending}
use epoll_server.Pool.Serving.{Serving}
use epoll_server.Pool.Serving.Pending.{AreDisarmed, IsPending-taken}
use epoll_server.Pool.Serving.Invariant.{registrations, IsSound, Sound, taken-IsOf}

-- A new client is armed: no event waits of it, as its node was free.
armed_new :
    (es : List Entry) (fd : ℤ) (cap i : ℕ) (rest : List ℕ) (ps : List (ℕ × ℕ))
    → IsPending cap (i ∷ rest) ps
    → AreDisarmed es ps
    → AreDisarmed ((fd, suc i, true) ∷ drop_fd fd es) ps
armed_new es fd cap i rest [] pending disarmed = tt
armed_new es fd cap i rest ((c, f) ∷ ps) pending disarmed = (
  ground (arith, pending.1, has_entry-drop_fd (suc c) fd es disarmed.0),
  armed_new es fd cap i rest ps pending.3 disarmed.1,
)

taken-Sound :
    (os : Os) (sfd : ℤ) (s : Serving) (i : ℕ) (rest : List ℕ) (ok : Bool) (w' : World ClientPool)
    → IsSound s (i ∷ rest)
    → Added os sfd i rest s.world ok w'
    → IsSound (record s { world = w' }) rest
taken-Sound os sfd s i rest ok w' sound a =
    let es = registrations s in
    let epfd = s.world.st.epoll.epfd in
    let old = taken-IsOf s.world.st w'.st i rest es a.others_sfd a.same_cap sound.registered in
    let used = a.in_use in
    let pending = IsPending-taken s.world.st.client_cap i rest s.pending sound.pending in
    elim (Bool-cases (is_zero a.reply.ret)) [
      | inl e ↦
          let now : armed w'.st.epoll.epfd w'.trace ≡ (sfd, suc i, true) ∷ drop_fd sfd es =
            rw (a.same_epoll, a.called, ==ℤ_refl epfd, e) refl in
          record {
            inv = a.inv;
            registered =
                rw now
                  ((used.in_range, used.not_free, a.holds_sfd, refl), All-drop_fd _ sfd es old);
            pending = rw a.same_cap pending;
            disarmed = rw now (
                armed_new es sfd s.world.st.client_cap i rest s.pending sound.pending
                  sound.disarmed);
          }
      | inr e ↦
          let now : armed w'.st.epoll.epfd w'.trace ≡ es =
            rw (a.same_epoll, a.called, ==ℤ_refl epfd, e) refl in
          record {
            inv = a.inv;
            registered = rw now old;
            pending = rw a.same_cap pending;
            disarmed = rw now sound.disarmed;
          }
    ]

pub added-Sound :
    (os : Os) (sfd : ℤ) (s : Serving) (free : List ℕ)
    → is_zero sfd ≡ false
    → IsSound s free
    → Sound (record s { world = (add_client os sfd s.world).1 })
added-Sound os sfd s [] nonzero sound = rw (add_client_full os s.world sfd sound.inv) ([], sound)
added-Sound os sfd s (i ∷ rest) nonzero sound = (
  rest,
  taken-Sound os sfd s i rest _ _ sound (add_client-Added os s.world sfd i rest nonzero sound.inv),
)
