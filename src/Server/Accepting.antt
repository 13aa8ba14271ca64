-- ===== src/Server/Accepting.antt =====
-- How `server_pool` of pool.hpp takes connections: the clients, the descriptors, and the end of
-- the accept loop.
use epoll_server.Base.{
  ℕ, ◌+◌, ◌≡◌, refl, ap, inl, inr, true, false, not, List, [], ◌∷◌, if◌then◌else◌, Bool-cases,
}
use epoll_server.Base.Int.{ℤ, is_zero}
use epoll_server.Os.{Os, Call, Reply, Trace, World}
use epoll_server.Os.Descriptors.{open_fds, remove}
use epoll_server.Endpoint.{or_nonblock, endpoint_unblock, endpoint_close}
use epoll_server.Pool.State.{ClientPool, sfd_of, add_client}
use epoll_server.Pool.Invariant.{Inv, InUse}
use epoll_server.Pool.Clients.{add_client_full, add_client-Added}
use epoll_server.Server.{ServerPool, active_count, take_connection}

-- The client pool with the history.
abbrev pub clients_of : World ServerPool → World ClientPool
clients_of w = record { st = w.st.client_pool; trace = w.trace }

module _ (os : Os) (cfd : ℤ) (nonzero : is_zero cfd ≡ false) where
  -- What `add_client` leaves: the invariant, and the descriptors as they were.
  add_client_sound :
      (free : List ℕ) (w : World ClientPool)
      → Inv w.st free
      → let w' = (add_client os cfd w).1 in
        ((left : List ℕ) × Inv w'.st left) × (open_fds w'.trace ≡ open_fds w.trace)
  add_client_sound [] w inv = rw (add_client_full os w cfd inv) (([], inv), refl)
  add_client_sound (i ∷ rest) w inv =
      let a = add_client-Added os w cfd i rest nonzero inv in ((rest, a.inv), ap open_fds a.called)

  -- Of a connection that was accepted with a descriptor other than 0, whatever fails: the client
  -- pool keeps its invariant, and the connection's descriptor is closed unless it was added to the
  -- pool.
  pub take_connection-Inv :
      (free : List ℕ) (w : World ServerPool)
      → Inv w.st.client_pool free
      → let (kept, w') = take_connection os cfd w in
        ((left : List ℕ) × Inv w'.st.client_pool left)
        × (open_fds w'.trace ≡ (if kept then open_fds w.trace else remove cfd (open_fds w.trace)))
  unfolding take_connection endpoint_unblock endpoint_close
  take_connection-Inv free w inv = elim (Bool-cases (not (is_zero set.ret))) [
    | inl e ↦ rw e ((free, inv), refl)
    | inr e ↦
        let (kept, same) = add_client_sound free (clients_of w') inv in
        elim (Bool-cases (add_client os cfd (clients_of w')).0) [
          | inl ok ↦ rw (e, ok) (kept, same)
          | inr refused ↦ rw (e, refused) (kept, ap (remove cfd) same)
        ]
  ]
    where
      flags : Reply
      flags = os.reply w.trace (Call.get_flags cfd)

      t : Trace
      t = (Call.get_flags cfd, flags) ∷ w.trace

      set : Reply
      set = os.reply t (Call.set_flags cfd (or_nonblock flags.ret))

      w' : World ServerPool
      w' = record w { trace = (Call.set_flags cfd (or_nonblock flags.ret), set) ∷ t }

  -- With a free node, of a connection that was made non-blocking but is refused, which is when
  -- epoll refuses its registration: its descriptor is closed and the result is false, but its node
  -- stays in use, holds the closed descriptor, and counts as an active client.
  pub take_connection_refused :
      (i : ℕ) (rest : List ℕ) (w : World ServerPool)
      → Inv w.st.client_pool (i ∷ rest)
      → (take_connection os cfd w).0 ≡ false
      → let flags = os.reply w.trace (Call.get_flags cfd) in
        let t = (Call.get_flags cfd, flags) ∷ w.trace in
        is_zero (os.reply t (Call.set_flags cfd (or_nonblock flags.ret))).ret ≡ true
        → let w' = (take_connection os cfd w).1 in
          (open_fds w'.trace ≡ remove cfd (open_fds w.trace))
          × InUse w'.st.client_pool rest i
          × (sfd_of w'.st.client_pool i ≡ cfd)
          × (active_count w'.st ≡ active_count w.st + 1)
  unfolding take_connection endpoint_unblock endpoint_close active_count
  take_connection_refused i rest w inv refused unblocked =
      let flags = os.reply w.trace (Call.get_flags cfd) in
      let t : Trace = (Call.get_flags cfd, flags) ∷ w.trace in
      let c = Call.set_flags cfd (or_nonblock flags.ret) in
      let w' : World ClientPool = record { st = w.st.client_pool; trace = (c, os.reply t c) ∷ t } in
      let a = add_client-Added os w' cfd i rest nonzero inv in
      elim (Bool-cases (add_client os cfd w').0) [
        | inl ok ↦ let not_refused : true ≡ false = rw (unblocked, ok) at refused in absurd (cc)
        | inr no_room ↦
            rw (unblocked, no_room)
              (ap (remove cfd) (ap open_fds a.called), a.in_use, a.holds_sfd, a.counted)
      ]
