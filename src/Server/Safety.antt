-- ===== src/Server/Safety.antt =====
-- What the steps of a `server_pool` of pool.hpp keep: the soundness of the client pool while it
-- serves.
use epoll_server.Base.{
  ℕ, zero, suc, ◌≡◌, refl, sym, ◌∙◌, false, not, inl, inr, List, ◌∷◌, ◌==◌, subst, Bool-cases,
}
use epoll_server.Base.Int.{ℤ, failed, is_zero}
use epoll_server.Os.{Os, Call, Reply, Trace, World}
use epoll_server.Endpoint.{or_nonblock, endpoint_unblock, endpoint_close, endpoint_accept}
use epoll_server.Epoll.{Epoll}
use epoll_server.Epoll.Flags.{epollerr}
use epoll_server.Epoll.Interest.{drop_fd, armed, has_entry-drop_fd, All-drop_fd}
use epoll_server.Pool.State.{add_client}
use epoll_server.Pool.Handlers.{Callbacks}
use epoll_server.Pool.Serving.{Serving}
use epoll_server.Pool.Serving.Pending.{AreDisarmed-weaken}
use epoll_server.Pool.Serving.Invariant.{registrations, Sound}
use epoll_server.Pool.Serving.Adding.{added-Sound}
use epoll_server.Pool.Serving.Safety.{Environment, IsFixed, added-IsFixed, Step-Sound}
use epoll_server.Server.{ServerPool, take_connection, accept_all, process}
use epoll_server.Server.Accepting.{clients_of}
use epoll_server.Server.Life.{
  Running, clients, epfd_of, Step, listened, worked, elsewhere, Reach, here, next,
}

-- The history goes on, with the same registrations or without those of a descriptor.
pub elsewhere-Sound :
    (s : Serving) (t : Trace)
    → armed s.world.st.epoll.epfd t ≡ registrations s
    → Sound s
    → Sound (record s { world = record s.world { trace = t } })
elsewhere-Sound s t same (free, sound) = (
  free,
  record {
    inv = sound.inv;
    registered = rw same sound.registered;
    pending = sound.pending;
    disarmed = rw same sound.disarmed;
  },
)

closed-Sound :
    (s : Serving) (fd : ℤ) (r : Reply)
    → Sound s
    → Sound (record s { world = record s.world { trace = (Call.close fd, r) ∷ s.world.trace } })
closed-Sound s fd r (free, sound) = (
  free,
  record {
    inv = sound.inv;
    registered = All-drop_fd _ fd (registrations s) sound.registered;
    pending = sound.pending;
    disarmed =
        AreDisarmed-weaken (registrations s) (drop_fd fd (registrations s)) s.pending
          (λ u no. has_entry-drop_fd u fd (registrations s) no) sound.disarmed;
  },
)

-- What a step of the server's thread keeps, over the events `ps` that are pending.
abbrev Kept : List (ℕ × ℕ) → World ServerPool → World ServerPool → Type 0
Kept ps w w' =
    Sound (record { world = clients_of w'; pending = ps })
    × IsFixed w.st.client_pool w'.st.client_pool

module _ (os : Os) (ps : List (ℕ × ℕ)) where
  take_connection-Kept :
      (cfd : ℤ) (w : World ServerPool)
      → is_zero cfd ≡ false
      → Sound (record { world = clients_of w; pending = ps })
      → Kept ps w (take_connection os cfd w).1
  unfolding take_connection endpoint_unblock endpoint_close
  take_connection-Kept cfd w nonzero sound = elim (Bool-cases (not (is_zero set.ret))) [
    | inl e ↦ rw e (closed-Sound s' cfd _ still, (refl, refl))
    | inr e ↦
        let added = added-Sound os cfd s' still.0 nonzero still.1 in
        let fixed = added-IsFixed os cfd s'.world still.0 nonzero still.1.inv in
        elim (Bool-cases (add_client os cfd s'.world).0) [
          | inl ok ↦ rw (e, ok) (added, fixed)
          | inr refused ↦
              rw (e, refused)
                (
                  closed-Sound (record { world = (add_client os cfd s'.world).1; pending = ps }) cfd
                      _ added,
                  fixed,
                )
        ]
  ]
    where
      flags : Reply
      flags = os.reply w.trace (Call.get_flags cfd)

      t : Trace
      t = (Call.get_flags cfd, flags) ∷ w.trace

      set : Reply
      set = os.reply t (Call.set_flags cfd (or_nonblock flags.ret))

      s' : Serving
      s' = record {
        world = record {
          st = w.st.client_pool;
          trace = (Call.set_flags cfd (or_nonblock flags.ret), set) ∷ t;
        };
        pending = ps;
      }

      still : Sound s'
      still =
          elsewhere-Sound (record { world = clients_of w; pending = ps }) s'.world.trace refl sound

  module _ (sfd : ℤ)
      (nonzero : (t : Trace) → is_zero (os.reply t (Call.accept sfd)).ret ≡ false) where
    accept_all-Kept :
        (fuel : ℕ) (w : World ServerPool)
        → Sound (record { world = clients_of w; pending = ps })
        → Kept ps w (accept_all os fuel sfd w).1
    unfolding accept_all endpoint_accept
    accept_all-Kept zero w sound = (sound, (refl, refl))
    accept_all-Kept (suc fuel) w sound = elim (Bool-cases (failed r.ret)) [
      | inl e ↦ rw e (still, (refl, refl))
      | inr e ↦
          let (sound', same) = take_connection-Kept r.ret w' (nonzero w.trace) still in
          let (sound'', same') = accept_all-Kept fuel (take_connection os r.ret w').1 sound' in
          rw e (sound'', (same'.0 ∙ same.0, same'.1 ∙ same.1))
    ]
      where
        r : Reply
        r = os.reply w.trace (Call.accept sfd)

        w' : World ServerPool
        w' = record w { trace = (Call.accept sfd, r) ∷ w.trace }

        still : Sound (record { world = clients_of w'; pending = ps })
        still = elsewhere-Sound (record { world = clients_of w; pending = ps }) w'.trace refl sound

    process-Kept :
        (fuel flags : ℕ) (w : World ServerPool)
        → Sound (record { world = clients_of w; pending = ps })
        → Kept ps w (process os fuel sfd flags w).1
    unfolding process endpoint_close
    process-Kept fuel flags w sound = elim (Bool-cases (flags == epollerr)) [
      | inl e ↦
          rw e
            (closed-Sound (record { world = clients_of w; pending = ps }) sfd _ sound, (refl, refl))
      | inr e ↦ rw e (accept_all-Kept fuel w sound)
    ]

module _ {os : Os} {h : Callbacks} where
  step-Sound :
      {s s' : Running}
      → Environment os h (epfd_of s)
      → Sound (clients s)
      → Step os h s s'
      → Sound (clients s') × IsFixed s.world.st.client_pool s'.world.st.client_pool
  step-Sound {s} env sound (listened fuel sfd flags nonzero) =
      process-Kept os s.pending sfd nonzero fuel flags s.world sound
  step-Sound {s} env sound (worked st) = Step-Sound {s = clients s} env sound st
  step-Sound {s} env sound (elsewhere t thread_count same) =
      (elsewhere-Sound (clients s) t same sound, (refl, refl))

  pub Reach-Sound :
      {s s' : Running}
      → Environment os h (epfd_of s)
      → Sound (clients s)
      → Reach os h s s'
      → Sound (clients s') × IsFixed s.world.st.client_pool s'.world.st.client_pool
  Reach-Sound env sound here = (sound, (refl, refl))
  Reach-Sound env sound (next r st) =
      let (sound', same) = Reach-Sound env sound r in
      let (sound'', same') =
        step-Sound (subst (λ (e : Epoll). Environment os h e.epfd) (sym same.0) env) sound' st in
      (sound'', (same'.0 ∙ same.0, same'.1 ∙ same.1))
