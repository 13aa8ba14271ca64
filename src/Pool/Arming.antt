-- ===== src/Pool/Arming.antt =====
-- What the handlers of pool.hpp do to the registration of their client with the epoll instance.
use epoll_server.Base.{true, ℕ, suc, ◌≡◌, refl, ◌∙◌, inl, inr, List, ◌∷◌, Bool-cases}
use epoll_server.Base.Int.{ℤ, is_zero, ==ℤ_refl}
use epoll_server.Os.{Os, Call, Reply, Trace, World}
use epoll_server.Epoll.{remove}
use epoll_server.Epoll.Flags.{ctl_del}
use epoll_server.Epoll.Interest.{drop_fd, armed, drop_fd_twice}
use epoll_server.Endpoint.{endpoint_close}
use epoll_server.Pool.State.{ClientPool, sfd_of, put_back, unuse}
use epoll_server.Pool.Handlers.{Callbacks}
use epoll_server.Pool.Process.{process}
use epoll_server.Pool.Handling.{rearm_call, Rules, process-Obeys}

-- The callbacks do not touch the registrations of the instance.
pub record IsNeutral (h : Callbacks) (epfd : ℤ) : Type 0 where
  pub on_input :
      (sfd : ℤ) (bytes : List ℕ) (len : ℤ) (t : Trace)
      → armed epfd (h.on_input sfd bytes len t) ≡ armed epfd t
  pub on_write_ready : (sfd : ℤ) (t : Trace) → armed epfd (h.on_write_ready sfd t) ≡ armed epfd t

-- How the handling of an event leaves its client: as it was, armed again, or given up.
pub data Left (epfd : ℤ) (cl : ℕ) (p : ClientPool) (t : Trace) (w' : World ClientPool)
    : Type 0 where
  as_it_was : w'.st ≡ p → armed epfd w'.trace ≡ armed epfd t → Left epfd cl p t w'
  rearmed :
      w'.st ≡ p
      → armed epfd w'.trace ≡ (sfd_of p cl, suc cl, true) ∷ drop_fd (sfd_of p cl) (armed epfd t)
      → Left epfd cl p t w'
  given_up :
      w'.st ≡ put_back cl p
      → armed epfd w'.trace ≡ drop_fd (sfd_of p cl) (armed epfd t)
      → Left epfd cl p t w'

module _ (epfd : ℤ) (cl : ℕ) (p : ClientPool) where
  -- The history may begin or end elsewhere, with the same registrations.
  Left-from :
      {t u : Trace} {w' : World ClientPool}
      → armed epfd t ≡ armed epfd u
      → Left epfd cl p t w'
      → Left epfd cl p u w'
  Left-from e (as_it_was s a) = as_it_was s (a ∙ e)
  Left-from e (rearmed s a) = rearmed s (a ∙ rw e refl)
  Left-from e (given_up s a) = given_up s (a ∙ rw e refl)

  Left-to :
      {t u : Trace} {w' : World ClientPool}
      → armed epfd u ≡ armed epfd w'.trace
      → Left epfd cl p t w'
      → Left epfd cl p t (record w' { trace = u })
  Left-to e (as_it_was s a) = as_it_was s (e ∙ a)
  Left-to e (rearmed s a) = rearmed s (e ∙ a)
  Left-to e (given_up s a) = given_up s (e ∙ a)

module _ (os : Os) (h : Callbacks) (cl : ℕ) (p : ClientPool)
    (neutral : IsNeutral h p.epoll.epfd) where
  abbrev epfd : ℤ
  epfd = p.epoll.epfd

  unuse-Left : (t : Trace) → Left epfd cl p t (unuse os cl (record { st = p; trace = t })).1
  unfolding unuse remove endpoint_close
  unuse-Left t = given_up refl (elim (Bool-cases (is_zero removed.ret)) [
    | inl e ↦ rw (==ℤ_refl epfd, e) (drop_fd_twice (sfd_of p cl) (armed epfd t))
    | inr e ↦ rw (==ℤ_refl epfd, e) refl
  ])
    where
      removed : Reply
      removed = os.reply t (Call.epoll_ctl epfd ctl_del (sfd_of p cl) 0 0)

  rearm-Left :
      (t : Trace)
      → Left epfd cl p t
          (record { st = p; trace = (rearm_call p cl, os.reply t (rearm_call p cl)) ∷ t })
  rearm-Left t = elim (Bool-cases (is_zero (os.reply t (rearm_call p cl)).ret)) [
    | inl e ↦ rearmed refl (rw (==ℤ_refl epfd, e) refl)
    | inr e ↦ as_it_was refl (rw (==ℤ_refl epfd, e) refl)
  ]

  Left-Rules : Rules os h cl p (Left epfd cl p)
  Left-Rules = record {
    stays = λ t. as_it_was refl refl;
    releases = unuse-Left;
    rearms = rearm-Left;
    reads_none = λ r t w' none left. Left-from epfd cl p refl left;
    takes_input = λ r t w' more some left.
        Left-from epfd cl p (neutral.on_input (sfd_of p cl) r.bytes r.ret _) left;
    reads_oob = λ r t w' left. Left-from epfd cl p refl left;
    asks_mark = λ r t w' left. Left-from epfd cl p refl left;
    writes =
        λ t w' left. Left-to epfd cl p (neutral.on_write_ready (sfd_of w'.st cl) w'.trace) left;
  }

  -- Whatever the event mask, the kernel's answers and the fuel: the handling of an event leaves the
  -- client's registration as it was, arms it again, or ends it and gives the client up.
  pub process-Left :
      (fuel flags : ℕ) (t : Trace)
      → Left epfd cl p t (process os h fuel cl flags (record { st = p; trace = t })).1
  process-Left fuel flags t = process-Obeys os h cl p (Left epfd cl p) Left-Rules fuel flags t
