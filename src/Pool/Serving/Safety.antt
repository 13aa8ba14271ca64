-- ===== src/Pool/Serving/Safety.antt =====
-- The one-shot protocol of pool.hpp is safe: no event is handled of a client that is not in use,
-- and no two threads handle the same client.
use epoll_server.Base.{ℕ, ◌≡◌, refl, sym, ap, ◌∙◌, false, List, [], ◌∷◌, ◌++◌, subst}
use epoll_server.Base.Int.{ℤ, is_zero}
use epoll_server.Os.{Os, Trace, World}
use epoll_server.Epoll.{Epoll}
use epoll_server.Epoll.Interest.{IsOneShot}
use epoll_server.Pool.State.{ClientPool, put_back, add_client}
use epoll_server.Pool.Handlers.{Callbacks}
use epoll_server.Pool.Invariant.{Inv}
use epoll_server.Pool.Clients.{add_client_full, add_client-Added}
use epoll_server.Pool.Arming.{IsNeutral, Left, as_it_was, rearmed, given_up, process-Left}
use epoll_server.Pool.Stopping.{IsPending}
use epoll_server.Pool.Serving.{Serving, Step, added, waited, handled, left, Reach, here, next}
use epoll_server.Pool.Serving.Pending.{IsPending-pick}
use epoll_server.Pool.Serving.Invariant.{IsSound, Sound}
use epoll_server.Pool.Serving.Steps.{take_batch-IsSound, dropped-IsSound, handled-Sound}
use epoll_server.Pool.Serving.Adding.{added-Sound}
use epoll_server.Pool.Serving.Leaving.{leave-IsSound, leave_fixed}

abbrev pub epoll_of : Serving → Epoll
epoll_of s = s.world.st.epoll

-- What is assumed of the kernel and of the callbacks.
pub record Environment (os : Os) (h : Callbacks) (epfd : ℤ) : Type 0 where
  pub one_shot : IsOneShot os epfd
  pub neutral : IsNeutral h epfd

-- The instance and the threads stay as they are.
abbrev pub IsFixed : ClientPool → ClientPool → Type 0
IsFixed p p' = (p'.epoll ≡ p.epoll) × (p'.threads ≡ p.threads)

handled-IsFixed :
    {epfd : ℤ} {cl : ℕ} {p : ClientPool} {t : Trace} {w' : World ClientPool}
    → Left epfd cl p t w'
    → IsFixed p w'.st
unfolding put_back
handled-IsFixed (as_it_was same kept) = (ap (λ q. q.epoll) same, ap (λ q. q.threads) same)
handled-IsFixed (rearmed same again) = (ap (λ q. q.epoll) same, ap (λ q. q.threads) same)
handled-IsFixed (given_up same gone) = (ap (λ q. q.epoll) same, ap (λ q. q.threads) same)

pub added-IsFixed :
    (os : Os) (sfd : ℤ) (w : World ClientPool) (free : List ℕ)
    → is_zero sfd ≡ false
    → Inv w.st free
    → IsFixed w.st (add_client os sfd w).1.st
added-IsFixed os sfd w [] nonzero inv = rw (add_client_full os w sfd inv) (refl, refl)
added-IsFixed os sfd w (i ∷ rest) nonzero inv =
    let a = add_client-Added os w sfd i rest nonzero inv in (a.same_epoll, a.same_threads)

module _ {os : Os} {h : Callbacks} where
  pub Step-Sound :
      {s s' : Serving}
      → Environment os h (epoll_of s).epfd
      → Sound s
      → Step os h s s'
      → Sound s' × IsFixed s.world.st s'.world.st
  Step-Sound {s} env (free, sound) (added sfd nonzero) =
      (added-Sound os sfd s free nonzero sound, added-IsFixed os sfd s.world free nonzero sound.inv)
  Step-Sound {s} env (free, sound) (waited maxevents) =
      ((free, take_batch-IsSound os maxevents s free env.one_shot sound), (refl, refl))
  Step-Sound {s} env (free, sound) (handled fuel cl flags pre post e) =
      let cap = s.world.st.client_cap in
      let (lt, used, apart) =
        IsPending-pick cap free pre post cl flags (subst (IsPending cap free) e sound.pending) in
      let rest : Serving = record s { pending = pre ++ post } in
      let settled = process-Left os h cl s.world.st env.neutral fuel flags s.world.trace in
      (
        handled-Sound rest free cl _ (dropped-IsSound s free pre ((cl, flags) ∷ []) post e sound) lt
            used apart settled,
        handled-IsFixed settled,
      )
  Step-Sound {s} env (free, sound) (left pre gone post e) =
      let rest : Serving = record s { pending = pre ++ post } in
      (
        (free, leave-IsSound os rest free (dropped-IsSound s free pre gone post e sound)),
        leave_fixed os s.world,
      )

  pub Reach-Sound :
      {s s' : Serving}
      → Environment os h (epoll_of s).epfd
      → Sound s
      → Reach os h s s'
      → Sound s' × IsFixed s.world.st s'.world.st
  Reach-Sound env sound here = (sound, (refl, refl))
  Reach-Sound env sound (next r st) =
      let (sound', same) = Reach-Sound env sound r in
      let (sound'', same') =
        Step-Sound (subst (λ (e : Epoll). Environment os h e.epfd) (sym same.0) env) sound' st in
      (sound'', (same'.0 ∙ same.0, same'.1 ∙ same.1))

  -- Where the kernel reports only armed registrations, a one-shot one at most once, and the callbacks
  -- make no registration: from a pool that has the invariant, with any number of workers, in whatever order
  -- connections are added, batches of events are taken and events are handled or dropped: each event
  -- that was taken and is not handled is of a client in use, no two are of the same client, and the
  -- pool's invariant holds.
  pub Reach-IsPending :
      {s s' : Serving} (free : List ℕ)
      → Environment os h (epoll_of s).epfd
      → IsSound s free
      → Reach os h s s'
      → (still : List ℕ) × Inv s'.world.st still × IsPending s'.world.st.client_cap still s'.pending
  Reach-IsPending free env sound r =
      let (still, sound') = (Reach-Sound env (free, sound) r).0 in
      (still, sound'.inv, sound'.pending)
