-- ===== src/Pool/Serving/Invariant.antt =====
-- What the one-shot protocol of pool.hpp keeps: an armed registration is that of a client in use,
-- with its descriptor, and so is an event that waits to be handled, whose client is not armed.
use epoll_server.Base.{
  ℕ, zero, suc, ◌<◌, ◌≡◌, ◌∙◌, true, false, inl, inr, List, [], ◌∷◌, arith, has, ◌==◌, All,
  Bool-cases,
}
use epoll_server.Base.Int.{ℤ, ◌==ℤ◌, ==ℤ_refl}
use epoll_server.Os.{Event}
use epoll_server.Epoll.Interest.{
  Entry, drop_fd, disarm, disarm_all, has_entry, armed, IsReport, has_entry-disarm,
  has_entry-disarm_self, has_entry-disarm_all, All-disarm,
}
use epoll_server.Pool.State.{ClientPool, sfd_of, put_back}
use epoll_server.Pool.Invariant.{Inv}
use epoll_server.Pool.Stopping.{IsApart, IsPending}
use epoll_server.Pool.Serving.{Serving, add_event, add_reported}
use epoll_server.Pool.Serving.Pending.{AreDisarmed, AreDisarmed-weaken, IsApart-add_reported}

-- A one-shot registration of a client in use, with its descriptor, or one of the self-pipe.
abbrev pub IsOf : ClientPool → (free : List ℕ) → Entry → Type 0
IsOf p free (fd, zero, b) = Unit {0}
IsOf p free (fd, suc cl, b) =
    (cl < p.client_cap) × (has cl free ≡ false) × (sfd_of p cl ≡ fd) × (b ≡ true)

abbrev pub registrations : Serving → List Entry
registrations s = armed s.world.st.epoll.epfd s.world.trace

pub record IsSound (s : Serving) (free : List ℕ) : Type 0 where
  pub inv : Inv s.world.st free
  pub registered : All (IsOf s.world.st free) (registrations s)
  pub pending : IsPending s.world.st.client_cap free s.pending
  pub disarmed : AreDisarmed (registrations s) s.pending

-- The invariant, with its list of free nodes.
abbrev pub Sound : Serving → Type 0
Sound s = (free : List ℕ) × IsSound s free

module _ (p : ClientPool) (free : List ℕ) where
  armed-InUse :
      (cl : ℕ) (es : List Entry)
      → All (IsOf p free) es
      → has_entry (suc cl) es ≡ true
      → (cl < p.client_cap) × (has cl free ≡ false)
  armed-InUse cl [] all h = cc
  armed-InUse cl ((fd, zero, b) ∷ es) all h = armed-InUse cl es all.1 (ground arith)
  armed-InUse cl ((fd, suc c, b) ∷ es) all h = elim (Bool-cases (c == cl)) [
    | inl e ↦ ground (arith, all.0)
    | inr e ↦ armed-InUse cl es all.1 (ground arith)
  ]

  are_one_shot :
      (cl : ℕ) (es : List Entry)
      → All (IsOf p free) es
      → All (λ (e : Entry). e.1 ≡ suc cl → e.2 ≡ true) es
  are_one_shot cl [] all = tt
  are_one_shot cl ((fd, zero, b) ∷ es) all =
      (λ same. absurd (omega (arith, same)), are_one_shot cl es all.1)
  are_one_shot cl ((fd, suc c, b) ∷ es) all = (λ same. all.0.3, are_one_shot cl es all.1)

  -- An event of the batch, before the others: its client is in use, and now disarmed.
  add_event-IsPending :
      (u events : ℕ) (evs : List Event) (es : List Entry) (ps : List (ℕ × ℕ))
      → All (IsOf p free) es
      → has_entry u es ≡ true
      → IsReport (disarm u es) evs
      → ((cl : ℕ) → has_entry (suc cl) es ≡ true → IsApart cl ps)
      → IsPending p.client_cap free (add_reported evs ps)
      → AreDisarmed (disarm_all evs (disarm u es)) (add_reported evs ps)
      → IsPending p.client_cap free (add_event u events (add_reported evs ps))
        × AreDisarmed (disarm_all evs (disarm u es)) (add_event u events (add_reported evs ps))
  add_event-IsPending zero events evs es ps all h report apart pending disarmed =
      (pending, disarmed)
  add_event-IsPending (suc cl) events evs es ps all h report apart pending disarmed =
      let (lt, used) = armed-InUse cl es all h in
      let not_armed = has_entry-disarm_self (suc cl) es (are_one_shot cl es all) in
      (
        (
          lt,
          used,
          IsApart-add_reported (disarm (suc cl) es) cl evs ps not_armed report (apart cl h),
          pending,
        ),
        (has_entry-disarm_all (suc cl) evs (disarm (suc cl) es) not_armed, disarmed),
      )

  armed-IsApart :
      (cl : ℕ) (es : List Entry) (ps : List (ℕ × ℕ))
      → AreDisarmed es ps
      → has_entry (suc cl) es ≡ true
      → IsApart cl ps
  armed-IsApart cl es [] disarmed h = tt
  armed-IsApart cl es ((c, f) ∷ ps) disarmed h =
      (ground (arith, disarmed.0), armed-IsApart cl es ps disarmed.1 h)

  -- A batch that the kernel reports.
  pub add_reported-IsPending :
      (evs : List Event) (es : List Entry) (ps : List (ℕ × ℕ))
      → All (IsOf p free) es
      → IsReport es evs
      → IsPending p.client_cap free ps
      → AreDisarmed es ps
      → IsPending p.client_cap free (add_reported evs ps)
        × AreDisarmed (disarm_all evs es) (add_reported evs ps)
  add_reported-IsPending [] es ps all report pending disarmed = (pending, disarmed)
  add_reported-IsPending (ev ∷ evs) es ps all report pending disarmed =
      let (pending', disarmed') =
        add_reported-IsPending evs (disarm ev.userdata es) ps (All-disarm _ ev.userdata es all)
          report.1 pending
          (AreDisarmed-weaken es (disarm ev.userdata es) ps
            (λ u no. has_entry-disarm u ev.userdata es no) disarmed) in
      add_event-IsPending ev.userdata ev.events evs es ps all report.0 report.1
        (λ cl h. armed-IsApart cl es ps disarmed h) pending' disarmed'

  other_client :
      (c cl : ℕ) (fd : ℤ) → sfd_of p c ≡ fd → (fd ==ℤ sfd_of p cl) ≡ false → (cl == c) ≡ false
  other_client c cl fd holds e = elim (Bool-cases (cl == c)) [
    | inl same ↦
        let eq : cl ≡ c = ground arith in
        let bad : (fd ==ℤ fd) ≡ false = rw (eq, holds) at e in absurd (cc (bad, ==ℤ_refl fd))
    | inr other ↦ other
  ]

  -- Where a client is given up, the registrations that are left are those of others.
  pub given_up-IsOf :
      (cl : ℕ) (es : List Entry)
      → All (IsOf p free) es
      → All (IsOf (put_back cl p) (cl ∷ free)) (drop_fd (sfd_of p cl) es)
  unfolding put_back
  given_up-IsOf cl [] all = tt
  given_up-IsOf cl ((fd, zero, b) ∷ es) all = elim (Bool-cases (fd ==ℤ sfd_of p cl)) [
    | inl e ↦ rw e (given_up-IsOf cl es all.1)
    | inr e ↦ rw e (tt, given_up-IsOf cl es all.1)
  ]
  given_up-IsOf cl ((fd, suc c, b) ∷ es) all = elim (Bool-cases (fd ==ℤ sfd_of p cl)) [
    | inl e ↦ rw e (given_up-IsOf cl es all.1)
    | inr e ↦
        let other = other_client c cl fd all.0.2 e in
        rw e (
          (all.0.0, ground (arith, all.0.1), ground (arith, all.0.2), all.0.3),
          given_up-IsOf cl es all.1,
        )
  ]

-- A node that is taken: the registrations are those of the clients in use before.
pub taken-IsOf :
    (p p' : ClientPool) (i : ℕ) (rest : List ℕ) (es : List Entry)
    → ((j : ℕ) → (i == j) ≡ false → sfd_of p' j ≡ sfd_of p j)
    → p'.client_cap ≡ p.client_cap
    → All (IsOf p (i ∷ rest)) es
    → All (IsOf p' rest) es
taken-IsOf p p' i rest [] others cap all = tt
taken-IsOf p p' i rest ((fd, zero, b) ∷ es) others cap all =
    (tt, taken-IsOf p p' i rest es others cap all.1)
taken-IsOf p p' i rest ((fd, suc c, b) ∷ es) others cap all = (
  (
    omega (arith, cap, all.0.0),
    ground (arith, all.0.1),
    others c (ground (arith, all.0.1)) ∙ all.0.2,
    all.0.3,
  ),
  taken-IsOf p p' i rest es others cap all.1,
)

pub IsOf-unchanged :
    (p p' : ClientPool) (free : List ℕ) (es : List Entry)
    → p'.client_cap ≡ p.client_cap
    → p'.free_mem ≡ p.free_mem
    → All (IsOf p free) es
    → All (IsOf p' free) es
IsOf-unchanged p p' free [] cap mem h = tt
IsOf-unchanged p p' free ((fd, zero, b) ∷ es) cap mem h =
    (tt, IsOf-unchanged p p' free es cap mem h.1)
IsOf-unchanged p p' free ((fd, suc c, b) ∷ es) cap mem h =
    ((rw cap h.0.0, h.0.1, rw mem h.0.2, h.0.3), IsOf-unchanged p p' free es cap mem h.1)
