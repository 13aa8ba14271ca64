-- ===== src/Pool/History.antt =====
-- The life of a `client_pool` (pool.hpp) while it runs: connections added by the server's thread
-- and events handled by the workers, in any order.
use epoll_server.Base.{
  ℕ, ◌<◌, ◌≡◌, refl, inl, inr, false, List, [], ◌∷◌, arith, count, if◌then◌else◌, total, total_add,
  total_const, numbers, length-total, count_of_has, count_of_not_has, count-le_of_distinct,
}
use epoll_server.Base.Int.{ℤ, is_zero}
use epoll_server.Os.{Os, World}
use epoll_server.Pool.State.{ClientPool, get_active_count, sfd_of, add_client}
use epoll_server.Pool.Handlers.{Callbacks}
use epoll_server.Pool.Process.{process}
use epoll_server.Pool.Invariant.{Inv, InUse}
use epoll_server.Pool.Clients.{add_client_full, add_client-Added}
use epoll_server.Pool.Kept.{process-Inv}

-- A connection has a descriptor that is not 0, and events are reported of clients whose node holds
-- a descriptor.
pub data Step (os : Os) (h : Callbacks) (w : World ClientPool) : World ClientPool → Type 0 where
  added : (sfd : ℤ) → is_zero sfd ≡ false → Step os h w (add_client os sfd w).1
  handled :
      (fuel cl flags : ℕ)
      → cl < w.st.client_cap
      → is_zero (sfd_of w.st cl) ≡ false
      → Step os h w (process os h fuel cl flags w).1

pub data Reach (os : Os) (h : Callbacks) (w : World ClientPool) : World ClientPool → Type 0 where
  here : Reach os h w w
  next : {u v : World ClientPool} → Reach os h w u → Step os h u v → Reach os h w v

add_client-Inv :
    (os : Os) (sfd : ℤ) (free : List ℕ) (w : World ClientPool)
    → is_zero sfd ≡ false
    → Inv w.st free
    → (left : List ℕ) × Inv (add_client os sfd w).1.st left
add_client-Inv os sfd [] w nonzero inv = rw (add_client_full os w sfd inv) ([], inv)
add_client-Inv os sfd (i ∷ rest) w nonzero inv =
    (rest, (add_client-Added os w sfd i rest nonzero inv).inv)

Step-keeps :
    {os : Os} {h : Callbacks} {w w' : World ClientPool} (free : List ℕ)
    → Inv w.st free
    → Step os h w w'
    → (left : List ℕ) × Inv w'.st left
Step-keeps {os} {w = w} free inv (added sfd nonzero) = add_client-Inv os sfd free w nonzero inv
Step-keeps {os} {h} {w} free inv (handled fuel cl flags lt nonzero) =
    elim (process-Inv os h cl fuel flags free w inv used) [
      | inl (kept, still) ↦ (free, kept)
      | inr released ↦ (cl ∷ free, released)
    ]
  where
    used : InUse w.st free cl
    used = record { in_range = lt; not_free = ground (arith, inv.no_sfd cl lt) }

Reach-keeps :
    {os : Os} {h : Callbacks} {w w' : World ClientPool} (free : List ℕ)
    → Inv w.st free
    → Reach os h w w'
    → (left : List ℕ) × Inv w'.st left
Reach-keeps free inv here = (free, inv)
Reach-keeps free inv (next r st) =
    let (left, inv') = Reach-keeps free inv r in Step-keeps left inv' st

-- 1 for a node that holds a descriptor.
abbrev pub holds_sfd : ClientPool → ℕ → ℕ
holds_sfd p i = if is_zero (sfd_of p i) then 0 else 1

pub Inv-active :
    (p : ClientPool) (free : List ℕ)
    → Inv p free
    → get_active_count p ≡ total (holds_sfd p) p.client_cap numbers
unfolding get_active_count
Inv-active p free inv = omega (
  arith,
  inv.counted,
  length-total p.client_cap free inv.in_buffer,
  total_const (λ i. 1) 1 p.client_cap numbers (λ i. refl),
  total_add (holds_sfd p) (λ i. count i free) (λ i. 1) p.client_cap numbers
      (λ i lt. ground (
        arith,
        inv.no_sfd i lt,
        count_of_has i free,
        count_of_not_has i free,
        count-le_of_distinct i free inv.holds.distinct,
      )),
)

-- From a pool that has the invariant, such as a new one, in whatever order connections (with a
-- descriptor other than 0) are added and events of clients (whose node holds a descriptor) are
-- handled, with any answers of the kernel and any callbacks: the number of active clients is the
-- number of nodes that hold a descriptor, and the invariant still holds, by which each other node
-- is on the free stack, once.
pub Reach-active :
    {os : Os} {h : Callbacks} {w w' : World ClientPool} (free : List ℕ)
    → Inv w.st free
    → Reach os h w w'
    → (get_active_count w'.st ≡ total (holds_sfd w'.st) w'.st.client_cap numbers)
      × ((left : List ℕ) × Inv w'.st left)
Reach-active {w' = w'} free inv r =
    let (left, inv') = Reach-keeps free inv r in (Inv-active w'.st left inv', (left, inv'))
