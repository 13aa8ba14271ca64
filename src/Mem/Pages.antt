-- ===== src/Mem/Pages.antt =====
-- The page arithmetic of `genmap` and of `std_alloc<T>::create` (mem.hpp, atomic_stack.hpp).
use native.Mathlib.Nat.{div-add-mod, mod-lt, mul-mod_left}
use epoll_server.Base.{ℕ, ◌+◌, ◌*◌, ◌/◌, ◌%◌, ◌^◌, ◌≤◌, ◌<◌, ◌≡◌, arith, ◌==◌, if◌then◌else◌}
use epoll_server.Mem.{round_up}

-- The rounded count, in pages.
round_up_lem :
    (p n : ℕ) → 0 < p → n + p < 2 ^ 64 → round_up p n ≡ (n / p + (if n % p == 0 then 0 else 1)) * p
unfolding round_up
round_up_lem p n pos fits = ground (arith, div-add-mod n p, mod-lt n pos)

-- Where the sum does not wrap, the rounded count is the least multiple of the page size that is
-- not below the request: a multiple, at least the request, and less than a page above it.
pub round_up_bounds :
    (p n : ℕ)
    → 0 < p
    → n + p < 2 ^ 64
    → (round_up p n % p ≡ 0) × (n ≤ round_up p n) × (round_up p n < n + p)
round_up_bounds p n pos fits = (
  rw (round_up_lem p n pos fits) (mul-mod_left _ p),
  grind (arith, round_up_lem p n pos fits, div-add-mod n p, mod-lt n pos),
  grind (arith, round_up_lem p n pos fits, div-add-mod n p, mod-lt n pos),
)

round_up_of_multiple : (p n : ℕ) → n % p ≡ 0 → round_up p n ≡ n
unfolding round_up
round_up_of_multiple p n whole = ground arith

-- Rounding a count twice changes nothing.
pub round_up_idem : (p n : ℕ) → 0 < p → n + p < 2 ^ 64 → round_up p (round_up p n) ≡ round_up p n
round_up_idem p n pos fits = round_up_of_multiple p _ (round_up_bounds p n pos fits).0
