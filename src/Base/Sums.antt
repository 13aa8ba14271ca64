-- ===== src/Base/Sums.antt =====
-- Sums over the first n members of a family `ℕ → A`, such as the threads of a system.
use epoll_server.Base.Lists.{update}
use Prim.Native.Nat.{ℕ, zero, suc, ◌+◌, ◌*◌, ◌≤◌, ◌<◌}
use mathlib.Core.Path.{◌≡◌, refl}
use native.Mathlib.Omega.{arith}
use native.Mathlib.Decide.{dec_lt}

module _ {A : Type 0} where
  -- The weights of the first n threads, added up.
  unfoldable pub total : (A → ℕ) → ℕ → (ℕ → A) → ℕ
  total w zero f = 0
  total w (suc n) f = w (f n) + total w n f

  total_other :
      (w : A → ℕ) (n t : ℕ) (f : ℕ → A) (a : A) → n ≤ t → total w n (update f t a) ≡ total w n f
  unfolding total
  total_other w zero t f a h = refl
  total_other w (suc n) t f a h = ground (arith, total_other w n t f a)

  -- When one thread moves, its weight is exchanged.
  pub total-update :
      (w : A → ℕ) (n t : ℕ) (f : ℕ → A) (a : A)
      → t < n
      → w (f t) + total w n (update f t a) ≡ w a + total w n f
  unfolding total
  total-update w zero t f a h = absurd (omega arith)
  total-update w (suc n) t f a h = ground (arith, total-update w n t f a, total_other w n n f a)

  pub total_zero :
      (w : A → ℕ) (n : ℕ) (f : ℕ → A) → ((t : ℕ) → t < n → w (f t) ≡ 0) → total w n f ≡ 0
  unfolding total
  total_zero w zero f h = refl
  total_zero w (suc n) f h =
      omega (arith, h n (omega arith), total_zero w n f (λ t lt. h t (omega arith)))

  pub le-total : (w : A → ℕ) (n t : ℕ) (f : ℕ → A) → t < n → w (f t) ≤ total w n f
  unfolding total
  le-total w zero t f h = absurd (omega arith)
  le-total w (suc n) t f h = ground (arith, le-total w n t f)

  -- A positive sum has a positive part.
  pub find_positive :
      (w : A → ℕ) (n : ℕ) (f : ℕ → A) → 0 < total w n f → (t : ℕ) × (t < n) × (0 < w (f t))
  unfolding total
  find_positive w zero f h = absurd (omega arith)
  find_positive w (suc n) f h = elim (dec_lt 0 (w (f n))) [
    | yes now ↦ (n, omega arith, now)
    | no later ↦ let (t, lt, pos) = find_positive w n f (omega arith) in (t, omega arith, pos)
  ]

  pub total_congr :
      (v w : A → ℕ) (n : ℕ) (f : ℕ → A)
      → ((t : ℕ) → t < n → v (f t) ≡ w (f t))
      → total v n f ≡ total w n f
  unfolding total
  total_congr v w zero f h = refl
  total_congr v w (suc n) f h =
      omega (arith, h n (omega arith), total_congr v w n f (λ t lt. h t (omega arith)))

  -- Weights that add up pointwise add up in the sum.
  pub total_add :
      (v w u : A → ℕ) (n : ℕ) (f : ℕ → A)
      → ((t : ℕ) → t < n → v (f t) + w (f t) ≡ u (f t))
      → total v n f + total w n f ≡ total u n f
  unfolding total
  total_add v w u zero f h = refl
  total_add v w u (suc n) f h =
      omega (arith, h n (omega arith), total_add v w u n f (λ t lt. h t (omega arith)))

  pub total_const :
      (w : A → ℕ) (k n : ℕ) (f : ℕ → A) → ((t : ℕ) → w (f t) ≡ k) → total w n f ≡ n * k
  unfolding total
  total_const w k zero f h = omega arith
  total_const w k (suc n) f h = grind (arith, h n, total_const w k n f h)

  pub total_mono :
      (v w : A → ℕ) (n : ℕ) (f : ℕ → A) → ((a : A) → v a ≤ w a) → total v n f ≤ total w n f
  unfolding total
  total_mono v w zero f h = omega arith
  total_mono v w (suc n) f h = omega (arith, h (f n), total_mono v w n f h)

  pub total-le : (w : A → ℕ) (n : ℕ) (f : ℕ → A) → ((a : A) → w a ≤ 1) → total w n f ≤ n
  unfolding total
  total-le w zero f h = omega arith
  total-le w (suc n) f h = omega (arith, h (f n), total-le w n f h)
