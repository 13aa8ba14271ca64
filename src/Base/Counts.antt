-- ===== src/Base/Counts.antt =====
-- Occurrences of a number in a list, and the pigeonhole principle.
use Prim.Native.Nat.{ℕ, zero, suc, ◌+◌, ◌≤◌, ◌<◌}
use mathlib.Core.Path.{◌≡◌, refl}
use mathlib.Core.Bool.{true, false}
use mathlib.Core.List.{List, [], ◌∷◌}
use native.Mathlib.Omega.{arith}
use epoll_server.Base.Tests.{◌==◌, ltb, if◌then◌else◌}
use epoll_server.Base.Lists.{has, countdown, IsDistinct, length}
use epoll_server.Base.Sums.{total_congr, total_const, total, total_add, total-le, total_zero}

-- 1 where the numbers agree.
abbrev pub same : ℕ → ℕ → ℕ
same a b = if a == b then 1 else 0

abbrev pub count : ℕ → List ℕ → ℕ
count a [] = 0
count a (x ∷ xs) = count a xs + same x a

pub has_of_count : (a : ℕ) (xs : List ℕ) → count a xs ≡ 0 → has a xs ≡ false
has_of_count a [] h = refl
has_of_count a (x ∷ xs) h = ground (arith, has_of_count a xs)

pub count_of_has : (a : ℕ) (xs : List ℕ) → has a xs ≡ true → 0 < count a xs
count_of_has a [] h = absurd (cc)
count_of_has a (x ∷ xs) h = ground (arith, count_of_has a xs)

pub count_of_not_has : (a : ℕ) (xs : List ℕ) → has a xs ≡ false → count a xs ≡ 0
count_of_not_has a [] h = refl
count_of_not_has a (x ∷ xs) h = ground (arith, count_of_not_has a xs)

pub has_of_count_pos : (a : ℕ) (xs : List ℕ) → 0 < count a xs → has a xs ≡ true
has_of_count_pos a [] h = absurd (omega arith)
has_of_count_pos a (x ∷ xs) h = ground (arith, has_of_count_pos a xs)

pub count-countdown : (a n : ℕ) → count a (countdown n) ≡ (if ltb a n then 1 else 0)
count-countdown a zero = ground arith
count-countdown a (suc n) = ground (arith, count-countdown a n)

pub IsDistinct-of_counts : (xs : List ℕ) → ((a : ℕ) → count a xs ≤ 1) → IsDistinct xs
IsDistinct-of_counts [] h = tt
IsDistinct-of_counts (x ∷ xs) h =
    (has_of_count x xs (ground (arith, h x)), IsDistinct-of_counts xs (λ a. ground (arith, h a)))

pub count-le_of_distinct : (a : ℕ) (xs : List ℕ) → IsDistinct xs → count a xs ≤ 1
count-le_of_distinct a [] d = omega arith
count-le_of_distinct a (x ∷ xs) d =
    ground (arith, count-le_of_distinct a xs d.1, count_of_not_has a xs)

-- The numbers below n.
abbrev pub numbers : ℕ → ℕ
numbers a = a

total-same : (x n : ℕ) → total (same x) n numbers ≡ (if ltb x n then 1 else 0)
unfolding total
total-same x zero = ground arith
total-same x (suc n) = ground (arith, total-same x n)

pub length-total :
    (n : ℕ) (xs : List ℕ)
    → ((a : ℕ) → has a xs ≡ true → a < n)
    → length xs ≡ total (λ a. count a xs) n numbers
length-total n [] h = omega (arith, total_zero (λ a. count a []) n numbers (λ t lt. refl))
length-total n (x ∷ xs) h = ground (
  arith,
  length-total n xs (λ a m. h a (ground arith)),
  total_add (λ a. count a xs) (same x) (λ a. count a (x ∷ xs)) n numbers (λ t lt. refl),
  total-same x n,
  h x,
)

-- Distinct numbers below n are at most n.
pub pigeonhole :
    (n : ℕ) (xs : List ℕ) → IsDistinct xs → ((a : ℕ) → has a xs ≡ true → a < n) → length xs ≤ n
pigeonhole n xs d h = omega (
  arith,
  length-total n xs h,
  total-le (λ a. count a xs) n numbers (λ a. count-le_of_distinct a xs d),
)

-- Distinct numbers below n that are all of them are n.
pub length_of_all :
    (n : ℕ) (xs : List ℕ)
    → IsDistinct xs
    → ((a : ℕ) → has a xs ≡ true → a < n)
    → ((a : ℕ) → a < n → has a xs ≡ true)
    → length xs ≡ n
length_of_all n xs d below all = omega (
  arith,
  length-total n xs below,
  total_congr (λ a. count a xs) (λ a. 1) n numbers
      (λ a lt. omega (arith, count-le_of_distinct a xs d, count_of_has a xs (all a lt))),
  total_const (λ a. 1) 1 n numbers (λ a. refl),
)
