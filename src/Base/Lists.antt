-- ===== src/Base/Lists.antt =====
-- Lists measured by native numbers, families `ℕ → A` with an update, and lists without repetition.
use Prim.Native.Nat.{ℕ, zero, suc, ◌+◌, ◌≤◌, ◌<◌}
use mathlib.Core.Path.{◌≡◌, refl}
use mathlib.Core.Bool.{Bool, true, false, ◌||◌}
use mathlib.Core.List.{List, [], ◌∷◌, ◌++◌}
use native.Mathlib.Omega.{arith}
use epoll_server.Base.Tests.{◌==◌, if◌then◌else◌}

abbrev pub update {ℓ} : {A : Type ℓ} → (ℕ → A) → ℕ → A → ℕ → A
update f i a j = if i == j then a else f j

module _ {ℓ} {A : Type ℓ} where
  abbrev pub length : List A → ℕ
  length [] = 0
  length (x ∷ xs) = suc (length xs)

  pub length-append : (xs ys : List A) → length (xs ++ ys) ≡ length xs + length ys
  length-append [] ys = omega arith
  length-append (x ∷ xs) ys = omega (arith, length-append xs ys)

abbrev pub All {ℓ κ} : {A : Type ℓ} → (A → Type κ) → List A → Type κ
All P [] = Unit
All P (x ∷ xs) = P x × All P xs

-- Membership of a number in a list, as a test.
abbrev pub has : ℕ → List ℕ → Bool
has a [] = false
has a (x ∷ xs) = (x == a) || has a xs

-- No number stands twice in the list.
abbrev pub IsDistinct : List ℕ → Type 0
IsDistinct [] = Unit {0}
IsDistinct (x ∷ xs) = (has x xs ≡ false) × IsDistinct xs

-- The numbers n - 1, …, 0.
abbrev pub countdown : ℕ → List ℕ
countdown zero = []
countdown (suc n) = n ∷ countdown n

pub length-countdown : (n : ℕ) → length (countdown n) ≡ n
length-countdown zero = refl
length-countdown (suc n) = omega (arith, length-countdown n)

pub has-countdown_of_le : (n a : ℕ) → n ≤ a → has a (countdown n) ≡ false
has-countdown_of_le zero a h = refl
has-countdown_of_le (suc n) a h = ground (arith, has-countdown_of_le n a)

pub has-countdown_of_lt : (n a : ℕ) → a < n → has a (countdown n) ≡ true
has-countdown_of_lt zero a h = absurd (omega arith)
has-countdown_of_lt (suc n) a h = ground (arith, has-countdown_of_lt n a)

pub countdown-IsDistinct : (n : ℕ) → IsDistinct (countdown n)
countdown-IsDistinct zero = tt
countdown-IsDistinct (suc n) = (has-countdown_of_le n n (omega arith), countdown-IsDistinct n)
