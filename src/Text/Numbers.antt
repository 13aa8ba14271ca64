-- ===== src/Text/Numbers.antt =====
-- Reading a number that was printed gives the number back.
use epoll_server.Base.{
  ℕ, zero, suc, ◌+◌, ◌/◌, ◌%◌, ◌^◌, ◌<◌, ◌≡◌, refl, ap, ◌∙◌, inl, inr, true, List, [], ◌∷◌, arith,
  ltb, Bool-cases,
}
use epoll_server.Base.Int.{pos}
use epoll_server.Text.{all_digits, decimal, atoi, digits, to_string}

decimal-digits :
    (fuel n : ℕ) (acc : List ℕ) → n < fuel → decimal 0 (digits fuel n acc) ≡ decimal n acc
unfolding digits decimal
decimal-digits zero n acc lt = absurd (omega arith)
decimal-digits (suc fuel) n acc lt = elim (Bool-cases (ltb n 10)) [
  | inl small ↦ rw small (ap (λ m. decimal m acc) (omega arith))
  | inr large ↦ rw large (
      decimal-digits fuel (n / 10) ((48 + n % 10) ∷ acc) (ground (arith, large))
      ∙ ap (λ m. decimal m acc) (omega arith))
]

all_digits-digits :
    (fuel n : ℕ) (acc : List ℕ) → all_digits acc ≡ true → all_digits (digits fuel n acc) ≡ true
unfolding digits all_digits
all_digits-digits zero n acc h = h
all_digits-digits (suc fuel) n acc h = elim (Bool-cases (ltb n 10)) [
  | inl small ↦ rw small (ground arith)
  | inr large ↦ rw large (all_digits-digits fuel (n / 10) ((48 + n % 10) ∷ acc) (ground arith))
]

-- Every number that is not negative and fits an `int`: what `std::to_string` prints is all digits,
-- and `atoi` reads it back.
pub atoi-to_string :
    (n : ℕ)
    → n < 2 ^ 31
    → (all_digits (to_string (pos n)) ≡ true) × (atoi (to_string (pos n)) ≡ pos n)
unfolding to_string atoi all_digits
atoi-to_string n lt =
    let value : decimal 0 (digits (suc n) n []) ≡ n = decimal-digits (suc n) n [] (omega arith) in
    (all_digits-digits (suc n) n [] refl, rw value (ground arith))
