-- ===== src/Args/Guards.antt =====
-- What holds of the results behind the guards of the options with a number (test/main.cpp and
-- test-client/main.cpp), where it holds of the errors.
use epoll_server.Base.{ℕ, ◌≡◌, inl, inr, false, List, Bool-cases, if◌then◌else◌}
use epoll_server.Text.{all_digits, atoi}
use epoll_server.Args.{at_most_zero, Result, fails, numeric, set_count, set_port, set_ctrl}

module _ {O : Type 0} (Holds : Result O → Type 0)
    (fail : (printed : List ℕ) → Holds (fails printed)) where
  guarded :
      (value : List ℕ) (printed : List ℕ) (next : Result O)
      → (at_most_zero (atoi value) ≡ false → Holds next)
      → Holds (if at_most_zero (atoi value) then fails printed else next)
  guarded value printed next h = elim (Bool-cases (at_most_zero (atoi value))) [
    | inl z ↦ rw z (fail printed)
    | inr z ↦ rw z (h z)
  ]

  numeric-Holds :
      (name value : List ℕ) (next : Result O) → Holds next → Holds (numeric name value next)
  unfolding numeric
  numeric-Holds name value next h = elim (Bool-cases (all_digits value)) [
    | inl e ↦ rw e h
    | inr e ↦ rw e (fail _)
  ]

  pub set_count-Holds :
      (value : List ℕ) (next : Result O)
      → (at_most_zero (atoi value) ≡ false → Holds next)
      → Holds (set_count value next)
  unfolding set_count
  set_count-Holds value next h = numeric-Holds _ value _ (guarded value _ next h)

  pub set_port-Holds :
      (value : List ℕ) (next : Result O)
      → (at_most_zero (atoi value) ≡ false → Holds next)
      → Holds (set_port value next)
  unfolding set_port
  set_port-Holds value next h = numeric-Holds _ value _ (guarded value _ next h)

  pub set_ctrl-Holds : (value : List ℕ) (next : Result O) → Holds next → Holds (set_ctrl value next)
  unfolding set_ctrl
  set_ctrl-Holds value next h = numeric-Holds _ value next h
