-- ===== src/Args.antt =====
-- What the command lines of both programs share (test/main.cpp and test-client/main.cpp): the
-- options with a number, and how the loop over the options ends. The options arrive as
-- `getopt_long` reports them, each with its argument as a list of characters.
pub mod Guards
use epoll_server.Base.{ℕ, Bool, true, List, ◌++◌, if◌then◌else◌}
use epoll_server.Base.Int.{ℤ, is_zero, is_negative}
use epoll_server.Os.{Os, Call, M, pure, ◌>>=◌, sys}
use epoll_server.Text.{text, all_digits, atoi, to_string}

-- `x <= 0`
abbrev pub at_most_zero : ℤ → Bool
at_most_zero x = if is_zero x then true else is_negative x

-- How the loop over the options ends: `main` returns, behind a text for `stdout` or `stderr`, or
-- it goes on with its options.
pub data Result (O : Type 0) : Type 0 where
  returns : (code : ℕ) → (error : Bool) → (printed : List ℕ) → Result O
  goes_on : O → Result O

module _ {O : Type 0} where
  abbrev pub fails : (printed : List ℕ) → Result O
  fails printed = returns 1 true printed

  -- A number's argument, which is to be all digits; `name` is its place in the message.
  unfoldable pub numeric : (name value : List ℕ) → Result O → Result O
  unfolding all_digits
  numeric name value next =
      if all_digits value
      then next
      else fails (text "Specified " ++ name ++ text " '" ++ value ++ text "' not correct format\n")

  unfoldable pub set_count : List ℕ → Result O → Result O
  unfolding numeric atoi
  set_count value next = numeric (text "client count") value (
      if at_most_zero (atoi value)
      then fails (
          text "There needs to be at least 1 worker, "
          ++ to_string (atoi value)
          ++ text " specified\n")
      else next)

  unfoldable pub set_port : List ℕ → Result O → Result O
  unfolding numeric atoi
  set_port value next = numeric (text "remote port") value (
      if at_most_zero (atoi value)
      then fails (text "Cannot use port " ++ to_string (atoi value) ++ text "\n")
      else next)

  unfoldable pub set_ctrl : List ℕ → Result O → Result O
  unfolding numeric
  set_ctrl value next = numeric (text "control panel port") value next

abbrev pub print : {S : Type 0} → Os → (error : Bool) → List ℕ → M S (Unit {0})
print os error printed = do _ ← sys os (Call.print error printed); pure tt
