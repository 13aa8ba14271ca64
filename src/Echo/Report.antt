-- ===== src/Echo/Report.antt =====
-- print_server_socket_error of test/echo.cpp: the buffer for its message, and what is written to
-- it.
use epoll_server.Base.{
  ℕ, zero, suc, ◌+◌, ◌/◌, ◌%◌, ◌<◌, ◌≡◌, ◌∙◌, inl, inr, List, [], ◌∷◌, ◌++◌, arith, ltb,
  if◌then◌else◌, Bool-cases, length, length-append,
}
use epoll_server.Base.Int.{ℤ, pos, negsuc}
use epoll_server.Os.{Os, Call, M, pure, ◌>>=◌, sys}
use epoll_server.Text.{text, digits, to_string}

abbrev errstr : List ℕ
errstr = text "Server socket creation error on port"

-- The `do` loop, on a number without its sign; the fuel is above the number.
unfoldable pub count_chars : (fuel temp : ℕ) → ℕ
count_chars zero temp = 0
count_chars (suc fuel) temp =
    let more = count_chars fuel (temp / 10) in if ltb temp 10 then 1 else suc more

unfoldable pub char_count : ℤ → ℕ
unfolding count_chars
char_count (pos n) = count_chars (suc n) n
char_count (negsuc n) = count_chars (suc (suc n)) (suc n)

-- What `calloc` gets.
unfoldable pub buffer_size : (port : ℤ) → ℕ
unfolding char_count
buffer_size port = length errstr + char_count port + 2

-- The message.
abbrev pub message : (port : ℤ) → List ℕ
message port = errstr ++ text " " ++ to_string port

-- What `sprintf` writes, with its terminator.
unfoldable pub written : (port : ℤ) → List ℕ
written port = message port ++ 0 ∷ []

-- `print_server_socket_error`, where `calloc` has memory to give.
unfoldable pub print_server_socket_error : {S : Type 0} → Os → (port : ℤ) → M S (Unit {0})
unfolding buffer_size text to_string
print_server_socket_error os port = do
  buff ← sys os (Call.calloc (buffer_size port))
  _ ← sys os (Call.perror (message port))
  _ ← sys os (Call.free buff.ret)
  pure tt

length-digits :
    (fuel n : ℕ) (acc : List ℕ)
    → n < fuel
    → length (digits fuel n acc) ≡ count_chars fuel n + length acc
unfolding digits count_chars
length-digits zero n acc lt = absurd (omega arith)
length-digits (suc fuel) n acc lt = elim (Bool-cases (ltb n 10)) [
  | inl small ↦ rw small (omega arith)
  | inr large ↦
      rw large
        (length-digits fuel (n / 10) ((48 + n % 10) ∷ acc) (ground (arith, large)) ∙ omega arith)
]

length-written :
    (port : ℤ) → length (written port) ≡ length errstr + 1 + length (to_string port) + 1
unfolding written text
length-written port = omega (
  arith,
  length-append (errstr ++ text " " ++ to_string port) (0 ∷ []),
  length-append (errstr ++ text " ") (to_string port),
)

-- For a port that is not negative, the message and its terminator fill the buffer to its end. For a
-- negative one they are one character longer than the buffer.
pub length-written_bounds :
    (n : ℕ)
    → (length (written (pos n)) ≡ buffer_size (pos n))
      × (length (written (negsuc n)) ≡ suc (buffer_size (negsuc n)))
unfolding buffer_size char_count to_string
length-written_bounds n = (
  omega (arith, length-written (pos n), length-digits (suc n) n [] (omega arith)),
  omega (arith, length-written (negsuc n), length-digits (suc (suc n)) (suc n) [] (omega arith)),
)
