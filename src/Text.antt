-- ===== src/Text.antt =====
-- Text as the programs in test and test-client use it: lists of characters, the C strings in
-- buffers, and the standard library's conversions from and to numbers.
pub mod Numbers
pub mod Tests
use Prim.Native.Char.{code}
use Prim.Native.String.{String}
use epoll_server.Base.{
  ℕ, zero, suc, ◌+◌, ◌-◌, ◌*◌, ◌/◌, ◌%◌, ◌^◌, Bool, true, false, ◌&&◌, List, [], ◌∷◌, ◌++◌, ltb,
  ◌==◌, if◌then◌else◌,
}
use epoll_server.Base.Int.{ℤ, pos, negsuc}

-- The characters of a literal.
unfoldable pub text : String → List ℕ
text String.[] = []
text (String.◌∷◌ c s) = code c ∷ text s

-- `isdigit`
abbrev pub is_digit : ℕ → Bool
is_digit c = ltb 47 c && ltb c 58

-- The loop over the characters of an option's argument.
unfoldable pub all_digits : List ℕ → Bool
all_digits [] = true
all_digits (c ∷ cs) = if is_digit c then all_digits cs else false

-- The value of a list of digits, after those that `acc` holds.
unfoldable pub decimal : (acc : ℕ) → List ℕ → ℕ
decimal acc [] = acc
decimal acc (c ∷ cs) = decimal (acc * 10 + (c - 48)) cs

-- A `long` as an `int`.
abbrev pub to_int : ℕ → ℤ
to_int n = let m = n % 2 ^ 32 in if ltb m (2 ^ 31) then pos m else negsuc (2 ^ 32 - 1 - m)

-- `atoi` of digits: the value, at most the largest `long`, as an `int`.
unfoldable pub atoi : List ℕ → ℤ
unfolding decimal
atoi value = let n = decimal 0 value in to_int (if ltb n (2 ^ 63) then n else 2 ^ 63 - 1)

-- The decimal digits of a number before those in `acc`; the fuel is above the number.
unfoldable pub digits : (fuel n : ℕ) → (acc : List ℕ) → List ℕ
digits zero n acc = acc
digits (suc fuel) n acc =
    let more = digits fuel (n / 10) ((48 + n % 10) ∷ acc) in
    if ltb n 10 then (48 + n) ∷ acc else more

-- `std::to_string`, and `%d` of `printf`.
unfoldable pub to_string : ℤ → List ℕ
unfolding digits
to_string (pos n) = digits (suc n) n []
to_string (negsuc n) = b'-' ∷ digits (suc (suc n)) (suc n) []

unfoldable pub zeros : ℕ → List ℕ
zeros zero = []
zeros (suc n) = 0 ∷ zeros n

-- The C string in a buffer: the characters before the first zero.
unfoldable pub c_string : (buffer : List ℕ) → List ℕ
c_string [] = []
c_string (c ∷ cs) = if c == 0 then [] else c ∷ c_string cs

-- `memcpy` of a text over the start of a buffer that has room for it.
unfoldable pub copy_in : (source buffer : List ℕ) → List ℕ
copy_in [] buffer = buffer
copy_in (c ∷ cs) [] = []
copy_in (c ∷ cs) (b ∷ bs) = c ∷ copy_in cs bs
