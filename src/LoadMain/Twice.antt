-- ===== src/LoadMain/Twice.antt =====
-- An address that is given twice on the command line of test-client/main.cpp.
use epoll_server.Base.{
  ℕ, zero, suc, ◌-◌, ◌≤◌, ◌≡◌, refl, sym, ap, ◌∙◌, true, false, List, [], ◌∷◌, ◌++◌, arith, leb,
  length, ◌==◌, All,
}
use mathlib.Core.List.{append_assoc}
use epoll_server.Text.{zeros, c_string, copy_in}
use epoll_server.Load.{drop}
use epoll_server.Args.{goes_on}
use epoll_server.LoadMain.{ip, defaults, set_ip, parse}

-- Characters of a C string.
abbrev pub AreChars : List ℕ → Type 0
AreChars u = All (λ c. (c == 0) ≡ false) u

c_string_all : (u : List ℕ) (n : ℕ) → AreChars u → c_string (u ++ zeros n) ≡ u
unfolding c_string zeros
c_string_all [] zero h = refl
c_string_all [] (suc n) h = refl
c_string_all (c ∷ cs) n (char, h) = rw char (ap (λ xs. c ∷ xs) (c_string_all cs n h))

copy_in-zeros :
    (u : List ℕ) (n : ℕ) → length u ≤ n → copy_in u (zeros n) ≡ u ++ zeros (n - length u)
unfolding copy_in zeros
copy_in-zeros [] n h = ap (λ m. zeros m) (omega arith)
copy_in-zeros (c ∷ cs) zero h = absurd (omega arith)
copy_in-zeros (c ∷ cs) (suc n) h =
    ap (λ xs. c ∷ xs) (copy_in-zeros cs n (omega arith) ∙ ap (λ m. cs ++ zeros m) (omega arith))

-- A copy over a longer text keeps the tail of the longer one.
copy_in_over :
    (u v rest : List ℕ)
    → length u ≤ length v
    → copy_in u (v ++ rest) ≡ u ++ (drop (length u) v ++ rest)
unfolding copy_in
copy_in_over [] v rest h = refl
copy_in_over (c ∷ cs) [] rest h = absurd (omega arith)
copy_in_over (c ∷ cs) (d ∷ ds) rest h = ap (λ xs. c ∷ xs) (copy_in_over cs ds rest (omega arith))

AreChars-drop : (n : ℕ) (v : List ℕ) → AreChars v → AreChars (drop n v)
AreChars-drop zero v h = h
AreChars-drop (suc n) [] h = tt
AreChars-drop (suc n) (d ∷ ds) (char, h) = AreChars-drop n ds h

AreChars-append : (u v : List ℕ) → AreChars u → AreChars v → AreChars (u ++ v)
AreChars-append [] v h k = k
AreChars-append (c ∷ cs) v (char, h) k = (char, AreChars-append cs v h k)

-- Two addresses on the command line, the second no longer than the first: both are taken, and the
-- address that the workers get is the second with what the first has behind it.
pub parse-ip :
    (app v u : List ℕ)
    → AreChars v
    → AreChars u
    → length u ≤ length v
    → length v ≤ 256
    → let buffer = copy_in u (copy_in v (zeros 256)) in
      (parse app (ip v ∷ ip u ∷ []) defaults ≡ goes_on (record defaults { ip_addr = buffer }))
      × (c_string buffer ≡ u ++ drop (length u) v)
unfolding parse set_ip
parse-ip app v u chars_v chars_u shorter room =
    let first : leb (length v) 256 ≡ true = ground arith in
    let second : leb (length u) 256 ≡ true = ground arith in
    let m = 256 - length v in
    (
      rw (first, second) refl,
      ap (λ b. c_string (copy_in u b)) (copy_in-zeros v 256 room)
          ∙ ap (λ b. c_string b) (copy_in_over u v (zeros m) shorter)
          ∙ ap (λ b. c_string b) (sym (append_assoc u (drop (length u) v) (zeros m)))
          ∙ c_string_all (u ++ drop (length u) v) m
              (AreChars-append u (drop (length u) v) chars_u (AreChars-drop (length u) v chars_v)),
    )
