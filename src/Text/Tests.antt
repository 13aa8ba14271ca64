-- ===== src/Text/Tests.antt =====
-- Tests of the conversions of numbers.
use epoll_server.Base.{◌≡◌, refl, true, arith}
use epoll_server.Base.Int.{pos, negsuc}
use epoll_server.Text.{text, all_digits, atoi, to_string}
use epoll_server.Text.Numbers.{atoi-to_string}

minus_forty : to_string (negsuc 39) ≡ text "-40"
unfolding to_string text
minus_forty = refl

atoi-to_string_test :
    (all_digits (to_string (pos 8090)) ≡ true) × (atoi (to_string (pos 8090)) ≡ pos 8090)
atoi-to_string_test = atoi-to_string 8090 (omega arith)
