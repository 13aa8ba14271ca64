-- ===== src/Mem/Tests.antt =====
-- Tests of the memory maps of mem.hpp.
use epoll_server.Base.{◌*◌, ◌^◌, ◌%◌, ◌≤◌, ◌<◌, ◌≡◌, refl, some, [], arith}
use epoll_server.Base.Int.{pos}
use epoll_server.Os.Descriptors.{open_fds}
use epoll_server.Os.Samples.{working, fresh}
use epoll_server.Mem.{round_up, genmap, delmap}
use epoll_server.Mem.Pages.{round_up_bounds}
use epoll_server.Mem.Maps.{reserved_bytes, unmapped_bytes, genmap-open_fds, delmap-genmap}

-- Five units are two pages of four.
round_up_five : round_up 4 5 ≡ 8
unfolding round_up
round_up_five = refl

round_up_bounds_test : (round_up 4 5 % 4 ≡ 0) × (5 ≤ round_up 4 5) × (round_up 4 5 < 9)
round_up_bounds_test = round_up_bounds 4 5 (omega arith) (omega arith)

genmap-open_fds_test : open_fds (genmap working 8 5 fresh).1.trace ≡ []
genmap-open_fds_test = genmap-open_fds working 8 5 fresh

made : (genmap working 8 5 fresh).0.0 ≡ some (pos 3)
unfolding genmap
made = refl

fits : round_up 4 5 * 8 * 2 < 2 ^ 64
unfolding round_up
fits = omega arith

delmap-genmap_example :
    let (r, w') = genmap working 8 5 fresh in
    (reserved_bytes w'.trace ≡ round_up 4 5 * 8)
    × (unmapped_bytes (delmap working 8 (pos 3) r.1 w').1.trace ≡ 2 * (round_up 4 5 * 8))
unfolding round_up
delmap-genmap_example = delmap-genmap working 8 5 fresh (omega arith) fits made
