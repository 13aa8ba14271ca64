-- ===== src/Epoll/Flags.antt =====
-- The constants of <sys/epoll.h> that epoll.hpp and pool.hpp use.
use Prim.Native.Nat.{bit_or}
use epoll_server.Base.{ℕ, List, [], ◌∷◌}

-- `a | b | …`
abbrev pub any_of : List ℕ → ℕ
any_of [] = 0
any_of (x ∷ xs) = bit_or x (any_of xs)

abbrev pub epollin : ℕ
epollin = 0x001

abbrev pub epollpri : ℕ
epollpri = 0x002

abbrev pub epollout : ℕ
epollout = 0x004

abbrev pub epollerr : ℕ
epollerr = 0x008

abbrev pub epollhup : ℕ
epollhup = 0x010

abbrev pub epollrdhup : ℕ
epollrdhup = 0x2000

abbrev pub epollexclusive : ℕ
epollexclusive = 0x1000_0000

abbrev pub epolloneshot : ℕ
epolloneshot = 0x4000_0000

abbrev pub epollet : ℕ
epollet = 0x8000_0000

-- The operations of `epoll_ctl`.
abbrev pub ctl_add : ℕ
ctl_add = 1

abbrev pub ctl_del : ℕ
ctl_del = 2

abbrev pub ctl_mod : ℕ
ctl_mod = 3
