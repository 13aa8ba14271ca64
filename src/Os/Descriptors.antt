-- ===== src/Os/Descriptors.antt =====
-- The file descriptors that a history leaves open.
use epoll_server.Base.{◌≡◌, List, [], ◌∷◌, if◌then◌else◌}
use epoll_server.Base.Int.{ℤ, failed, ◌==ℤ◌, ==ℤ_refl}
use epoll_server.Os.{Call, Reply, Trace}

-- Drops the first occurrence.
abbrev pub remove : ℤ → List ℤ → List ℤ
remove fd [] = []
remove fd (x ∷ xs) = if x ==ℤ fd then xs else x ∷ remove fd xs

pub remove-cons : (fd : ℤ) (xs : List ℤ) → remove fd (fd ∷ xs) ≡ xs
remove-cons fd xs = rw (==ℤ_refl fd)

-- A call that makes a descriptor adds it if it succeeds; `close` drops it whatever it returns.
abbrev pub after_call : Call → Reply → List ℤ → List ℤ
after_call Call.memfd_create r fds = if failed r.ret then fds else r.ret ∷ fds
after_call (Call.socket _) r fds = if failed r.ret then fds else r.ret ∷ fds
after_call (Call.accept _) r fds = if failed r.ret then fds else r.ret ∷ fds
after_call Call.epoll_create r fds = if failed r.ret then fds else r.ret ∷ fds
after_call Call.socketpair r fds = if failed r.ret then fds else r.pair.0 ∷ r.pair.1 ∷ fds
after_call (Call.close fd) r fds = remove fd fds
after_call _ r fds = fds

abbrev pub open_fds : Trace → List ℤ
open_fds [] = []
open_fds ((c, r) ∷ t) = after_call c r (open_fds t)
