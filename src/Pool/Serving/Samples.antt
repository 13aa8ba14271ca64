-- ===== src/Pool/Serving/Samples.antt =====
-- A kernel for the tests of pool.hpp that reports one armed client at a time.
use epoll_server.Base.{
  ◌+◌, ◌≡◌, refl, Bool, true, false, List, [], ◌∷◌, arith, length, if◌then◌else◌, Bool-cases, inl,
  inr,
}
use epoll_server.Base.Int.{ℤ, pos, negsuc, is_zero}
use epoll_server.Os.{Os, Call, Event, Reply, Trace}
use epoll_server.Os.Samples.{answer}
use epoll_server.Epoll.Flags.{epollin}
use epoll_server.Epoll.Interest.{Entry, armed, IsReport}
use epoll_server.Pool.Samples.{quiet}
use epoll_server.Pool.Serving.Safety.{Environment}

abbrev first_of : List Entry → List Event
first_of [] = []
first_of ((fd, u, b) ∷ es) = record { events = epollin; userdata = u } ∷ []

-- Whether the newest call is of the epoll instance.
abbrev after_ctl : Trace → Bool
after_ctl ((Call.epoll_ctl _ _ _ _ _, r) ∷ t) = true
after_ctl _ = false

-- Reads find nothing, a second connection is not there, and all else succeeds.
abbrev respond : Trace → Call → Reply
respond t (Call.epoll_wait e n) = answer (pos 1) 0 (first_of (armed e t))
respond t (Call.recv _ _ _) = answer (negsuc 0) 11 []
respond t Call.epoll_create = answer (pos (length t + 3)) 0 []
respond t (Call.accept _) = answer (if after_ctl t then negsuc 0 else pos 7) 11 []
respond t _ = answer (pos 0) 0 []

abbrev pub one_by_one : Os
one_by_one = record { reply = respond; pagesize = 4 }

first_of-IsReport : (es : List Entry) → IsReport es (first_of es)
first_of-IsReport [] = tt
first_of-IsReport ((fd, u, b) ∷ es) = (ground arith, tt)

pub obliging : (epfd : ℤ) → Environment one_by_one quiet epfd
obliging epfd = record {
  one_shot = record { reports = λ t n. first_of-IsReport (armed epfd t) };
  neutral = record { on_input = λ sfd bytes len t. refl; on_write_ready = λ sfd t. refl };
}

-- No connection has the descriptor 0.
pub accept-nonzero :
    (sfd : ℤ) (t : Trace) → is_zero (one_by_one.reply t (Call.accept sfd)).ret ≡ false
accept-nonzero sfd t = elim (Bool-cases (after_ctl t)) [ inl e ↦ rw e refl | inr e ↦ rw e refl ]
