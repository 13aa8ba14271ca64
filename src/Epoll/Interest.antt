-- ===== src/Epoll/Interest.antt =====
-- What the kernel keeps of an epoll instance, read off the history: the registrations of
-- epoll.hpp that are armed, each a descriptor with its user data and whether it is one-shot.
use Prim.Native.Nat.{bit_and}
use epoll_server.Base.{
  ℕ, ◌≡◌, refl, Bool, true, false, ◌&&◌, ◌||◌, inl, inr, List, [], ◌∷◌, ◌==◌, arith, All,
  if◌then◌else◌, Bool-cases,
}
use epoll_server.Base.Int.{ℤ, failed, is_zero, ◌==ℤ◌}
use epoll_server.Os.{Os, Call, Event, Reply, Trace}
use epoll_server.Epoll.Flags.{ctl_del, epolloneshot}

-- A descriptor, its user data, and whether it is one-shot.
abbrev pub Entry : Type 0
Entry = ℤ × ℕ × Bool

-- The registrations of other descriptors.
abbrev pub drop_fd : ℤ → List Entry → List Entry
drop_fd fd [] = []
drop_fd fd ((x, u, b) ∷ es) = if x ==ℤ fd then drop_fd fd es else (x, u, b) ∷ drop_fd fd es

-- What is left when an event is reported: the registrations but for the one-shot one with its user
-- data.
abbrev pub disarm : ℕ → List Entry → List Entry
disarm u [] = []
disarm u ((x, v, b) ∷ es) = if (v == u) && b then disarm u es else (x, v, b) ∷ disarm u es

abbrev pub disarm_all : List Event → List Entry → List Entry
disarm_all [] es = es
disarm_all (ev ∷ evs) es = disarm_all evs (disarm ev.userdata es)

-- Whether a registration with the user data is armed.
abbrev pub has_entry : ℕ → List Entry → Bool
has_entry u [] = false
has_entry u ((x, v, b) ∷ es) = (v == u) || has_entry u es

abbrev pub is_one_shot : (events : ℕ) → Bool
is_one_shot events = bit_and events epolloneshot == epolloneshot

-- The events that a wait reports: none where it fails.
abbrev pub batch : Reply → List Event
batch r = if failed r.ret then [] else r.events

abbrev after_ctl : (opcode : ℕ) → (fd : ℤ) → (events userdata : ℕ) → List Entry → List Entry
after_ctl opcode fd events userdata es =
    if opcode == ctl_del then drop_fd fd es else (fd, userdata, is_one_shot events) ∷ drop_fd fd es

-- A new instance has no registration. A registration that is added or changed is armed; a report
-- disarms it if it is one-shot; it ends when it is removed or its descriptor is closed.
abbrev after_call : (epfd : ℤ) → Call → Reply → List Entry → List Entry
after_call epfd Call.epoll_create r es = if r.ret ==ℤ epfd then [] else es
after_call epfd (Call.epoll_ctl e opcode fd events userdata) r es =
    if (e ==ℤ epfd) && is_zero r.ret then after_ctl opcode fd events userdata es else es
after_call epfd (Call.epoll_wait e maxevents) r es =
    if e ==ℤ epfd then disarm_all (batch r) es else es
after_call epfd (Call.close fd) r es = drop_fd fd es
after_call epfd _ r es = es

abbrev pub armed : (epfd : ℤ) → Trace → List Entry
armed epfd [] = []
armed epfd ((c, r) ∷ t) = after_call epfd c r (armed epfd t)

-- What a wait may report: armed registrations, a one-shot one at most once. The user data tell them
-- apart.
abbrev pub IsReport : List Entry → List Event → Type 0
IsReport es [] = Unit {0}
IsReport es (ev ∷ evs) = (has_entry ev.userdata es ≡ true) × IsReport (disarm ev.userdata es) evs

-- What epoll(7) says of EPOLLONESHOT: a wait on the instance reports armed registrations, a one-shot
-- one at most once.
pub record IsOneShot (os : Os) (epfd : ℤ) : Type 0 where
  pub reports :
      (t : Trace) (maxevents : ℕ)
      → IsReport (armed epfd t) (batch (os.reply t (Call.epoll_wait epfd maxevents)))

pub drop_fd_twice : (fd : ℤ) (es : List Entry) → drop_fd fd (drop_fd fd es) ≡ drop_fd fd es
drop_fd_twice fd [] = refl
drop_fd_twice fd ((x, u, b) ∷ es) = ground (arith, drop_fd_twice fd es)

-- What is not armed stays so.
pub has_entry-drop_fd :
    (u : ℕ) (fd : ℤ) (es : List Entry)
    → has_entry u es ≡ false
    → has_entry u (drop_fd fd es) ≡ false
has_entry-drop_fd u fd [] h = refl
has_entry-drop_fd u fd ((x, v, b) ∷ es) h = ground (arith, has_entry-drop_fd u fd es)

pub has_entry-disarm :
    (u v : ℕ) (es : List Entry) → has_entry u es ≡ false → has_entry u (disarm v es) ≡ false
has_entry-disarm u v [] h = refl
has_entry-disarm u v ((x, a, b) ∷ es) h = ground (arith, has_entry-disarm u v es)

-- A report of a one-shot registration disarms it.
pub has_entry-disarm_self :
    (u : ℕ) (es : List Entry)
    → All (λ (e : Entry). e.1 ≡ u → e.2 ≡ true) es
    → has_entry u (disarm u es) ≡ false
has_entry-disarm_self u [] h = refl
has_entry-disarm_self u ((x, v, b) ∷ es) h = elim (Bool-cases (v == u)) [
  | inl same ↦
      let once : b ≡ true = h.0 (ground arith) in rw (same, once) (has_entry-disarm_self u es h.1)
  | inr other ↦ rw (other, other) (has_entry-disarm_self u es h.1)
]

pub has_entry-disarm_all :
    (u : ℕ) (evs : List Event) (es : List Entry)
    → has_entry u es ≡ false
    → has_entry u (disarm_all evs es) ≡ false
has_entry-disarm_all u [] es h = h
has_entry-disarm_all u (ev ∷ evs) es h =
    has_entry-disarm_all u evs (disarm ev.userdata es) (has_entry-disarm u ev.userdata es h)

-- What holds of every registration holds of those that are left.
pub All-drop_fd : (P : Entry → Type 0) (fd : ℤ) (es : List Entry) → All P es → All P (drop_fd fd es)
All-drop_fd P fd [] h = tt
All-drop_fd P fd ((x, u, b) ∷ es) h = elim (Bool-cases (x ==ℤ fd)) [
  | inl e ↦ rw e (All-drop_fd P fd es h.1)
  | inr e ↦ rw e (h.0, All-drop_fd P fd es h.1)
]

pub All-disarm : (P : Entry → Type 0) (u : ℕ) (es : List Entry) → All P es → All P (disarm u es)
All-disarm P u [] h = tt
All-disarm P u ((x, v, b) ∷ es) h = elim (Bool-cases ((v == u) && b)) [
  | inl e ↦ rw e (All-disarm P u es h.1)
  | inr e ↦ rw e (h.0, All-disarm P u es h.1)
]

pub All-disarm_all :
    (P : Entry → Type 0) (evs : List Event) (es : List Entry) → All P es → All P (disarm_all evs es)
All-disarm_all P [] es h = h
All-disarm_all P (ev ∷ evs) es h =
    All-disarm_all P evs (disarm ev.userdata es) (All-disarm P ev.userdata es h)
