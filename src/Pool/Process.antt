-- ===== src/Pool/Process.antt =====
-- pool.hpp: `client_pool::process`, the dispatch of an event mask.
use Prim.Native.Nat.{bit_and}
use epoll_server.Base.{ℕ, Bool, true, false, List, [], ◌∷◌, has, ◌==◌, if◌then◌else◌}
use epoll_server.Os.{Os, M, pure, ◌>>=◌, ◌>>◌, when◌then◌else◌}
use epoll_server.Epoll.Flags.{any_of, epollin, epollpri, epollout, epollerr, epollhup, epollrdhup}
use epoll_server.Pool.State.{ClientPool, unuse}
use epoll_server.Pool.Handlers.{Callbacks, handle_epollin, handle_epollpri, handle_epollout}

-- What `process` does with an event.
pub data Action : Type 0 where
  close_client : Action
  read_input : Action
  read_urgent : Action
  write_ready : Action
  read_then_write : Action
  urgent_then_write : Action
  ignore : Action

-- The labels of the `switch`, a list for each body.
abbrev hangups : List ℕ
hangups =
    epollhup
    ∷ any_of (epollhup ∷ epollout ∷ [])
    ∷ epollrdhup
    ∷ any_of (epollrdhup ∷ epollout ∷ [])
    ∷ []

abbrev inputs : List ℕ
inputs =
    epollin
    ∷ any_of (epollin ∷ epollhup ∷ [])
    ∷ any_of (epollin ∷ epollhup ∷ epollout ∷ [])
    ∷ any_of (epollin ∷ epollrdhup ∷ [])
    ∷ any_of (epollin ∷ epollrdhup ∷ epollout ∷ [])
    ∷ []

abbrev urgents : List ℕ
urgents =
    epollpri
    ∷ any_of (epollpri ∷ epollhup ∷ [])
    ∷ any_of (epollpri ∷ epollhup ∷ epollout ∷ [])
    ∷ any_of (epollpri ∷ epollrdhup ∷ [])
    ∷ any_of (epollpri ∷ epollrdhup ∷ epollout ∷ [])
    ∷ any_of (epollin ∷ epollpri ∷ [])
    ∷ any_of (epollin ∷ epollpri ∷ epollhup ∷ [])
    ∷ any_of (epollin ∷ epollpri ∷ epollhup ∷ epollout ∷ [])
    ∷ any_of (epollin ∷ epollpri ∷ epollrdhup ∷ [])
    ∷ any_of (epollin ∷ epollpri ∷ epollrdhup ∷ epollout ∷ [])
    ∷ []

-- The `switch`.
unfoldable pub dispatch : (flags : ℕ) → Action
dispatch flags =
    if has flags hangups
    then close_client
    else if has flags inputs
    then read_input
    else if has flags urgents
    then read_urgent
    else if flags == epollout
    then write_ready
    else if flags == any_of (epollin ∷ epollout ∷ [])
    then read_then_write
    else if flags == any_of (epollpri ∷ epollout ∷ [])
    then urgent_then_write
    else if flags == any_of (epollin ∷ epollpri ∷ epollout ∷ [])
    then urgent_then_write
    else if bit_and flags epollerr == epollerr
    then close_client
    else ignore

module _ (os : Os) (h : Callbacks) where
  unfoldable pub perform : Action → (fuel cl : ℕ) → M ClientPool Bool
  perform close_client fuel cl = do unuse os cl; pure true
  perform read_input fuel cl = handle_epollin os h fuel cl
  perform read_urgent fuel cl = handle_epollpri os h fuel cl
  perform write_ready fuel cl = do handle_epollout os h cl; pure true
  perform read_then_write fuel cl = do
    ended ← handle_epollin os h fuel cl
    when ended then (do handle_epollout os h cl; pure true) else pure false
  perform urgent_then_write fuel cl = do
    ended ← handle_epollpri os h fuel cl
    when ended then (do handle_epollout os h cl; pure true) else pure false
  perform ignore fuel cl = pure true

  -- `process`; `fuel` bounds the reads of one event.
  unfoldable pub process : (fuel cl flags : ℕ) → M ClientPool Bool
  process fuel cl flags = perform (dispatch flags) fuel cl
