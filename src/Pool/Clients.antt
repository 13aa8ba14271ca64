-- ===== src/Pool/Clients.antt =====
-- `use`, `unuse` and `add_client` of pool.hpp keep the invariant, and what they do to the counter
-- and to the descriptors.
use epoll_server.Base.{
  ℕ, suc, ◌+◌, ◌≡◌, refl, ap, Bool, false, none, some, List, [], ◌∷◌, ◌==◌, arith,
}
use epoll_server.Base.Int.{ℤ, is_zero}
use epoll_server.Os.{Os, Call, Reply, World}
use epoll_server.Os.Descriptors.{open_fds, remove}
use epoll_server.Epoll.{client_events}
use epoll_server.Epoll.Flags.{ctl_add}
use epoll_server.Epoll
use epoll_server.Endpoint.{endpoint_close}
use epoll_server.Stack.{pop-none, pop-some}
use epoll_server.Pool.State.{
  ClientPool, get_active_count, sfd_of, take_out, use_client, use_popped, unuse, add_used,
  add_client,
}
use epoll_server.Pool.Invariant.{Inv, InUse, room, take_out-Inv, put_back-Inv}

module _ (w : World ClientPool) where
  use_client-none : (sfd : ℤ) → Inv w.st [] → use_client sfd w ≡ (none, w)
  unfolding use_client
  use_client-none sfd inv = ap (λ r. use_popped sfd r w) (pop-none w.st.free_mem inv.holds.chain)

  pub use_client-some :
      (sfd : ℤ) (i : ℕ) (rest : List ℕ)
      → Inv w.st (i ∷ rest)
      → use_client sfd w ≡ (
        some i,
        record w {
          st = take_out i sfd (record w.st.free_mem { head = w.st.free_mem.next i }) w.st;
        },
      )
  unfolding use_client
  use_client-some sfd i rest inv =
      ap (λ r. use_popped sfd r w) (pop-some w.st.free_mem i inv.holds.chain.0)

-- What one call of `add_client` leaves, where node `i` is on top of the stack.
pub record Added (os : Os) (sfd : ℤ) (i : ℕ) (rest : List ℕ) (w : World ClientPool) (ok : Bool)
    (w' : World ClientPool) : Type 0 where
  pub inv : Inv w'.st rest
  pub in_use : InUse w'.st rest i
  pub holds_sfd : sfd_of w'.st i ≡ sfd
  pub counted : get_active_count w'.st ≡ get_active_count w.st + 1
  pub reply : Reply
  pub called :
      w'.trace ≡ (Call.epoll_ctl w.st.epoll.epfd ctl_add sfd client_events (suc i), reply) ∷ w.trace
  pub result : ok ≡ is_zero reply.ret
  pub others_sfd : (j : ℕ) → (i == j) ≡ false → sfd_of w'.st j ≡ sfd_of w.st j
  pub same_epoll : w'.st.epoll ≡ w.st.epoll
  pub same_cap : w'.st.client_cap ≡ w.st.client_cap
  pub same_threads : w'.st.threads ≡ w.st.threads

module _ (os : Os) (w : World ClientPool) where
  -- With no free node a connection is refused: the result is false, nothing changes, and no system
  -- call is made.
  pub add_client_full : (sfd : ℤ) → Inv w.st [] → add_client os sfd w ≡ (false, w)
  unfolding add_client add_used
  add_client_full sfd inv = rw (use_client-none w sfd inv)

  taken-Added :
      (sfd : ℤ) (i : ℕ) (rest : List ℕ)
      → is_zero sfd ≡ false
      → Inv w.st (i ∷ rest)
      → let st : ClientPool =
          take_out i sfd (record w.st.free_mem { head = w.st.free_mem.next i }) w.st in
        let (ok, w') = add_used os sfd (some i) (record w { st = st }) in
        Added os sfd i rest w ok w'
  unfolding add_used take_out get_active_count Epoll.add_client
  taken-Added sfd i rest nonzero inv = record {
    inv = take_out-Inv inv sfd i rest nonzero refl;
    in_use = record { in_range = inv.in_buffer i (ground arith); not_free = inv.holds.distinct.0 };
    holds_sfd = kept;
    counted = ground arith;
    reply = answer sfd;
    called = ap (λ x. (register x, answer x) ∷ w.trace) kept;
    result = ap (λ x. is_zero (answer x).ret) kept;
    others_sfd = λ j other. ground arith;
    same_epoll = refl;
    same_cap = refl;
    same_threads = refl;
  }
    where
      register : ℤ → Call
      register x = Call.epoll_ctl w.st.epoll.epfd ctl_add x client_events (suc i)

      answer : ℤ → Reply
      answer x = os.reply w.trace (register x)

      kept : sfd_of (take_out i sfd w.st.free_mem w.st) i ≡ sfd
      kept = ground arith

  -- A connection with a descriptor other than 0, for a pool that has the invariant and a free node:
  -- the top node takes the descriptor and counts as active, the other nodes keep theirs, and the one
  -- call made registers it. This holds whatever that call answers: where the registration fails, the
  -- result is false, and the node stays in use.
  pub add_client-Added :
      (sfd : ℤ) (i : ℕ) (rest : List ℕ)
      → is_zero sfd ≡ false
      → Inv w.st (i ∷ rest)
      → let (ok, w') = add_client os sfd w in Added os sfd i rest w ok w'
  unfolding add_client
  add_client-Added sfd i rest nonzero inv =
      rw (use_client-some w sfd i rest inv) (taken-Added sfd i rest nonzero inv)

  -- `unuse` of a client in use keeps the invariant with its node on top of the stack, takes one
  -- from the counter, and closes the client's descriptor.
  pub unuse-Inv :
      (i : ℕ) (free : List ℕ)
      → Inv w.st free
      → InUse w.st free i
      → let w' = (unuse os i w).1 in
        Inv w'.st (i ∷ free)
        × (get_active_count w'.st + 1 ≡ get_active_count w.st)
        × (open_fds w'.trace ≡ remove (sfd_of w.st i) (open_fds w.trace))
  unfolding unuse get_active_count Epoll.remove endpoint_close
  unuse-Inv i free inv used = (put_back-Inv inv i used, ground (arith, room inv i used), refl)
