-- ===== src/Epoll/Lifetime.antt =====
-- The descriptors of an epoll instance (epoll.hpp): its constructor on every path, and its
-- destructor.
use epoll_server.Base.{ℕ, ◌≡◌, refl, ap, ◌∙◌, false, some, List, ◌∷◌, arith, if◌then◌else◌}
use epoll_server.Base.Int.{ℤ, failed, ◌==ℤ◌, ==ℤ_refl}
use epoll_server.Os.{Os, Call, Reply, World}
use epoll_server.Os.Descriptors.{open_fds, remove}
use epoll_server.Epoll.{Epoll, construct, destruct}

module _ {S : Type 0} (os : Os) (maxevents : ℕ) (w : World S) where
  abbrev pub epoll_reply : Reply
  epoll_reply = os.reply w.trace Call.epoll_create

  abbrev pub pipe_reply : Reply
  pipe_reply = os.reply ((Call.epoll_create, epoll_reply) ∷ w.trace) Call.socketpair

  -- The constructor opens an epoll descriptor and the two ends of the self-pipe, in this order,
  -- as far as it gets. Where it throws it closes none of them.
  pub construct-open_fds : open_fds (construct os maxevents w).1.trace ≡ (
      if failed epoll_reply.ret
      then open_fds w.trace
      else if failed pipe_reply.ret
      then epoll_reply.ret ∷ open_fds w.trace
      else pipe_reply.pair.0 ∷ pipe_reply.pair.1 ∷ epoll_reply.ret ∷ open_fds w.trace)
  unfolding construct
  construct-open_fds = ground arith

  construct_made :
      {e : Epoll}
      → (construct os maxevents w).0 ≡ some e
      → open_fds (construct os maxevents w).1.trace
        ≡ e.selfpipe_0 ∷ e.selfpipe_1 ∷ e.epfd ∷ open_fds w.trace
  unfolding construct
  construct_made h = ground arith

destruct-open_fds :
    {S : Type 0} (os : Os) (e : Epoll) (w : World S)
    → open_fds (destruct os e w).1.trace
      ≡ remove e.selfpipe_1 (remove e.selfpipe_0 (remove e.epfd (open_fds w.trace)))
unfolding destruct
destruct-open_fds os e w = refl

remove_three :
    (a b c : ℤ) (fds : List ℤ)
    → (a ==ℤ c) ≡ false
    → (b ==ℤ c) ≡ false
    → remove b (remove a (remove c (a ∷ b ∷ c ∷ fds))) ≡ fds
remove_three a b c fds ac bc = ground (arith, ==ℤ_refl a, ==ℤ_refl b, ==ℤ_refl c)

-- Where the kernel gives the epoll descriptor another number than the ends of the pipe, the
-- destructor closes all that a constructor that did not throw has opened.
pub destruct-construct :
    {S : Type 0} (os : Os) (maxevents : ℕ) (w : World S) {e : Epoll}
    → (construct os maxevents w).0 ≡ some e
    → (e.selfpipe_0 ==ℤ e.epfd) ≡ false
    → (e.selfpipe_1 ==ℤ e.epfd) ≡ false
    → open_fds (destruct os e (construct os maxevents w).1).1.trace ≡ open_fds w.trace
destruct-construct os maxevents w {e} made ne_0 ne_1 =
    let (r, w') = construct os maxevents w in
    destruct-open_fds os e w'
    ∙ (ap (λ fds. remove e.selfpipe_1 (remove e.selfpipe_0 (remove e.epfd fds)))
          (construct_made os maxevents w made)
        ∙ remove_three e.selfpipe_0 e.selfpipe_1 e.epfd (open_fds w.trace) ne_0 ne_1)
