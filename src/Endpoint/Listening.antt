-- ===== src/Endpoint/Listening.antt =====
-- The descriptors that the listening sockets of endpoint.hpp leave open, on every path.
use epoll_server.Base.{ℕ, ◌+◌, ◌%◌, ◌^◌, ◌≡◌, Bool, true, false, ◌∷◌, arith, if◌then◌else◌}
use epoll_server.Base.Int.{ℤ, pos, negsuc, failed}
use epoll_server.Os.{Os, Call, Reply, World}
use epoll_server.Os.Descriptors.{open_fds, remove-cons}
use epoll_server.Endpoint.{endpoint_tcp_server, endpoint_udp_server}

module _ {S : Type 0} (os : Os) (w : World S) where
  -- The answers to the first two calls of a server socket's creation.
  abbrev pub socket_reply : (stream : Bool) → Reply
  socket_reply stream = os.reply w.trace (Call.socket stream)

  abbrev pub option_reply : (stream : Bool) → Reply
  option_reply stream =
      let sock = socket_reply stream in
      os.reply ((Call.socket stream, sock) ∷ w.trace) (Call.reuse_addr sock.ret)

  -- Whatever the kernel answers: the result is -1 or the new socket. A listening socket that was made
  -- is open, with what was open before. A failure leaves nothing else open, but for one path: where
  -- `SO_REUSEADDR` is refused, -1 is returned and the new socket is not closed.
  pub endpoint_tcp_server-open_fds :
      (port queuelen : ℤ)
      → let (fd, w') = endpoint_tcp_server os port queuelen w in
        let opened = (socket_reply true).ret ∷ open_fds w.trace in
        (fd ≡ (if failed fd then negsuc 0 else (socket_reply true).ret))
        × (open_fds w'.trace ≡ (
            if failed (socket_reply true).ret
            then open_fds w.trace
            else if failed (option_reply true).ret
            then opened
            else if failed fd
            then open_fds w.trace
            else opened))
  unfolding endpoint_tcp_server
  endpoint_tcp_server-open_fds port queuelen =
      (ground arith, ground (arith, remove-cons (socket_reply true).ret (open_fds w.trace)))

  -- The same of a datagram socket.
  pub endpoint_udp_server-open_fds :
      (port : ℤ)
      → let (fd, w') = endpoint_udp_server os port w in
        let opened = (socket_reply false).ret ∷ open_fds w.trace in
        open_fds w'.trace ≡ (
          if failed (socket_reply false).ret
          then open_fds w.trace
          else if failed (option_reply false).ret
          then opened
          else if failed fd
          then open_fds w.trace
          else opened)
  unfolding endpoint_udp_server
  endpoint_udp_server-open_fds port =
      ground (arith, remove-cons (socket_reply false).ret (open_fds w.trace))

  -- A port is taken modulo 2^16 without an error.
  pub endpoint_tcp_server_wraps :
      (port : ℕ) (queuelen : ℤ)
      → endpoint_tcp_server os (pos (port + 2 ^ 16)) queuelen w
        ≡ endpoint_tcp_server os (pos port) queuelen w
  unfolding endpoint_tcp_server
  endpoint_tcp_server_wraps port queuelen =
      let e : (port + 2 ^ 16) % 2 ^ 16 ≡ port % 2 ^ 16 = omega arith in simp e
