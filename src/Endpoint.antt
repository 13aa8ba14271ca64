-- ===== src/Endpoint.antt =====
-- endpoint.hpp: the socket functions. Each is a few system calls; -1 is the failure.
pub mod Listening
pub mod Tests
use Prim.Native.Nat.{bit_and, bit_or}
use epoll_server.Base.{ℕ, ◌+◌, ◌-◌, ◌%◌, ◌^◌, true, false, List, ◌⊎◌, inl, inr, if◌then◌else◌}
use epoll_server.Base.Int.{ℤ, pos, negsuc, failed}
use epoll_server.Os.{Os, Call, Reply, M, pure, ◌>>=◌, when◌then◌else◌, sys}

-- The conversion of an `int` to the `uint16_t` of `htons`.
abbrev pub to_u16 : ℤ → ℕ
to_u16 (pos n) = n % 2 ^ 16
to_u16 (negsuc n) = 2 ^ 16 - 1 - n % 2 ^ 16

-- `flags | O_NONBLOCK` on a two's complement `int`.
abbrev pub nonblock : ℕ
nonblock = 0o4000

abbrev pub or_nonblock : ℤ → ℤ
or_nonblock (pos n) = pos (bit_or n nonblock)
or_nonblock (negsuc n) = negsuc (n - bit_and n nonblock)

module _ {S : Type 0} (os : Os) where
  -- A call of which only the result is used.
  abbrev call : Call → M S ℤ
  call c = do r ← sys os c; pure r.ret

  -- Closes the descriptor and returns -1.
  abbrev fail_closing : ℤ → M S ℤ
  fail_closing fd = do _ ← call (Call.close fd); pure (negsuc 0)

  unfoldable pub endpoint_tcp : M S ℤ
  endpoint_tcp = call (Call.socket true)

  unfoldable pub endpoint_tcp_server : (port queuelen : ℤ) → M S ℤ
  unfolding endpoint_tcp
  endpoint_tcp_server port queuelen = do
    sfd ← endpoint_tcp
    when failed sfd then pure (negsuc 0) else do
      option ← call (Call.reuse_addr sfd)
      when failed option then pure (negsuc 0) else do
        bound ← call (Call.bind sfd (to_u16 port))
        when failed bound then fail_closing sfd else do
          listening ← call (Call.listen sfd queuelen)
          when failed listening then fail_closing sfd else pure sfd

  unfoldable pub endpoint_udp : M S ℤ
  endpoint_udp = call (Call.socket false)

  unfoldable pub endpoint_udp_server : (port : ℤ) → M S ℤ
  unfolding endpoint_udp
  endpoint_udp_server port = do
    sfd ← endpoint_udp
    when failed sfd then pure (negsuc 0) else do
      option ← call (Call.reuse_addr sfd)
      when failed option then pure (negsuc 0) else do
        bound ← call (Call.bind sfd (to_u16 port))
        when failed bound then fail_closing sfd else pure sfd

  -- The reply holds the result, `errno` and the bytes stored in the buffer.
  unfoldable pub endpoint_read : (sfd : ℤ) → (bufflen : ℕ) → M S Reply
  endpoint_read sfd bufflen = sys os (Call.recv sfd bufflen false)

  unfoldable pub endpoint_read_oob : (sfd : ℤ) → M S Reply
  endpoint_read_oob sfd = sys os (Call.recv sfd 1 true)

  unfoldable pub endpoint_write : (sfd : ℤ) → (bytes : List ℕ) → M S ℤ
  endpoint_write sfd bytes = call (Call.send sfd bytes)

  -- The overload with an address as an `int`.
  unfoldable pub endpoint_write_int : (sfd ipaddr port : ℤ) → (bytes : List ℕ) → M S ℤ
  endpoint_write_int sfd ipaddr port bytes = call (Call.sendto sfd (inr ipaddr) (to_u16 port) bytes)

  -- The overload with an address as text.
  unfoldable pub endpoint_write_text :
      (sfd : ℤ) → (ipaddr : List ℕ) → (port : ℤ) → (bytes : List ℕ) → M S ℤ
  endpoint_write_text sfd ipaddr port bytes =
      call (Call.sendto sfd (inl ipaddr) (to_u16 port) bytes)

  unfoldable pub endpoint_connect : (sfd : ℤ) → (ipaddr : List ℕ) → (port : ℤ) → M S ℤ
  endpoint_connect sfd ipaddr port = call (Call.connect sfd ipaddr (to_u16 port))

  unfoldable pub endpoint_unblock : (sfd : ℤ) → M S ℤ
  endpoint_unblock sfd = do
    flags ← call (Call.get_flags sfd)
    call (Call.set_flags sfd (or_nonblock flags))

  unfoldable pub endpoint_close : (sfd : ℤ) → M S ℤ
  endpoint_close sfd = call (Call.close sfd)

  unfoldable pub endpoint_accept : (sfd : ℤ) → M S ℤ
  endpoint_accept sfd = call (Call.accept sfd)
