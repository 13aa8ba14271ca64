-- ===== src/Server/Listening.antt =====
-- The listening sockets of `server_pool` (pool.hpp): their user data, and `bind`.
use epoll_server.Base.{◌<◌, ◌≡◌, ◌^◌, arith}
use epoll_server.Base.Int.{ℤ, pos, negsuc}
use epoll_server.Os.{Os, World}
use epoll_server.Os.Descriptors.{open_fds}
use epoll_server.Endpoint.{endpoint_tcp_server, endpoint_unblock}
use epoll_server.Epoll.{add_server}
use epoll_server.Server.{ServerPool, user_data, cast, bind}

-- The values of a 32-bit `int`.
abbrev pub IsInt : ℤ → Type 0
IsInt (pos n) = n < 2 ^ 31
IsInt (negsuc n) = n < 2 ^ 31

-- The descriptor that an event reports is the one that was registered, if it is a 32-bit `int`.
pub cast-user_data : (sfd : ℤ) → IsInt sfd → cast (user_data sfd) ≡ sfd
unfolding cast user_data
cast-user_data (pos n) h = ground arith
cast-user_data (negsuc n) h = ground arith

-- Once its socket listens, `bind` closes nothing: whether the socket cannot be made non-blocking,
-- is refused by epoll, or is added, the open descriptors are those that `endpoint_tcp_server` left.
pub bind-open_fds :
    (os : Os) (port queuelen : ℤ) (w : World ServerPool)
    → open_fds (bind os port queuelen w).1.trace
      ≡ open_fds (endpoint_tcp_server os port queuelen w).1.trace
unfolding bind endpoint_unblock add_server
bind-open_fds os port queuelen w = ground arith
