-- ===== src/Endpoint/Tests.antt =====
-- Tests of the sockets of endpoint.hpp.
use epoll_server.Base.{◌≡◌, ◌∷◌, [], if◌then◌else◌}
use epoll_server.Base.Int.{pos, negsuc, failed}
use epoll_server.Os.Descriptors.{open_fds}
use epoll_server.Os.Samples.{working, fresh}
use epoll_server.Endpoint.{endpoint_tcp_server}
use epoll_server.Endpoint.Listening.{endpoint_tcp_server-open_fds}

endpoint_tcp_server-open_fds_example :
    let (fd, w') = endpoint_tcp_server working (pos 80) (pos 9) fresh in
    (fd ≡ (if failed fd then negsuc 0 else pos 3))
    × (open_fds w'.trace ≡ (if failed fd then [] else pos 3 ∷ []))
endpoint_tcp_server-open_fds_example = endpoint_tcp_server-open_fds working fresh (pos 80) (pos 9)
