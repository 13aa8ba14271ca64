-- ===== src/Pool/Chain/Life.antt =====
-- The shutdown of the threads of pool.hpp, from the constructor of the pool on.
use epoll_server.Os.{Os}
use epoll_server.Epoll
