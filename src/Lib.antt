-- ===== src/Lib.antt =====
-- A model of the epoll-server library: a lock-free stack of clients in a memory map, an epoll
-- instance with a self-pipe, a pool of clients that worker threads serve, and the server that
-- accepts connections into it.
--
-- The parts, from the bottom, with the files that model them:
--
--   Base              lists, sums, counts and integers that the parts share
--   Os                the system calls, as a history and an oracle that answers from it; the
--                     descriptors that a history leaves open
--   Mem               mem.hpp (genmap, delmap) and the allocators of atomic_stack.hpp
--   Stack             atomic_stack.hpp: create, destroy, push, pop as one thread sees them
--   Stack/Threads     push and pop as interleaved shared accesses of n threads
--   Endpoint          endpoint.hpp, every function
--   Epoll             epoll.hpp: the members of epoll, and its wait loop
--   Epoll/Interest    what an instance watches, read off the history of calls, and what a one-shot
--                     registration lets the kernel report
--   Epoll/Shutdown    the daisy-chained shutdown of wait, for n threads
--   Pool              pool.hpp, client_pool, with client.hpp; Pool/Bag and Pool/Contents are the
--                     specification, a bag of connections
--   Pool/Handling     a rule of induction over the handling of one event; Epoll/Looping has the one
--                     for the wait loop
--   Pool/Serving      the pool while its workers serve it, as a step relation
--   Pool/Chain        what a worker does at the control event, as steps of Epoll/Shutdown
--   Server            pool.hpp, server_pool, which server.hpp renames
--   Server/Life       the server and the workers of its pool, as a step relation; Server/Thread is
--                     what the server's own thread does of it
--   Echo              test/echo.cpp and test/echo.hpp, the echo server and its worker object
--   EchoRun           test/run.cpp, its control pages
--   EchoMain          test/main.cpp, its command line
--   Args              the options with a number, which both command lines share
--   Panel             what the control pages of both programs share
--   Text              characters, C strings in buffers, numbers from and to text
--   Work              test-client/work.hpp and the members and accessors of test-client/work.cpp,
--                     what a worker of the load generator knows and logs; Work/Interface is what
--                     run.cpp uses of it
--   Load              test-client/work.cpp, `worker`, the thread of a worker
--   LoadPages         test-client/run.cpp, the pages
--   LoadRun           test-client/run.cpp, load_workers, the handlers of the pages, and run
--   LoadMain          test-client/main.cpp, the command line of the load generator
--
-- How they interact. A server_pool owns a client_pool, and each has an epoll instance (its base
-- class). The server's one thread accepts connections and gives each to `add_client`, which pops
-- a node of the client pool's stack and registers it one-shot with the pool's epoll instance. The
-- pool's workers wait on that instance, and `process` handles one event of one client: it reads
-- until the socket is empty and arms the client again, or gives the client up (`unuse`), which
-- pushes its node. `stop` wakes one waiting thread over the self-pipe, and each thread wakes the
-- next.
--
-- The load generator is a program of its own. `main` reads the options and calls `run`, whose
-- HTTP server offers three pages: one shows the workers' logs, one starts the workers, each with
-- a thread, and one tells them to stop and joins their threads. A worker sends its message and
-- counts the answers in its log.
--
-- The state. A class is a record of its members. The system is an `Os`: any function from the
-- history of calls to an answer, so that a theorem holds for every behaviour of the kernel but
-- where a hypothesis says more. A member function is a step in `M`, with the record and the
-- history as its state. A pointer into a stack's buffer is an index, a null pointer is `none`,
-- and the user data of a client is its index plus one. Exceptions are results (`none`, `Built`).
-- `std::size_t` and the counters wrap modulo 2^64, ports modulo 2^16, user data of a listening
-- socket modulo 2^32.
--
-- Threads. The stack and the shutdown chain, which threads share, are step relations in which any
-- thread can take the next step; a member that holds the mutex, and the handling of one event by
-- one worker, are single steps. In Pool/Serving a worker takes a batch of events in one step and
-- handles each in another, in any order with those of other workers, with added clients and with
-- workers that leave; Server/Life adds the server's thread to these steps. That the kernel reports
-- a client only while its one-shot registration is armed is a hypothesis, `IsOneShot` of
-- Epoll/Interest. The control of the load generator runs over any sequence of requests and of
-- messages that its workers log between them, one at a time. All atomic accesses are taken to be
-- sequentially consistent, and a weak compare-exchange may fail at any time.
--
-- Fuel. The loops of handle_epollin, handle_epollpri, wait and the accept loop end when the
-- kernel says so, and those of a load worker when it is told to stop. They run for at most `fuel`
-- rounds, and a result of their own says that the fuel ran out. Where a measure of the history
-- falls with each round, more fuel than the measure is enough. All other loops are structural.
--
-- Parameters. The kernel; the callbacks of the derived class, which extend the history and do not
-- reach into the pool; the contents of members and memory that have no initialiser; sizeof of a
-- node (4112) on a 64-bit system; what getopt_long reports; the requests that httplib's server
-- gets, and what its listen returns.
--
-- Interfaces. The base classes call their derived classes through `Derived` (Epoll), of which
-- `client_handler` and `socket_handler` are the two cases, and the pool calls the program's
-- callbacks through `Callbacks`; that these make no registration is `IsNeutral` of Pool/Arming.
-- `Functions` (Work/Interface) is what work.hpp declares for run.cpp, with its laws.
--
-- The specifications. The client pool is a bag of descriptors with a capacity: a quotient, as the
-- order of the nodes is forgotten. The stack is a list of nodes. The control pages of the echo
-- server are a machine that knows whether the server has a thread and whether it listens.
--
-- Buffers. The arrays of the load generator are lists of their length. A copy that runs over its
-- array gives no result (`none`), and so does all that follows. A C string that fills its array
-- without a terminator is read as the whole array.
--
-- Not modelled: the weaker memory orders of the compare-exchanges; HTTP handlers at once, but for
-- one way in which two start requests overlap (LoadRun/Race); that the join of a thread in `stop` of
-- pool.hpp waits, and what a worker takes between the signal of `stop` and its end, but for the
-- events that are arguments of `stop`; memory that cannot be had by `new` or `calloc`; the copies of
-- httplib, which is another project's library.
pub mod Base
pub mod Os
pub mod Text
pub mod Mem
pub mod Stack
pub mod Endpoint
pub mod Epoll
pub mod Pool
pub mod Server
pub mod Echo
pub mod Args
pub mod Panel
pub mod EchoRun
pub mod EchoMain
pub mod Work
pub mod Load
pub mod LoadPages
pub mod LoadRun
pub mod LoadMain
