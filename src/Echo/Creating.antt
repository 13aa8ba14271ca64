-- ===== src/Echo/Creating.antt =====
-- What `create` of test/echo.cpp does with the descriptor of its listening socket.
use epoll_server.Base.{ℕ, ◌≡◌, refl, ap, ◌∙◌, Option, none, some, arith}
use epoll_server.Base.Int.{ℤ}
use epoll_server.Os.{Os, World, M}
use epoll_server.Mem.{map_alloc, genmap}
use epoll_server.Endpoint.{endpoint_tcp_server, endpoint_unblock}
use epoll_server.Epoll
use epoll_server.Epoll.{Epoll, default_max_events}
use epoll_server.Stack
use epoll_server.Stack.{Stack}
use epoll_server.Pool.State.{Client, no_client, ClientPool}
use epoll_server.Pool.Lifecycle
use epoll_server.Pool.Lifecycle.{node_size, Built, built, runtime_error, bad_alloc}
use epoll_server.Server
use epoll_server.Server.{ServerPool}
use epoll_server.Echo.Report.{print_server_socket_error}
use epoll_server.Echo.{
  EchoWorker, Garbage, Init, escapes, null, server, add_socket, init_server, keep_server,
  create_with, create, backlog, to_size,
}

-- A step leaves the object that makes it as it is.
abbrev Leaves : {S A : Type 0} → M S A → Type 0
Leaves {S} m = (w : World S) → (m w).1.st ≡ w.st

module _ {S : Type 0} (os : Os) where
  tcp_server-Leaves : (port queuelen : ℤ) → Leaves {S = S} (endpoint_tcp_server os port queuelen)
  unfolding endpoint_tcp_server
  tcp_server-Leaves port queuelen w = ground arith

  unblock-Leaves : (sfd : ℤ) → Leaves {S = S} (endpoint_unblock os sfd)
  unfolding endpoint_unblock
  unblock-Leaves sfd w = refl

  epoll-Leaves : (maxevents : ℕ) → Leaves {S = S} (Epoll.construct os maxevents)
  unfolding Epoll.construct
  epoll-Leaves maxevents w = ground arith

  destruct-Leaves : (e : Epoll) → Leaves {S = S} (Epoll.destruct os e)
  unfolding Epoll.destruct
  destruct-Leaves e w = refl

  genmap-Leaves : (unitsize hint : ℕ) → Leaves {S = S} (genmap os unitsize hint)
  unfolding genmap
  genmap-Leaves unitsize hint w = ground arith

  stack-Leaves :
      {T : Type 0} (t : T) (values : ℕ → T) (unitsize hint : ℕ)
      → Leaves {S = S} (Stack.create (map_alloc os unitsize) t (Stack.empty values) hint)
  unfolding Stack.create
  stack-Leaves t values unitsize hint w = genmap-Leaves unitsize hint w

  clients_in-Leaves :
      (worker_count client_cap : ℕ) (values : ℕ → Client) (thread_count : ℕ) (e : Option Epoll)
      → Leaves {S = S} (Lifecycle.construct_in os worker_count client_cap values thread_count e)
  unfolding Lifecycle.construct_in
  clients_in-Leaves worker_count client_cap values thread_count none w = refl
  clients_in-Leaves worker_count client_cap values thread_count (some e) w = ground (
    arith,
    stack-Leaves no_client values node_size client_cap w,
    destruct-Leaves e
        (Stack.create (map_alloc os node_size) no_client (Stack.empty values) client_cap w).1,
  )

  clients-Leaves :
      (worker_count client_cap : ℕ) (values : ℕ → Client) (thread_count : ℕ)
      → Leaves {S = S} (Lifecycle.construct os worker_count client_cap values thread_count)
  unfolding Lifecycle.construct
  clients-Leaves worker_count client_cap values thread_count w =
      clients_in-Leaves worker_count client_cap values thread_count
        (Epoll.construct os default_max_events w).0 (Epoll.construct os default_max_events w).1
      ∙ epoll-Leaves default_max_events w

  with_clients-Leaves :
      (thread_count : ℕ) (e : Epoll) (p : Built ClientPool)
      → Leaves {S = S} (Server.with_clients os thread_count e p)
  unfolding Server.with_clients
  with_clients-Leaves thread_count e (built p) w = refl
  with_clients-Leaves thread_count e runtime_error w = destruct-Leaves e w
  with_clients-Leaves thread_count e bad_alloc w = destruct-Leaves e w

  server_in-Leaves :
      (worker_count client_cap : ℕ) (values : ℕ → Client) (client_threads thread_count : ℕ)
      (e : Option Epoll)
      → Leaves {S = S}
          (Server.construct_in os worker_count client_cap values client_threads thread_count e)
  unfolding Server.construct_in
  server_in-Leaves worker_count client_cap values client_threads thread_count none w = refl
  server_in-Leaves worker_count client_cap values client_threads thread_count (some e) w =
      let made = Lifecycle.construct os worker_count client_cap values client_threads w in
      with_clients-Leaves thread_count e made.0 made.1
      ∙ clients-Leaves worker_count client_cap values client_threads w

  server-Leaves :
      (worker_count client_cap : ℕ) (values : ℕ → Client) (client_threads thread_count : ℕ)
      → Leaves {S = S}
          (Server.construct os worker_count client_cap values client_threads thread_count)
  unfolding Server.construct
  server-Leaves worker_count client_cap values client_threads thread_count w =
      let made = Epoll.construct os default_max_events w in
      server_in-Leaves worker_count client_cap values client_threads thread_count made.0 made.1
      ∙ epoll-Leaves default_max_events w

  print_error-Leaves : (port : ℤ) → Leaves {S = S} (print_server_socket_error os port)
  unfolding print_server_socket_error
  print_error-Leaves port w = refl

  add_socket-Leaves : (svfd : ℤ) (s : Built ServerPool) → Leaves {S = S} (add_socket os svfd s)
  unfolding add_socket
  add_socket-Leaves svfd (built s) w = ground arith
  add_socket-Leaves svfd runtime_error w = refl
  add_socket-Leaves svfd bad_alloc w = refl

  init_server-Leaves :
      (g : Garbage) (port worker_count max_clients : ℤ)
      → Leaves {S = S} (init_server os g port worker_count max_clients)
  unfolding init_server
  init_server-Leaves g port worker_count max_clients w =
      let (svfd, w_1) = endpoint_tcp_server os port backlog w in
      let (unblocked, w_2) = endpoint_unblock os svfd w_1 in
      let (s, w_3) =
        Server.construct os (to_size worker_count) (to_size max_clients) g.values g.client_threads
          g.thread_count w_2 in
      ground (
        arith,
        tcp_server-Leaves port backlog w,
        print_error-Leaves port w_1,
        print_error-Leaves port w_2,
        unblock-Leaves svfd w_1,
        server-Leaves (to_size worker_count) (to_size max_clients) g.values g.client_threads
            g.thread_count w_2,
        add_socket-Leaves svfd s w_3,
      )

module _ (os : Os) where
  keep_server-svfd : (i : Init) (w : World EchoWorker) → (keep_server os i w).1.st.svfd ≡ w.st.svfd
  unfolding keep_server
  keep_server-svfd escapes w = refl
  keep_server-svfd null w = refl
  keep_server-svfd (server s) w = refl

  create_with-svfd :
      (g : Garbage) (port worker_count max_clients : ℤ) (sv : Option ServerPool)
      (w : World EchoWorker)
      → (create_with os g port worker_count max_clients sv w).1.st.svfd ≡ w.st.svfd
  unfolding create_with
  create_with-svfd g port worker_count max_clients (some s) w = refl
  create_with-svfd g port worker_count max_clients none w =
      let (i, w') = init_server os g port worker_count max_clients w in
      keep_server-svfd i w'
      ∙ ap (λ e. e.svfd) (init_server-Leaves os g port worker_count max_clients w)

  -- On no path does `create` store the descriptor of the socket that it listens on: the member
  -- that the destructor closes keeps what it held, of a new object what stood in its memory.
  pub create-svfd :
      (g : Garbage) (port worker_count max_clients : ℤ) (w : World EchoWorker)
      → (create os g port worker_count max_clients w).1.st.svfd ≡ w.st.svfd
  unfolding create
  create-svfd g port worker_count max_clients w =
      create_with-svfd g port worker_count max_clients w.st.sv w
