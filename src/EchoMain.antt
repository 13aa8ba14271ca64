-- ===== src/EchoMain.antt =====
-- test/main.cpp: the command line of the echo server. The options arrive as `getopt_long` reports
-- them, each with its argument as a list of characters; what the program writes to the console
-- goes to the history.
pub mod Ready
pub mod Tests
use epoll_server.Base.{
  ℕ, ◌+◌, ◌-◌, ◌*◌, ◌%◌, ◌^◌, Bool, true, false, ◌&&◌, Option, none, some, List, [], ◌∷◌, ◌++◌,
  if◌then◌else◌,
}
use epoll_server.Os.{Os, M, pure, ◌>>=◌, ◌>>◌, get, when◌then◌else◌}
use epoll_server.Text.{text, atoi, to_string}
use epoll_server.Args.{Result, returns, goes_on, set_count, set_port, set_ctrl, print}
use epoll_server.Echo
use epoll_server.EchoRun
use epoll_server.EchoRun.{Http}
use epoll_server.Echo.{EchoWorker, Garbage}
use epoll_server.Base.Int.{ℤ, pos, is_zero}

-- A reported option; `bad` is any other result of `getopt_long` but the end.
pub data Arg : Type 0 where
  help : Arg
  client_count : (value : List ℕ) → Arg
  port : (value : List ℕ) → Arg
  ctrl : (value : List ℕ) → Arg
  bad : Arg

pub record Options : Type 0 where
  pub max_clients : ℤ
  pub worker_count : ℤ
  pub server_port : ℤ
  pub ctrl_panel_port : ℤ

abbrev pub defaults : Options
defaults = record {
  max_clients = pos 100000;
  worker_count = pos 10;
  server_port = pos 0;
  ctrl_panel_port = pos 0;
}

unfoldable pub usage : (app : List ℕ) → List ℕ
usage app =
    text "Usage: "
    ++ app
    ++ text " [-nPph]\n"
    ++ text "  [-h, --help]\n"
    ++ text
        "  [-P, --ctrl=<local port to access the control panel / web interface>] (default: 8080)\n\n"
    ++ text "  [-n, --client-count=<maximum number of clients>] (default: 100,000)\n"
    ++ text "  [-p, --port=<server listen port>]\n"

-- The loop over the options.
unfoldable pub parse : (app : List ℕ) → List Arg → Options → Result Options
unfolding set_count set_port set_ctrl usage
parse app [] o = goes_on o
parse app (help ∷ args) o = returns 0 false (usage app)
parse app (bad ∷ args) o = returns 0 false (usage app)
parse app (client_count value ∷ args) o =
    set_count value (parse app args (record o { worker_count = atoi value }))
parse app (port value ∷ args) o =
    set_port value (parse app args (record o { server_port = atoi value }))
parse app (ctrl value ∷ args) o =
    set_ctrl value (parse app args (record o { ctrl_panel_port = atoi value }))

-- The lines between the options and the server, but for their messages.
unfoldable pub fill_in : Options → Options
fill_in o = record o {
  server_port = if is_zero o.server_port then pos 8090 else o.server_port;
  ctrl_panel_port = if is_zero o.ctrl_panel_port then pos 8080 else o.ctrl_panel_port;
}

abbrev port_notice : List ℕ
port_notice =
    text "> Server listen port not specified; use --port=<port #> next time\n\n"
    ++ text "* * * * * * * * * * * defaulting to "
    ++ to_string (pos 8090)
    ++ text "\n\n\n"

abbrev ctrl_notice : List ℕ
ctrl_notice =
    text "> Control panel port not specified; use --ctrl=<port #> next time\n\n"
    ++ text "* * * * * * * * * * * defaulting to "
    ++ to_string (pos 8080)
    ++ text "\n\n\n"

unfoldable pub listen_notice : Options → List ℕ
listen_notice o =
    text "> The server is listening on port "
    ++ to_string o.server_port
    ++ text "; maximum # of persistent connections = "
    ++ to_string o.max_clients
    ++ text "\n\n\n"

module _ (os : Os) (g : Garbage) (http : Http) where
  -- Behind the control pages; `none` where a stop never returned. The destruction of the worker
  -- object ends the program by `std::terminate` where it still has its thread.
  after_run : Option (List (List ℕ)) → M EchoWorker (Option ℕ)
  after_run none = pure none
  after_run (some pages) = do
    e ← get
    Echo.destruct os
    when e.work then pure none else pure (some 0)

  after_create : Options → Option Bool → M EchoWorker (Option ℕ)
  unfolding after_run
  after_create o none = pure none
  after_create o (some false) = do Echo.destruct os; pure (some 1)
  after_create o (some true) = do
    print os true (listen_notice o)
    pages ← EchoRun.run os o.server_port http o.ctrl_panel_port
    after_run pages

  serve : Options → M EchoWorker (Option ℕ)
  unfolding after_create
  serve o = do
    created ← Echo.create os g o.server_port o.worker_count o.max_clients
    after_create o created

  after_parse : Result Options → M EchoWorker (Option ℕ)
  unfolding fill_in serve
  after_parse (returns code error printed) = do print os error printed; pure (some code)
  after_parse (goes_on o) = do
    when is_zero o.server_port then print os true port_notice else pure tt
    when is_zero o.ctrl_panel_port then print os true ctrl_notice else pure tt
    serve (fill_in o)

  -- `main`, on a worker object whose members hold no server and no thread: the exit code, or `none`
  -- where an exception or `std::terminate` ends the program or a stop never returns.
  unfoldable pub main : (app : List ℕ) → List Arg → M EchoWorker (Option ℕ)
  unfolding parse after_parse
  main app args = after_parse (parse app args defaults)
