-- ===== src/LoadMain.antt =====
-- test-client/main.cpp: the command line of the load generator. The options arrive as `getopt_long`
-- reports them, each with its argument as a list of characters; what the program writes to the
-- console goes to the history.
pub mod Ready
pub mod Running
pub mod Fitting
pub mod Twice
pub mod Tests
use epoll_server.Base.{
  ℕ, ◌+◌, ◌-◌, ◌*◌, ◌%◌, ◌^◌, Bool, false, ◌&&◌, Option, none, some, List, [], ◌∷◌, ◌++◌, ◌==◌, leb,
  length, if◌then◌else◌,
}
use epoll_server.Base.Int.{ℤ, pos, is_zero, ◌==ℤ◌}
use epoll_server.Os.{Os, M, pure, ◌>>=◌, ◌>>◌, when◌then◌else◌}
use epoll_server.Text.{text, atoi, to_string, zeros, c_string, copy_in}
use epoll_server.Args.{Result, returns, goes_on, fails, set_count, set_port, set_ctrl, print}
use epoll_server.Work.{Garbage}
use epoll_server.LoadPages.{Control}
use epoll_server.LoadRun
use epoll_server.LoadRun.{Http, run_program}

-- A reported option; `bad` is any other result of `getopt_long` but the end.
pub data Arg : Type 0 where
  help : Arg
  message : (value : List ℕ) → Arg
  client_count : (value : List ℕ) → Arg
  ip : (value : List ℕ) → Arg
  port : (value : List ℕ) → Arg
  ctrl : (value : List ℕ) → Arg
  bad : Arg

pub record Options : Type 0 where
  pub message_text : List ℕ
  pub worker_count : ℤ
  pub remote_port : ℤ
  pub ip_addr : List ℕ
  pub ctrl_panel_port : ℤ

abbrev pub defaults : Options
defaults = record {
  message_text = text "Hello World";
  worker_count = pos 1;
  remote_port = pos 0;
  ip_addr = zeros 256;
  ctrl_panel_port = pos 8081;
}

unfoldable pub usage : (app : List ℕ) → List ℕ
usage app =
    text "Usage: "
    ++ app
    ++ text " [-nPpimh]\n"
    ++ text "  [-h, --help]\n"
    ++ text
        "  [-P, --ctrl=<local port to access the control panel / web interface>] (default: 8081)\n\n"
    ++ text "  [-n, --client-count=<number of clients>] (default: 8081)\n"
    ++ text "  [-p, --port=<remote server port>]\n"
    ++ text "  [-i, --ip=<remote server address>]\n"
    ++ text "  [-m, --message=<message to send to server>] (default: 'Hello World')\n"

unfoldable pub set_ip : List ℕ → Result Options → Result Options
set_ip value next =
    if leb (length value) 256
    then next
    else fails (text "Invalid IP address specified: " ++ value ++ text "\n")

-- The loop over the options.
unfoldable pub parse : (app : List ℕ) → List Arg → Options → Result Options
unfolding set_count set_ip set_port set_ctrl usage
parse app [] o = goes_on o
parse app (help ∷ args) o = returns 0 false (usage app)
parse app (bad ∷ args) o = returns 0 false (usage app)
parse app (message value ∷ args) o = parse app args (record o { message_text = value })
parse app (client_count value ∷ args) o =
    set_count value (parse app args (record o { worker_count = atoi value }))
parse app (ip value ∷ args) o =
    set_ip value (parse app args (record o { ip_addr = copy_in value o.ip_addr }))
parse app (port value ∷ args) o =
    set_port value (parse app args (record o { remote_port = atoi value }))
parse app (ctrl value ∷ args) o =
    set_ctrl value (parse app args (record o { ctrl_panel_port = atoi value }))

abbrev pub fill_in_port : Options → Options
fill_in_port o = record o {
  remote_port = if is_zero o.remote_port then pos 8090 else o.remote_port;
}

-- An address that is the empty text, with zeros behind.
unfoldable pub has_no_ip : Options → Bool
has_no_ip o = length (c_string o.ip_addr) == 0

unfoldable pub fill_in_ip : Options → Options
unfolding has_no_ip
fill_in_ip o = record o {
  ip_addr = if has_no_ip o then copy_in (text "127.0.0.1") o.ip_addr else o.ip_addr;
}

unfoldable pub port_notice : List ℕ
port_notice =
    text "> Remote host port not specified; use --port=<port #> next time\n\n"
    ++ text "* * * * * * * * * * * defaulting to "
    ++ to_string (pos 8090)
    ++ text "\n\n\n"

unfoldable pub ip_notice : Options → List ℕ
ip_notice o =
    text "> Remote host iP address not specified; use --ip=<ip address> next time\n\n"
    ++ text "* * * * * * * * * * * defaulting to "
    ++ c_string o.ip_addr
    ++ text "\n\n\n"

unfoldable pub launch_notice : (worker_count : ℤ) → List ℕ
launch_notice worker_count =
    if worker_count ==ℤ pos 1
    then text "> " ++ to_string worker_count ++ text " client is ready to launch\n\n\n"
    else text "> " ++ to_string worker_count ++ text " clients are ready to launch\n\n\n"

-- The end of `main`; `none` where `run` runs over a buffer.
unfoldable pub exit_code : Option (List (List ℕ)) → Option ℕ
exit_code none = none
exit_code (some pages) = some 0

module _ (os : Os) where
  -- The lines between the options and `run`.
  unfoldable pub fill_in : Options → M Control Options
  unfolding fill_in_ip port_notice ip_notice launch_notice
  fill_in o = do
    when is_zero o.remote_port then print os false port_notice else pure tt
    when has_no_ip o then print os false (ip_notice (fill_in_ip o)) else pure tt
    print os false (launch_notice o.worker_count)
    pure (fill_in_ip (fill_in_port o))

  module _ (g : Garbage) (http : Http) where
    unfoldable pub launch : Options → M Control (Option ℕ)
    unfolding exit_code
    launch o = do
      pages ←
          run_program os g http (some o.ip_addr) o.remote_port o.worker_count o.message_text
            o.ctrl_panel_port
      pure (exit_code pages)

    unfoldable pub after_parse : Result Options → M Control (Option ℕ)
    unfolding fill_in launch
    after_parse (returns code error printed) = do print os error printed; pure (some code)
    after_parse (goes_on o) = do filled ← fill_in o; launch filled

    -- `main`: the exit code.
    unfoldable pub main : (app : List ℕ) → List Arg → M Control (Option ℕ)
    unfolding parse after_parse
    main app args = after_parse (parse app args defaults)
