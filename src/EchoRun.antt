-- ===== src/EchoRun.antt =====
-- test/run.cpp: the control pages of the echo server. The HTTP server is a parameter; its handlers
-- run one at a time, and between two of them the server's thread may run.
pub mod Phases
pub mod Tests
use epoll_server.Base.{ℕ, Bool, false, not, Option, none, some, List, [], ◌∷◌, ◌++◌, if◌then◌else◌}
use epoll_server.Base.Int.{ℤ, pos}
use epoll_server.Os.{Os, Call, M, pure, ◌>>=◌, ◌>>◌, get, modify, when◌then◌else◌, sys}
use epoll_server.Panel.{then_more, after_listen}
use epoll_server.Text.{text, to_string}
use epoll_server.Server.{Server}
use epoll_server.Echo
use epoll_server.Echo.{EchoWorker, is_running, get_active_client_count}

-- What a stop of the worker object depends on, as the arguments of `Echo.stop`.
pub record Stopping : Type 0 where
  pub finish : M Server (Unit {0})
  pub fuel : ℕ
  pub rest : List (ℕ × ℕ)
  pub last_count : ℕ
  pub ended : Bool

-- What happens while the HTTP server listens: a request, or the server's thread runs, if there is
-- one, and leaves the server in this state.
pub data Event : Type 0 where
  index_asked : Event
  start_asked : Event
  stop_asked : Stopping → Event
  thread_ran : Server → Event

abbrev page_head : List ℕ
page_head =
    text "<html><body>"
    ++ text "<head><style>body { font-family:monospace; font-size: 12px; }</style></head>"

abbrev page_end : List ℕ
page_end = text "</body></html>"

abbrev index_head : List ℕ
index_head =
    text "<html>"
    ++ text "<head><style>body { font-family:monospace; font-size: 12px; }</style></head>"
    ++ text "<body>"
    ++ text "<div>[<a href=\"/set/start\">START</a>]   [<a href=\"/set/stop\">STOP</a>]</div>"
    ++ text "<hr style='border: none; border-top: dashed black 1px' />"

-- What the index page shows of a server that runs.
unfoldable pub running_lines : (server_port : ℤ) → (clients : ℕ) → List ℕ
running_lines server_port clients =
    text "<div>Server running (port: "
    ++ to_string server_port
    ++ text ")"
    ++ text "</div>"
    ++ text "<hr style='border: none; border-top: dashed black 1px' />"
    ++ text "<div>Connected clients: "
    ++ to_string (pos clients)
    ++ text "</div>"

module _ (server_port : ℤ) where
  -- The page of `/`.
  unfoldable pub index_page : EchoWorker → List ℕ
  unfolding running_lines
  index_page e =
      index_head
      ++ (if not (is_running e)
          then text "<div>There is no running server instance</div>"
          else running_lines server_port (get_active_client_count e))
      ++ page_end

  -- The page of `/set/start`, by the result of the worker object's `run`.
  unfoldable pub start_page : Bool → List ℕ
  start_page started =
      page_head
      ++ (if started
          then text "<div>Server started on port " ++ to_string server_port ++ text "</div>"
          else text "<div>Server already started (port "
            ++ to_string server_port
            ++ text ")"
            ++ text "</div>")
      ++ page_end

  -- The page of `/set/stop`, by the result of `stop`.
  unfoldable pub stop_page : Bool → List ℕ
  stop_page stopped =
      page_head
      ++ (if stopped
          then text "<div>Server stopped (former port: " ++ to_string server_port ++ text ")</div>"
          else text "<div>Server already stopped</div>")
      ++ page_end

  unfoldable pub stopped_page : Option Bool → Option (List ℕ)
  unfolding stop_page
  stopped_page none = none
  stopped_page (some stopped) = some (stop_page stopped)

abbrev pub run_thread : Server → EchoWorker → EchoWorker
run_thread s e = if e.work then record e { sv = some s } else e

-- `http.listen`: the events while it listens, and what it returns.
abbrev pub Http : Type 0
Http = (ctrl_panel_port : ℤ) → List Event × Bool

module _ (os : Os) (server_port : ℤ) where
  -- One event: the page of a request, empty where it is none; `none` where a stop never returns.
  unfoldable pub handle : Event → M EchoWorker (Option (List ℕ))
  unfolding index_page start_page stopped_page
  handle index_asked = do e ← get; pure (some (index_page server_port e))
  handle start_asked = do started ← Echo.run; pure (some (start_page server_port started))
  handle (stop_asked s) = do
    stopped ← Echo.stop os s.finish s.fuel s.rest s.last_count s.ended
    pure (stopped_page server_port stopped)
  handle (thread_ran s) = do modify (run_thread s); pure (some [])

  unfoldable pub handle_all : List Event → M EchoWorker (Option (List (List ℕ)))
  unfolding handle then_more
  handle_all [] = pure (some [])
  handle_all (e ∷ es) = do p ← handle e; then_more p (handle_all es)

  -- `run`: the pages, or `none` where a stop never returns.
  unfoldable pub run : Http → (ctrl_panel_port : ℤ) → M EchoWorker (Option (List (List ℕ)))
  unfolding handle_all text to_string
  run http ctrl_panel_port = do
    _ ← sys os (
        Call.print false (
          text "> The control panel can be accessed through local port "
          ++ to_string ctrl_panel_port
          ++ text "\n\n\n"))
    ps ← handle_all (http ctrl_panel_port).0
    after_listen os ctrl_panel_port (http ctrl_panel_port).1 ps
