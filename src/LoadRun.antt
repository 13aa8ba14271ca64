-- ===== src/LoadRun.antt =====
-- test-client/run.cpp and run.hpp: the workers of the load generator, and the control pages that
-- start and stop them. The HTTP server is a parameter; its handlers run one at a time, and
-- between two of them the workers' threads may write to their logs.
pub mod Workers
pub mod Loading
pub mod Threads
pub mod Given
pub mod Running
pub mod Served
pub mod Overruns
pub mod Stopping
pub mod Race
pub mod RaceTests
pub mod Tests
use epoll_server.Base.{
  ℕ, zero, suc, ◌+◌, Bool, true, false, not, Option, none, some, List, [], ◌∷◌, ◌++◌, ◌==◌, length,
  if◌then◌else◌,
}
use epoll_server.Base.Int.{ℤ, pos, negsuc, is_zero}
use epoll_server.Os.{Os, Call, M, pure, ◌>>=◌, ◌>>◌, get, modify, when◌then◌else◌, sys}
use epoll_server.Panel.{then_more, after_listen}
use epoll_server.Text.{text, to_string, zeros, c_string, copy_in}
use epoll_server.LoadPages.{
  Control, page_without_workers, page_with_workers, already_started, started, none_active, stopped,
}
use epoll_server.Work
use epoll_server.Work.{
  Work, Garbage, construct, max_buf_len, log_message_sent, log_message_received,
}

-- The page of a request; `none` where the program runs over a buffer or a counter.
abbrev pub Page : Type 0
Page = Option (List ℕ)

-- What happens while the HTTP server listens: a request, or a worker's thread that logs a message
-- it sent or the bytes it received.
pub data Event : Type 0 where
  index_asked : Event
  start_asked : Event
  stop_asked : Event
  message_sent : (at : ℕ) → Event
  message_received : (at : ℕ) (bytes : List ℕ) → Event

-- A change of the worker that stands at a place.
unfoldable pub change_at : (Work → Work) → ℕ → List Work → List Work
change_at f i [] = []
change_at f zero (w ∷ ws) = f w ∷ ws
change_at f (suc i) (w ∷ ws) = w ∷ change_at f i ws

-- `stop` for each worker.
unfoldable pub stop_all : List Work → List Work
stop_all [] = []
stop_all (w ∷ ws) = Work.stop w ∷ stop_all ws

abbrev pub is_empty : {A : Type 0} → List A → Bool
is_empty [] = true
is_empty (x ∷ xs) = false

abbrev pub is_some : {A : Type 0} → Option A → Bool
is_some none = false
is_some (some a) = true

abbrev pub log_at : (Work → Work) → ℕ → Control → Control
log_at f i c = record c { workers = change_at f i c.workers }

-- The array of `run`, from a pointer that may be null.
unfoldable pub copy_address : Option (List ℕ) → List ℕ
copy_address none = zeros 256
copy_address (some default_ip_addr) = copy_in default_ip_addr (zeros 256)

abbrev pub run_state : (default_ip_addr : Option (List ℕ)) → (default_remote_port : ℤ) → Control
run_state default_ip_addr default_remote_port = record {
  ip_addr = copy_address default_ip_addr;
  remote_port = default_remote_port;
  workers = [];
}

unfoldable pub get_index : (message : List ℕ) → M Control Page
get_index message c =
    if is_empty c.st.workers
    then (some page_without_workers, c)
    else (some (page_with_workers message c.st), c)

unfoldable pub keep_loaded : Option (List Work) → M Control Page
keep_loaded none = pure none
keep_loaded (some ws) = do
  modify (λ c. record c { workers = ws })
  pure (some (started (length ws)))

-- `http.listen`: the events while it listens, and what it returns.
abbrev pub Http : Type 0
Http = (ctrl_panel_port : ℤ) → List Event × Bool

-- What is said of the control panel's port.
abbrev panel_notice : (ctrl_panel_port : ℤ) → List ℕ
panel_notice ctrl_panel_port =
    text "> The control panel can be access through local port "
    ++ to_string ctrl_panel_port
    ++ text "\n\n\n"

module _ (os : Os) where
  -- `pthread_join` for each worker.
  unfoldable pub join_all : List Work → M Control (Unit {0})
  join_all [] = pure tt
  join_all (w ∷ ws) = do _ ← sys os (Call.thread_join w.thread); join_all ws

  unfoldable pub stop_and_join : List Work → M Control Page
  unfolding join_all
  stop_and_join ws = do
    modify (λ c. record c { workers = ws })
    join_all ws
    modify (λ c. record c { workers = [] })
    pure (some (stopped (length ws)))

  unfoldable pub get_stop : M Control Page
  unfolding stop_and_join
  get_stop = do
    c ← get
    when is_empty c.workers then pure (some none_active) else stop_and_join (stop_all c.workers)

  module _ (g : Garbage) where
    unfoldable pub load_step :
        (loaded : List Work)
        → (w : Option Work) → (again : List Work → M Control (Option (List Work)))
        → M Control (Option (List Work))
    load_step loaded none again = pure none
    load_step loaded (some w) again = do
      r ← sys os Call.thread_create
      when not (is_zero r.ret)
          then pure (some loaded)
          else again (loaded ++ Work.start (record w { thread = r.value }) ∷ [])

    -- The loop of `load_workers`, with `left` rounds to go.
    unfoldable pub load_loop :
        (ip_addr : List ℕ)
        → (port : ℤ) → (message : List ℕ) → (left i : ℕ) → (loaded : List Work)
        → M Control (Option (List Work))
    unfolding load_step
    load_loop ip_addr port message zero i loaded = pure (some loaded)
    load_loop ip_addr port message (suc left) i loaded =
        load_step loaded (construct g ip_addr port message (pos i))
          (load_loop ip_addr port message left (suc i))

    -- A negative count is not reached before the counter overflows.
    unfoldable pub load_workers :
        (ip_addr : List ℕ)
        → (port : ℤ) → (worker_count : ℤ) → (message : List ℕ) → M Control (Option (List Work))
    unfolding load_loop
    load_workers ip_addr port (pos n) message = load_loop ip_addr port message n 0 []
    load_workers ip_addr port (negsuc n) message = pure none

    module _ (worker_count : ℤ) (message : List ℕ) where
      -- `/set/start` behind its test.
      unfoldable pub start_workers : M Control Page
      unfolding load_workers keep_loaded
      start_workers = do
        c ← get
        ws ← load_workers (c_string c.ip_addr) c.remote_port worker_count message
        keep_loaded ws

      unfoldable pub get_start : M Control Page
      unfolding start_workers
      get_start = do
        c ← get
        when not (is_empty c.workers)
            then pure (some (already_started (length c.workers)))
            else start_workers

      -- One event: the page where it is a request, `some []` where it is none.
      unfoldable pub handle : Event → M Control Page
      unfolding get_index get_start get_stop change_at
      handle index_asked = get_index message
      handle start_asked = get_start
      handle stop_asked = get_stop
      handle (message_sent i) = do modify (log_at (log_message_sent max_buf_len) i); pure (some [])
      handle (message_received i bytes) = do
        modify (log_at (log_message_received bytes max_buf_len) i)
        pure (some [])

      -- The events in turn, with their pages.
      unfoldable pub handle_all : List Event → M Control (Option (List (List ℕ)))
      unfolding handle then_more
      handle_all [] = pure (some [])
      handle_all (e ∷ es) = do p ← handle e; then_more p (handle_all es)

    -- `run`, in the state that `run_state` makes of its first two arguments: the pages, or `none`
    -- where the program runs over a buffer or a counter.
    unfoldable pub run :
        Http
        → (worker_count : ℤ) → (message : List ℕ) → (ctrl_panel_port : ℤ)
        → M Control (Option (List (List ℕ)))
    unfolding handle_all after_listen
    run http worker_count message ctrl_panel_port = do
      _ ← sys os (Call.print false (panel_notice ctrl_panel_port))
      ps ← handle_all worker_count message (http ctrl_panel_port).0
      after_listen os ctrl_panel_port (http ctrl_panel_port).1 ps

-- The function that run.hpp declares, with the pages that it serves.
abbrev pub RunFunction : Type 0
RunFunction =
    (default_ip_addr : Option (List ℕ))
    → (default_remote_port : ℤ) → (worker_count : ℤ) → (message : List ℕ) → (ctrl_panel_port : ℤ)
    → M Control (Option (List (List ℕ)))

-- `run` with all its arguments.
abbrev pub run_program : Os → Garbage → Http → RunFunction
run_program os g http default_ip_addr default_remote_port worker_count message ctrl_panel_port = do
  modify (λ c. run_state default_ip_addr default_remote_port)
  run os g http worker_count message ctrl_panel_port
