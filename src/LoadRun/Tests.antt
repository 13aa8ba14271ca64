-- ===== src/LoadRun/Tests.antt =====
-- Tests of the control pages of the load generator (test-client/run.cpp).
use epoll_server.Base.{
  ℕ, ◌≡◌, ◌≢◌, refl, true, false, none, some, List, [], ◌∷◌, ◌++◌, arith, length, ltb,
  if◌then◌else◌, Option, ◌≤◌, Bool, not, ◌||◌,
}
use epoll_server.Base.Int.{pos}
use epoll_server.Os.{Os, Trace}
use epoll_server.Text.{text, zeros, copy_in, c_string}
use epoll_server.Work
use epoll_server.Work.{Garbage, Work, fresh, construct, max_buf_len, is_running}
use epoll_server.LoadPages.{add_rows}
use epoll_server.LoadPages.Rows.{rows, add_rows-rows}
use epoll_server.LoadRun.{
  Event, index_asked, start_asked, stop_asked, message_sent, Http, copy_address, run, handle,
  get_start, start_workers, load_workers, load_loop, load_step, keep_loaded, stop_and_join,
  join_all, stop_all, get_stop, handle_all,
}
use epoll_server.Load.{worker}
use epoll_server.LoadRun.Stopping.{work_at, stop_all-worker}
use epoll_server.LoadRun.Workers.{AreStarted}
use epoll_server.LoadRun.Loading.{created, joined}
use epoll_server.LoadRun.Threads.{Inv}
use epoll_server.LoadRun.Running.{at_start, run-Inv, get_stop-joined}
use epoll_server.LoadRun.Served.{Fits, page_count, handle_all_count, run-Fits}
use epoll_server.LoadRun.Overruns.{asks_start, texts_fit, run_overruns}

abbrev pub left_over : Garbage
left_over = record { run = false; thread = 0 }

-- Threads get the length of the history as their number; the third cannot be created.
abbrev pub system : Os
system = record {
  reply = λ t c. record {
    ret = if ltb 6 (length t) then pos 1 else pos 0;
    errno = 0;
    value = length t;
    pair = (pos 0, pos 0);
    bytes = [];
    events = [];
  };
  pagesize = 4;
}

abbrev some_events : List Event
some_events =
    start_asked ∷ message_sent 1 ∷ start_asked ∷ index_asked ∷ stop_asked ∷ start_asked ∷ []

abbrev serving : Http
serving port = (some_events, true)

abbrev pub address : List ℕ
address = copy_in (text "127.0.0.1") (zeros 256)

abbrev pub hello : List ℕ
hello = text "Hello World"

fits : Fits (copy_address (some address)) hello
unfolding text copy_address c_string copy_in zeros
fits = (omega arith, omega arith)

counted : (o : Option (List (List ℕ))) (n : ℕ) → page_count o ≡ some n → o ≢ none
counted none n h e = cc
counted (some ps) n h e = cc

run-Fits_test :
    page_count
      (run system left_over serving (pos 3) hello (pos 8081) (at_start address (pos 8090))).0
    ≡ some 6
run-Fits_test = run-Fits system left_over serving 3 hello address (pos 8090) (pos 8081) fits

run-Inv_example :
    let w =
      (run system left_over serving (pos 3) hello (pos 8081) (at_start address (pos 8090))).1 in
    Inv hello 3 w
    × AreStarted (c_string (copy_in address (zeros 256))) hello (pos 8090) 0 w.st.workers
run-Inv_example =
    run-Inv system left_over serving 3 hello address (pos 8090) (pos 8081)
      (counted _ 6 (run-Fits system left_over serving 3 hello address (pos 8090) (pos 8081) fits))

abbrev first_events : List Event
first_events = start_asked ∷ message_sent 1 ∷ index_asked ∷ []

first_served :
    (handle_all system left_over (pos 3) hello first_events (at_start address (pos 8090))).0 ≢ none
first_served = counted _ 3 (
    handle_all_count system left_over (copy_address (some address)) hello 3 first_events
      (at_start address (pos 8090)) fits refl)

get_stop-joined_test :
    let w =
      (get_stop system
        (handle_all system left_over
          (pos 3)
          hello
          first_events
          (at_start address (pos 8090))).1).1 in
    (w.st.workers ≡ []) × (joined w.trace ≡ created w.trace)
get_stop-joined_test =
    get_stop-joined system left_over 3 hello address (pos 8090) first_events first_served

-- A message of 130 characters.
abbrev long_message : List ℕ
long_message =
    text "aaaaaaaaaaaaaaaaaaaaaaaaaaaaaaaaaaaaaaaaaaaaaaaaaaaaaaaaaaaaaaaaa"
    ++ text "aaaaaaaaaaaaaaaaaaaaaaaaaaaaaaaaaaaaaaaaaaaaaaaaaaaaaaaaaaaaaaaaa"

abbrev long_events : Http
long_events port =
    (index_asked ∷ message_sent 1 ∷ stop_asked ∷ start_asked ∷ index_asked ∷ [], true)

run_overruns_example :
    page_count
      (run system left_over long_events
        (pos 1)
        long_message
        (pos 8081)
        (at_start address (pos 8090))).0
    ≡ (if texts_fit address long_message || not (asks_start (long_events (pos 8081)).0)
        then some 5
        else none)
run_overruns_example =
    run_overruns system left_over long_events 0 long_message address (pos 8090) (pos 8081)

-- Which is the second of these cases.
too_long : texts_fit address long_message ≡ false
unfolding text c_string copy_in zeros
too_long = refl

abbrev two_workers : List Work
two_workers =
    fresh left_over (text "127.0.0.1") (pos 8090) hello (pos 0)
    ∷ fresh left_over (text "127.0.0.1") (pos 8090) hello (pos 1)
    ∷ []

add_rows-rows_test : add_rows (text "<table>") two_workers ≡ text "<table>" ++ rows two_workers
add_rows-rows_test = add_rows-rows (text "<table>") two_workers

-- The threads after a start, a stop and a second start, of which the first made three.
two_starts :
    created
      (handle_all system left_over
        (pos 3)
        hello
        (start_asked ∷ stop_asked ∷ start_asked ∷ [])
        (at_start address (pos 8090))).1.trace
    ≡ 0 ∷ 1 ∷ 2 ∷ 6 ∷ []
unfolding handle_all handle get_start start_workers load_workers load_loop load_step construct text
    copy_address copy_in c_string zeros keep_loaded get_stop stop_and_join join_all stop_all
two_starts = refl

abbrev told_worker : Work
told_worker = record (fresh left_over (text "127.0.0.1") (pos 8090) hello (pos 1)) { run = false }

second_told : work_at 1 (stop_all two_workers) ≡ some told_worker
unfolding stop_all Work.stop
second_told = refl

-- A thread that reads the flag as it was before the ninth call.
abbrev late_reader : Trace → Bool
late_reader t = ltb (length t) 9

reads_flag : (t : Trace) → 9 ≤ length t → late_reader t ≡ is_running told_worker
unfolding is_running
reads_flag t late = ground arith

stop_all-worker_example :
    (worker system late_reader 10 10 (record { st = told_worker; trace = [] })).0 ≡ true
stop_all-worker_example =
    stop_all-worker system two_workers 1 told_worker late_reader 9
      (record { st = told_worker; trace = [] }) second_told reads_flag
