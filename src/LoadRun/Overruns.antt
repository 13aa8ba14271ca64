-- ===== src/LoadRun/Overruns.antt =====
-- Which requests make the load generator of test-client/run.cpp run over a buffer.
use epoll_server.Base.{
  ℕ, suc, ◌≡◌, refl, ap, ◌∙◌, inl, inr, Bool, true, false, not, ◌&&◌, ◌||◌, Option, none, some,
  List, [], ◌∷◌, arith, leb, length, if◌then◌else◌, Bool-cases,
}
use epoll_server.Base.Int.{ℤ, pos}
use epoll_server.Os.{Os, World, M}
use epoll_server.Text.{c_string, copy_in, zeros}
use epoll_server.Work.{Garbage, construct}
use epoll_server.LoadPages.{Control}
use epoll_server.Panel.{keep_page, then_more}
use epoll_server.LoadRun.{
  Event, index_asked, start_asked, stop_asked, message_sent, message_received, change_at, load_step,
  load_loop, load_workers, get_index, keep_loaded, get_start, start_workers, get_stop, handle,
  handle_all, copy_address, Http, run,
}
use epoll_server.LoadRun.Running.{at_start}
use epoll_server.LoadRun.Served.{page_count, after_listen_result, run-Fits}

-- Whether a request to start the workers is among the events.
abbrev pub asks_start : List Event → Bool
asks_start [] = false
asks_start (start_asked ∷ es) = true
asks_start (_ ∷ es) = asks_start es

-- Whether the texts fit the arrays of a worker, of 16 and 129 characters, the address up to its
-- terminator and as far as an array of 256 characters holds it.
abbrev pub texts_fit : (ip_addr message : List ℕ) → Bool
texts_fit ip_addr message =
    leb (length (c_string (copy_in ip_addr (zeros 256)))) 16 && leb (length message) 129

-- No worker is there, and the address is as given.
abbrev IsIdle : List ℕ → World Control → Type 0
IsIdle ip_addr w = (w.st.workers ≡ []) × (w.st.ip_addr ≡ copy_in ip_addr (zeros 256))

-- The pages of events that are all served, or none where a start is among them.
abbrev expected : List Event → Option ℕ
expected es = if asks_start es then none else some (length es)

one_more : Option ℕ → Option ℕ
one_more none = none
one_more (some n) = some (suc n)

page_count-keep_page :
    (p : List ℕ) (o : Option (List (List ℕ))) → page_count (keep_page p o) ≡ one_more (page_count o)
unfolding one_more
page_count-keep_page p none = refl
page_count-keep_page p (some ps) = refl

one_more-expected :
    (es : List Event)
    → one_more (expected es) ≡ (if asks_start es then none else some (suc (length es)))
unfolding one_more
one_more-expected es = elim (Bool-cases (asks_start es)) [ inl e ↦ rw e refl | inr e ↦ rw e refl ]

module _ (os : Os) (g : Garbage) (ip_addr message : List ℕ) (n : ℕ)
    (long : texts_fit ip_addr message ≡ false) where
  -- A request to start, where no worker is there.
  start_overruns :
      (w : World Control)
      → IsIdle ip_addr w
      → (handle os g (pos (suc n)) message start_asked w).0 ≡ none
  unfolding handle get_start start_workers load_workers load_loop load_step construct keep_loaded
  start_overruns w (idle, same) = rw (idle, same, long) refl

  -- Behind an event that has a page and leaves no worker.
  then_more-expected :
      (es : List Event) (more : M Control (Option (List (List ℕ))))
      → ((w : World Control) → IsIdle ip_addr w → page_count (more w).0 ≡ expected es)
      → (p : List ℕ) (w : World Control) → IsIdle ip_addr w
      → page_count (then_more (some p) more w).0
        ≡ (if asks_start es then none else some (suc (length es)))
  unfolding then_more
  then_more-expected es more next p w idle =
      page_count-keep_page p (more w).0 ∙ ap one_more (next w idle) ∙ one_more-expected es

  handle_all-expected :
      (es : List Event) (w : World Control)
      → IsIdle ip_addr w
      → page_count (handle_all os g (pos (suc n)) message es w).0 ≡ expected es
  unfolding handle_all handle get_index get_stop then_more change_at
  handle_all-expected [] w idle = refl
  handle_all-expected (index_asked ∷ es) w idle = rw idle.0 (
      then_more-expected es (handle_all os g (pos (suc n)) message es) (handle_all-expected es) _ _
        (refl, idle.1))
  handle_all-expected (start_asked ∷ es) w idle = rw (start_overruns w idle) refl
  handle_all-expected (stop_asked ∷ es) w idle = rw idle.0 (
      then_more-expected es (handle_all os g (pos (suc n)) message es) (handle_all-expected es) _ _
        (refl, idle.1))
  handle_all-expected (message_sent i ∷ es) w idle =
      then_more-expected es (handle_all os g (pos (suc n)) message es) (handle_all-expected es) [] _
        (ap (change_at _ i) idle.0, idle.1)
  handle_all-expected (message_received i bytes ∷ es) w idle =
      then_more-expected es (handle_all os g (pos (suc n)) message es) (handle_all-expected es) [] _
        (ap (change_at _ i) idle.0, idle.1)

-- With at least one worker to start, whatever the events are and whichever threads can be created:
-- `run` returns with an answer for each event where the address and the message fit a worker's
-- arrays, or where no request to start is among the events; otherwise it runs over an array.
pub run_overruns :
    (os : Os) (g : Garbage) (http : Http) (n : ℕ) (message ip_addr : List ℕ)
    (port ctrl_panel_port : ℤ)
    → let es = (http ctrl_panel_port).0 in
      page_count (run os g http (pos (suc n)) message ctrl_panel_port (at_start ip_addr port)).0
      ≡ (if texts_fit ip_addr message || not (asks_start es) then some (length es) else none)
unfolding run copy_address
run_overruns os g http n message ip_addr port ctrl_panel_port =
    elim (Bool-cases (texts_fit ip_addr message)) [
      | inl short ↦
          rw short (
            run-Fits os g http (suc n) message ip_addr port ctrl_panel_port (ground (arith, short)))
      | inr long ↦
          let es = (http ctrl_panel_port).0 in
          rw long (
            ap page_count (after_listen_result os ctrl_panel_port (http ctrl_panel_port).1 _ _)
            ∙ handle_all-expected os g ip_addr message n long es _ (refl, refl)
            ∙ elim (Bool-cases (asks_start es)) [ inl e ↦ rw e refl | inr e ↦ rw e refl ])
    ]
