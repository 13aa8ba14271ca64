-- ===== src/LoadRun/Given.antt =====
-- The control of test-client/run.cpp keeps the address and the port that `run` was given.
use epoll_server.Base.{
  ℕ, zero, suc, ◌≡◌, refl, ap, ◌∙◌, Bool, inl, inr, true, false, Option, none, some, List, [], ◌∷◌,
  Bool-cases,
}
use epoll_server.Base.Int.{ℤ, pos, is_zero}
use epoll_server.Os.{Os, Call, World, M}
use epoll_server.Text.{c_string}
use epoll_server.Work.{Work, Garbage, construct}
use epoll_server.LoadPages.{Control}
use epoll_server.Panel.{then_more, after_listen}
use epoll_server.LoadRun.{
  Event, index_asked, start_asked, stop_asked, message_sent, message_received, Page, is_empty,
  stop_all, load_step, load_loop, load_workers, join_all, get_index, keep_loaded, get_start,
  start_workers, stop_and_join, get_stop, handle, handle_all, Http, run,
}

-- The address and the port of a control.
abbrev pub IsGiven : (ip_addr : List ℕ) → (port : ℤ) → Control → Type 0
IsGiven ip_addr port c = (c.ip_addr ≡ ip_addr) × (c.remote_port ≡ port)

module _ (os : Os) (g : Garbage) (ip_addr : List ℕ) (port : ℤ) (message : List ℕ) (n : ℕ) where
  -- The loop that loads workers does not touch the control.
  load_step_st :
      (loaded : List Work) (o : Option Work) (again : List Work → M Control (Option (List Work)))
      (w : World Control)
      → ((more : List Work) (w' : World Control) → (again more w').1.st ≡ w'.st)
      → (load_step os g loaded o again w).1.st ≡ w.st
  unfolding load_step
  load_step_st loaded none again w next = refl
  load_step_st loaded (some v) again w next =
      elim (Bool-cases (is_zero (os.reply w.trace Call.thread_create).ret)) [
        | inr e ↦ rw e refl
        | inl e ↦ rw e (next _ _)
      ]

  load_loop_st :
      (text : List ℕ) (to : ℤ) (left i : ℕ) (loaded : List Work) (w : World Control)
      → (load_loop os g text to message left i loaded w).1.st ≡ w.st
  unfolding load_loop
  load_loop_st text to zero i loaded w = refl
  load_loop_st text to (suc left) i loaded w =
      load_step_st loaded (construct g text to message (pos i)) _ w
        (load_loop_st text to left (suc i))

  keep_loaded-IsGiven :
      (r : Option (List Work) × World Control)
      → IsGiven ip_addr port r.1.st
      → IsGiven ip_addr port (keep_loaded r.0 r.1).1.st
  unfolding keep_loaded
  keep_loaded-IsGiven (none, w) given = given
  keep_loaded-IsGiven (some ws, w) given = given

  join_all_st : (ws : List Work) (w : World Control) → (join_all os ws w).1.st ≡ w.st
  unfolding join_all
  join_all_st [] w = refl
  join_all_st (x ∷ ws) w = join_all_st ws _

  handle-IsGiven :
      (e : Event) (w : World Control)
      → IsGiven ip_addr port w.st
      → IsGiven ip_addr port (handle os g (pos n) message e w).1.st
  unfolding handle get_index get_start start_workers load_workers get_stop stop_and_join
  handle-IsGiven index_asked w given = elim (Bool-cases (is_empty w.st.workers)) [
    | inl e ↦ rw e given
    | inr e ↦ rw e given
  ]
  handle-IsGiven start_asked w given =
      let same = load_loop_st (c_string w.st.ip_addr) w.st.remote_port n 0 [] w in
      elim (Bool-cases (is_empty w.st.workers)) [
        | inl e ↦ rw e (
            keep_loaded-IsGiven _
              (ap (λ c. c.ip_addr) same ∙ given.0, ap (λ c. c.remote_port) same ∙ given.1))
        | inr e ↦ rw e given
      ]
  handle-IsGiven stop_asked w given = elim (Bool-cases (is_empty w.st.workers)) [
    | inl e ↦ rw e given
    | inr e ↦
        let same = join_all_st (stop_all w.st.workers) _ in
        rw e (ap (λ c. c.ip_addr) same ∙ given.0, ap (λ c. c.remote_port) same ∙ given.1)
  ]
  handle-IsGiven (message_sent i) w given = given
  handle-IsGiven (message_received i bytes) w given = given

  then_more-IsGiven :
      (more : M Control (Option (List (List ℕ))))
      → ((w : World Control) → IsGiven ip_addr port w.st → IsGiven ip_addr port (more w).1.st)
      → (r : Page × World Control) → IsGiven ip_addr port r.1.st
      → IsGiven ip_addr port (then_more r.0 more r.1).1.st
  unfolding then_more
  then_more-IsGiven more next (none, w) given = given
  then_more-IsGiven more next (some p, w) given = next w given

  handle_all-IsGiven :
      (es : List Event) (w : World Control)
      → IsGiven ip_addr port w.st
      → IsGiven ip_addr port (handle_all os g (pos n) message es w).1.st
  unfolding handle_all
  handle_all-IsGiven [] w given = given
  handle_all-IsGiven (e ∷ es) w given =
      then_more-IsGiven (handle_all os g (pos n) message es) (handle_all-IsGiven es) _
        (handle-IsGiven e w given)

  after_listen_st :
      (ctrl_panel_port : ℤ) (ok : Bool) (o : Option (List (List ℕ))) (w : World Control)
      → (after_listen os ctrl_panel_port ok o w).1.st ≡ w.st
  unfolding after_listen
  after_listen_st ctrl_panel_port ok none w = refl
  after_listen_st ctrl_panel_port true (some ps) w = refl
  after_listen_st ctrl_panel_port false (some ps) w = refl

  pub run-IsGiven :
      (http : Http) (ctrl_panel_port : ℤ) (w : World Control)
      → IsGiven ip_addr port w.st
      → IsGiven ip_addr port (run os g http (pos n) message ctrl_panel_port w).1.st
  unfolding run
  run-IsGiven http ctrl_panel_port w given =
      let later = handle_all-IsGiven (http ctrl_panel_port).0 _ given in
      let same = after_listen_st ctrl_panel_port (http ctrl_panel_port).1 _ _ in
      (ap (λ c. c.ip_addr) same ∙ later.0, ap (λ c. c.remote_port) same ∙ later.1)
