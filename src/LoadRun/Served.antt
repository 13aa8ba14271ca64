-- ===== src/LoadRun/Served.antt =====
-- When the control pages of test-client/run.cpp are all served.
use epoll_server.Base.{
  ℕ, zero, suc, ◌+◌, ◌≤◌, ◌≡◌, refl, ap, sym, subst, ◌∙◌, inl, inr, Bool, true, false, Option, none,
  some, List, [], ◌∷◌, arith, length, Bool-cases,
}
use epoll_server.Base.Int.{ℤ, pos, is_zero}
use epoll_server.Os.{Os, Call, World, M}
use epoll_server.Text.{c_string}
use epoll_server.Work.{Work, Garbage, construct, fresh, max_buf_len}
use epoll_server.LoadPages.{Control}
use epoll_server.Panel.{keep_page, then_more, after_listen}
use epoll_server.LoadRun.{
  Event, index_asked, start_asked, stop_asked, message_sent, message_received, Page, is_some,
  is_empty, stop_all, load_step, load_loop, load_workers, join_all, get_index, keep_loaded,
  get_start, start_workers, stop_and_join, get_stop, handle, handle_all, copy_address, Http, run,
}
use epoll_server.LoadRun.Running.{at_start}

-- The texts fit the arrays of a worker.
abbrev pub Fits : (ip_addr message : List ℕ) → Type 0
Fits ip_addr message = (length (c_string ip_addr) ≤ 16) × (length message ≤ max_buf_len + 1)

-- A result is there, and the control keeps its address.
abbrev Answers : {A : Type 0} → List ℕ → Option A × World Control → Type 0
Answers ip_addr r = (is_some r.0 ≡ true) × (r.1.st.ip_addr ≡ ip_addr)

construct_fits :
    (g : Garbage) (ip_addr message : List ℕ) (port index : ℤ)
    → length ip_addr ≤ 16
    → length message ≤ max_buf_len + 1
    → construct g ip_addr port message index ≡ some (fresh g ip_addr port message index)
unfolding construct
construct_fits g ip_addr message port index h k = ground (arith, h, k)

module _ (os : Os) (g : Garbage) (ip_addr message : List ℕ) (n : ℕ)
    (fits : Fits ip_addr message) where
  load_loop-Answers :
      (text : List ℕ) (port : ℤ) (left i : ℕ) (loaded : List Work) (w : World Control)
      → length text ≤ 16
      → w.st.ip_addr ≡ ip_addr
      → Answers ip_addr (load_loop os g text port message left i loaded w)
  unfolding load_loop load_step
  load_loop-Answers text port zero i loaded w short same = (refl, same)
  load_loop-Answers text port (suc left) i loaded w short same =
      rw (construct_fits g text message port (pos i) short fits.1)
        (elim (Bool-cases (is_zero (os.reply w.trace Call.thread_create).ret)) [
          | inr e ↦ rw e (refl, same)
          | inl e ↦ rw e (load_loop-Answers text port left (suc i) _ _ short same)
        ])

  keep_loaded-Answers :
      (r : Option (List Work) × World Control)
      → Answers ip_addr r
      → Answers ip_addr (keep_loaded r.0 r.1)
  unfolding keep_loaded
  keep_loaded-Answers (none, w) (h, same) = (h, same)
  keep_loaded-Answers (some ws, w) (h, same) = (refl, same)

  join_all_st : (ws : List Work) (w : World Control) → (join_all os ws w).1.st ≡ w.st
  unfolding join_all
  join_all_st [] w = refl
  join_all_st (x ∷ ws) w = join_all_st ws _

  handle-Answers :
      (e : Event) (w : World Control)
      → w.st.ip_addr ≡ ip_addr
      → Answers ip_addr (handle os g (pos n) message e w)
  unfolding handle get_index get_start start_workers load_workers get_stop stop_and_join
  handle-Answers index_asked w same = elim (Bool-cases (is_empty w.st.workers)) [
    | inl e ↦ rw e (refl, same)
    | inr e ↦ rw e (refl, same)
  ]
  handle-Answers start_asked w same =
      let short = subst (λ a. length (c_string a) ≤ 16) (sym same) fits.0 in
      elim (Bool-cases (is_empty w.st.workers)) [
        | inl e ↦ rw e (
            keep_loaded-Answers _
              (load_loop-Answers (c_string w.st.ip_addr) w.st.remote_port n 0 [] w short same))
        | inr e ↦ rw e (refl, same)
      ]
  handle-Answers stop_asked w same = elim (Bool-cases (is_empty w.st.workers)) [
    | inl e ↦ rw e (refl, same)
    | inr e ↦ rw e (refl, ap (λ c. c.ip_addr) (join_all_st (stop_all w.st.workers) _) ∙ same)
  ]
  handle-Answers (message_sent i) w same = (refl, same)
  handle-Answers (message_received i bytes) w same = (refl, same)

-- How many pages there are.
abbrev pub page_count : Option (List (List ℕ)) → Option ℕ
page_count none = none
page_count (some ps) = some (length ps)

pub keep_page_count :
    (p : List ℕ) (o : Option (List (List ℕ))) (n : ℕ)
    → page_count o ≡ some n
    → page_count (keep_page p o) ≡ some (suc n)
keep_page_count p none n h = absurd (cc)
keep_page_count p (some ps) n h = ap (λ o. next o) h
  where
    next : Option ℕ → Option ℕ
    next none = none
    next (some m) = some (suc m)

then_more_count :
    (ip_addr : List ℕ) (more : M Control (Option (List (List ℕ)))) (n : ℕ)
    → ((w : World Control) → w.st.ip_addr ≡ ip_addr → page_count (more w).0 ≡ some n)
    → (r : Page × World Control) → Answers ip_addr r
    → page_count (then_more r.0 more r.1).0 ≡ some (suc n)
unfolding then_more
then_more_count ip_addr more n next (none, w) h = absurd (cc)
then_more_count ip_addr more n next (some p, w) h = keep_page_count p (more w).0 n (next w h.1)

pub handle_all_count :
    (os : Os) (g : Garbage) (ip_addr message : List ℕ) (n : ℕ) (es : List Event) (w : World Control)
    → Fits ip_addr message
    → w.st.ip_addr ≡ ip_addr
    → page_count (handle_all os g (pos n) message es w).0 ≡ some (length es)
unfolding handle_all
handle_all_count os g ip_addr message n [] w fits same = refl
handle_all_count os g ip_addr message n (e ∷ es) w fits same =
    then_more_count ip_addr (handle_all os g (pos n) message es) (length es)
      (λ w'. handle_all_count os g ip_addr message n es w' fits) (handle os g (pos n) message e w)
      (handle-Answers os g ip_addr message n fits e w same)

pub after_listen_result :
    (os : Os) (ctrl_panel_port : ℤ) (ok : Bool) (o : Option (List (List ℕ))) (w : World Control)
    → (after_listen os ctrl_panel_port ok o w).0 ≡ o
unfolding after_listen
after_listen_result os ctrl_panel_port ok none w = refl
after_listen_result os ctrl_panel_port true (some ps) w = refl
after_listen_result os ctrl_panel_port false (some ps) w = refl

pub run_count :
    (os : Os) (g : Garbage) (http : Http) (n : ℕ) (message : List ℕ) (ctrl_panel_port : ℤ)
    (w : World Control)
    → Fits w.st.ip_addr message
    → page_count (run os g http (pos n) message ctrl_panel_port w).0
      ≡ some (length (http ctrl_panel_port).0)
unfolding run
run_count os g http n message ctrl_panel_port w fits =
    ap page_count (after_listen_result os ctrl_panel_port (http ctrl_panel_port).1 _ _)
    ∙ handle_all_count os g w.st.ip_addr message n (http ctrl_panel_port).0 _ fits refl

-- Where the address and the message fit a worker's arrays (16 and 129 characters): `run` returns
-- once its HTTP server has ended, with an answer for each event, whatever the events are and
-- whichever threads can be created.
pub run-Fits :
    (os : Os) (g : Garbage) (http : Http) (n : ℕ) (message ip_addr : List ℕ)
    (port ctrl_panel_port : ℤ)
    → Fits (copy_address (some ip_addr)) message
    → page_count (run os g http (pos n) message ctrl_panel_port (at_start ip_addr port)).0
      ≡ some (length (http ctrl_panel_port).0)
run-Fits os g http n message ip_addr port ctrl_panel_port fits =
    run_count os g http n message ctrl_panel_port (at_start ip_addr port) fits
