-- ===== src/LoadRun/Threads.antt =====
-- The threads that test-client/run.cpp starts and joins, over any events.
use epoll_server.Base.{
  ℕ, ◌≤◌, ◌≡◌, refl, sym, ap, ◌∙◌, inl, inr, true, Option, none, some, List, [], ◌∷◌, ◌++◌, arith,
  length, Bool-cases, subst,
}
use mathlib.Core.List.{append-nil, append_assoc}
use epoll_server.Base.Int.{ℤ, pos}
use epoll_server.Os.{Os, Call, World, M}
use epoll_server.Text.{c_string}
use epoll_server.Work.{Work, Garbage, max_buf_len, log_message_sent, log_message_received}
use epoll_server.LoadPages.{Control}
use epoll_server.LoadRun.Workers.{
  threads, IsStarted, AreStarted, threads-stop_all, change_at-AreStarted, message_sent-IsStarted,
  message_received-IsStarted, thread-log_message_received, threads-change_at, length-change_at,
}
use epoll_server.LoadRun.Loading.{created, joined, Ended, load_loop-Ended}
use epoll_server.Panel.{keep_page, then_more}
use epoll_server.LoadRun.{
  log_at, Event, index_asked, start_asked, stop_asked, message_sent, message_received, Page,
  stop_all, is_empty, load_workers, join_all, get_index, keep_loaded, get_start, start_workers,
  stop_and_join, get_stop, handle, handle_all,
}

-- Every thread that was created is joined or is that of a worker, in this order; the workers are
-- started with the control's arguments and numbered in turn, and there are at most n.
pub record Inv (message : List ℕ) (n : ℕ) (w : World Control) : Type 0 where
  pub balanced : created w.trace ≡ joined w.trace ++ threads w.st.workers
  pub are_started : AreStarted (c_string w.st.ip_addr) message w.st.remote_port 0 w.st.workers
  pub bounded : length w.st.workers ≤ n

-- What the invariant says of a result: nothing where the program ran over a buffer.
abbrev pub Kept : {A : Type 0} → List ℕ → ℕ → Option A × World Control → Type 0
Kept message n (none, w) = Unit {0}
Kept message n (some a, w) = Inv message n w

pub join_all-trace :
    (os : Os) (ws : List Work) (w : World Control)
    → let w' = (join_all os ws w).1 in
      (created w'.trace ≡ created w.trace) × (joined w'.trace ≡ joined w.trace ++ threads ws)
unfolding join_all
join_all-trace os [] w = (refl, sym (append-nil (joined w.trace)))
join_all-trace os (x ∷ ws) w =
    let w' : World Control = record w {
      trace = (Call.thread_join x.thread, os.reply w.trace (Call.thread_join x.thread)) ∷ w.trace;
    } in
    let (c, j) = join_all-trace os ws w' in
    (c, j ∙ append_assoc (joined w.trace) (x.thread ∷ []) (threads ws))

pub is_empty→eq : (ws : List Work) → is_empty ws ≡ true → ws ≡ []
is_empty→eq [] h = refl
is_empty→eq (w ∷ ws) h = cc

keep_loaded-Inv :
    (c : Control) (message base : List ℕ) (n : ℕ) (r : Option (List Work) × World Control)
    → Ended c message base base n r
    → Kept message n (keep_loaded r.0 r.1)
unfolding keep_loaded
keep_loaded-Inv c message base n (none, w) h = tt
keep_loaded-Inv c message base n (some ws, w) (l, few) = record {
  balanced = l.created_eq ∙ ap (λ ts. ts ++ threads ws) (sym l.joined_eq);
  are_started =
      subst (λ d. AreStarted (c_string d.ip_addr) message d.remote_port 0 ws) (sym l.control_eq)
        l.are_started;
  bounded = few;
}

keep_page-Inv :
    (message : List ℕ) (n : ℕ) (p : List ℕ) (r : Option (List (List ℕ)) × World Control)
    → Kept message n r
    → Kept message n (keep_page p r.0, r.1)
keep_page-Inv message n p (none, w) h = tt
keep_page-Inv message n p (some ps, w) h = h

then_more-Inv :
    (message : List ℕ) (n : ℕ) (more : M Control (Option (List (List ℕ))))
    → ((w : World Control) → Inv message n w → Kept message n (more w))
    → (r : Page × World Control) → Kept message n r
    → Kept message n (then_more r.0 more r.1)
unfolding then_more
then_more-Inv message n more next (none, w) h = tt
then_more-Inv message n more next (some p, w) h = keep_page-Inv message n p (more w) (next w h)

module _ (os : Os) (g : Garbage) (n : ℕ) (message : List ℕ) where
  get_start-Inv :
      (w : World Control) → Inv message n w → Kept message n (get_start os g (pos n) message w)
  unfolding get_start start_workers load_workers
  get_start-Inv w inv = elim (Bool-cases (is_empty w.st.workers)) [
    | inr e ↦ rw e inv
    | inl e ↦
        let empty = is_empty→eq w.st.workers e in
        rw e (
          keep_loaded-Inv w.st message (joined w.trace) n _ (
            load_loop-Ended os g w.st message (joined w.trace) (joined w.trace) n n [] 0 w refl
              (omega arith)
              (record {
                created_eq = inv.balanced ∙ ap (λ ws. joined w.trace ++ threads ws) empty;
                joined_eq = refl;
                are_started = tt;
                control_eq = refl;
              })))
  ]

  pub get_stop-Inv : (w : World Control) → Inv message n w → Kept message n (get_stop os w)
  unfolding get_stop stop_and_join
  get_stop-Inv w inv = elim (Bool-cases (is_empty w.st.workers)) [
    | inl e ↦ rw e inv
    | inr e ↦
        let ws = stop_all w.st.workers in
        let w' : World Control = record w { st = record w.st { workers = ws } } in
        let (c, j) = join_all-trace os ws w' in
        rw e (record {
          balanced =
              c
              ∙ inv.balanced
              ∙ ap (λ ts. joined w.trace ++ ts) (sym (threads-stop_all w.st.workers))
              ∙ sym j
              ∙ sym (append-nil (joined (join_all os ws w').1.trace));
          are_started = tt;
          bounded = omega arith;
        })
  ]

  log_at-Inv :
      (f : Work → Work)
      → ((w : Work) → (f w).thread ≡ w.thread)
      → ((ip_addr : List ℕ) (port : ℤ) (i : ℕ) (w : Work)
          → IsStarted ip_addr message port i w
          → IsStarted ip_addr message port i (f w))
      → (at : ℕ) (w : World Control) → Inv message n w
      → Inv message n (record w { st = log_at f at w.st })
  log_at-Inv f thread keeps at w inv = record {
    balanced =
        inv.balanced
        ∙ ap (λ ts. joined w.trace ++ ts) (sym (threads-change_at f thread at w.st.workers));
    are_started =
        change_at-AreStarted (c_string w.st.ip_addr) message w.st.remote_port f
          (keeps (c_string w.st.ip_addr) w.st.remote_port) 0 at w.st.workers inv.are_started;
    bounded = omega (arith, length-change_at f at w.st.workers, inv.bounded);
  }

  handle-Inv :
      (e : Event) (w : World Control)
      → Inv message n w
      → Kept message n (handle os g (pos n) message e w)
  unfolding handle get_index log_message_sent log_message_received
  handle-Inv index_asked w inv = elim (Bool-cases (is_empty w.st.workers)) [
    | inl e ↦ rw e inv
    | inr e ↦ rw e inv
  ]
  handle-Inv start_asked w inv = get_start-Inv w inv
  handle-Inv stop_asked w inv = get_stop-Inv w inv
  handle-Inv (message_sent i) w inv =
      log_at-Inv (log_message_sent max_buf_len) (λ v. refl)
        (λ ip_addr port. message_sent-IsStarted ip_addr message port) i w inv
  handle-Inv (message_received i bytes) w inv =
      log_at-Inv (log_message_received bytes max_buf_len) (thread-log_message_received bytes)
        (λ ip_addr port. message_received-IsStarted ip_addr message port bytes) i w inv

  pub handle_all-Inv :
      (es : List Event) (w : World Control)
      → Inv message n w
      → Kept message n (handle_all os g (pos n) message es w)
  unfolding handle_all
  handle_all-Inv [] w inv = inv
  handle_all-Inv (e ∷ es) w inv =
      then_more-Inv message n (handle_all os g (pos n) message es) (handle_all-Inv es)
        (handle os g (pos n) message e w) (handle-Inv e w inv)
