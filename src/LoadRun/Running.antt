-- ===== src/LoadRun/Running.antt =====
-- The whole of `run` of test-client/run.cpp.
use epoll_server.Base.{
  ℕ, ◌≡◌, ◌≢◌, refl, ap, sym, subst, ◌∙◌, inl, inr, Bool, true, false, Option, none, some, List, [],
  ◌++◌, arith, Bool-cases,
}
use epoll_server.Base.Int.{ℤ, pos}
use epoll_server.Os.{Os, World}
use epoll_server.Work.{Garbage}
use epoll_server.LoadPages.{Control}
use epoll_server.Panel.{after_listen}
use epoll_server.LoadRun.{
  Event, is_empty, stop_and_join, get_stop, handle_all, run_state, copy_address, Http, run,
}
use mathlib.Core.List.{append-nil}
use epoll_server.Text.{c_string, copy_in, zeros}
use epoll_server.LoadRun.Workers.{threads, AreStarted}
use epoll_server.LoadRun.Given.{run-IsGiven}
use epoll_server.LoadRun.Loading.{created, joined}
use epoll_server.LoadRun.Threads.{Inv, Kept, handle_all-Inv, is_empty→eq, get_stop-Inv}

-- `run` from the arguments that `main` passes, with no thread before it.
abbrev pub at_start : (ip_addr : List ℕ) → (port : ℤ) → World Control
at_start ip_addr port = record { st = run_state (some ip_addr) port; trace = [] }

after_listen-Kept :
    (os : Os) (message : List ℕ) (n : ℕ) (ctrl_panel_port : ℤ) (ok : Bool)
    (r : Option (List (List ℕ)) × World Control)
    → Kept message n r
    → Kept message n (after_listen os ctrl_panel_port ok r.0 r.1)
unfolding after_listen
after_listen-Kept os message n ctrl_panel_port ok (none, w) h = tt
after_listen-Kept os message n ctrl_panel_port true (some ps, w) h = h
after_listen-Kept os message n ctrl_panel_port false (some ps, w) h = record {
  balanced = h.balanced;
  are_started = h.are_started;
  bounded = h.bounded;
}

at_start-Inv :
    (ip_addr : List ℕ) (port : ℤ) (message : List ℕ) (n : ℕ) → Inv message n (at_start ip_addr port)
at_start-Inv ip_addr port message n = record {
  balanced = refl;
  are_started = tt;
  bounded = omega arith;
}

get_stop_some : (os : Os) (w : World Control) → (get_stop os w).0 ≢ none
unfolding get_stop stop_and_join
get_stop_some os w = elim (Bool-cases (is_empty w.st.workers)) [
  | inl e ↦ rw e (λ h. cc)
  | inr e ↦ rw e (λ h. cc)
]

pub of_Kept :
    {A : Type 0} (message : List ℕ) (n : ℕ) (r : Option A × World Control)
    → Kept message n r
    → r.0 ≢ none
    → Inv message n r.1
of_Kept message n (none, w) h k = absurd (k refl)
of_Kept message n (some a, w) h k = h

-- `run` keeps the invariant, from any state.
pub run-Kept :
    (os : Os) (g : Garbage) (http : Http) (n : ℕ) (message : List ℕ) (ctrl_panel_port : ℤ)
    (w : World Control)
    → Inv message n w
    → Kept message n (run os g http (pos n) message ctrl_panel_port w)
unfolding run
run-Kept os g http n message ctrl_panel_port w inv =
    after_listen-Kept os message n ctrl_panel_port (http ctrl_panel_port).1 _ (
      handle_all-Inv os g n message (http ctrl_panel_port).0 _
        (record { balanced = inv.balanced; are_started = inv.are_started; bounded = inv.bounded }))

-- Whatever the requests and what the workers' threads log between them, and whichever threads can
-- be created: where `run` does not run over a buffer, each thread it created was joined or belongs
-- to a worker, in the order of creation. The workers it is left with, n at most, are set to run,
-- numbered in turn, and have the message, the port and the address that `run` was given; of the
-- address up to its terminator, what an array of 256 characters holds.
pub run-Inv :
    (os : Os) (g : Garbage) (http : Http) (n : ℕ) (message ip_addr : List ℕ)
    (port ctrl_panel_port : ℤ)
    → let (ps, w) = run os g http (pos n) message ctrl_panel_port (at_start ip_addr port) in
      ps ≢ none
      → Inv message n w
        × AreStarted (c_string (copy_in ip_addr (zeros 256))) message port 0 w.st.workers
unfolding copy_address
run-Inv os g http n message ip_addr port ctrl_panel_port returned =
    let r = run os g http (pos n) message ctrl_panel_port (at_start ip_addr port) in
    let inv =
      of_Kept message n r
        (run-Kept os g http n message ctrl_panel_port _ (at_start-Inv ip_addr port message n))
        returned in
    let (same_ip, same_port) =
      run-IsGiven os g (copy_in ip_addr (zeros 256)) port message n http ctrl_panel_port
        (at_start ip_addr port) (refl, refl) in
    (
      inv,
      subst (λ a. AreStarted (c_string a) message port 0 r.1.st.workers) same_ip
          (subst (λ p. AreStarted (c_string r.1.st.ip_addr) message p 0 r.1.st.workers) same_port
            inv.are_started),
    )

pub get_stop_empty : (os : Os) (w : World Control) → (get_stop os w).1.st.workers ≡ []
unfolding get_stop stop_and_join
get_stop_empty os w = elim (Bool-cases (is_empty w.st.workers)) [
  | inl e ↦ rw e (is_empty→eq w.st.workers e)
  | inr e ↦ rw e refl
]

-- A stop request behind any events of which none ran over a buffer: no worker is left, and the
-- threads that were joined are all that were created, in the order of creation.
pub get_stop-joined :
    (os : Os) (g : Garbage) (n : ℕ) (message ip_addr : List ℕ) (port : ℤ) (es : List Event)
    → let (ps, w) = handle_all os g (pos n) message es (at_start ip_addr port) in
      ps ≢ none
      → let w' = (get_stop os w).1 in (w'.st.workers ≡ []) × (joined w'.trace ≡ created w'.trace)
get_stop-joined os g n message ip_addr port es served =
    let (ps, w) = handle_all os g (pos n) message es (at_start ip_addr port) in
    let w' = (get_stop os w).1 in
    let inv : Inv message n w =
      of_Kept message n _ (handle_all-Inv os g n message es _ (at_start-Inv ip_addr port message n))
        served in
    let inv' : Inv message n w' =
      of_Kept message n _ (get_stop-Inv os g n message w inv) (get_stop_some os w) in
    let empty = get_stop_empty os w in
    (
      empty,
      sym (
          inv'.balanced
          ∙ ap (λ ws. joined w'.trace ++ threads ws) empty
          ∙ append-nil (joined w'.trace)),
    )
