-- ===== src/LoadRun/Race.antt =====
-- Two start requests at once (test-client/run.cpp): the handlers share `workers` with no lock, so
-- that both can find it empty before one of them stores its workers.
use epoll_server.Base.{
  ℕ, ◌≡◌, ◌≢◌, refl, sym, ap, ◌∙◌, Option, none, some, List, [], ◌++◌, arith, inl, inr, Bool-cases,
}
use mathlib.Core.List.{append-nil}
use epoll_server.Base.Int.{pos}
use epoll_server.Os.{Os, World}
use epoll_server.Work.{Work, Garbage}
use epoll_server.LoadPages.{Control}
use epoll_server.LoadRun.{
  load_workers, keep_loaded, start_workers, stop_all, is_empty, stop_and_join, get_stop,
}
use epoll_server.LoadRun.Threads.{join_all-trace, is_empty→eq}
use epoll_server.LoadRun.Running.{get_stop_empty}
use epoll_server.LoadRun.Workers.{threads, threads-stop_all}
use epoll_server.LoadRun.Loading.{created, joined, Ended, load_loop-Ended}

-- What a start leaves that was not refused, over the threads that were created and joined before.
abbrev Started : (base gone : List ℕ) → Option (List ℕ) × World Control → Type 0
Started base gone (none, w) = Unit {0}
Started base gone (some p, w) =
    (created w.trace ≡ base ++ threads w.st.workers) × (joined w.trace ≡ gone)

keep_loaded-Started :
    (c : Control) (message base gone : List ℕ) (n : ℕ) (r : Option (List Work) × World Control)
    → Ended c message base gone n r
    → Started base gone (keep_loaded r.0 r.1)
unfolding keep_loaded
keep_loaded-Started c message base gone n (none, w) h = tt
keep_loaded-Started c message base gone n (some ws, w) (l, few) = (l.created_eq, l.joined_eq)

start_workers-Started :
    (os : Os) (g : Garbage) (n : ℕ) (message base gone : List ℕ) (w : World Control)
    → created w.trace ≡ base
    → joined w.trace ≡ gone
    → Started base gone (start_workers os g (pos n) message w)
unfolding start_workers load_workers
start_workers-Started os g n message base gone w c j =
    keep_loaded-Started w.st message base gone n _ (
      load_loop-Ended os g w.st message base gone n n [] 0 w refl (omega arith) (record {
        created_eq = c ∙ sym (append-nil base);
        joined_eq = j;
        are_started = tt;
        control_eq = refl;
      }))

of_Started :
    (base gone : List ℕ) (r : Option (List ℕ) × World Control)
    → Started base gone r
    → r.0 ≢ none
    → (created r.1.trace ≡ base ++ threads r.1.st.workers) × (joined r.1.trace ≡ gone)
of_Started base gone (none, w) h k = absurd (k refl)
of_Started base gone (some p, w) h k = h

-- What a stop joins: the threads of the workers that stand in the control.
joined-get_stop :
    (os : Os) (w : World Control)
    → joined (get_stop os w).1.trace ≡ joined w.trace ++ threads w.st.workers
unfolding get_stop stop_and_join
joined-get_stop os w = elim (Bool-cases (is_empty w.st.workers)) [
  | inl e ↦ rw e (
      sym (
        ap (λ ws. joined w.trace ++ threads ws) (is_empty→eq w.st.workers e)
        ∙ append-nil (joined w.trace)))
  | inr e ↦
      let ws = stop_all w.st.workers in
      rw e (
        (join_all-trace os ws (record w { st = record w.st { workers = ws } })).1
        ∙ ap (λ ts. joined w.trace ++ ts) (threads-stop_all w.st.workers))
]

-- One way in which two start requests can overlap: both passed the test for workers; then the first
-- loads and stores its workers, where no thread was left before, and then the second its own. If
-- neither runs over a buffer, the threads created are those joined before, the first's and the
-- second's; a stop request behind them joins the second's alone, and leaves no worker by which the
-- first's threads could be joined.
pub start_workers_twice :
    (os : Os) (g : Garbage) (n : ℕ) (message : List ℕ) (w : World Control)
    → created w.trace ≡ joined w.trace
    → let (p_1, w_1) = start_workers os g (pos n) message w in
      let (p_2, w_2) = start_workers os g (pos n) message w_1 in
      let w_3 = (get_stop os w_2).1 in
      p_1 ≢ none
      → p_2 ≢ none
      → (created w_2.trace ≡ joined w.trace ++ threads w_1.st.workers ++ threads w_2.st.workers)
        × (joined w_3.trace ≡ joined w.trace ++ threads w_2.st.workers)
        × (w_3.st.workers ≡ [])
start_workers_twice os g n message w same first second =
    let (p_1, w_1) = start_workers os g (pos n) message w in
    let (p_2, w_2) = start_workers os g (pos n) message w_1 in
    let (c_1, j_1) =
      of_Started (joined w.trace) (joined w.trace) _
        (start_workers-Started os g n message (joined w.trace) (joined w.trace) w same refl)
        first in
    let (c_2, j_2) =
      of_Started (created w_1.trace) (joined w.trace) _
        (start_workers-Started os g n message (created w_1.trace) (joined w.trace) w_1 refl j_1)
        second in
    (
      c_2 ∙ ap (λ ts. ts ++ threads w_2.st.workers) c_1,
      joined-get_stop os w_2 ∙ ap (λ ts. ts ++ threads w_2.st.workers) j_2,
      get_stop_empty os w_2,
    )
