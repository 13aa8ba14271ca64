-- ===== src/LoadMain/Running.antt =====
-- The whole of `main` of test-client/main.cpp.
use epoll_server.Base.{
  ℕ, ◌≡◌, ◌≢◌, refl, sym, ap, ◌∙◌, inl, inr, false, Option, none, some, List, [], ◌++◌, arith,
  Bool-cases,
}
use mathlib.Core.List.{append-nil}
use epoll_server.Base.Int.{ℤ, pos, negsuc, is_zero}
use epoll_server.Os.{Os, World}
use epoll_server.Text.{text}
use epoll_server.Work.{Garbage}
use epoll_server.LoadPages.{Control}
use epoll_server.LoadRun
use epoll_server.LoadRun.{Http, run_state}
use epoll_server.LoadRun.Workers.{threads}
use epoll_server.LoadRun.Loading.{created, joined}
use epoll_server.LoadRun.Threads.{Inv, Kept}
use epoll_server.LoadRun.Running.{run-Kept, of_Kept}
use epoll_server.Args.{Result, returns, goes_on, at_most_zero}
use epoll_server.LoadMain.{
  Arg, Options, defaults, parse, fill_in_port, fill_in_ip, has_no_ip, fill_in, exit_code, launch,
  after_parse, main,
}
use epoll_server.LoadMain.Ready.{StartsReady, parse-defaults-StartsReady}

-- What `main` begins with: no worker and no thread.
abbrev pub at_main : World Control
at_main = record { st = run_state none (pos 0); trace = [] }

-- The number of workers of options that are ready.
abbrev pub count : ℤ → ℕ
count (pos n) = n
count (negsuc n) = 0

-- Each thread that was created was joined or is that of a worker.
abbrev pub IsBalanced : World Control → Type 0
IsBalanced w = created w.trace ≡ joined w.trace ++ threads w.st.workers

pub fill_in_trace :
    (os : Os) (o : Options) (w : World Control)
    → let (o', w') = fill_in os o w in
      (o' ≡ fill_in_ip (fill_in_port o))
      × (created w'.trace ≡ created w.trace)
      × (joined w'.trace ≡ joined w.trace)
unfolding fill_in
fill_in_trace os o w = elim (Bool-cases (is_zero o.remote_port)) [
  | inl e ↦ elim (Bool-cases (has_no_ip o)) [
    | inl f ↦ rw (e, f) (refl, refl, refl)
    | inr f ↦ rw (e, f) (refl, refl, refl)
  ]
  | inr e ↦ elim (Bool-cases (has_no_ip o)) [
    | inl f ↦ rw (e, f) (refl, refl, refl)
    | inr f ↦ rw (e, f) (refl, refl, refl)
  ]
]

exit_code-none : (o : Option (List (List ℕ))) → exit_code o ≢ none → o ≢ none
unfolding exit_code
exit_code-none none h k = h refl
exit_code-none (some ps) h k = cc

module _ (os : Os) (g : Garbage) (http : Http) where
  run_from-Kept :
      (x : ℤ) (text : List ℕ) (ctrl_panel_port : ℤ) (w : World Control)
      → at_most_zero x ≡ false
      → Inv text (count x) w
      → Kept text (count x) (LoadRun.run os g http x text ctrl_panel_port w)
  run_from-Kept (pos n) text ctrl_panel_port w h inv =
      run-Kept os g http n text ctrl_panel_port w inv
  run_from-Kept (negsuc n) text ctrl_panel_port w h inv = absurd (cc)

  launch-IsBalanced :
      (o : Options) (w : World Control)
      → at_most_zero o.worker_count ≡ false
      → created w.trace ≡ joined w.trace
      → (launch os g http o w).0 ≢ none
      → IsBalanced (launch os g http o w).1
  unfolding launch
  launch-IsBalanced o w workers same returned =
      let w' : World Control = record w { st = run_state (some o.ip_addr) o.remote_port } in
      let inv : Inv o.message_text (count o.worker_count) w' = record {
        balanced = same ∙ sym (append-nil (joined w.trace));
        are_started = tt;
        bounded = omega arith;
      } in
      (of_Kept o.message_text (count o.worker_count) _
        (run_from-Kept o.worker_count o.message_text o.ctrl_panel_port w' workers inv)
        (exit_code-none (LoadRun.run os g http o.worker_count o.message_text o.ctrl_panel_port w').0
          returned)).balanced

  after_parse-IsBalanced :
      (app : List ℕ) (r : Result Options)
      → StartsReady app r
      → (after_parse os g http r at_main).0 ≢ none
      → IsBalanced (after_parse os g http r at_main).1
  unfolding after_parse
  after_parse-IsBalanced app (returns code error printed) h returned = refl
  after_parse-IsBalanced app (goes_on o) ready returned =
      let (filled, c, j) = fill_in_trace os o at_main in
      launch-IsBalanced (fill_in os o at_main).0 (fill_in os o at_main).1
        (ap (λ o'. at_most_zero o'.worker_count) filled ∙ ready.workers) (c ∙ sym j) returned

-- Whatever the command line, the requests to the control pages and the threads that can be created:
-- where the program exits, the threads it created are those it joined and then those of the workers
-- it is left with, in the order of their creation.
pub main-IsBalanced :
    (os : Os) (g : Garbage) (http : Http) (app : List ℕ) (args : List Arg)
    → let (code, w) = main os g http app args at_main in code ≢ none → IsBalanced w
unfolding main
main-IsBalanced os g http app args returned =
    after_parse-IsBalanced os g http app (parse app args defaults)
      (parse-defaults-StartsReady app args) returned
