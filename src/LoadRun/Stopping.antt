-- ===== src/LoadRun/Stopping.antt =====
-- The threads that the stop handler of test-client/run.cpp waits for.
use epoll_server.Base.{
  ℕ, zero, suc, ◌≤◌, ◌≡◌, ◌∙◌, true, false, Bool, Option, none, some, List, [], ◌∷◌, length,
}
use epoll_server.Os.{Os, Trace, World}
use epoll_server.Work
use epoll_server.Work.{Work, is_running}
use epoll_server.Work.Interface.{functions-IsLawful}
use epoll_server.Load.{worker}
use epoll_server.Load.Stopping.{worker_ends}
use epoll_server.LoadRun.{stop_all}

-- The worker at a place of the list.
abbrev pub work_at : ℕ → List Work → Option Work
work_at i [] = none
work_at zero (w ∷ ws) = some w
work_at (suc i) (w ∷ ws) = work_at i ws

stop_all-is_running :
    (i : ℕ) (ws : List Work) (v : Work) → work_at i (stop_all ws) ≡ some v → is_running v ≡ false
unfolding stop_all
stop_all-is_running i [] v h = absurd (cc)
stop_all-is_running zero (w ∷ ws) v h =
    let told : Work.stop w ≡ v = cc in rw (← told) (functions-IsLawful.set_flag false w)
stop_all-is_running (suc i) (w ∷ ws) v h = stop_all-is_running i ws v h

-- Each worker that the stop handler has told to stop and then waits for: if its thread reads the
-- flag that the handler left from the n-th call of the history on, then it returns, whatever the
-- kernel answers. Each of its loops ends within n + 1 rounds.
pub stop_all-worker :
    (os : Os) (ws : List Work) (i : ℕ) (v : Work) (keeps_running : Trace → Bool) (n : ℕ)
    (w : World Work)
    → work_at i (stop_all ws) ≡ some v
    → ((t : Trace) → n ≤ length t → keeps_running t ≡ is_running v)
    → (worker os keeps_running (suc n) (suc n) w).0 ≡ true
stop_all-worker os ws i v keeps_running n w there reads =
    worker_ends os keeps_running n w (λ t late. reads t late ∙ stop_all-is_running i ws v there)
