-- ===== src/LoadPages/Rows.antt =====
-- The rows of the index page of test-client/run.cpp, one for each worker.
use epoll_server.Base.{ℕ, ◌≡◌, sym, ◌∙◌, List, [], ◌∷◌, ◌++◌}
use mathlib.Core.List.{append-nil, append_assoc}
use epoll_server.Work.{Work, get_work_log}
use epoll_server.LoadPages.{log_row, add_rows}

-- The rows of the workers in turn.
abbrev pub rows : List Work → List ℕ
rows [] = []
rows (w ∷ ws) = log_row (get_work_log w) ++ rows ws

-- The loop over the workers adds one row for each of them, in their order, behind what the page
-- has so far.
pub add_rows-rows :
    (response : List ℕ) (ws : List Work) → add_rows response ws ≡ response ++ rows ws
unfolding add_rows
add_rows-rows response [] = sym (append-nil response)
add_rows-rows response (w ∷ ws) =
    add_rows-rows (response ++ log_row (get_work_log w)) ws
    ∙ append_assoc response (log_row (get_work_log w)) (rows ws)
