-- ===== src/Panel.antt =====
-- What the control pages of both programs share (test/run.cpp and test-client/run.cpp): the pages
-- of the requests in turn, and the end of `run`.
use epoll_server.Base.{ℕ, Bool, true, Option, none, some, List, ◌∷◌, ◌++◌}
use epoll_server.Base.Int.{ℤ}
use epoll_server.Os.{Os, Call, M, pure, ◌>>=◌, when◌then◌else◌, sys}
use epoll_server.Text.{text, to_string}

abbrev pub keep_page : List ℕ → Option (List (List ℕ)) → Option (List (List ℕ))
keep_page p none = none
keep_page p (some ps) = some (p ∷ ps)

-- Behind one handler: the rest, unless there was no page.
unfoldable pub then_more :
    {S : Type 0} → Option (List ℕ) → M S (Option (List (List ℕ))) → M S (Option (List (List ℕ)))
then_more none more = pure none
then_more (some p) more = do ps ← more; pure (keep_page p ps)

-- Behind `http.listen`, which returned `ok`.
unfoldable pub after_listen :
    {S : Type 0}
    → Os
    → (ctrl_panel_port : ℤ) → (ok : Bool) → Option (List (List ℕ))
    → M S (Option (List (List ℕ)))
unfolding text to_string
after_listen os ctrl_panel_port ok none = pure none
after_listen os ctrl_panel_port ok (some ps) = when ok then pure (some ps) else do
  _ ← sys os (
      Call.print true (
        text "! Terminating program: Cannot initialize control panel, error binding to local port"
        ++ to_string ctrl_panel_port
        ++ text "\n\n\n"))
  pure (some ps)
