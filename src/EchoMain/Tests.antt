-- ===== src/EchoMain/Tests.antt =====
-- Tests of the command line of test/main.cpp.
use epoll_server.Base.{ℕ, ◌≡◌, refl, List, [], ◌∷◌}
use epoll_server.Base.Int.{pos}
use epoll_server.Text.{text, atoi}
use epoll_server.Args.{goes_on}
use epoll_server.EchoMain.{Arg, client_count, port, defaults, parse}
use epoll_server.EchoMain.Ready.{StartsReady, main-StartsReady}

abbrev app : List ℕ
app = text "server"

-- -n 25 -p 80
abbrev twenty_five : List Arg
twenty_five = client_count (50 ∷ 53 ∷ []) ∷ port (56 ∷ 48 ∷ []) ∷ []

workers_set :
    parse app twenty_five defaults
    ≡ goes_on (record {
      max_clients = pos 100000;
      worker_count = pos 25;
      server_port = pos 80;
      ctrl_panel_port = pos 0;
    })
unfolding parse
workers_set = refl

main-StartsReady_example :
    StartsReady app (pos 25) (pos 80) (pos 0) (parse app twenty_five defaults)
unfolding atoi
main-StartsReady_example = main-StartsReady app twenty_five
