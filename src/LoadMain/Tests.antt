-- ===== src/LoadMain/Tests.antt =====
-- Tests of the command line of test-client/main.cpp.
use epoll_server.Base.{
  ℕ, ◌≡◌, ◌≢◌, refl, ◌⊎◌, inl, inr, true, false, none, some, List, [], ◌∷◌, ◌++◌, ◌≤◌, arith, All,
  length,
}
use epoll_server.Base.Int.{pos}
use epoll_server.Os.Samples.{blocked}
use epoll_server.Text.{text, zeros, c_string, copy_in}
use epoll_server.Work.{Garbage}
use epoll_server.Load.{drop}
use epoll_server.LoadRun.{start_asked, index_asked, stop_asked, Http}
use epoll_server.Args.{goes_on}
use epoll_server.LoadMain.{Arg, message, client_count, ip, port, defaults, parse, main}
use epoll_server.LoadMain.Ready.{StartsReady, parse-defaults-StartsReady}
use epoll_server.LoadMain.Running.{at_main, IsBalanced, main-IsBalanced}
use epoll_server.LoadMain.Fitting.{IsShort, main_exits}
use epoll_server.LoadMain.Twice.{AreChars, parse-ip}

abbrev left_over : Garbage
left_over = record { run = false; thread = 0 }

abbrev serving : Http
serving ctrl_panel_port = (start_asked ∷ index_asked ∷ stop_asked ∷ start_asked ∷ [], true)

abbrev app : List ℕ
app = text "client"

-- -n 25 -p 80 -m hi -i 10.0.0.1
abbrev four_options : List Arg
four_options =
    client_count (text "25") ∷ port (text "80") ∷ message (text "hi") ∷ ip (text "10.0.0.1") ∷ []

all_set :
    parse app four_options defaults
    ≡ goes_on (record {
      message_text = text "hi";
      worker_count = pos 25;
      remote_port = pos 80;
      ip_addr = copy_in (text "10.0.0.1") (zeros 256);
      ctrl_panel_port = pos 8081;
    })
unfolding parse text
all_set = refl

parse-defaults-StartsReady_example : StartsReady app (parse app four_options defaults)
parse-defaults-StartsReady_example = parse-defaults-StartsReady app four_options

short : All IsShort four_options
unfolding text
short = (tt, (tt, (omega arith, (omega arith, tt))))

main_exits_example :
    let code = (main blocked left_over serving app four_options at_main).0 in
    (code ≡ some 0) ⊎ (code ≡ some 1)
main_exits_example = main_exits blocked left_over serving app four_options short

exits : (main blocked left_over serving app four_options at_main).0 ≢ none
exits h = elim main_exits_example [ inl e ↦ absurd (cc) | inr e ↦ absurd (cc) ]

main-IsBalanced_example : IsBalanced (main blocked left_over serving app four_options at_main).1
main-IsBalanced_example = main-IsBalanced blocked left_over serving app four_options exits

long_chars : AreChars (text "10.12")
unfolding text
long_chars = (refl, (refl, (refl, (refl, (refl, tt)))))

short_chars : AreChars (text "10.3")
unfolding text
short_chars = (refl, (refl, (refl, (refl, tt))))

no_longer : (length (text "10.3") ≤ length (text "10.12")) × (length (text "10.12") ≤ 256)
unfolding text
no_longer = (omega arith, omega arith)

parse-ip_test :
    let buffer = copy_in (text "10.3") (copy_in (text "10.12") (zeros 256)) in
    (parse app (ip (text "10.12") ∷ ip (text "10.3") ∷ []) defaults
      ≡ goes_on (record defaults { ip_addr = buffer }))
    × (c_string buffer ≡ text "10.3" ++ drop (length (text "10.3")) (text "10.12"))
parse-ip_test =
    parse-ip app (text "10.12") (text "10.3") long_chars short_chars no_longer.0 no_longer.1
