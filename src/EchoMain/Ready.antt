-- ===== src/EchoMain/Ready.antt =====
-- With which options the program of test/main.cpp starts its server.
use epoll_server.Base.{
  ℕ, true, ◌≡◌, refl, ◌⊎◌, false, inl, inr, List, [], ◌∷◌, arith, if◌then◌else◌,
}
use epoll_server.Base.Int.{ℤ, pos, is_zero, is_negative}
use epoll_server.Text.{atoi}
use epoll_server.Args.{Result, returns, goes_on, fails, at_most_zero}
use epoll_server.Args.Guards.{set_count-Holds, set_port-Holds, set_ctrl-Holds}
use epoll_server.EchoMain.{
  Arg, help, client_count, port, ctrl, bad, Options, usage, defaults, fill_in, parse,
}

-- What holds after any options were read.
record IsRead (o : Options) : Type 0 where
  clients : o.max_clients ≡ pos 100000
  workers : at_most_zero o.worker_count ≡ false
  port_sign : is_negative o.server_port ≡ false

-- The last value of each option of a command line; `default` where it has none.
abbrev pub count_of : (default : ℤ) → List Arg → ℤ
count_of default [] = default
count_of default (client_count value ∷ args) = count_of (atoi value) args
count_of default (_ ∷ args) = count_of default args

abbrev pub port_of : (default : ℤ) → List Arg → ℤ
port_of default [] = default
port_of default (port value ∷ args) = port_of (atoi value) args
port_of default (_ ∷ args) = port_of default args

abbrev pub ctrl_of : (default : ℤ) → List Arg → ℤ
ctrl_of default [] = default
ctrl_of default (ctrl value ∷ args) = ctrl_of (atoi value) args
ctrl_of default (_ ∷ args) = ctrl_of default args

-- A number, or another if it is 0.
abbrev pub or_else : (x other : ℤ) → ℤ
or_else x other = if is_zero x then other else x

-- Options to start with, of a command line that gives these numbers.
pub record IsReady (count server_port ctrl_panel_port : ℤ) (o : Options) : Type 0 where
  pub clients : o.max_clients ≡ pos 100000
  pub workers : at_most_zero o.worker_count ≡ false
  pub port_positive : at_most_zero o.server_port ≡ false
  pub ctrl_given : is_zero o.ctrl_panel_port ≡ false
  pub workers_eq : o.worker_count ≡ count
  pub port_eq : o.server_port ≡ or_else server_port (pos 8090)
  pub ctrl_eq : o.ctrl_panel_port ≡ or_else ctrl_panel_port (pos 8080)

-- A result that returns 0 behind the usage or 1 behind an error, or goes on with options that are
-- ready once the missing ones are filled in.
abbrev pub StartsReady :
    (app : List ℕ) → (count server_port ctrl_panel_port : ℤ) → Result Options → Type 0
StartsReady app count server_port ctrl_panel_port (returns code error printed) =
    ((code ≡ 0) × (error ≡ false) × (printed ≡ usage app)) ⊎ ((code ≡ 1) × (error ≡ true))
StartsReady app count server_port ctrl_panel_port (goes_on o) =
    IsReady count server_port ctrl_panel_port (fill_in o)

fill_in-IsReady :
    (o : Options) → IsRead o → IsReady o.worker_count o.server_port o.ctrl_panel_port (fill_in o)
unfolding fill_in
fill_in-IsReady o r = record {
  clients = r.clients;
  workers = r.workers;
  port_positive = ground (arith, r.port_sign);
  ctrl_given = ground arith;
  workers_eq = refl;
  port_eq = refl;
  ctrl_eq = refl;
}

-- That of the options that are left, behind those that were read.
abbrev Goes : (app : List ℕ) → List Arg → Options → Result Options → Type 0
Goes app args o =
    StartsReady app (count_of o.worker_count args) (port_of o.server_port args)
      (ctrl_of o.ctrl_panel_port args)

fails-Goes :
    (app : List ℕ) (args : List Arg) (o : Options) (printed : List ℕ)
    → Goes app args o (fails printed)
fails-Goes app args o printed = inr (refl, refl)

parse-Goes :
    (app : List ℕ) (args : List Arg) (o : Options) → IsRead o → Goes app args o (parse app args o)
unfolding parse
parse-Goes app [] o r = fill_in-IsReady o r
parse-Goes app (help ∷ args) o r = inl (refl, refl, refl)
parse-Goes app (bad ∷ args) o r = inl (refl, refl, refl)
parse-Goes app (client_count value ∷ args) o r =
    let o' : Options = record o { worker_count = atoi value } in
    set_count-Holds (Goes app args o') (fails-Goes app args o') value _ (λ z.
      parse-Goes app args o' (record { clients = r.clients; workers = z; port_sign = r.port_sign }))
parse-Goes app (port value ∷ args) o r =
    let o' : Options = record o { server_port = atoi value } in
    set_port-Holds (Goes app args o') (fails-Goes app args o') value _ (λ z.
      parse-Goes app args o'
        (record { clients = r.clients; workers = r.workers; port_sign = ground (arith, z) }))
parse-Goes app (ctrl value ∷ args) o r =
    let o' : Options = record o { ctrl_panel_port = atoi value } in
    set_ctrl-Holds (Goes app args o') (fails-Goes app args o') value _ (
      parse-Goes app args o'
        (record { clients = r.clients; workers = r.workers; port_sign = r.port_sign }))

-- Whatever the command line: the program prints its usage to `stdout` and returns 0, or it prints
-- an error to `stderr` and returns 1, or it starts its server with a positive number of workers, a
-- positive port and a control port that is not 0. The maximum number of clients is 100000 always.
-- The number of workers is the last value of the option for the number of clients, or 10; the two
-- ports are the last values of their options, or 8090 and 8080 where these are missing or 0.
pub main-StartsReady :
    (app : List ℕ) (args : List Arg)
    → StartsReady app
        (count_of (pos 10) args)
        (port_of (pos 0) args)
        (ctrl_of (pos 0) args)
        (parse app args defaults)
main-StartsReady app args =
    parse-Goes app args defaults (record { clients = refl; workers = refl; port_sign = refl })
