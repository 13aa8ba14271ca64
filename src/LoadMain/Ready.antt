-- ===== src/LoadMain/Ready.antt =====
-- With which options the program of test-client/main.cpp starts its workers.
use epoll_server.Base.{
  ℕ, zero, suc, ◌≡◌, ◌≢◌, refl, ap, ◌∙◌, ◌⊎◌, inl, inr, true, false, List, [], ◌∷◌, arith, leb,
  length, ◌==◌, Bool-cases,
}
use epoll_server.Base.Int.{is_negative}
use epoll_server.Text.{text, atoi, zeros, c_string, copy_in}
use epoll_server.Args.{Result, returns, goes_on, fails, at_most_zero}
use epoll_server.Args.Guards.{set_count-Holds, set_port-Holds, set_ctrl-Holds}
use epoll_server.LoadMain.{
  Arg, help, message, client_count, ip, port, ctrl, bad, Options, defaults, usage, set_ip, parse,
  fill_in_port, fill_in_ip, has_no_ip,
}

-- What holds after any options were read.
record IsRead (o : Options) : Type 0 where
  workers : at_most_zero o.worker_count ≡ false
  port_sign : is_negative o.remote_port ≡ false
  ip_length : length o.ip_addr ≡ 256

-- Options to start with.
pub record IsReady (o : Options) : Type 0 where
  pub workers : at_most_zero o.worker_count ≡ false
  pub port_positive : at_most_zero o.remote_port ≡ false
  pub ip_given : has_no_ip o ≡ false
  pub ip_length : length o.ip_addr ≡ 256

-- A result that returns 0 behind the usage or 1 behind an error, or goes on with options that are
-- ready once the missing ones are filled in.
abbrev pub StartsReady : (app : List ℕ) → Result Options → Type 0
StartsReady app (returns code error printed) =
    ((code ≡ 0) × (error ≡ false) × (printed ≡ usage app)) ⊎ ((code ≡ 1) × (error ≡ true))
StartsReady app (goes_on o) = IsReady (fill_in_ip (fill_in_port o))

pub length-copy_in : (u buffer : List ℕ) → length (copy_in u buffer) ≡ length buffer
unfolding copy_in
length-copy_in [] buffer = refl
length-copy_in (c ∷ cs) [] = refl
length-copy_in (c ∷ cs) (b ∷ bs) = ap (λ n. suc n) (length-copy_in cs bs)

copied_not_empty :
    (c : ℕ) (cs buffer : List ℕ)
    → (c == 0) ≡ false
    → length buffer ≢ 0
    → (length (c_string (copy_in (c ∷ cs) buffer)) == 0) ≡ false
unfolding copy_in c_string
copied_not_empty c cs [] char long = absurd (long refl)
copied_not_empty c cs (b ∷ bs) char long = rw char (ground arith)

fill_in-IsReady : (o : Options) → IsRead o → IsReady (fill_in_ip (fill_in_port o))
unfolding fill_in_ip has_no_ip text
fill_in-IsReady o r = elim (Bool-cases (has_no_ip o)) [
  | inl e ↦ record {
    workers = r.workers;
    port_positive = ground (arith, r.port_sign);
    ip_given =
        rw e (
          copied_not_empty 49 (text "27.0.0.1") o.ip_addr refl
            (λ z. omega (arith, z, r.ip_length)));
    ip_length = rw e (length-copy_in (text "127.0.0.1") o.ip_addr ∙ r.ip_length);
  }
  | inr e ↦ record {
    workers = r.workers;
    port_positive = ground (arith, r.port_sign);
    ip_given = rw e e;
    ip_length = rw e r.ip_length;
  }
]

fails-StartsReady : (app printed : List ℕ) → StartsReady app (fails printed)
fails-StartsReady app printed = inr (refl, refl)

parse-StartsReady :
    (app : List ℕ) (args : List Arg) (o : Options) → IsRead o → StartsReady app (parse app args o)
unfolding parse set_ip
parse-StartsReady app [] o r = fill_in-IsReady o r
parse-StartsReady app (help ∷ args) o r = inl (refl, refl, refl)
parse-StartsReady app (bad ∷ args) o r = inl (refl, refl, refl)
parse-StartsReady app (message value ∷ args) o r =
    parse-StartsReady app args (record o { message_text = value })
      (record { workers = r.workers; port_sign = r.port_sign; ip_length = r.ip_length })
parse-StartsReady app (client_count value ∷ args) o r =
    set_count-Holds (StartsReady app) (fails-StartsReady app) value _ (λ z.
      parse-StartsReady app args (record o { worker_count = atoi value })
        (record { workers = z; port_sign = r.port_sign; ip_length = r.ip_length }))
parse-StartsReady app (port value ∷ args) o r =
    set_port-Holds (StartsReady app) (fails-StartsReady app) value _ (λ z.
      parse-StartsReady app args (record o { remote_port = atoi value })
        (record { workers = r.workers; port_sign = ground (arith, z); ip_length = r.ip_length }))
parse-StartsReady app (ip value ∷ args) o r = elim (Bool-cases (leb (length value) 256)) [
  | inr e ↦ rw e (inr (refl, refl))
  | inl e ↦ rw e (
      parse-StartsReady app args (record o { ip_addr = copy_in value o.ip_addr })
        (record {
          workers = r.workers;
          port_sign = r.port_sign;
          ip_length = length-copy_in value o.ip_addr ∙ r.ip_length;
        }))
]
parse-StartsReady app (ctrl value ∷ args) o r =
    set_ctrl-Holds (StartsReady app) (fails-StartsReady app) value _ (
      parse-StartsReady app args (record o { ctrl_panel_port = atoi value })
        (record { workers = r.workers; port_sign = r.port_sign; ip_length = r.ip_length }))

pub length-zeros : (n : ℕ) → length (zeros n) ≡ n
unfolding zeros
length-zeros zero = refl
length-zeros (suc n) = ap (λ m. suc m) (length-zeros n)

-- Whatever the command line: the program prints its usage to `stdout` and returns 0, or it prints
-- an error to `stderr` and returns 1, or it starts a positive number of workers towards a positive
-- port and an address that is not empty, in an array of 256 characters.
pub parse-defaults-StartsReady :
    (app : List ℕ) (args : List Arg) → StartsReady app (parse app args defaults)
parse-defaults-StartsReady app args =
    parse-StartsReady app args defaults
      (record { workers = refl; port_sign = refl; ip_length = length-zeros 256 })
