-- ===== src/LoadMain/Fitting.antt =====
-- Command lines of test-client/main.cpp whose texts fit the arrays of a worker.
use epoll_server.Base.{
  ℕ, zero, suc, ◌+◌, ◌≤◌, ◌≡◌, refl, sym, ap, ◌∙◌, subst, ◌⊎◌, inl, inr, false, Option, none, some,
  List, [], ◌∷◌, arith, leb, length, ◌==◌, Bool-cases, All,
}
use epoll_server.Base.Int.{ℤ, pos, negsuc}
use epoll_server.Os.{Os, World}
use epoll_server.Text.{text, atoi, zeros, c_string, copy_in}
use epoll_server.Work.{Garbage, max_buf_len}
use epoll_server.LoadPages.{Control}
use epoll_server.LoadRun
use epoll_server.LoadRun.{Http, copy_address}
use epoll_server.LoadRun.Served.{Fits, page_count, run_count}
use epoll_server.Args.{Result, returns, goes_on, fails, at_most_zero}
use epoll_server.Args.Guards.{set_count-Holds, set_port-Holds, set_ctrl-Holds}
use epoll_server.LoadMain.{
  Arg, help, message, client_count, ip, port, ctrl, bad, Options, defaults, set_ip, parse,
  fill_in_port, fill_in_ip, has_no_ip, fill_in, exit_code, launch, after_parse, main,
}
use epoll_server.LoadMain.Ready.{IsReady, StartsReady, parse-defaults-StartsReady, length-zeros}
use epoll_server.LoadMain.Running.{at_main, fill_in_trace}

-- The character at a place of a buffer.
abbrev char_at : ℕ → List ℕ → Option ℕ
char_at i [] = none
char_at zero (c ∷ cs) = some c
char_at (suc i) (c ∷ cs) = char_at i cs

char_at-zeros : (i n : ℕ) → suc i ≤ n → char_at i (zeros n) ≡ some 0
unfolding zeros
char_at-zeros i zero h = absurd (omega arith)
char_at-zeros zero (suc n) h = refl
char_at-zeros (suc i) (suc n) h = char_at-zeros i n (omega arith)

-- A copy that ends before a place leaves it.
char_at-copy_in :
    (i : ℕ) (u buffer : List ℕ) → length u ≤ i → char_at i (copy_in u buffer) ≡ char_at i buffer
unfolding copy_in
char_at-copy_in i [] buffer h = refl
char_at-copy_in i (c ∷ cs) [] h = refl
char_at-copy_in zero (c ∷ cs) (b ∷ bs) h = absurd (omega arith)
char_at-copy_in (suc i) (c ∷ cs) (b ∷ bs) h = char_at-copy_in i cs bs (omega arith)

length-c_string :
    (i : ℕ) (buffer : List ℕ) → char_at i buffer ≡ some 0 → length (c_string buffer) ≤ i
unfolding c_string
length-c_string i [] h = omega arith
length-c_string zero (c ∷ cs) h = let zero_there : c ≡ 0 = cc in rw zero_there (omega arith)
length-c_string (suc i) (c ∷ cs) h = elim (Bool-cases (c == 0)) [
  | inl e ↦ rw e (omega arith)
  | inr e ↦ rw e (omega (arith, length-c_string i cs h))
]

copy_in_whole : (u buffer : List ℕ) → length u ≡ length buffer → copy_in u buffer ≡ u
unfolding copy_in
copy_in_whole [] [] h = refl
copy_in_whole [] (b ∷ bs) h = absurd (omega arith)
copy_in_whole (c ∷ cs) [] h = absurd (omega arith)
copy_in_whole (c ∷ cs) (b ∷ bs) h = ap (λ xs. c ∷ xs) (copy_in_whole cs bs (omega arith))

-- An argument that fits: a message of at most 129 characters, an address of at most 16.
abbrev pub IsShort : Arg → Type 0
IsShort (message value) = length value ≤ max_buf_len + 1
IsShort (ip value) = length value ≤ 16
IsShort _ = Unit {0}

-- Options that fit: the address ends within 16 characters.
record IsFit (o : Options) : Type 0 where
  message_short : length o.message_text ≤ max_buf_len + 1
  ip_ends : char_at 16 o.ip_addr ≡ some 0

abbrev GoesOnFit : Result Options → Type 0
GoesOnFit (returns code error printed) = Unit {0}
GoesOnFit (goes_on o) = IsFit o

fails-GoesOnFit : (printed : List ℕ) → GoesOnFit (fails printed)
fails-GoesOnFit printed = tt

parse-GoesOnFit :
    (app : List ℕ) (args : List Arg) (o : Options)
    → All IsShort args
    → IsFit o
    → GoesOnFit (parse app args o)
unfolding parse set_ip
parse-GoesOnFit app [] o h f = f
parse-GoesOnFit app (help ∷ args) o h f = tt
parse-GoesOnFit app (bad ∷ args) o h f = tt
parse-GoesOnFit app (message value ∷ args) o (short, h) f =
    parse-GoesOnFit app args (record o { message_text = value }) h
      (record { message_short = short; ip_ends = f.ip_ends })
parse-GoesOnFit app (client_count value ∷ args) o (_, h) f =
    set_count-Holds GoesOnFit fails-GoesOnFit value _ (λ z.
      parse-GoesOnFit app args (record o { worker_count = atoi value }) h
        (record { message_short = f.message_short; ip_ends = f.ip_ends }))
parse-GoesOnFit app (port value ∷ args) o (_, h) f =
    set_port-Holds GoesOnFit fails-GoesOnFit value _ (λ z.
      parse-GoesOnFit app args (record o { remote_port = atoi value }) h
        (record { message_short = f.message_short; ip_ends = f.ip_ends }))
parse-GoesOnFit app (ctrl value ∷ args) o (_, h) f =
    set_ctrl-Holds GoesOnFit fails-GoesOnFit value _ (
      parse-GoesOnFit app args (record o { ctrl_panel_port = atoi value }) h
        (record { message_short = f.message_short; ip_ends = f.ip_ends }))
parse-GoesOnFit app (ip value ∷ args) o (short, h) f = elim (Bool-cases (leb (length value) 256)) [
  | inr e ↦ rw e tt
  | inl e ↦ rw e (
      parse-GoesOnFit app args (record o { ip_addr = copy_in value o.ip_addr }) h
        (record {
          message_short = f.message_short;
          ip_ends = char_at-copy_in 16 value o.ip_addr short ∙ f.ip_ends;
        }))
]

fill_in_ip-IsFit : (o : Options) → IsFit o → IsFit (fill_in_ip (fill_in_port o))
unfolding fill_in_ip text
fill_in_ip-IsFit o f = elim (Bool-cases (has_no_ip o)) [
  | inl e ↦ rw e (record {
    message_short = f.message_short;
    ip_ends = char_at-copy_in 16 (text "127.0.0.1") o.ip_addr (omega arith) ∙ f.ip_ends;
  })
  | inr e ↦ rw e (record { message_short = f.message_short; ip_ends = f.ip_ends })
]

IsFit-Fits :
    (o : Options)
    → IsFit o
    → length o.ip_addr ≡ 256
    → Fits (copy_address (some o.ip_addr)) o.message_text
unfolding copy_address
IsFit-Fits o f long =
    let whole = copy_in_whole o.ip_addr (zeros 256) (long ∙ sym (length-zeros 256)) in
    (
      subst (λ b. length (c_string b) ≤ 16) (sym whole) (length-c_string 16 o.ip_addr f.ip_ends),
      f.message_short,
    )

exit_code_counted :
    (ps : Option (List (List ℕ))) (n : ℕ) → page_count ps ≡ some n → exit_code ps ≡ some 0
unfolding exit_code
exit_code_counted none n h = absurd (cc)
exit_code_counted (some ps) n h = refl

module _ (os : Os) (g : Garbage) (http : Http) where
  run_from_count :
      (x : ℤ) (text : List ℕ) (ctrl_panel_port : ℤ) (w : World Control)
      → at_most_zero x ≡ false
      → Fits w.st.ip_addr text
      → page_count (LoadRun.run os g http x text ctrl_panel_port w).0
        ≡ some (length (http ctrl_panel_port).0)
  run_from_count (pos n) text ctrl_panel_port w h fits =
      run_count os g http n text ctrl_panel_port w fits
  run_from_count (negsuc n) text ctrl_panel_port w h fits = absurd (cc)

  launch_exits :
      (o o' : Options) (w : World Control)
      → o ≡ o'
      → IsReady o'
      → IsFit o'
      → (launch os g http o w).0 ≡ some 0
  unfolding launch
  launch_exits o o' w same ready fit = exit_code_counted _ _ (
      run_from_count o.worker_count o.message_text o.ctrl_panel_port _
        (ap (λ x. at_most_zero x.worker_count) same ∙ ready.workers)
        (subst (λ x. Fits (copy_address (some x.ip_addr)) x.message_text) (sym same)
          (IsFit-Fits o' fit ready.ip_length)))

  after_parse_exits :
      (app : List ℕ) (r : Result Options)
      → StartsReady app r
      → GoesOnFit r
      → ((after_parse os g http r at_main).0 ≡ some 0)
        ⊎ ((after_parse os g http r at_main).0 ≡ some 1)
  unfolding after_parse
  after_parse_exits app (returns code error printed) (inl (zero_code, _, _)) fit =
      inl (ap (λ n. some n) zero_code)
  after_parse_exits app (returns code error printed) (inr (one_code, _)) fit =
      inr (ap (λ n. some n) one_code)
  after_parse_exits app (goes_on o) ready fit = inl (
      launch_exits (fill_in os o at_main).0 (fill_in_ip (fill_in_port o)) (fill_in os o at_main).1
        (fill_in_trace os o at_main).0 ready (fill_in_ip-IsFit o fit))

-- Whatever the requests to the control pages and the threads that can be created: with a command
-- line on which each message has at most 129 characters and each address at most 16, the program
-- runs over no buffer, and exits with 0 or 1, at the latest once its HTTP server has ended.
pub main_exits :
    (os : Os) (g : Garbage) (http : Http) (app : List ℕ) (args : List Arg)
    → All IsShort args
    → let code = (main os g http app args at_main).0 in (code ≡ some 0) ⊎ (code ≡ some 1)
unfolding main text
main_exits os g http app args short =
    after_parse_exits os g http app (parse app args defaults) (parse-defaults-StartsReady app args)
      (parse-GoesOnFit app args defaults short
        (record { message_short = hello_short; ip_ends = char_at-zeros 16 256 (omega arith) }))
  where
    hello_short : length (text "Hello World") ≤ max_buf_len + 1
    hello_short = omega arith
