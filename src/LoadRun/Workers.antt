-- ===== src/LoadRun/Workers.antt =====
-- The workers that test-client/run.cpp has started.
use epoll_server.Base.{
  ℕ, zero, suc, ◌+◌, ◌≡◌, refl, ap, inl, inr, true, ◌&&◌, some, List, [], ◌∷◌, ◌++◌, arith, leb,
  length, Bool-cases, if_some, subst,
}
use epoll_server.Base.Int.{ℤ, pos}
use epoll_server.Text.{zeros, copy_in}
use epoll_server.Work
use epoll_server.Work.{
  Work, Garbage, construct, fresh, max_buf_len, same_bytes, log_message_sent, log_message_received,
}
use epoll_server.LoadRun.{change_at, stop_all}

abbrev pub threads : List Work → List ℕ
threads [] = []
threads (w ∷ ws) = w.thread ∷ threads ws

-- A worker that was started with these arguments.
pub record IsStarted (ip_addr message : List ℕ) (port : ℤ) (i : ℕ) (w : Work) : Type 0 where
  pub runs : w.run ≡ true
  pub index_eq : w.log.index ≡ pos i
  pub port_eq : w.port ≡ port
  pub ip_eq : w.ip ≡ copy_in ip_addr (zeros 16)
  pub message_eq : w.message ≡ copy_in message (zeros (max_buf_len + 1))

-- Workers that were started in turn, from number i on.
abbrev pub AreStarted : (ip_addr message : List ℕ) → (port : ℤ) → (i : ℕ) → List Work → Type 0
AreStarted ip_addr message port i [] = Unit {0}
AreStarted ip_addr message port i (w ∷ ws) =
    IsStarted ip_addr message port i w × AreStarted ip_addr message port (suc i) ws

pub threads_append : (xs ys : List Work) → threads (xs ++ ys) ≡ threads xs ++ threads ys
threads_append [] ys = refl
threads_append (x ∷ xs) ys = ap (λ ts. x.thread ∷ ts) (threads_append xs ys)

pub threads-stop_all : (ws : List Work) → threads (stop_all ws) ≡ threads ws
unfolding stop_all Work.stop
threads-stop_all [] = refl
threads-stop_all (w ∷ ws) = ap (λ ts. w.thread ∷ ts) (threads-stop_all ws)

module _ (ip_addr message : List ℕ) (port : ℤ) where
  pub AreStarted-append :
      (i j : ℕ) (xs : List Work) (w : Work)
      → j ≡ i + length xs
      → AreStarted ip_addr message port i xs
      → IsStarted ip_addr message port j w
      → AreStarted ip_addr message port i (xs ++ w ∷ [])
  AreStarted-append i j [] w e h k =
      (subst (λ m. IsStarted ip_addr message port m w) (omega (arith, e)) k, tt)
  AreStarted-append i j (x ∷ xs) w e h k =
      (h.0, AreStarted-append (suc i) j xs w (omega (arith, e)) h.1 k)

  -- A change that keeps what the arguments said keeps the list.
  pub change_at-AreStarted :
      (f : Work → Work)
      → ((i : ℕ) (w : Work)
          → IsStarted ip_addr message port i w
          → IsStarted ip_addr message port i (f w))
      → (i at : ℕ) (ws : List Work) → AreStarted ip_addr message port i ws
      → AreStarted ip_addr message port i (change_at f at ws)
  unfolding change_at
  change_at-AreStarted f keeps i at [] h = tt
  change_at-AreStarted f keeps i zero (w ∷ ws) h = (keeps i w h.0, h.1)
  change_at-AreStarted f keeps i (suc at) (w ∷ ws) h =
      (h.0, change_at-AreStarted f keeps (suc i) at ws h.1)

  pub message_sent-IsStarted :
      (i : ℕ) (w : Work)
      → IsStarted ip_addr message port i w
      → IsStarted ip_addr message port i (log_message_sent max_buf_len w)
  unfolding log_message_sent
  message_sent-IsStarted i w h = record {
    runs = h.runs;
    index_eq = h.index_eq;
    port_eq = h.port_eq;
    ip_eq = h.ip_eq;
    message_eq = h.message_eq;
  }

  pub message_received-IsStarted :
      (bytes : List ℕ) (i : ℕ) (w : Work)
      → IsStarted ip_addr message port i w
      → IsStarted ip_addr message port i (log_message_received bytes max_buf_len w)
  unfolding log_message_received
  message_received-IsStarted bytes i w h =
      elim (Bool-cases (same_bytes max_buf_len bytes w.message)) [
        | inl e ↦ rw e (record {
          runs = h.runs;
          index_eq = h.index_eq;
          port_eq = h.port_eq;
          ip_eq = h.ip_eq;
          message_eq = h.message_eq;
        })
        | inr e ↦ rw e (record {
          runs = h.runs;
          index_eq = h.index_eq;
          port_eq = h.port_eq;
          ip_eq = h.ip_eq;
          message_eq = h.message_eq;
        })
      ]

  -- A worker that was just made, given its thread and started.
  pub start-IsStarted :
      (g : Garbage) (i thread : ℕ) (w : Work)
      → construct g ip_addr port message (pos i) ≡ some w
      → IsStarted ip_addr message port i (Work.start (record w { thread = thread }))
  unfolding construct Work.start
  start-IsStarted g i thread w made =
      let (fits, eq) =
        if_some (leb (length ip_addr) 16 && leb (length message) (max_buf_len + 1))
          (fresh g ip_addr port message (pos i)) w made in
      subst (λ v. IsStarted ip_addr message port i (Work.start (record v { thread = thread }))) eq
        (record { runs = refl; index_eq = refl; port_eq = refl; ip_eq = refl; message_eq = refl })

-- The workers of a change by f are those threads again.
pub threads-change_at :
    (f : Work → Work)
    → ((w : Work) → (f w).thread ≡ w.thread)
    → (at : ℕ) (ws : List Work) → threads (change_at f at ws) ≡ threads ws
unfolding change_at
threads-change_at f keeps at [] = refl
threads-change_at f keeps zero (w ∷ ws) = ap (λ x. x ∷ threads ws) (keeps w)
threads-change_at f keeps (suc at) (w ∷ ws) =
    ap (λ ts. w.thread ∷ ts) (threads-change_at f keeps at ws)

pub length-change_at :
    (f : Work → Work) (at : ℕ) (ws : List Work) → length (change_at f at ws) ≡ length ws
unfolding change_at
length-change_at f at [] = refl
length-change_at f zero (w ∷ ws) = refl
length-change_at f (suc at) (w ∷ ws) = ap (λ n. suc n) (length-change_at f at ws)

pub thread-log_message_received :
    (bytes : List ℕ) (w : Work) → (log_message_received bytes max_buf_len w).thread ≡ w.thread
unfolding log_message_received
thread-log_message_received bytes w = elim (Bool-cases (same_bytes max_buf_len bytes w.message)) [
  | inl e ↦ rw e refl
  | inr e ↦ rw e refl
]
