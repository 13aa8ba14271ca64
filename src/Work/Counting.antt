-- ===== src/Work/Counting.antt =====
-- What the log of a worker of the load generator counts (test-client/work.cpp).
use epoll_server.Base.{
  ℕ, suc, ◌+◌, ◌*◌, ◌-◌, ◌%◌, ◌^◌, ◌≡◌, refl, ap, ◌∙◌, inl, inr, Bool, true, false, List, [], ◌∷◌,
  arith, ltb, leb, length, ◌&&◌, some, if◌then◌else◌, Bool-cases, if_some, subst,
}
use epoll_server.Base.Int.{ℤ, pos, negsuc}
use epoll_server.Mem.{size_t}
use epoll_server.Echo.{to_size}
use epoll_server.Text.{to_int}
use epoll_server.Work.{
  Garbage, construct, fresh, Work, max_buf_len, count_one, times, same_bytes, log_message_sent,
  log_message_received,
}

-- A whole message that a worker has sent, or what it received for one.
pub data Message : Type 0 where
  sent : Message
  received : (bytes : List ℕ) → Message

-- What the worker logs for it.
unfoldable pub log_message : Message → Work → Work
log_message sent w = log_message_sent max_buf_len w
log_message (received bytes) w = log_message_received bytes max_buf_len w

-- What the worker logs for messages in turn.
unfoldable pub log_messages : List Message → Work → Work
log_messages [] w = w
log_messages (m ∷ ms) w = log_messages ms (log_message m w)

abbrev pub sent_count : List Message → ℕ
sent_count [] = 0
sent_count (sent ∷ ms) = suc (sent_count ms)
sent_count (received bytes ∷ ms) = sent_count ms

-- How many of the messages are answers that agree with the text, or do not.
abbrev pub answer_count : (agree : Bool) → (text : List ℕ) → List Message → ℕ
answer_count agree text [] = 0
answer_count agree text (sent ∷ ms) = answer_count agree text ms
answer_count true text (received bytes ∷ ms) =
    if same_bytes max_buf_len bytes text
    then suc (answer_count true text ms)
    else answer_count true text ms
answer_count false text (received bytes ∷ ms) =
    if same_bytes max_buf_len bytes text
    then answer_count false text ms
    else suc (answer_count false text ms)

-- A log of so many sent, good and bad messages, in numbers that an `int` holds.
pub record IsCounted (sent good bad : ℕ) (w : Work) : Type 0 where
  pub sent_eq : w.log.sent ≡ to_int sent
  pub sent_bytes_eq : w.log.sent_bytes ≡ to_int (sent * max_buf_len)
  pub good_eq : w.log.recv_good ≡ to_int good
  pub good_bytes_eq : w.log.recv_good_bytes ≡ to_int (good * max_buf_len)
  pub bad_eq : w.log.recv_bad ≡ to_int bad
  pub bad_bytes_eq : w.log.recv_bad_bytes ≡ to_int (bad * max_buf_len)

to_int_cong : (a b : ℕ) → a % 2 ^ 32 ≡ b % 2 ^ 32 → to_int a ≡ to_int b
to_int_cong a b e = ap (λ m. if ltb m (2 ^ 31) then pos m else negsuc (2 ^ 32 - 1 - m)) e

to_size-to_int : (n : ℕ) → to_size (to_int n) % 2 ^ 32 ≡ n % 2 ^ 32
to_size-to_int n = elim (Bool-cases (ltb (n % 2 ^ 32) (2 ^ 31))) [
  | inl e ↦ rw e (omega arith)
  | inr e ↦ rw e (ground (arith, e))
]

count_one-to_int : (n : ℕ) → count_one (to_int n) ≡ to_int (suc n)
count_one-to_int n = to_int_cong (to_size (to_int n) + 1) (suc n) (omega (arith, to_size-to_int n))

times-to_int : (n : ℕ) → times (to_int n) max_buf_len ≡ to_int (n * max_buf_len)
times-to_int n =
    to_int_cong (size_t (to_size (to_int n) * max_buf_len)) (n * max_buf_len)
      (omega (arith, to_size-to_int n))

-- One more on a counter, and the bytes that follow from it.
counted_up :
    (x : ℤ) (n : ℕ)
    → x ≡ to_int n
    → (count_one x ≡ to_int (suc n))
      × (times (count_one x) max_buf_len ≡ to_int (suc n * max_buf_len))
counted_up x n e =
    let one : count_one x ≡ to_int (suc n) = rw e (count_one-to_int n) in
    (one, rw one (times-to_int (suc n)))

IsCounted-cong :
    {n n' good good' bad bad' : ℕ} {w : Work}
    → n ≡ n'
    → good ≡ good'
    → bad ≡ bad'
    → IsCounted n good bad w
    → IsCounted n' good' bad' w
IsCounted-cong e f h c = record {
  sent_eq = c.sent_eq ∙ ap (λ x. to_int x) e;
  sent_bytes_eq = c.sent_bytes_eq ∙ ap (λ x. to_int (x * max_buf_len)) e;
  good_eq = c.good_eq ∙ ap (λ x. to_int x) f;
  good_bytes_eq = c.good_bytes_eq ∙ ap (λ x. to_int (x * max_buf_len)) f;
  bad_eq = c.bad_eq ∙ ap (λ x. to_int x) h;
  bad_bytes_eq = c.bad_bytes_eq ∙ ap (λ x. to_int (x * max_buf_len)) h;
}

log_messages-IsCounted :
    (ms : List Message) (n good bad : ℕ) (w : Work)
    → IsCounted n good bad w
    → IsCounted
        (sent_count ms + n)
        (answer_count true w.message ms + good)
        (answer_count false w.message ms + bad)
        (log_messages ms w)
unfolding log_messages log_message log_message_sent log_message_received
log_messages-IsCounted [] n good bad w c =
    IsCounted-cong (omega arith) (omega arith) (omega arith) c
log_messages-IsCounted (sent ∷ ms) n good bad w c =
    let up = counted_up w.log.sent n c.sent_eq in
    IsCounted-cong (omega arith) refl refl (
      log_messages-IsCounted ms (suc n) good bad (log_message sent w) (record {
        sent_eq = up.0;
        sent_bytes_eq = up.1;
        good_eq = c.good_eq;
        good_bytes_eq = c.good_bytes_eq;
        bad_eq = c.bad_eq;
        bad_bytes_eq = c.bad_bytes_eq;
      }))
log_messages-IsCounted (received bytes ∷ ms) n good bad w c =
    elim (Bool-cases (same_bytes max_buf_len bytes w.message)) [
      | inl e ↦
          let up = counted_up w.log.recv_good good c.good_eq in
          rw e (
            IsCounted-cong refl (omega arith) refl (
              log_messages-IsCounted ms n (suc good) bad _ (record {
                sent_eq = c.sent_eq;
                sent_bytes_eq = c.sent_bytes_eq;
                good_eq = up.0;
                good_bytes_eq = up.1;
                bad_eq = c.bad_eq;
                bad_bytes_eq = c.bad_bytes_eq;
              })))
      | inr e ↦
          let up = counted_up w.log.recv_bad bad c.bad_eq in
          rw e (
            IsCounted-cong refl refl (omega arith) (
              log_messages-IsCounted ms n good (suc bad) _ (record {
                sent_eq = c.sent_eq;
                sent_bytes_eq = c.sent_bytes_eq;
                good_eq = c.good_eq;
                good_bytes_eq = c.good_bytes_eq;
                bad_eq = up.0;
                bad_bytes_eq = up.1;
              })))
    ]

-- The constructor's log counts nothing.
construct-IsCounted :
    (g : Garbage) (ip_arg message_arg : List ℕ) (port index : ℤ) (w : Work)
    → construct g ip_arg port message_arg index ≡ some w
    → IsCounted 0 0 0 w
unfolding construct
construct-IsCounted g ip_arg message_arg port index w made =
    let (fits, eq) =
      if_some (leb (length ip_arg) 16 && leb (length message_arg) (max_buf_len + 1))
        (fresh g ip_arg port message_arg index) w made in
    subst (IsCounted 0 0 0) eq (record {
      sent_eq = refl;
      sent_bytes_eq = refl;
      good_eq = refl;
      good_bytes_eq = refl;
      bad_eq = refl;
      bad_bytes_eq = refl;
    })

-- A worker object that was just made, and any messages that were then sent and received whole: the
-- log counts the messages sent, the answers that agree with the object's message and those that do
-- not, and each number of bytes is 128 times its count; all of them wrap around as an `int` does.
pub log_messages-construct :
    (g : Garbage) (ip_arg message_arg : List ℕ) (port index : ℤ) (w : Work) (ms : List Message)
    → construct g ip_arg port message_arg index ≡ some w
    → IsCounted
        (sent_count ms)
        (answer_count true w.message ms)
        (answer_count false w.message ms)
        (log_messages ms w)
log_messages-construct g ip_arg message_arg port index w ms made =
    IsCounted-cong (omega arith) (omega arith) (omega arith) (
      log_messages-IsCounted ms 0 0 0 w
        (construct-IsCounted g ip_arg message_arg port index w made))
