-- ===== src/Epoll/Shutdown/Invariant.antt =====
-- What the shutdown chain of epoll.hpp keeps: one byte or one thread carries the signal.
use epoll_server.Base.{
  ℕ, ◌+◌, ◌-◌, ◌^◌, ◌≤◌, ◌<◌, ◌≡◌, refl, true, false, arith, update, ◌==◌, if◌then◌else◌, total,
  total-update, total_const, total_zero, total_mono, total-le, le-total,
}
use epoll_server.Epoll.Shutdown.{
  Worker, waiting, woken, drained, rearmed, passing, exited, broken, Group, Step, call_close,
  deliver, drain, rearm, pass_on, leave_last, write, fail, Run, start, and_then, started,
  decremented,
}

-- The thread has read the byte and has not passed it on.
abbrev pub carries : Worker → ℕ
carries drained = 1
carries rearmed = 1
carries passing = 1
carries _ = 0

-- The thread is still counted by `runningInstances`.
abbrev pub counted : Worker → ℕ
counted passing = 0
counted exited = 0
counted _ = 1

abbrev pub is_woken : Worker → ℕ
is_woken woken = 1
is_woken _ = 0

-- The thread was woken and has not armed the self-pipe again.
abbrev pub disarms : Worker → ℕ
disarms woken = 1
disarms drained = 1
disarms _ = 0

pub record Inv (n : ℕ) (g : Group) : Type 0 where
  pub some_thread : 0 < n
  pub few : n < 2 ^ 64
  pub before : g.called ≡ false → g.running ≡ n
  pub signal :
      g.bytes + total carries n g.at ≡ (if g.called then (if g.running == 0 then 0 else 1) else 0)
  pub running : g.running ≡ total counted n g.at
  pub disarmed : total disarms n g.at ≡ (if g.armed then 0 else 1)
  pub ready : total is_woken n g.at ≤ g.bytes

pub started-Inv : (n : ℕ) → 0 < n → n < 2 ^ 64 → Inv n (started n)
started-Inv n some_thread few = record {
  some_thread = some_thread;
  few = few;
  before = λ _. refl;
  signal = omega (arith, total_zero carries n (λ _. waiting) (λ t lt. refl));
  running = omega (arith, total_const counted 1 n (λ _. waiting) (λ t. refl));
  disarmed = total_zero disarms n (λ _. waiting) (λ t lt. refl);
  ready = omega (arith, total_zero is_woken n (λ _. waiting) (λ t lt. refl));
}

woken-le-disarms : (n : ℕ) (at : ℕ → Worker) → total is_woken n at ≤ total disarms n at
woken-le-disarms n at = total_mono is_woken disarms n at (λ p. ground arith)

counted-le : (n : ℕ) (at : ℕ → Worker) → total counted n at ≤ n
counted-le n at = total-le counted n at (λ p. ground arith)

module _ {n : ℕ} {g : Group} (inv : Inv n g) (t : ℕ) (lt : t < n) where
  open inv use {some_thread, few, before, signal, running, disarmed, ready}

  -- How the four sums change when thread `t` goes to `p`.
  record Sums (q p : Worker) : Type 0 where
    stands : g.at t ≡ q
    carrying : carries q + total carries n (update g.at t p) ≡ carries p + total carries n g.at
    counting : counted q + total counted n (update g.at t p) ≡ counted p + total counted n g.at
    waking : is_woken q + total is_woken n (update g.at t p) ≡ is_woken p + total is_woken n g.at
    disarming : disarms q + total disarms n (update g.at t p) ≡ disarms p + total disarms n g.at
    in_carries : carries q ≤ total carries n g.at
    in_counted : counted q ≤ total counted n g.at
    in_woken : is_woken q ≤ total is_woken n g.at
    in_disarms : disarms q ≤ total disarms n g.at

  sums : {q : Worker} (p : Worker) → g.at t ≡ q → Sums q p
  sums p e = record {
    stands = e;
    carrying = ground (arith, total-update carries n t g.at p lt);
    counting = ground (arith, total-update counted n t g.at p lt);
    waking = ground (arith, total-update is_woken n t g.at p lt);
    disarming = ground (arith, total-update disarms n t g.at p lt);
    in_carries = ground (arith, le-total carries n t g.at lt);
    in_counted = ground (arith, le-total counted n t g.at lt);
    in_woken = ground (arith, le-total is_woken n t g.at lt);
    in_disarms = ground (arith, le-total disarms n t g.at lt);
  }

  deliver-Inv :
      Sums waiting woken
      → g.armed ≡ true
      → 0 < g.bytes
      → Inv n (record g { armed = false; at = update g.at t woken })
  deliver-Inv f a b = ground (arith, woken-le-disarms n g.at)

  drain-Inv :
      Sums woken drained
      → 0 < g.bytes
      → Inv n (record g { bytes = g.bytes - 1; at = update g.at t drained })
  drain-Inv f b = ground arith

  rearm-Inv : Sums drained rearmed → Inv n (record g { armed = true; at = update g.at t rearmed })
  rearm-Inv f = ground arith

  pass_on-Inv :
      Sums rearmed passing
      → 0 < decremented g.running
      → Inv n (record g { running = decremented g.running; at = update g.at t passing })
  pass_on-Inv f b = ground (arith, counted-le n g.at)

  leave_last-Inv :
      Sums rearmed exited
      → decremented g.running ≡ 0
      → Inv n (record g { running = decremented g.running; at = update g.at t exited })
  leave_last-Inv f b = ground (arith, counted-le n g.at)

  write-Inv :
      Sums passing exited → Inv n (record g { bytes = g.bytes + 1; at = update g.at t exited })
  write-Inv f = ground arith

  fail-Inv : Sums waiting broken → Inv n (record g { at = update g.at t broken })
  fail-Inv f = ground arith

call_close-Inv :
    {n : ℕ} {g : Group}
    → Inv n g
    → g.called ≡ false
    → Inv n (record g { bytes = g.bytes + 1; called = true })
call_close-Inv inv e = ground arith

-- Every step of any thread, a failure of `epoll_wait` included, keeps the invariant.
pub Step-Inv : {n : ℕ} {g g' : Group} → Inv n g → Step n g g' → Inv n g'
Step-Inv inv (call_close e) = call_close-Inv inv e
Step-Inv inv (deliver t lt e a b) = deliver-Inv inv t lt (sums inv t lt woken e) a b
Step-Inv inv (drain t lt e b) = drain-Inv inv t lt (sums inv t lt drained e) b
Step-Inv inv (rearm t lt e) = rearm-Inv inv t lt (sums inv t lt rearmed e)
Step-Inv inv (pass_on t lt e b) = pass_on-Inv inv t lt (sums inv t lt passing e) b
Step-Inv inv (leave_last t lt e b) = leave_last-Inv inv t lt (sums inv t lt exited e) b
Step-Inv inv (write t lt e) = write-Inv inv t lt (sums inv t lt exited e)
Step-Inv inv (fail t lt e) = fail-Inv inv t lt (sums inv t lt broken e)

pub Run-Inv : {n : ℕ} {g : Group} {k : ℕ} {g' : Group} → Inv n g → Run n g k g' → Inv n g'
Run-Inv inv start = inv
Run-Inv inv (and_then r st) = Step-Inv (Run-Inv inv r) st
