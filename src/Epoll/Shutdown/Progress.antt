-- ===== src/Epoll/Shutdown/Progress.antt =====
-- The shutdown chain of epoll.hpp gets through: where no thread can go on, every thread has ended.
use native.Mathlib.Decide.{dec_lt}
use epoll_server.Base.{
  ℕ, ◌+◌, ◌^◌, ◌≤◌, ◌<◌, ◌≡◌, refl, inl, inr, true, arith, ◌==◌, if◌then◌else◌, total, total_zero,
  total_congr, find_positive, le-total, Bool-cases,
}
use epoll_server.Epoll.Shutdown.{
  Worker, waiting, woken, drained, rearmed, passing, exited, broken, Group, Step, deliver, drain,
  rearm, pass_on, leave_last, write, fail, Run, started, decremented,
}
use epoll_server.Epoll.Shutdown.Invariant.{
  Inv, carries, counted, is_woken, disarms, Run-Inv, started-Inv,
}

-- The thread has left its loop.
abbrev pub IsOut : Worker → Type 0
IsOut exited = Unit {0}
IsOut broken = Unit {0}
IsOut _ = ⊥

-- A step that is not a failure of `epoll_wait`.
abbrev pub IsProper : {n : ℕ} {g g' : Group} → Step n g g' → Type 0
IsProper (fail _ _ _) = ⊥
IsProper _ = Unit {0}

abbrev pub CanGoOn : ℕ → Group → Type 0
CanGoOn n g = (g' : Group) × (st : Step n g g') × IsProper st

module _ {n : ℕ} {g : Group} (inv : Inv n g) where
  open inv use {signal, running, disarmed, ready}

  -- A thread that is neither waiting nor out can go on.
  goes_on : (t : ℕ) (p : Worker) → t < n → g.at t ≡ p → 0 < carries p + disarms p → CanGoOn n g
  goes_on t woken lt e h = (_, drain t lt e (ground (arith, le-total is_woken n t g.at lt)), tt)
  goes_on t drained lt e h = (_, rearm t lt e, tt)
  goes_on t rearmed lt e h = elim (dec_lt 0 (decremented g.running)) [
    | yes more ↦ (_, pass_on t lt e more, tt)
    | no last ↦ (_, leave_last t lt e (omega arith), tt)
  ]
  goes_on t passing lt e h = (_, write t lt e, tt)
  goes_on t waiting lt e h = absurd (omega arith)
  goes_on t exited lt e h = absurd (omega arith)
  goes_on t broken lt e h = absurd (omega arith)

  goes_on_some :
      (w : Worker → ℕ)
      → ((p : Worker) → w p ≤ carries p + disarms p)
      → 0 < total w n g.at
      → CanGoOn n g
  goes_on_some w within pos =
      let (t, lt, h) = find_positive w n g.at pos in
      goes_on t (g.at t) lt refl (omega (arith, within (g.at t)))

  waiting_goes_on : (t : ℕ) → t < n → g.at t ≡ waiting → g.called ≡ true → CanGoOn n g
  waiting_goes_on t lt e called = elim (dec_lt 0 (total carries n g.at)) [
    | yes carried ↦ goes_on_some carries (λ p. omega arith) carried
    | no none_carries ↦ elim (Bool-cases g.armed) [
      | inl armed ↦ (_, deliver t lt e armed (ground (arith, le-total counted n t g.at lt)), tt)
      | inr off ↦ goes_on_some disarms (λ p. omega arith) (ground arith)
    ]
  ]

  stuck-IsOut_at :
      (t : ℕ) (p : Worker) → t < n → g.at t ≡ p → g.called ≡ true → ¬ CanGoOn n g → IsOut p
  stuck-IsOut_at t waiting lt e called stuck = stuck (waiting_goes_on t lt e called)
  stuck-IsOut_at t woken lt e called stuck = stuck (goes_on t woken lt e (omega arith))
  stuck-IsOut_at t drained lt e called stuck = stuck (goes_on t drained lt e (omega arith))
  stuck-IsOut_at t rearmed lt e called stuck = stuck (goes_on t rearmed lt e (omega arith))
  stuck-IsOut_at t passing lt e called stuck = stuck (goes_on t passing lt e (omega arith))
  stuck-IsOut_at t exited lt e called stuck = tt
  stuck-IsOut_at t broken lt e called stuck = tt

-- The chain wakes every thread. Of n threads, at least one and fewer than 2^64: once `close` was
-- called, a state from which no thread can go on is one in which all n threads have left their
-- loops.
pub stuck-IsOut :
    {n k : ℕ} {g : Group}
    → 0 < n
    → n < 2 ^ 64
    → Run n (started n) k g
    → g.called ≡ true
    → ¬ CanGoOn n g
    → (t : ℕ) → t < n
    → IsOut (g.at t)
stuck-IsOut {g} pos few r called stuck t lt =
    stuck-IsOut_at (Run-Inv (started-Inv _ pos few) r) t (g.at t) lt refl called stuck

abbrev pub is_broken : Worker → ℕ
is_broken broken = 1
is_broken _ = 0

IsOut-parts : (p : Worker) → IsOut p → (carries p ≡ 0) × (disarms p ≡ 0) × (counted p ≡ is_broken p)
IsOut-parts exited h = (refl, refl, refl)
IsOut-parts broken h = (refl, refl, refl)
IsOut-parts waiting h = absurd h
IsOut-parts woken h = absurd h
IsOut-parts drained h = absurd h
IsOut-parts rearmed h = absurd h
IsOut-parts passing h = absurd h

-- What the last thread leaves behind, of at least one and fewer than 2^64 threads, once `close` was
-- called and all have left their loops. `runningInstances` ends at the number of threads whose
-- `epoll_wait` failed. If there is none, the self-pipe is empty and armed, as at the start; if
-- there is one, a byte that no thread will read stays in it.
pub out_state :
    {n k : ℕ} {g : Group}
    → 0 < n
    → n < 2 ^ 64
    → Run n (started n) k g
    → g.called ≡ true
    → ((t : ℕ) → t < n → IsOut (g.at t))
    → (g.running ≡ total is_broken n g.at)
      × (g.bytes ≡ (if total is_broken n g.at == 0 then 0 else 1))
      × (g.armed ≡ true)
out_state {n} {g} pos few r called out =
    let inv = Run-Inv (started-Inv n pos few) r in
    let out_carries = total_zero carries n g.at (λ t lt. (IsOut-parts (g.at t) (out t lt)).0) in
    let out_disarms = total_zero disarms n g.at (λ t lt. (IsOut-parts (g.at t) (out t lt)).1) in
    let out_counted =
      total_congr counted is_broken n g.at (λ t lt. (IsOut-parts (g.at t) (out t lt)).2) in
    (
      omega (arith, inv.running, out_counted),
      ground (arith, inv.signal, inv.running, out_carries, out_counted),
      ground (arith, inv.disarmed, out_disarms),
    )
