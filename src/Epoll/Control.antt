-- ===== src/Epoll/Control.antt =====
-- The control event of epoll.hpp in a batch: the registration of the self-pipe is one-shot, and a
-- report disarms it.
use epoll_server.Base.{
  ◌≡◌, Bool, true, false, ◌||◌, inl, inr, List, [], ◌∷◌, arith, ◌==◌, Bool-cases, All,
}
use epoll_server.Os.{Event}
use epoll_server.Epoll.Interest.{
  Entry, disarm, disarm_all, has_entry, IsReport, has_entry-disarm, has_entry-disarm_self,
  has_entry-disarm_all, All-disarm,
}

-- Whether a batch has the control event.
abbrev pub has_control : List Event → Bool
has_control [] = false
has_control (ev ∷ evs) = (ev.userdata == 0) || has_control evs

-- The registration of the self-pipe is one-shot.
abbrev pub PipeOnce : Entry → Type 0
PipeOnce x = x.1 ≡ 0 → x.2 ≡ true

pub reported_control :
    (evs : List Event) (es : List Entry)
    → has_control evs ≡ true
    → IsReport es evs
    → has_entry 0 es ≡ true
reported_control [] es control report = cc
reported_control (ev ∷ evs) es control report = elim (Bool-cases (ev.userdata == 0)) [
  | inl here ↦ let zero_data : ev.userdata ≡ 0 = ground arith in rw zero_data at report.0
  | inr later ↦
      let rest = reported_control evs (disarm ev.userdata es) (rw later at control) report.1 in
      elim (Bool-cases (has_entry 0 es)) [
        | inl e ↦ e
        | inr e ↦ absurd (ground (arith, has_entry-disarm 0 ev.userdata es e, rest))
      ]
]

pub control_disarmed :
    (evs : List Event) (es : List Entry)
    → has_control evs ≡ true
    → All PipeOnce es
    → has_entry 0 (disarm_all evs es) ≡ false
control_disarmed [] es control once = cc
control_disarmed (ev ∷ evs) es control once = elim (Bool-cases (ev.userdata == 0)) [
  | inl here ↦
      let zero_data : ev.userdata ≡ 0 = ground arith in
      rw zero_data (has_entry-disarm_all 0 evs (disarm 0 es) (has_entry-disarm_self 0 es once))
  | inr later ↦
      control_disarmed evs (disarm ev.userdata es) (rw later at control)
        (All-disarm PipeOnce ev.userdata es once)
]
