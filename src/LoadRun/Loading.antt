-- ===== src/LoadRun/Loading.antt =====
-- The threads that `load_workers` of test-client/run.cpp creates.
use epoll_server.Base.{
  ℕ, zero, suc, ◌+◌, ◌≤◌, ◌≡◌, sym, ap, ◌∙◌, inl, inr, Option, none, some, List, [], ◌∷◌, ◌++◌,
  arith, length, length-append, if◌then◌else◌, Bool-cases,
}
use mathlib.Core.List.{append_assoc}
use epoll_server.Base.Int.{pos, is_zero}
use epoll_server.Os.{Os, Call, Reply, Trace, World, M, when◌then◌else◌}
use epoll_server.Text.{c_string}
use epoll_server.Work
use epoll_server.Work.{Work, Garbage, construct}
use epoll_server.LoadPages.{Control}
use epoll_server.LoadRun.Workers.{
  threads, AreStarted, threads_append, AreStarted-append, start-IsStarted,
}
use epoll_server.LoadRun.{load_step, load_loop}

-- The threads that a history creates, in order.
abbrev pub created : Trace → List ℕ
created [] = []
created ((Call.thread_create, r) ∷ t) =
    if is_zero r.ret then created t ++ r.value ∷ [] else created t
created (_ ∷ t) = created t

-- The threads that it joins.
abbrev pub joined : Trace → List ℕ
joined [] = []
joined ((Call.thread_join thread, r) ∷ t) = joined t ++ thread ∷ []
joined (_ ∷ t) = joined t

-- The workers that were loaded so far, at most n, in a control that has not changed, over the
-- threads `base` that were created before, and with the threads `gone` joined.
pub record IsLoaded (c : Control) (message base gone : List ℕ) (ws : List Work) (w : World Control)
    : Type 0 where
  pub created_eq : created w.trace ≡ base ++ threads ws
  pub joined_eq : joined w.trace ≡ gone
  pub are_started : AreStarted (c_string c.ip_addr) message c.remote_port 0 ws
  pub control_eq : w.st ≡ c

-- What holds where the loop ends.
abbrev pub Ended :
    Control → (message base gone : List ℕ) → ℕ → Option (List Work) × World Control → Type 0
Ended c message base gone n (none, w) = Unit {0}
Ended c message base gone n (some ws, w) = IsLoaded c message base gone ws w × (length ws ≤ n)

module _ (os : Os) (g : Garbage) (c : Control) (message base gone : List ℕ) (n : ℕ) where
  load_step-Ended :
      (loaded : List Work) (left : ℕ) (again : List Work → M Control (Option (List Work)))
      (w : World Control)
      → length loaded + suc left ≤ n
      → IsLoaded c message base gone loaded w
      → ((more : List Work) (w' : World Control)
          → length more ≡ suc (length loaded)
          → IsLoaded c message base gone more w'
          → Ended c message base gone n (again more w'))
      → (o : Option Work)
      → construct g (c_string c.ip_addr) c.remote_port message (pos (length loaded)) ≡ o
      → Ended c message base gone n (load_step os g loaded o again w)
  unfolding load_step Work.start
  load_step-Ended loaded left again w room l next none made = tt
  load_step-Ended loaded left again w room l next (some v) made =
      elim (Bool-cases (is_zero r.ret)) [
        | inr e ↦ rw e (
          record {
            created_eq = rw e l.created_eq;
            joined_eq = l.joined_eq;
            are_started = l.are_started;
            control_eq = l.control_eq;
          },
          omega arith,
        )
        | inl e ↦ rw e (
            next (loaded ++ started_worker ∷ []) created_world
              (length-append loaded (started_worker ∷ []) ∙ omega arith)
              (record {
                created_eq = rw e (
                    ap (λ ts. ts ++ r.value ∷ []) l.created_eq
                    ∙ append_assoc base (threads loaded) (r.value ∷ [])
                    ∙ ap (λ ts. base ++ ts) (sym (threads_append loaded (started_worker ∷ []))));
                joined_eq = l.joined_eq;
                are_started =
                    AreStarted-append (c_string c.ip_addr) message c.remote_port 0 (length loaded)
                      loaded started_worker (omega arith) l.are_started
                      (start-IsStarted (c_string c.ip_addr) message c.remote_port g (length loaded)
                        r.value v made);
                control_eq = l.control_eq;
              }))
      ]
    where
      r : Reply
      r = os.reply w.trace Call.thread_create

      started_worker : Work
      started_worker = Work.start (record v { thread = r.value })

      created_world : World Control
      created_world = record w { trace = (Call.thread_create, r) ∷ w.trace }

  pub load_loop-Ended :
      (left : ℕ) (loaded : List Work) (i : ℕ) (w : World Control)
      → i ≡ length loaded
      → length loaded + left ≤ n
      → IsLoaded c message base gone loaded w
      → Ended c message base gone n
          (load_loop os g (c_string c.ip_addr) c.remote_port message left i loaded w)
  unfolding load_loop
  load_loop-Ended zero loaded i w at room l = (l, omega arith)
  load_loop-Ended (suc left) loaded i w at room l =
      load_step-Ended loaded left _ w room l
        (λ more w' e. load_loop-Ended left more (suc i) w' (omega arith) (omega arith))
        (construct g (c_string c.ip_addr) c.remote_port message (pos i))
        (ap (λ m. construct g (c_string c.ip_addr) c.remote_port message (pos m)) (sym at))
