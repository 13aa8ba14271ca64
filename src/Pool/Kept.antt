-- ===== src/Pool/Kept.antt =====
-- What the handling of an event does to the state of a `client_pool` (pool.hpp): nothing, or one
-- release of its client.
use epoll_server.Base.{ℕ, ◌≡◌, refl, ap, ◌∙◌, ◌⊎◌, inl, inr, List, ◌∷◌}
use epoll_server.Os.{Os, Trace, World}
use epoll_server.Epoll.{remove}
use epoll_server.Endpoint.{endpoint_close}
use epoll_server.Pool.State.{ClientPool, put_back, unuse}
use epoll_server.Pool.Handlers.{Callbacks}
use epoll_server.Pool.Process.{process}
use epoll_server.Pool.Handling.{Rules, process-Obeys}
use epoll_server.Pool.Invariant.{Inv, InUse, put_back-Inv}

-- The state after a step is the one before it, or the one with the client released.
abbrev pub IsKept : ℕ → ClientPool → ClientPool → Type 0
IsKept cl p p' = (p' ≡ p) ⊎ (p' ≡ put_back cl p)

module _ (os : Os) (h : Callbacks) (cl : ℕ) where
  IsKept-Rules : (p : ClientPool) → Rules os h cl p (λ t w'. IsKept cl p w'.st)
  unfolding unuse remove endpoint_close
  IsKept-Rules p = record {
    stays = λ t. inl refl;
    releases = λ t. inr refl;
    rearms = λ t. inl refl;
    reads_none = λ r t w' none kept. kept;
    takes_input = λ r t w' more some kept. kept;
    reads_oob = λ r t w' kept. kept;
    asks_mark = λ r t w' kept. kept;
    writes = λ t w' kept. kept;
  }

  pub process-Keeps :
      (fuel flags : ℕ) (p : ClientPool) (t : Trace)
      → IsKept cl p (process os h fuel cl flags (record { st = p; trace = t })).1.st
  process-Keeps fuel flags p t =
      process-Obeys os h cl p (λ t w'. IsKept cl p w'.st) (IsKept-Rules p) fuel flags t

  -- Whatever the event mask, the callbacks, the kernel's answers and the fuel: the handling of an
  -- event of a client in use keeps the pool's invariant, with the client still in use or with its
  -- node on top of the stack.
  pub process-Inv :
      (fuel flags : ℕ) (free : List ℕ) (w : World ClientPool)
      → Inv w.st free
      → InUse w.st free cl
      → let w' = (process os h fuel cl flags w).1 in
        (Inv w'.st free × InUse w'.st free cl) ⊎ Inv w'.st (cl ∷ free)
  process-Inv fuel flags free w inv used = elim (process-Keeps fuel flags w.st w.trace) [
    | inl e ↦ inl (rw e (inv, used))
    | inr e ↦ inr (rw e (put_back-Inv inv cl used))
  ]

  put_back-shape :
      (p : ClientPool)
      → ((put_back cl p).client_cap ≡ p.client_cap) × ((put_back cl p).threads ≡ p.threads)
  unfolding put_back
  put_back-shape p = (refl, refl)

  pub process-client_cap :
      (fuel flags : ℕ) (w : World ClientPool)
      → (process os h fuel cl flags w).1.st.client_cap ≡ w.st.client_cap
  process-client_cap fuel flags w = elim (process-Keeps fuel flags w.st w.trace) [
    | inl e ↦ ap (λ p. p.client_cap) e
    | inr e ↦ ap (λ p. p.client_cap) e ∙ (put_back-shape w.st).0
  ]
