-- ===== src/Pool/Serving/Pending.antt =====
-- The lists of Pool/Serving: events that are taken out, put in, and kept apart from what is armed.
use epoll_server.Base.{
  ℕ, zero, suc, ◌<◌, ◌≡◌, true, false, List, [], ◌∷◌, ◌++◌, arith, has, ◌==◌, All,
}
use epoll_server.Os.{Event}
use epoll_server.Epoll.Interest.{Entry, disarm, has_entry, IsReport, has_entry-disarm}
use epoll_server.Pool.Stopping.{IsApart, IsPending}
use epoll_server.Pool.Serving.{add_event, add_reported}

-- No client of the events is armed.
abbrev pub AreDisarmed : List Entry → List (ℕ × ℕ) → Type 0
AreDisarmed es = All (λ (ev : ℕ × ℕ). has_entry (suc ev.0) es ≡ false)

pub AreDisarmed-weaken :
    (es es' : List Entry) (ps : List (ℕ × ℕ))
    → ((u : ℕ) → has_entry u es ≡ false → has_entry u es' ≡ false)
    → AreDisarmed es ps
    → AreDisarmed es' ps
AreDisarmed-weaken es es' [] fewer h = tt
AreDisarmed-weaken es es' (p ∷ ps) fewer h =
    (fewer (suc p.0) h.0, AreDisarmed-weaken es es' ps fewer h.1)

IsApart-append-left : (cl : ℕ) (pre post : List (ℕ × ℕ)) → IsApart cl (pre ++ post) → IsApart cl pre
IsApart-append-left cl [] post h = tt
IsApart-append-left cl ((c, f) ∷ pre) post h = (h.0, IsApart-append-left cl pre post h.1)

-- Without the events in the middle.
IsApart-drop :
    (cl : ℕ) (pre gone post : List (ℕ × ℕ))
    → IsApart cl (pre ++ (gone ++ post))
    → IsApart cl (pre ++ post)
IsApart-drop cl [] [] post h = h
IsApart-drop cl [] ((c, f) ∷ gone) post h = IsApart-drop cl [] gone post h.1
IsApart-drop cl ((c, f) ∷ pre) gone post h = (h.0, IsApart-drop cl pre gone post h.1)

pub IsPending-drop :
    (cap : ℕ) (free : List ℕ) (pre gone post : List (ℕ × ℕ))
    → IsPending cap free (pre ++ (gone ++ post))
    → IsPending cap free (pre ++ post)
IsPending-drop cap free [] [] post h = h
IsPending-drop cap free [] ((c, f) ∷ gone) post h = IsPending-drop cap free [] gone post h.3
IsPending-drop cap free ((c, f) ∷ pre) gone post h =
    (h.0, h.1, IsApart-drop c pre gone post h.2, IsPending-drop cap free pre gone post h.3)

pub AreDisarmed-drop :
    (es : List Entry) (pre gone post : List (ℕ × ℕ))
    → AreDisarmed es (pre ++ (gone ++ post))
    → AreDisarmed es (pre ++ post)
AreDisarmed-drop es [] [] post h = h
AreDisarmed-drop es [] (g ∷ gone) post h = AreDisarmed-drop es [] gone post h.1
AreDisarmed-drop es (p ∷ pre) gone post h = (h.0, AreDisarmed-drop es pre gone post h.1)

IsApart-pick :
    (c : ℕ) (pre post : List (ℕ × ℕ)) (cl flags : ℕ)
    → IsApart c (pre ++ (cl, flags) ∷ post)
    → (c == cl) ≡ false
IsApart-pick c [] post cl flags h = h.0
IsApart-pick c (p ∷ pre) post cl flags h = IsApart-pick c pre post cl flags h.1

-- One of the events: its client is in use, and the others are of other clients.
pub IsPending-pick :
    (cap : ℕ) (free : List ℕ) (pre post : List (ℕ × ℕ)) (cl flags : ℕ)
    → IsPending cap free (pre ++ (cl, flags) ∷ post)
    → (cl < cap) × (has cl free ≡ false) × IsApart cl (pre ++ post)
IsPending-pick cap free [] post cl flags h = (h.0, h.1, h.2)
IsPending-pick cap free ((c, f) ∷ pre) post cl flags h =
    let (lt, used, apart) = IsPending-pick cap free pre post cl flags h.3 in
    (lt, used, (ground (arith, IsApart-pick c pre post cl flags h.2), apart))

-- With fewer free nodes.
pub IsPending-taken :
    (cap i : ℕ) (rest : List ℕ) (ps : List (ℕ × ℕ))
    → IsPending cap (i ∷ rest) ps
    → IsPending cap rest ps
IsPending-taken cap i rest [] h = tt
IsPending-taken cap i rest ((c, f) ∷ ps) h =
    (h.0, ground (arith, h.1), h.2, IsPending-taken cap i rest ps h.3)

-- User data of which one is armed and one is not.
armed_apart :
    (es : List Entry) (u v : ℕ) → has_entry u es ≡ true → has_entry v es ≡ false → (v == u) ≡ false
armed_apart es u v yes_armed not_armed = ground arith

IsApart-add_event :
    (cl u events : ℕ) (ps : List (ℕ × ℕ))
    → (suc cl == u) ≡ false
    → IsApart cl ps
    → IsApart cl (add_event u events ps)
IsApart-add_event cl zero events ps other apart = apart
IsApart-add_event cl (suc c) events ps other apart = (ground arith, apart)

-- A client that is not armed has no event in the batch.
pub IsApart-add_reported :
    (es : List Entry) (cl : ℕ) (evs : List Event) (ps : List (ℕ × ℕ))
    → has_entry (suc cl) es ≡ false
    → IsReport es evs
    → IsApart cl ps
    → IsApart cl (add_reported evs ps)
IsApart-add_reported es cl [] ps not_armed report apart = apart
IsApart-add_reported es cl (ev ∷ evs) ps not_armed report apart =
    IsApart-add_event cl ev.userdata ev.events (add_reported evs ps)
      (armed_apart es ev.userdata (suc cl) report.0 not_armed)
      (IsApart-add_reported (disarm ev.userdata es) cl evs ps
        (has_entry-disarm (suc cl) ev.userdata es not_armed) report.1 apart)
