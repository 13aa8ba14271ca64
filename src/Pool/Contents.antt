-- ===== src/Pool/Contents.antt =====
-- What a client pool promises its server (pool.hpp): a bag of connections with a capacity.
use epoll_server.Base.{
  ℕ, ◌<◌, ◌≡◌, refl, sym, ap, ◌∙◌, subst, inl, inr, true, false, List, [], ◌∷◌, arith, ◌==◌, update,
  if◌then◌else◌,
}
use epoll_server.Base.Int.{ℤ, is_zero}
use epoll_server.Os.{Os, World}
use epoll_server.Pool.State.{
  ClientPool, Client, no_client, sfd_of, get_active_count, take_out, put_back, add_client, add_used,
}
use epoll_server.Epoll
use epoll_server.Pool.Handlers.{Callbacks}
use epoll_server.Pool.Invariant.{Inv}
use epoll_server.Pool.Clients.{add_client_full, use_client-some}
use epoll_server.Pool.Kept.{process-Keeps}
use epoll_server.Pool.History.{Step, added, handled}
use epoll_server.Pool.Bag.{Bag, size, put, bag, size-bag, bag-put}

-- What the bag sees of a step: a connection arrives, or an event is reported of one.
pub data Label : Type 0 where
  arrived : (sfd : ℤ) → Label
  reported : (sfd : ℤ) → Label

abbrev pub label : {os : Os} {h : Callbacks} {w w' : World ClientPool} → Step os h w w' → Label
label (added sfd _) = arrived sfd
label {w = w} (handled fuel cl flags _ _) = reported (sfd_of w.st cl)

-- The bag's steps: a connection is refused where the bag is full, and only there; the connection of
-- an event is kept or leaves.
pub data BagStep (cap : ℕ) : Label → Bag → Bag → Type 0 where
  refused : {sfd : ℤ} {b : Bag} → size b ≡ cap → BagStep cap (arrived sfd) b b
  joined : {sfd : ℤ} {b b' : Bag} → size b < cap → b' ≡ put sfd b → BagStep cap (arrived sfd) b b'
  kept : {sfd : ℤ} {b : Bag} → BagStep cap (reported sfd) b b
  gone : {sfd : ℤ} {b b' : Bag} → b ≡ put sfd b' → BagStep cap (reported sfd) b b'

update_other :
    (value : ℕ → Client) (i j : ℕ) (c : Client)
    → (j == i) ≡ false
    → (update value i c j).sfd ≡ (value j).sfd
update_other value i j c e =
    let apart : (i == j) ≡ false = ground (arith, e) in
    ap (λ b. (if b then c else value j).sfd) apart

update_at : (value : ℕ → Client) (i : ℕ) (c : Client) → update value i c i ≡ c
update_at value i c =
    let here : (i == i) ≡ true = ground arith in ap (λ b. if b then c else value i) here

module _ (os : Os) (w : World ClientPool) where
  add_client_st :
      (sfd : ℤ) (i : ℕ) (rest : List ℕ)
      → Inv w.st (i ∷ rest)
      → (add_client os sfd w).1.st
        ≡ take_out i sfd (record w.st.free_mem { head = w.st.free_mem.next i }) w.st
  unfolding add_client add_used Epoll.add_client
  add_client_st sfd i rest inv = rw (use_client-some w sfd i rest inv) refl

  add_client-BagStep :
      (sfd : ℤ) (free : List ℕ)
      → is_zero sfd ≡ false
      → Inv w.st free
      → BagStep w.st.client_cap (arrived sfd) (bag w.st) (bag (add_client os sfd w).1.st)
  unfolding take_out get_active_count
  add_client-BagStep sfd [] nonzero inv =
      rw (add_client_full os w sfd inv)
        (refused (size-bag w.st [] inv ∙ omega (arith, inv.counted)))
  add_client-BagStep sfd (i ∷ rest) nonzero inv = rw (add_client_st sfd i rest inv) (
      joined (omega (arith, inv.counted, size-bag w.st (i ∷ rest) inv)) (
        subst (λ x. bag taken ≡ put x (bag w.st)) at_i
          (bag-put w.st taken i refl other (inv.in_buffer i (ground arith))
            (inv.no_sfd i (inv.in_buffer i (ground arith)) ∙ ground arith)
            (ap is_zero at_i ∙ nonzero))))
    where
      taken : ClientPool
      taken = take_out i sfd (record w.st.free_mem { head = w.st.free_mem.next i }) w.st

      at_i : sfd_of taken i ≡ sfd
      at_i = ground arith

      other : (j : ℕ) → (j == i) ≡ false → sfd_of taken j ≡ sfd_of w.st j
      other j e = update_other w.st.free_mem.value i j (record { sfd = sfd }) e

module _ (os : Os) (h : Callbacks) (w : World ClientPool) where
  put_back-BagStep :
      (cl : ℕ)
      → cl < w.st.client_cap
      → is_zero (sfd_of w.st cl) ≡ false
      → BagStep w.st.client_cap (reported (sfd_of w.st cl)) (bag w.st) (bag (put_back cl w.st))
  unfolding put_back
  put_back-BagStep cl lt nonzero = gone (
      bag-put (put_back cl w.st) w.st cl refl
        (λ j e. sym (update_other w.st.free_mem.value cl j no_client e)) lt
        (ap (λ c. is_zero c.sfd) (update_at w.st.free_mem.value cl no_client)) nonzero)

  -- Each step of a pool with the invariant is a step of the bag of its connections, as their order
  -- at the nodes is forgotten: a connection that arrives joins the bag, unless it is full, and then
  -- nothing changes; an event changes nothing, or its connection leaves the bag.
  pub Step-BagStep :
      (w' : World ClientPool) (free : List ℕ)
      → Inv w.st free
      → (s : Step os h w w') → BagStep w.st.client_cap (label s) (bag w.st) (bag w'.st)
  Step-BagStep w' free inv (added sfd nonzero) = add_client-BagStep os w sfd free nonzero inv
  Step-BagStep w' free inv (handled fuel cl flags lt nonzero) =
      elim (process-Keeps os h cl fuel flags w.st w.trace) [
        | inl e ↦ rw e kept
        | inr e ↦ rw e (put_back-BagStep cl lt nonzero)
      ]
