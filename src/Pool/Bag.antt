-- ===== src/Pool/Bag.antt =====
-- The connections of a client pool (pool.hpp) as a bag of descriptors, which forgets at which nodes
-- they stand.
use mathlib.Core.Quot
use mathlib.Core.Quot.{Quot, Quot-set}
use mathlib.Core.List.{Permᴰ}
use mathlib.Core.List.Permᴰ
use native.Mathlib.Nat.{ℕ_set}
use epoll_server.Base.{
  ℕ, zero, suc, ◌<◌, ◌≡◌, refl, sym, ap, ◌∙◌, inl, inr, true, false, List, [], ◌∷◌, arith, ◌==◌,
  if◌then◌else◌, Bool-cases, length, total, numbers,
}
use epoll_server.Base.Int.{ℤ, is_zero}
use epoll_server.Pool.State.{ClientPool, sfd_of, get_active_count}
use epoll_server.Pool.Invariant.{Inv}
use epoll_server.Pool.History.{holds_sfd, Inv-active}

-- Descriptors up to their order.
abbrev pub Bag : Type 0
Bag = Quot (Permᴰ {A = ℤ})

length-Permᴰ : {xs ys : List ℤ} → Permᴰ xs ys → length xs ≡ length ys
length-Permᴰ Permᴰ.nil = refl
length-Permᴰ (Permᴰ.cons e p) = omega (arith, length-Permᴰ p)
length-Permᴰ (Permᴰ.swap e f) = refl
length-Permᴰ (Permᴰ.trans p q) = length-Permᴰ p ∙ length-Permᴰ q

pub size : Bag → ℕ
size = Quot.lift ℕ_set length (λ xs ys p. length-Permᴰ p)

unfoldable pub put : ℤ → Bag → Bag
put x = Quot.lift Quot-set (λ xs. Quot.mk (x ∷ xs)) (λ xs ys p. Quot.sound (Permᴰ.cons refl p))

-- The descriptors at the first n nodes; a node without one holds 0.
abbrev pub connections : (sfd_at : ℕ → ℤ) → (n : ℕ) → List ℤ
connections sfd_at zero = []
connections sfd_at (suc n) =
    let rest = connections sfd_at n in if is_zero (sfd_at n) then rest else sfd_at n ∷ rest

abbrev pub bag : ClientPool → Bag
bag p = Quot.mk (connections (sfd_of p) p.client_cap)

length-connections :
    (p : ClientPool) (n : ℕ) → length (connections (sfd_of p) n) ≡ total (holds_sfd p) n numbers
unfolding total
length-connections p zero = refl
length-connections p (suc n) = elim (Bool-cases (is_zero (sfd_of p n))) [
  | inl e ↦ rw e (omega (arith, length-connections p n))
  | inr e ↦ rw e (omega (arith, length-connections p n))
]

module _ (v v' : ℕ → ℤ) (i : ℕ) (same : (j : ℕ) → (j == i) ≡ false → v' j ≡ v j) where
  connections_below : (n : ℕ) → (n < suc i) → connections v' n ≡ connections v n
  connections_below zero lt = refl
  connections_below (suc n) lt = rw (same n (ground arith), connections_below n (omega arith)) refl

  -- A descriptor more, at a node that had none.
  pub connections_more :
      (n : ℕ)
      → i < n
      → is_zero (v i) ≡ true
      → is_zero (v' i) ≡ false
      → Permᴰ (connections v' n) (v' i ∷ connections v n)
  connections_more zero lt empty full = absurd (omega arith)
  connections_more (suc n) lt empty full = elim (Bool-cases (n == i)) [
    | inl e ↦
        let eq : n ≡ i = ground (arith, e) in
        let full' : is_zero (v' n) ≡ false = ap (λ m. is_zero (v' m)) eq ∙ full in
        let empty' : is_zero (v n) ≡ true = ap (λ m. is_zero (v m)) eq ∙ empty in
        rw (full', empty', connections_below n (omega (arith, eq)))
          (Permᴰ.cons (ap v' eq) (Permᴰ.refl (connections v n)))
    | inr e ↦
        let more = connections_more n (ground (arith, e)) empty full in
        elim (Bool-cases (is_zero (v n))) [
          | inl z ↦ rw (same n e, z) more
          | inr z ↦ rw (same n e, z) (Permᴰ.trans (Permᴰ.cons refl more) (Permᴰ.swap refl refl))
        ]
  ]

-- The bag's size, where the nodes without a descriptor are the free ones: the number of active
-- clients.
pub size-bag : (p : ClientPool) (free : List ℕ) → Inv p free → size (bag p) ≡ get_active_count p
unfolding size
size-bag p free inv = length-connections p p.client_cap ∙ sym (Inv-active p free inv)

-- A pool with a descriptor more, at a node that had none.
pub bag-put :
    (p p' : ClientPool) (i : ℕ)
    → p'.client_cap ≡ p.client_cap
    → ((j : ℕ) → (j == i) ≡ false → sfd_of p' j ≡ sfd_of p j)
    → i < p.client_cap
    → is_zero (sfd_of p i) ≡ true
    → is_zero (sfd_of p' i) ≡ false
    → bag p' ≡ put (sfd_of p' i) (bag p)
unfolding put
bag-put p p' i cap same lt empty full =
    ap (λ n. Quot.mk (connections (sfd_of p') n)) cap
    ∙ Quot.sound (connections_more (sfd_of p) (sfd_of p') i same p.client_cap lt empty full)
