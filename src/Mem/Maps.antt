-- ===== src/Mem/Maps.antt =====
-- What `genmap` and `delmap` (mem.hpp) do to descriptors and to address space.
use mathlib.Core.Path.{ap₂}
use epoll_server.Base.{ℕ, ◌+◌, ◌*◌, ◌^◌, ◌<◌, ◌≡◌, refl, ap, ◌∙◌, some, [], ◌∷◌, arith}
use epoll_server.Base.Int.{ℤ}
use epoll_server.Os.{Os, Call, Trace, World}
use epoll_server.Os.Descriptors.{open_fds, remove-cons}
use epoll_server.Mem.{size_t, round_up, genmap, delmap}

-- Bytes of address space that a history reserves, and that it gives back.
abbrev pub reserved_bytes : Trace → ℕ
reserved_bytes [] = 0
reserved_bytes ((Call.mmap_reserve size, r) ∷ t) = reserved_bytes t + size
reserved_bytes (_ ∷ t) = reserved_bytes t

abbrev pub unmapped_bytes : Trace → ℕ
unmapped_bytes [] = 0
unmapped_bytes ((Call.munmap addr size, r) ∷ t) = unmapped_bytes t + size
unmapped_bytes (_ ∷ t) = unmapped_bytes t

module _ {S : Type 0} (os : Os) (unitsize hint : ℕ) (w : World S) where
  -- On every path, errors included, `genmap` leaves the descriptors that were open before it: the
  -- file behind the map is closed.
  pub genmap-open_fds : open_fds (genmap os unitsize hint w).1.trace ≡ open_fds w.trace
  unfolding genmap
  genmap-open_fds =
      ground (arith, remove-cons (os.reply w.trace Call.memfd_create).ret (open_fds w.trace))

  genmap-made :
      {addr : ℤ}
      → (genmap os unitsize hint w).0.0 ≡ some addr
      → let (made, w') = genmap os unitsize hint w in
        (made.1 ≡ round_up os.pagesize hint)
        × (reserved_bytes w'.trace
            ≡ reserved_bytes w.trace + size_t (round_up os.pagesize hint * unitsize))
        × (unmapped_bytes w'.trace ≡ unmapped_bytes w.trace)
  unfolding genmap
  genmap-made made = ground arith

unmapped_bytes-delmap :
    {S : Type 0} (os : Os) (unitsize : ℕ) (addr : ℤ) (size : ℕ) (w : World S)
    → unmapped_bytes (delmap os unitsize addr size w).1.trace
      ≡ unmapped_bytes w.trace + size_t (size_t (size * 2) * unitsize)
unfolding delmap
unmapped_bytes-delmap os unitsize addr size w = refl

-- No product wraps where twice the bytes fit.
bytes_fit :
    (count unitsize : ℕ)
    → 0 < unitsize
    → count * unitsize * 2 < 2 ^ 64
    → (size_t (count * unitsize) ≡ count * unitsize)
      × (size_t (size_t (count * 2) * unitsize) ≡ 2 * (count * unitsize))
bytes_fit count unitsize pos fits = (omega arith, rw narrow (omega arith))
  where
    narrow : size_t (count * 2) ≡ count * 2
    narrow = grind arith

module _ {S : Type 0} (os : Os) (unitsize hint : ℕ) (w : World S) where
  -- A map that `genmap` made is given back by `delmap` with the unit count that `genmap` reported:
  -- where twice its bytes fit in a `size_t`, twice as many bytes are unmapped as were reserved.
  pub delmap-genmap :
      {addr : ℤ}
      → 0 < unitsize
      → round_up os.pagesize hint * unitsize * 2 < 2 ^ 64
      → (genmap os unitsize hint w).0.0 ≡ some addr
      → let (made, w') = genmap os unitsize hint w in
        let bytes : ℕ = round_up os.pagesize hint * unitsize in
        (reserved_bytes w'.trace ≡ reserved_bytes w.trace + bytes)
        × (unmapped_bytes (delmap os unitsize addr made.1 w').1.trace
            ≡ unmapped_bytes w.trace + 2 * bytes)
  delmap-genmap {addr} pos fits made =
      let (count, reserved, kept) = genmap-made os unitsize hint w made in
      let (whole, twice) = bytes_fit (round_up os.pagesize hint) unitsize pos fits in
      let (r, w') = genmap os unitsize hint w in
      (
        reserved ∙ ap (◌+◌ (reserved_bytes w.trace)) whole,
        unmapped_bytes-delmap os unitsize addr r.1 w' ∙ ap₂ ◌+◌ kept (rw count twice),
      )
